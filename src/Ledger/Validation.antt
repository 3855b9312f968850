-- ===== src/Ledger/Validation.antt =====
-- What `normalise` accepts (src/modules/ledger/ledger.service.ts).
use alke_finance_backend.Base.{
  throw_if_ok, ok_injective, ℕ, suc, ◌≤◌, ◌≡◌, ◌≢◌, refl, subst, ◌==◌, ap, sym, ◌∙◌, pos, arith,
  Bool, true, false, not, List, [], ◌∷◌, All, length, ltb, map, Text, Text-discrete, to_upper,
  same→eq, same_refl, eqb_ℤ, eqb_ℤ→eq, ok, >>=-eq-ok,
}
use mathlib.Core.Path.{ap₂}
use mathlib.Core.Bool.{false≢true}
use alke_finance_backend.Money.{Decimal, plus_all, round_money}
use alke_finance_backend.Ledger.Types.{LedgerEntryInput, PostTxnInput, LedgerKey, blank}
use alke_finance_backend.Ledger.Posting.{
  NormalisedEntry, amounts, normalise, normalise_entries, normalise_entry, same_currency, is_blank,
}

-- One entry of an accepted transaction.
pub record IsNormal (currency : Text) (e : NormalisedEntry) : Type 0 where
  pub rounded : round_money e.amount currency ≡ e.amount
  pub in_currency : e.ref.currency ≡ currency

abbrev pub as_input : NormalisedEntry → LedgerEntryInput
as_input e = record { account = e.ref; amount = e.amount }

pub record Accepted (input : PostTxnInput) (es : List NormalisedEntry) : Type 0 where
  pub keyed : input.idempotency_key ≢ blank
  pub upper : to_upper input.currency ≡ input.currency
  pub named : length input.currency ≢ 0
  pub normal : All (IsNormal input.currency) es
  pub several : 2 ≤ length es
  pub balanced : plus_all (pos 0) (amounts es) ≡ pos 0
  pub faithful : input.entries ≡ map as_input es

not-false : (b : Bool) → not b ≡ false → b ≡ true
not-false b h = ground arith

normalise_entry_sound :
    (c : Text) (e : LedgerEntryInput) {n : NormalisedEntry}
    → normalise_entry c e ≡ ok n
    → IsNormal c n × (as_input n ≡ e)
unfolding normalise_entry
normalise_entry_sound c e {n} h =
    ground (
      arith,
      eqb_ℤ→eq (round_money e.amount c) e.amount,
      same→eq Text-discrete e.account.currency c,
    )

normalise_entries_sound :
    (c : Text) (es : List LedgerEntryInput) {ns : List NormalisedEntry}
    → normalise_entries c es ≡ ok ns
    → All (IsNormal c) ns × (es ≡ map as_input ns)
unfolding normalise_entries
normalise_entries_sound c [] {ns} h =
    subst (λ x. All (IsNormal c) x × ([] ≡ map as_input x)) (ok_injective h) (tt, refl)
normalise_entries_sound c (e ∷ es) {ns} h =
    let (m, hm, h1) = >>=-eq-ok (normalise_entry c e) _ h in
    let (ms, hs, h2) = >>=-eq-ok (normalise_entries c es) _ h1 in
    let first = normalise_entry_sound c e hm in
    let rest = normalise_entries_sound c es hs in
    subst (λ x. All (IsNormal c) x × (e ∷ es ≡ map as_input x)) (ok_injective h2)
      ((first.0, rest.0), ap₂ ◌∷◌ (sym first.1) rest.1)

length-map-as_input : (es : List NormalisedEntry) → length (map as_input es) ≡ length es
length-map-as_input [] = refl
length-map-as_input (e ∷ es) = ap suc (length-map-as_input es)

is_blank_blank : (k : LedgerKey) → is_blank k ≡ false → k ≢ blank
is_blank_blank k h e = absurd (false≢true (sym h ∙ ap is_blank e))

not_blank : (k : LedgerKey) → k ≢ blank → is_blank k ≡ false
not_blank k h = ground arith

eq_false_ne : (n : ℕ) → (n == 0) ≡ false → n ≢ 0
eq_false_ne n h = ground arith

ne_eq_false : (n : ℕ) → n ≢ 0 → (n == 0) ≡ false
ne_eq_false n h = ground arith

ltb-false : (a b : ℕ) → ltb a b ≡ false → b ≤ a
ltb-false a b h = ground arith

le_ltb : (a b : ℕ) → b ≤ a → ltb a b ≡ false
le_ltb a b h = ground arith

eqb_ℤ_of_eq : (a b : Decimal) → a ≡ b → eqb_ℤ a b ≡ true
eqb_ℤ_of_eq a b h = ground arith

same_of_eq : (a b : Text) → a ≡ b → same_currency a b ≡ true
same_of_eq a b h = ap (same_currency a) (sym h) ∙ same_refl Text-discrete a

-- What `normalise` lets through has a key, a currency in capitals, at least two entries that are all
-- in the currency and whole numbers of its minor unit, that sum to zero, and that are the input's.
pub normalise_sound :
    (input : PostTxnInput) {es : List NormalisedEntry} → normalise input ≡ ok es → Accepted input es
unfolding normalise
normalise_sound input {es} h =
    let s1 = throw_if_ok (is_blank input.idempotency_key) _ _ h in
    let s2 = throw_if_ok (ltb (length input.entries) 2) _ _ s1.1 in
    let s3 = throw_if_ok (length (to_upper input.currency) == 0) _ _ s2.1 in
    let s4 = throw_if_ok (not (same_currency (to_upper input.currency) input.currency)) _ _ s3.1 in
    let up = same→eq Text-discrete _ _ (not-false _ s4.0) in
    let (ns, hn, s5) =
      >>=-eq-ok (normalise_entries (to_upper input.currency) input.entries) _ s4.1 in
    let s6 = throw_if_ok (not (eqb_ℤ (plus_all (pos 0) (amounts ns)) (pos 0))) _ _ s5 in
    let n = normalise_entries_sound (to_upper input.currency) input.entries hn in
    subst (Accepted input) (ok_injective s6.1) (record {
      keyed = is_blank_blank input.idempotency_key s1.0;
      upper = up;
      named = subst (λ c. length c ≢ 0) up (eq_false_ne _ s3.0);
      normal = subst (λ c. All (IsNormal c) ns) up n.0;
      several = subst (λ k. 2 ≤ k) (ap length n.1 ∙ length-map-as_input ns) (ltb-false _ 2 s2.0);
      balanced = eqb_ℤ→eq _ _ (not-false _ s6.0);
      faithful = n.1;
    })

normalise_entry_complete :
    (c : Text) (n : NormalisedEntry) → IsNormal c n → normalise_entry c (as_input n) ≡ ok n
unfolding normalise_entry
normalise_entry_complete c n h =
    rw (eqb_ℤ_of_eq _ _ h.rounded, same_of_eq n.ref.currency c h.in_currency) refl

normalise_entries_complete :
    (c : Text) (ns : List NormalisedEntry)
    → All (IsNormal c) ns
    → normalise_entries c (map as_input ns) ≡ ok ns
unfolding normalise_entries
normalise_entries_complete c [] h = refl
normalise_entries_complete c (n ∷ ns) h =
    rw (normalise_entry_complete c n h.0, normalise_entries_complete c ns h.1)

-- `normalise` lets through whatever has a key, a currency in capitals, and at least two entries that
-- are in the currency, whole numbers of its minor unit, and sum to zero.
pub normalise_complete :
    (input : PostTxnInput) (es : List NormalisedEntry) → Accepted input es → normalise input ≡ ok es
unfolding normalise
normalise_complete input es a =
    let u : to_upper input.currency ≡ input.currency = a.upper in
    let blank_no : is_blank input.idempotency_key ≡ false =
      not_blank input.idempotency_key a.keyed in
    let enough : ltb (length input.entries) 2 ≡ false =
      le_ltb _ 2
        (subst (λ k. 2 ≤ k) (sym (ap length a.faithful ∙ length-map-as_input es)) a.several) in
    let named : (length (to_upper input.currency) == 0) ≡ false =
      ap (λ c. length c == 0) u ∙ ne_eq_false _ a.named in
    let capital : same_currency (to_upper input.currency) input.currency ≡ true =
      same_of_eq _ _ u in
    let parts : normalise_entries (to_upper input.currency) input.entries ≡ ok es =
      ap₂ normalise_entries u a.faithful ∙ normalise_entries_complete input.currency es a.normal in
    rw blank_no
      (rw enough (rw named (rw capital (rw parts (rw (eqb_ℤ_of_eq _ _ a.balanced) refl)))))
