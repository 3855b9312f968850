-- ===== src/Ledger/Effect.antt =====
-- What the rows written by `postIn` add to each sum (src/modules/ledger/ledger.service.ts).
use alke_finance_backend.Base.{
  ℕ, ◌≡◌, refl, ap, sym, ◌∙◌, ◌⊎◌, inl, inr, pos, ◌+ℤ◌, ◌≤ℤ◌, arith, Bool, true, false, none, some,
  is_some, List, [], ◌∷◌, Bool-cases, Option-cases, ==_iff, ◌==◌, same→eq, same_refl, int_laws, ℤ,
  +ℤ_parts, zero_+ℤ, subst, if◌then◌else◌, any, leb_ℤ, ltb_ℤ,
}
use mathlib.Core.Bool.{false≢true}
use alke_finance_backend.Money.{Decimal, plus_all}
use alke_finance_backend.Ledger.Types.{
  LedgerAccountRef, LedgerAccountRef-discrete, LedgerAccount, LedgerEntry, Db, same_ref, is_user,
}
use alke_finance_backend.Ledger.Store.{
  find_account, find_account_by_id, sum_of, sum_account, of_txn,
}
use alke_finance_backend.Ledger.Posting.{
  NormalisedEntry, AccountMap, lookup, delta, account_id, rows, overdraws, user_refs, amounts,
}
use alke_finance_backend.Ledger.Sums.{find_account-ref, All-find}
use alke_finance_backend.Ledger.Resolving.{AccountsInv, Caches, Covers}

some_injective {ℓ} : {A : Type ℓ} (a b : A) → some a ≡ some b → a ≡ b
some_injective a b h = cc

-- Rows of the table with one id are one row.
same_id :
    (accounts : List LedgerAccount) {next : ℕ} {entries : List LedgerEntry} {r q : LedgerAccountRef}
    {a b : LedgerAccount}
    → AccountsInv accounts next entries
    → find_account r accounts ≡ some a
    → find_account q accounts ≡ some b
    → a.id ≡ b.id
    → r ≡ q
unfolding find_account
same_id accounts {r = r} {q = q} {a = a} {b = b} inv ha hb e =
    let fa =
      All-find (λ x. same_ref x.ref r) (λ x. find_account_by_id x.id accounts ≡ some x) accounts
        inv.ids ha in
    let fb =
      All-find (λ x. same_ref x.ref q) (λ x. find_account_by_id x.id accounts ≡ some x) accounts
        inv.ids hb in
    let ab : a ≡ b = some_injective a b (sym fa ∙ ap (λ i. find_account_by_id i accounts) e ∙ fb) in
    sym (find_account-ref r accounts ha) ∙ ap (λ x. x.ref) ab ∙ find_account-ref q accounts hb

row_amount :
    (t : ℕ) (m : AccountMap LedgerAccount) (e : NormalisedEntry) (es : List NormalisedEntry) (i : ℕ)
    (b : LedgerAccount)
    → lookup e.ref m ≡ some b
    → sum_account i (rows t m (e ∷ es))
      ≡ (if b.id == i then e.amount else pos 0) +ℤ sum_account i (rows t m es)
unfolding rows sum_of account_id
row_amount t m e es i b h = ground arith

-- Two rows share an id exactly when their references are one.
pub id_test :
    (accounts : List LedgerAccount) {next : ℕ} {entries : List LedgerEntry} (q r : LedgerAccountRef)
    (b a : LedgerAccount)
    → AccountsInv accounts next entries
    → find_account q accounts ≡ some b
    → find_account r accounts ≡ some a
    → (b.id == a.id) ≡ same_ref q r
id_test accounts q r b a inv hb ha = elim (Bool-cases (same_ref q r)) [
  | inl s ↦
      let qr = same→eq LedgerAccountRef-discrete q r s in
      let ba : b ≡ a = some_injective b a (sym hb ∙ ap (λ x. find_account x accounts) qr ∙ ha) in
      (==_iff b.id a.id).1 (ap (λ x. x.id) ba) ∙ sym s
  | inr n ↦ elim (Bool-cases (b.id == a.id)) [
    | inl e ↦
        let qr = same_id accounts inv hb ha ((==_iff b.id a.id).0 e) in
        absurd
          (false≢true (sym n ∙ ap (same_ref q) (sym qr) ∙ same_refl LedgerAccountRef-discrete q))
    | inr e ↦ e ∙ sym n
  ]
]

-- The rows written for a transaction add an account's net movement to its sum.
pub sum_account-rows :
    (t : ℕ) (m : AccountMap LedgerAccount) (db : Db) (es : List NormalisedEntry)
    (r : LedgerAccountRef) (a : LedgerAccount)
    → AccountsInv db.accounts db.next_id db.entries
    → Caches m db
    → Covers m es
    → find_account r db.accounts ≡ some a
    → sum_account a.id (rows t m es) ≡ delta r es
sum_account-rows t m db [] r a inv caches covers h = unfold rows delta sum_of in refl
sum_account-rows t m db (e ∷ es) r a inv caches covers h = elim (Option-cases (lookup e.ref m)) [
  | inl absent ↦ absurd (false≢true (rw absent at covers.0))
  | inr (b, found) ↦
      row_amount t m e es a.id b found
      ∙ rw (id_test db.accounts e.ref r b a inv (caches e.ref b found) h)
          (rw (sum_account-rows t m db es r a inv caches covers.1 h) (unfold delta in refl))
]

any-user_refs :
    (f : LedgerAccountRef → Bool) (e : NormalisedEntry) (es : List NormalisedEntry)
    → any f (user_refs (e ∷ es)) ≡ false
    → (is_user e.ref.owner_type ≡ true → f e.ref ≡ false) × (any f (user_refs es) ≡ false)
unfolding user_refs
any-user_refs f e es h = ground arith

delta_other :
    (e : NormalisedEntry) (es : List NormalisedEntry) (r : LedgerAccountRef)
    → same_ref e.ref r ≡ false
    → delta r es ≡ pos 0
    → delta r (e ∷ es) ≡ pos 0
unfolding delta
delta_other e es r n h = rw (n, h) (zero_+ℤ (pos 0))

-- A user's reference passed the test, or the transaction does not move its account.
pub guarded_or_still :
    (f : LedgerAccountRef → Bool) (m : AccountMap LedgerAccount) (es : List NormalisedEntry)
    (r : LedgerAccountRef)
    → is_user r.owner_type ≡ true
    → any f (user_refs es) ≡ false
    → Covers m es
    → ((f r ≡ false) × (is_some (lookup r m) ≡ true)) ⊎ (delta r es ≡ pos 0)
guarded_or_still f m [] r u h c = inr (unfold delta in refl)
guarded_or_still f m (e ∷ es) r u h c = elim (Bool-cases (same_ref e.ref r)) [
  | inl s ↦
      let er = same→eq LedgerAccountRef-discrete e.ref r s in
      inl (
        subst (λ q. (f q ≡ false) × (is_some (lookup q m) ≡ true)) er
          ((any-user_refs f e es h).0 (ap (λ q. is_user q.owner_type) er ∙ u), c.0))
  | inr n ↦ elim (guarded_or_still f m es r u (any-user_refs f e es h).1 c.1) [
    | inl g ↦ inl g
    | inr z ↦ inr (delta_other e es r n z)
  ]
]

nonneg_sum :
    (s d : ℤ)
    → (if leb_ℤ (pos 0) d then false else ltb_ℤ (s +ℤ d) (pos 0)) ≡ false
    → pos 0 ≤ℤ s
    → pos 0 ≤ℤ s +ℤ d
nonneg_sum s d h n = ground (arith, +ℤ_parts s d)

overdraws_found :
    (m : AccountMap LedgerAccount) (es : List NormalisedEntry) (entries : List LedgerEntry)
    (r : LedgerAccountRef) (a : LedgerAccount)
    → lookup r m ≡ some a
    → overdraws m es entries r ≡ (
        if leb_ℤ (pos 0) (delta r es)
        then false
        else ltb_ℤ (sum_account a.id entries +ℤ delta r es) (pos 0))
unfolding overdraws
overdraws_found m es entries r a h = rw (h, overdraws)

-- What the non-negative rule lets through does not end below zero.
pub overdraws-false :
    (m : AccountMap LedgerAccount) (es : List NormalisedEntry) (entries : List LedgerEntry)
    (r : LedgerAccountRef) (a : LedgerAccount)
    → lookup r m ≡ some a
    → overdraws m es entries r ≡ false
    → pos 0 ≤ℤ sum_account a.id entries
    → pos 0 ≤ℤ sum_account a.id entries +ℤ delta r es
overdraws-false m es entries r a h o nonneg =
    nonneg_sum (sum_account a.id entries) (delta r es)
      (sym (overdraws_found m es entries r a h) ∙ o) nonneg

pub plus_all-from :
    (acc : Decimal) (vs : List Decimal) → plus_all acc vs ≡ acc +ℤ plus_all (pos 0) vs
unfolding plus_all
plus_all-from acc [] = omega int_laws
plus_all-from acc (v ∷ vs) =
    rw (plus_all-from (acc +ℤ v) vs, plus_all-from (pos 0 +ℤ v) vs) (omega int_laws)

sum_of-rows_total :
    (t id : ℕ) (m : AccountMap LedgerAccount) (es : List NormalisedEntry)
    → sum_of (of_txn t) (rows id m es) ≡ (if id == t then plus_all (pos 0) (amounts es) else pos 0)
unfolding sum_of rows plus_all
sum_of-rows_total t id m [] = ground arith
sum_of-rows_total t id m (e ∷ es) =
    rw (sum_of-rows_total t id m es, plus_all-from (pos 0 +ℤ e.amount) (amounts es))
      (elim (Bool-cases (id == t)) [
        | inl y ↦ rw y (omega int_laws)
        | inr n ↦ rw n (omega int_laws)
      ])

-- The rows of a balanced transaction sum to zero under every transaction's id.
pub sum_of-rows :
    (t id : ℕ) (m : AccountMap LedgerAccount) (es : List NormalisedEntry)
    → plus_all (pos 0) (amounts es) ≡ pos 0
    → sum_of (of_txn t) (rows id m es) ≡ pos 0
sum_of-rows t id m es h = rw (sum_of-rows_total t id m es, h) (ground arith)

-- An account that has no row is not moved by a transaction whose accounts all have one.
pub delta_uncovered :
    (m : AccountMap LedgerAccount) (db : Db) (es : List NormalisedEntry) (r : LedgerAccountRef)
    → Caches m db
    → Covers m es
    → find_account r db.accounts ≡ none
    → delta r es ≡ pos 0
delta_uncovered m db [] r caches covers h = unfold delta in refl
delta_uncovered m db (e ∷ es) r caches covers h = elim (Bool-cases (same_ref e.ref r)) [
  | inr n ↦ delta_other e es r n (delta_uncovered m db es r caches covers.1 h)
  | inl s ↦ elim (Option-cases (lookup e.ref m)) [
    | inl absent ↦ absurd (false≢true (rw absent at covers.0))
    | inr (b, found) ↦
        let there = caches e.ref b found in
        let er = same→eq LedgerAccountRef-discrete e.ref r s in
        absurd
          (false≢true (ap is_some (sym h ∙ ap (λ q. find_account q db.accounts) (sym er) ∙ there)))
  ]
]
