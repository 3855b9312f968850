-- ===== src/Ledger/Reversal.antt =====
-- `reverse`: the cancelling transaction (src/modules/ledger/ledger.service.ts).
use mathlib.Core.Bool.{false≢true}
use alke_finance_backend.Base.{
  throw_if_ok, ok_injective, ℕ, ◌≡◌, refl, ap, sym, ◌∙◌, inl, inr, pos, neg, ◌+ℤ◌, arith, int_laws,
  zero_+ℤ, Bool, true, false, ◌&&◌, Option, some, is_some, List, [], ◌∷◌, All, map, Bool-cases,
  Option-cases, ◌==◌, ==_iff, subst, ok, >>=-eq-ok, if◌then◌else◌,
}
use alke_finance_backend.Money.{Decimal}
use alke_finance_backend.Ledger.Types.{
  LedgerAccountRef, LedgerKey, LedgerEntryInput, LedgerAccount, LedgerTxn, LedgerEntry, Db,
  same_ref,
}
use alke_finance_backend.Ledger.Store.{
  find_txn, find_account, find_account_by_id, balance, sum_of, of_account, of_txn,
}
use alke_finance_backend.Ledger.Posting.{NormalisedEntry, PostResult, delta, normalise, post_in}
use alke_finance_backend.Ledger.Reversing.{
  reversal_entries, reversal_input, mark_reversed, reverse_in, is_reversal, is_reversed,
}
use alke_finance_backend.Ledger.Sums.{find_sound, All-find}
use alke_finance_backend.Ledger.Resolving.{DbAccountsInv}
use alke_finance_backend.Ledger.Effect.{id_test}
use alke_finance_backend.Ledger.Validation.{as_input, normalise_sound}
use alke_finance_backend.Ledger.Invariant.{Inv, count_key}
use alke_finance_backend.Ledger.Soundness.{post_in-Inv, post_in_balance}

-- The entries of a transaction on one account.
abbrev pub of_both : ℕ → ℕ → LedgerEntry → Bool
of_both txn account e = of_txn txn e && of_account account e

-- The net movement that a list of inputs asks for on one account.
movement : LedgerAccountRef → List LedgerEntryInput → Decimal
movement r [] = pos 0
movement r (e ∷ es) = (if same_ref e.account r then e.amount else pos 0) +ℤ movement r es

movement-as_input :
    (r : LedgerAccountRef) (es : List NormalisedEntry) → movement r (map as_input es) ≡ delta r es
unfolding movement delta
movement-as_input r [] = refl
movement-as_input r (e ∷ es) =
    ap (λ x. (if same_ref e.ref r then e.amount else pos 0) +ℤ x) (movement-as_input r es)

-- The account that an entry points to is the one with its id.
entry_test :
    (db : Db) (i : ℕ) (b a : LedgerAccount) (r : LedgerAccountRef)
    → DbAccountsInv db
    → find_account_by_id i db.accounts ≡ some b
    → find_account r db.accounts ≡ some a
    → same_ref b.ref r ≡ (i == a.id)
unfolding find_account_by_id
entry_test db i b a r inv hb ha =
    let own =
      All-find (λ x. x.id == i) (λ x. find_account x.ref db.accounts ≡ some x) db.accounts inv.refs
        hb in
    let bi : b.id ≡ i = (==_iff b.id i).0 (find_sound (λ x. x.id == i) db.accounts hb) in
    sym (id_test db.accounts b.ref r b a inv own ha) ∙ ap (λ k. k == a.id) bi

step_neg :
    (s t : Bool) (x y : Decimal)
    → (if s then neg x else pos 0) +ℤ neg y ≡ neg ((if s then x else pos 0) +ℤ y)
step_neg true t x y = omega int_laws
step_neg false t x y = omega int_laws

movement-reversal :
    (txn : ℕ) (db : Db) (es : List LedgerEntry) (r : LedgerAccountRef) (a : LedgerAccount)
    → DbAccountsInv db
    → All (λ e. is_some (find_account_by_id e.account_id db.accounts) ≡ true) es
    → find_account r db.accounts ≡ some a
    → movement r (reversal_entries txn db.accounts es) ≡ neg (sum_of (of_both txn a.id) es)
unfolding movement reversal_entries sum_of
movement-reversal txn db [] r a inv known h = omega int_laws
movement-reversal txn db (e ∷ es) r a inv known h =
    elim (Option-cases (find_account_by_id e.account_id db.accounts)) [
      | inl absent ↦ absurd (false≢true (rw absent at known.0))
      | inr (b, found) ↦
          let ih = movement-reversal txn db es r a inv known.1 h in
          elim (Bool-cases (of_txn txn e)) [
            | inl mine ↦ rw mine (
                rw found (
                  rw (entry_test db e.account_id b a r inv found h)
                    (rw ih (step_neg (e.account_id == a.id) true e.amount _))))
            | inr other ↦ rw other (ih ∙ ap neg (sym (zero_+ℤ _)))
          ]
    ]

count_key-mark :
    (k : LedgerKey) (id : ℕ) (ts : List LedgerTxn)
    → count_key k (mark_reversed id ts) ≡ count_key k ts
unfolding mark_reversed
count_key-mark k id [] = refl
count_key-mark k id (t ∷ ts) = rw (count_key-mark k id ts) (ground arith)

pub mark-Inv :
    (b : Bool) (id : ℕ) (db : Db)
    → Inv db
    → Inv (if b then record db { txns = mark_reversed id db.txns } else db)
mark-Inv true id db inv = record {
  accounts_inv = inv.accounts_inv;
  balanced = inv.balanced;
  keys = λ k. rw (count_key-mark k id db.txns) (inv.keys k);
}
mark-Inv false id db inv = inv

-- A reversal that returns found an original that is posted and no reversal itself, posted the
-- cancelling entries under its key, and marked the original if it wrote.
pub record Reverses (id : ℕ) (actor : Option ℕ) (db : Db) (r : PostResult) (db' : Db) : Type 0 where
  pub original : LedgerTxn
  pub found : find_txn id db ≡ some original
  pub plain : is_reversal original.txn_type ≡ false
  pub standing : is_reversed original.status ≡ false
  pub entries : List NormalisedEntry
  pub valid : normalise (reversal_input original actor db) ≡ ok entries
  pub middle : Db
  pub posted :
      post_in (reversal_input original actor db) entries (some original.id) db ≡ ok (r, middle)
  pub marked : db' ≡ (
      if r.created then record middle { txns = mark_reversed original.id middle.txns } else middle)

pub find_txn-id : (id : ℕ) (db : Db) {t : LedgerTxn} → find_txn id db ≡ some t → t.id ≡ id
unfolding find_txn
find_txn-id id db {t} h = (==_iff t.id id).0 (find_sound (λ x. x.id == id) db.txns h)

pub reverse_in-Reverses :
    (id : ℕ) (actor : Option ℕ) (db : Db) {r : PostResult} {db' : Db}
    → reverse_in id actor db ≡ ok (r, db')
    → Reverses id actor db r db'
unfolding reverse_in
reverse_in-Reverses id actor db {r} {db'} h = elim (Option-cases (find_txn id db)) [
  | inl absent ↦ cc (rw (absent, reverse_in) at h)
  | inr (t, found) ↦
      let h0 = rw (found, reverse_in) at h in
      let h1 = throw_if_ok (is_reversal t.txn_type) _ _ h0 in
      let h2 = throw_if_ok (is_reversed t.status) _ _ h1.1 in
      let (es, hn, h3) = >>=-eq-ok (normalise (reversal_input t actor db)) _ h2.1 in
      let (res, hp, h4) = >>=-eq-ok (post_in (reversal_input t actor db) es (some t.id) db) _ h3 in
      let e = ok_injective h4 in
      record {
        original = t;
        found = found;
        plain = h1.0;
        standing = h2.0;
        entries = es;
        valid = hn;
        middle = res.1;
        posted = hp ∙ ap (λ x. ok (x, res.1)) (ap (λ x. x.0) e);
        marked =
            sym (ap (λ x. x.1) e)
            ∙ ap
                (λ x.
                  if x.created
                  then record res.1 { txns = mark_reversed t.id res.1.txns }
                  else res.1)
                (ap (λ x. x.0) e);
      }
]

-- A reversal keeps the ledger's invariant.
pub reverse_in-Inv :
    (id : ℕ) (actor : Option ℕ) (db : Db) {r : PostResult} {db' : Db}
    → Inv db
    → reverse_in id actor db ≡ ok (r, db')
    → Inv db'
unfolding reversal_input
reverse_in-Inv id actor db {r} {db'} inv h =
    let p = reverse_in-Reverses id actor db h in
    subst Inv (sym p.marked) (
      mark-Inv r.created p.original.id p.middle (
        post_in-Inv (reversal_input p.original actor db) p.entries (some p.original.id) db refl
          (normalise_sound (reversal_input p.original actor db) p.valid).balanced inv p.posted))

balance-txns :
    (q : LedgerAccountRef) (b : Bool) (id : ℕ) (db : Db)
    → balance q (if b then record db { txns = mark_reversed id db.txns } else db) ≡ balance q db
unfolding balance
balance-txns q true id db = refl
balance-txns q false id db = refl

-- A reversal that writes takes back from every account exactly what the original's entries on it
-- add up to.
pub reverse_in_cancels :
    (id : ℕ) (actor : Option ℕ) (db : Db) {r : PostResult} {db' : Db} (q : LedgerAccountRef)
    (a : LedgerAccount)
    → Inv db
    → reverse_in id actor db ≡ ok (r, db')
    → r.created ≡ true
    → find_account q db.accounts ≡ some a
    → balance q db' ≡ balance q db +ℤ neg (sum_of (of_both id a.id) db.entries)
unfolding reversal_input
reverse_in_cancels id actor db {r} {db'} q a inv h created row =
    let p = reverse_in-Reverses id actor db h in
    let input = reversal_input p.original actor db in
    let same_id : p.original.id ≡ id = find_txn-id id db p.found in
    let moved = post_in_balance input p.entries (some p.original.id) db inv p.posted q in
    let back =
      movement-reversal p.original.id db db.entries q a inv.accounts_inv
        inv.accounts_inv.entries_known row in
    ap (balance q) p.marked
    ∙ balance-txns q r.created p.original.id p.middle
    ∙ rw created at moved
    ∙ ap (λ x. balance q db +ℤ x)
        (sym (movement-as_input q p.entries)
          ∙ ap (movement q) (sym (normalise_sound input p.valid).faithful)
          ∙ back
          ∙ ap (λ i. neg (sum_of (of_both i a.id) db.entries)) same_id)
