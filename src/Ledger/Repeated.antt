-- ===== src/Ledger/Repeated.antt =====
-- A reversal that is asked for again (src/modules/ledger/ledger.service.ts).
use alke_finance_backend.Base.{
  ℕ, ◌≡◌, refl, ap, ◌∙◌, inl, inr, ◌==◌, true, false, Bool-cases, Option, none, some, List, [], ◌∷◌,
  find, err, ok, bad_request,
}
use alke_finance_backend.Ledger.Types.{PostTxnInput, LedgerAccount, LedgerTxn, LedgerTxnStatus, Db}
use alke_finance_backend.Ledger.Store.{find_txn}
use alke_finance_backend.Ledger.Sums.{find-append_some}
use alke_finance_backend.Ledger.Posting.{
  NormalisedEntry, AccountMap, PostResult, create_txn, post_in,
}
use alke_finance_backend.Ledger.Reversing.{
  is_reversal, is_reversed, mark_reversed, reverse_in, reversal_input,
}
use alke_finance_backend.Ledger.Invariant.{Inv, prepared, prepared-Resolved}
use alke_finance_backend.Ledger.Soundness.{replayed, wrote, post_in-Ended}
use alke_finance_backend.Ledger.Reversal.{reverse_in-Reverses, find_txn-id}

marked : LedgerTxn → LedgerTxn
marked t = record t { status = LedgerTxnStatus.reversed }

find-mark :
    (id : ℕ) (ts : List LedgerTxn) (t : LedgerTxn)
    → find (λ x. x.id == id) ts ≡ some t
    → find (λ x. x.id == id) (mark_reversed id ts) ≡ some (marked t)
unfolding mark_reversed marked
find-mark id [] t h = cc
find-mark id (x ∷ ts) t h = elim (Bool-cases (x.id == id)) [
  | inl e ↦ rw e (rw e (ap (λ o. some_marked o) (rw e at h)))
  | inr e ↦ rw e (rw e (find-mark id ts t (rw e at h)))
]
  where
    some_marked : Option LedgerTxn → Option LedgerTxn
    some_marked none = none
    some_marked (some y) = some (record y { status = LedgerTxnStatus.reversed })

find_txn-create :
    (id : ℕ) (input : PostTxnInput) (reversal : Option ℕ) (m : AccountMap LedgerAccount)
    (es : List NormalisedEntry) (d : Db) (t : LedgerTxn)
    → find_txn id d ≡ some t
    → find_txn id (create_txn input reversal m es d).1 ≡ some t
unfolding create_txn find_txn
find_txn-create id input reversal m es d t h = find-append_some (λ x. x.id == id) d.txns _ h

find_txn-txns : (id : ℕ) (a b : Db) → a.txns ≡ b.txns → find_txn id a ≡ find_txn id b
unfolding find_txn
find_txn-txns id a b h = ap (find (λ x. x.id == id)) h

find_txn-mark :
    (id : ℕ) (d : Db) (t : LedgerTxn)
    → find_txn id d ≡ some t
    → find_txn id (record d { txns = mark_reversed id d.txns }) ≡ some (marked t)
unfolding find_txn
find_txn-mark id d t h = find-mark id d.txns t h

posted_keeps :
    (id : ℕ) (input : PostTxnInput) (es : List NormalisedEntry) (reversal : Option ℕ) (db : Db)
    (t : LedgerTxn) {r : PostResult} {middle : Db}
    → Inv db
    → post_in input es reversal db ≡ ok (r, middle)
    → find_txn id db ≡ some t
    → find_txn id middle ≡ some t
posted_keeps id input es reversal db t inv h found =
    elim (post_in-Ended input es reversal db inv.accounts_inv h) [
      | replayed k old same ↦ ap (find_txn id) same ∙ found
      | wrote absent passed new ↦
          ap (λ x. find_txn id x.1) new
          ∙ find_txn-create id input reversal (prepared es db).0 es (prepared es db).1 t (
              find_txn-txns id (prepared es db).1 db
                (prepared-Resolved es db inv.accounts_inv).extends.same_txns
              ∙ found)
    ]

reversed_refused :
    (id : ℕ) (actor : Option ℕ) (db : Db) (t : LedgerTxn)
    → find_txn id db ≡ some t
    → is_reversal t.txn_type ≡ false
    → is_reversed t.status ≡ true
    → reverse_in id actor db ≡ err (bad_request "Cette transaction a déjà été annulée.")
unfolding reverse_in
reversed_refused id actor db t found kind status = rw (found, reverse_in) (rw kind (rw status refl))

-- Once a reversal has written, another one of the same transaction, whoever asks for it, is refused.
pub reverse_in_once :
    (id : ℕ) (actor actor' : Option ℕ) (db : Db) {r : PostResult} {db' : Db}
    → Inv db
    → reverse_in id actor db ≡ ok (r, db')
    → r.created ≡ true
    → reverse_in id actor' db' ≡ err (bad_request "Cette transaction a déjà été annulée.")
unfolding marked
reverse_in_once id actor actor' db {r} {db'} inv h created =
    let p = reverse_in-Reverses id actor db h in
    let same_id : p.original.id ≡ id = find_txn-id id db p.found in
    let kept =
      posted_keeps id (reversal_input p.original actor db) p.entries (some p.original.id) db
        p.original inv p.posted p.found in
    let after : db' ≡ record (p.middle) { txns = mark_reversed p.original.id p.middle.txns } =
      rw created at p.marked in
    reversed_refused id actor' db' (marked p.original)
      (ap (find_txn id)
          (after ∙ ap (λ i. record (p.middle) { txns = mark_reversed i p.middle.txns }) same_id)
        ∙ find_txn-mark id p.middle p.original kept)
      p.plain refl
