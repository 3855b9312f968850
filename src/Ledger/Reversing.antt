-- ===== src/Ledger/Reversing.antt =====
-- `run` of `reverse` (src/modules/ledger/ledger.service.ts).
use alke_finance_backend.Base.{
  ℕ, neg, ◌==◌, Bool, true, false, Option, none, some, List, [], ◌∷◌, Result, ok, err, bad_request,
  not_found, ◌>>=◌, ◌>>◌, throw_if, if◌then◌else◌,
}
use alke_finance_backend.Ledger.Types.{
  LedgerTxnType, LedgerTxnStatus, reversal_of, LedgerEntryInput, PostTxnInput, LedgerAccount,
  LedgerTxn, LedgerEntry, Db,
}
use alke_finance_backend.Ledger.Store.{find_txn, find_account_by_id, of_txn}
use alke_finance_backend.Ledger.Posting.{normalise, PostResult, post_in}

-- `original.entries.map`: the entries of the transaction, negated, on the accounts they point to.
unfoldable pub reversal_entries : ℕ → List LedgerAccount → List LedgerEntry → List LedgerEntryInput
reversal_entries txn accounts [] = []
reversal_entries txn accounts (e ∷ es) =
    let rest = reversal_entries txn accounts es in
    if of_txn txn e
    then (elim (find_account_by_id e.account_id accounts) [
      | none ↦ rest
      | some a ↦ record { account = a.ref; amount = neg e.amount } ∷ rest
    ])
    else rest

abbrev pub is_reversal : LedgerTxnType → Bool
is_reversal LedgerTxnType.reversal = true
is_reversal _ = false

abbrev pub is_reversed : LedgerTxnStatus → Bool
is_reversed LedgerTxnStatus.reversed = true
is_reversed LedgerTxnStatus.posted = false

unfoldable pub reversal_input : LedgerTxn → Option ℕ → Db → PostTxnInput
reversal_input original actor db = record {
  txn_type = LedgerTxnType.reversal;
  idempotency_key = reversal_of original.id;
  currency = original.currency;
  entries = reversal_entries original.id db.accounts db.entries;
  actor_id = actor;
  enforce_non_negative = none;
}

-- `ledgerTxn.update({ where: { id }, data: { status: REVERSED } })`
unfoldable pub mark_reversed : ℕ → List LedgerTxn → List LedgerTxn
mark_reversed id [] = []
mark_reversed id (t ∷ ts) =
    (if t.id == id then record t { status = LedgerTxnStatus.reversed } else t) ∷ mark_reversed id ts

abbrev pub reverse_found : LedgerTxn → Option ℕ → Db → Result (PostResult × Db)
reverse_found original actor db = do
  throw_if (is_reversal original.txn_type) (bad_request "Une annulation ne peut pas être annulée.")
  throw_if (is_reversed original.status) (bad_request "Cette transaction a déjà été annulée.")
  let input = reversal_input original actor db
  es ← normalise input
  (r, db') ← post_in input es (some original.id) db
  ok (r, if r.created then record db' { txns = mark_reversed original.id db'.txns } else db')

-- `run` of `reverse`
unfoldable pub reverse_in : ℕ → Option ℕ → Db → Result (PostResult × Db)
reverse_in id actor db = elim (find_txn id db) [
  | none ↦ err (not_found "Transaction introuvable.")
  | some original ↦ reverse_found original actor db
]
