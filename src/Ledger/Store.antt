-- ===== src/Ledger/Store.antt =====
-- The queries and writes that the ledger makes (src/modules/ledger/ledger.service.ts).
use alke_finance_backend.Base.{
  ℕ, suc, ◌+ℤ◌, ◌==◌, Bool, Option, none, some, List, [], ◌∷◌, ◌++◌, find, if◌then◌else◌,
}
use alke_finance_backend.Money.{Decimal, zero_decimal}
use alke_finance_backend.Ledger.Types.{
  LedgerAccountRef, LedgerKey, LedgerAccount, LedgerTxn, LedgerEntry, Db, same_ref, same_key,
}

-- `ledgerTxn.findUnique({ where: { idempotencyKey } })`
unfoldable pub find_by_key : LedgerKey → Db → Option LedgerTxn
find_by_key key db = find (λ t. same_key t.idempotency_key key) db.txns

-- `ledgerTxn.findUnique({ where: { id } })`
unfoldable pub find_txn : ℕ → Db → Option LedgerTxn
find_txn id db = find (λ t. t.id == id) db.txns

-- `ledgerAccount.findUnique({ where: { ownerType_ownerId_currency_kind } })`
unfoldable pub find_account : LedgerAccountRef → List LedgerAccount → Option LedgerAccount
find_account ref accounts = find (λ a. same_ref a.ref ref) accounts

-- The account row that an entry points to.
unfoldable pub find_account_by_id : ℕ → List LedgerAccount → Option LedgerAccount
find_account_by_id id accounts = find (λ a. a.id == id) accounts

abbrev pub create_account : LedgerAccountRef → Db → LedgerAccount × Db
create_account ref db =
    let a : LedgerAccount = record { id = db.next_id; ref = ref } in
    (a, record db { accounts = db.accounts ++ a ∷ []; next_id = suc db.next_id })

-- `ensureAccount`
unfoldable pub ensure_account : LedgerAccountRef → Db → LedgerAccount × Db
ensure_account ref db = elim (find_account ref db.accounts) [
  | some found ↦ (found, db)
  | none ↦ create_account ref db
]

-- The sum of the entries of one account, and of one transaction.
unfoldable pub sum_of : (LedgerEntry → Bool) → List LedgerEntry → Decimal
sum_of test [] = zero_decimal
sum_of test (e ∷ es) = (if test e then e.amount else zero_decimal) +ℤ sum_of test es

abbrev pub of_account : ℕ → LedgerEntry → Bool
of_account id e = e.account_id == id

abbrev pub of_txn : ℕ → LedgerEntry → Bool
of_txn id e = e.txn_id == id

-- `sumAccount`
abbrev pub sum_account : ℕ → List LedgerEntry → Decimal
sum_account id = sum_of (of_account id)

-- `balance`
unfoldable pub balance : LedgerAccountRef → Db → Decimal
balance ref db = elim (find_account ref db.accounts) [
  | none ↦ zero_decimal
  | some a ↦ sum_account a.id db.entries
]
