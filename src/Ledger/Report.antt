-- ===== src/Ledger/Report.antt =====
-- Reads of the ledger: balances, `verifyInvariants`, `mirrorTotal` (ledger.service.ts).
use alke_finance_backend.Base.{
  ℕ, ◌+ℤ◌, eqb_ℤ, ltb_ℤ, Bool, true, false, ◌&&◌, Option, none, some, List, [], ◌∷◌, Text,
  Text-discrete, same, any, if◌then◌else◌,
}
use alke_finance_backend.Money.{Decimal, zero_decimal}
use alke_finance_backend.Ledger.Types.{
  LedgerOwnerType, LedgerAccountKind, OwnerId, LedgerAccountRef, LedgerAccount, LedgerTxn,
  LedgerEntry, Db, is_user, LedgerOwnerType-discrete, OwnerId-discrete, LedgerAccountKind-discrete,
}
use alke_finance_backend.Ledger.Store.{sum_of, sum_account, of_account, of_txn}

-- `BalanceSnapshot`
pub record BalanceSnapshot : Type 0 where
  pub available : Decimal
  pub reserved : Decimal
  pub settling : Decimal
  pub withdrawable : Decimal

abbrev pub user_account : ℕ → Text → LedgerAccountKind → LedgerAccountRef
user_account id currency kind = record {
  owner_type = LedgerOwnerType.user;
  owner_id = OwnerId.row id;
  currency = currency;
  kind = kind;
}

-- `AccountBalance`
pub record AccountBalance : Type 0 where
  pub account : LedgerAccount
  pub balance : Decimal

abbrev in_currency : Option Text → Text → Bool
in_currency none c = true
in_currency (some wanted) c = same Text-discrete c wanted

abbrev owned_by : LedgerOwnerType → OwnerId → Option Text → LedgerAccountRef → Bool
owned_by owner_type owner_id currency r =
    same LedgerOwnerType-discrete r.owner_type owner_type
    && same OwnerId-discrete r.owner_id owner_id
    && in_currency currency r.currency

-- `ownerBalances`, in the order of the rows
unfoldable pub owner_balances :
    LedgerOwnerType
    → OwnerId
    → Option Text
    → List LedgerAccount
    → List LedgerEntry
    → List AccountBalance
owner_balances owner_type owner_id currency [] entries = []
owner_balances owner_type owner_id currency (a ∷ more) entries =
    let rest = owner_balances owner_type owner_id currency more entries in
    if owned_by owner_type owner_id currency a.ref
    then record { account = a; balance = sum_account a.id entries } ∷ rest
    else rest

-- `byKind.get(kind) ?? ZERO`: a later row of a kind would replace an earlier one.
unfoldable pub kind_balance : LedgerAccountKind → Decimal → List AccountBalance → Decimal
kind_balance kind found [] = found
kind_balance kind found (b ∷ bs) =
    kind_balance kind
      (if same LedgerAccountKind-discrete b.account.ref.kind kind then b.balance else found) bs

-- `userBalances`
unfoldable pub user_balances : ℕ → Text → Db → BalanceSnapshot
user_balances id currency db =
    let bs =
      owner_balances LedgerOwnerType.user (OwnerId.row id) (some currency) db.accounts db.entries in
    record {
      available = kind_balance LedgerAccountKind.available zero_decimal bs;
      reserved = kind_balance LedgerAccountKind.reserved zero_decimal bs;
      settling = kind_balance LedgerAccountKind.settling zero_decimal bs;
      withdrawable = kind_balance LedgerAccountKind.withdrawable zero_decimal bs;
    }

abbrev pub is_zero : Decimal → Bool
is_zero a = eqb_ℤ a zero_decimal

-- `SELECT "txnId" FROM "LedgerEntry" GROUP BY "txnId" HAVING SUM(amount) <> 0`, a row of the
-- answer for each entry of the group.
unfoldable pub unbalanced_txn_ids : List LedgerEntry → List LedgerEntry → List ℕ
unbalanced_txn_ids all [] = []
unbalanced_txn_ids all (e ∷ es) =
    let rest = unbalanced_txn_ids all es in
    if is_zero (sum_of (of_txn e.txn_id) all) then rest else e.txn_id ∷ rest

-- The sum over the join of a currency's transactions with their entries.
unfoldable pub currency_total : Text → List LedgerTxn → List LedgerEntry → Decimal
currency_total c [] entries = zero_decimal
currency_total c (t ∷ ts) entries =
    (if same Text-discrete t.currency c then sum_of (of_txn t.id) entries else zero_decimal)
    +ℤ currency_total c ts entries

unfoldable pub unbalanced_currencies :
    List LedgerTxn → List LedgerTxn → List LedgerEntry → List Text
unbalanced_currencies all [] entries = []
unbalanced_currencies all (t ∷ ts) entries =
    let rest = unbalanced_currencies all ts entries in
    if is_zero (currency_total t.currency all entries) then rest else t.currency ∷ rest

unfoldable pub negative_user_accounts : List LedgerAccount → List LedgerEntry → List ℕ
negative_user_accounts [] entries = []
negative_user_accounts (a ∷ more) entries =
    let rest = negative_user_accounts more entries in
    if is_user a.ref.owner_type
      && any (of_account a.id) entries
      && ltb_ℤ (sum_account a.id entries) zero_decimal
    then a.id ∷ rest
    else rest

-- `InvariantReport`
pub record InvariantReport : Type 0 where
  pub unbalanced_txn_ids : List ℕ
  pub unbalanced_currencies : List Text
  pub negative_user_account_ids : List ℕ

unfoldable pub verify_invariants : Db → InvariantReport
verify_invariants db = record {
  unbalanced_txn_ids = unbalanced_txn_ids db.entries db.entries;
  unbalanced_currencies = unbalanced_currencies db.txns db.txns db.entries;
  negative_user_account_ids = negative_user_accounts db.accounts db.entries;
}

abbrev pub is_empty {ℓ} : {A : Type ℓ} → List A → Bool
is_empty [] = true
is_empty (x ∷ xs) = false

-- `ok` of the report
unfoldable pub report_ok : InvariantReport → Bool
report_ok r =
    is_empty r.unbalanced_txn_ids
    && is_empty r.unbalanced_currencies
    && is_empty r.negative_user_account_ids

-- `MIRROR_KINDS.includes(kind)`
abbrev pub in_mirror : LedgerAccountKind → Bool
in_mirror LedgerAccountKind.available = true
in_mirror LedgerAccountKind.reserved = true
in_mirror LedgerAccountKind.settling = true
in_mirror _ = false

abbrev counts_in_mirror : Text → LedgerAccountRef → Bool
counts_in_mirror c r = is_user r.owner_type && same Text-discrete r.currency c && in_mirror r.kind

-- `mirrorTotal`, over the join of the accounts with their entries
unfoldable pub mirror_total : Text → List LedgerAccount → List LedgerEntry → Decimal
mirror_total c [] entries = zero_decimal
mirror_total c (a ∷ more) entries =
    (if counts_in_mirror c a.ref then sum_account a.id entries else zero_decimal)
    +ℤ mirror_total c more entries
