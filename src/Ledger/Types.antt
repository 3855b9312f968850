-- ===== src/Ledger/Types.antt =====
-- The ledger's data: prisma/schema.prisma (LedgerAccount, LedgerTxn, LedgerEntry) and
-- src/modules/ledger/ledger.types.ts. Ids of rows are numbers, since they are only compared.
-- An idempotency key is the family of its prefix with the id behind it (`deposit:<id>`); the
-- prefixes differ, so two keys are the same text exactly when family and id agree.
use native.Mathlib.Decide.{ℕ_discrete}
use alke_finance_backend.Base.{ℕ, Bool, true, false, Option, List, Text, same}
use alke_finance_backend.Money.{Decimal}

pub data LedgerOwnerType : Type 0 where
  user sdb alke fee provider tax : LedgerOwnerType

pub data LedgerAccountKind : Type 0 where
  available reserved settling withdrawable clearing : LedgerAccountKind

pub data LedgerTxnType : Type 0 where
  deposit reserve release fill fee_charge tax_charge settlement withdrawal adjust reversal :
      LedgerTxnType

pub data LedgerTxnStatus : Type 0 where
  posted reversed : LedgerTxnStatus

-- `FEE_CODES`
pub data FeeCode : Type 0 where
  courtage_sdb commission_alke fx_spread taxe withdrawal_fee : FeeCode

pub data PaymentProvider : Type 0 where
  mtn_momo orange_money cinetpay paydunya bank_transfer simulated : PaymentProvider

-- `ownerId`: the id of a user or partner row, a fee code, a provider, or `SYSTEM_OWNER`.
pub data OwnerId : Type 0 where
  row : ℕ → OwnerId
  fee_code : FeeCode → OwnerId
  payment_provider : PaymentProvider → OwnerId
  system : OwnerId

pub record LedgerAccountRef : Type 0 where
  pub owner_type : LedgerOwnerType
  pub owner_id : OwnerId
  pub currency : Text
  pub kind : LedgerAccountKind

-- `LedgerKeys` and `BrokerageKeys`; `blank` is the empty key, `other` any text besides.
pub data LedgerKey : Type 0 where
  deposit_of withdraw_reserve_of withdraw_of withdraw_release_of reversal_of : ℕ → LedgerKey
  reserve_of release_of fill_of settlement_of settlement_fail_release_of : ℕ → LedgerKey
  other : ℕ → LedgerKey
  blank : LedgerKey

unfoldable pub LedgerOwnerType-discrete : Discrete LedgerOwnerType
LedgerOwnerType-discrete = hlevel

unfoldable pub OwnerId-discrete : Discrete OwnerId
OwnerId-discrete = hlevel ℕ_discrete

unfoldable pub LedgerAccountKind-discrete : Discrete LedgerAccountKind
LedgerAccountKind-discrete = hlevel

unfoldable pub LedgerAccountRef-discrete : Discrete LedgerAccountRef
LedgerAccountRef-discrete = hlevel ℕ_discrete

unfoldable pub LedgerKey-discrete : Discrete LedgerKey
LedgerKey-discrete = hlevel ℕ_discrete

pub record LedgerEntryInput : Type 0 where
  pub account : LedgerAccountRef
  pub amount : Decimal

-- `PostTxnInput`; `source`, `description`, `refType`, `refId` and `metadata` are only stored.
pub record PostTxnInput : Type 0 where
  pub txn_type : LedgerTxnType
  pub idempotency_key : LedgerKey
  pub currency : Text
  pub entries : List LedgerEntryInput
  pub actor_id : Option ℕ
  pub enforce_non_negative : Option (List LedgerAccountRef)

pub record LedgerAccount : Type 0 where
  pub id : ℕ
  pub ref : LedgerAccountRef

pub record LedgerTxn : Type 0 where
  pub id : ℕ
  pub txn_type : LedgerTxnType
  pub status : LedgerTxnStatus
  pub idempotency_key : LedgerKey
  pub currency : Text
  pub actor_id : Option ℕ
  pub reversal_of_id : Option ℕ

pub record LedgerEntry : Type 0 where
  pub txn_id : ℕ
  pub account_id : ℕ
  pub amount : Decimal

-- The ledger's tables; `next_id` is the id that the next new row gets.
pub record Db : Type 0 where
  pub accounts : List LedgerAccount
  pub txns : List LedgerTxn
  pub entries : List LedgerEntry
  pub next_id : ℕ

abbrev pub same_ref : LedgerAccountRef → LedgerAccountRef → Bool
same_ref = same LedgerAccountRef-discrete

abbrev pub same_key : LedgerKey → LedgerKey → Bool
same_key = same LedgerKey-discrete

abbrev pub is_user : LedgerOwnerType → Bool
is_user LedgerOwnerType.user = true
is_user _ = false
