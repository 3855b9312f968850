-- ===== src/Brokerage/OrderLedger.antt =====
-- The cash and share movements of an order: src/modules/brokerage/order-ledger.service.ts, with
-- brokerage.keys.ts and the totals of fees-json.ts. Texts that a posting only stores are left out.
pub mod Positions
pub mod Bounds
pub mod Balanced
pub mod Reserve
mod Tests
use alke_finance_backend.Base.{
  ℕ, ℤ, pos, neg, ◌+ℤ◌, ◌-ℤ◌, ◌==◌, eqb_ℤ, ltb_ℤ, Bool, true, false, not, ◌&&◌, ◌||◌, Option, none,
  some, is_some, List, [], ◌∷◌, ◌++◌, map, keep, Text, letters, Result, ok, err, bad_request, ◌>>=◌,
  ◌>>◌, throw_if, if◌then◌else◌,
}
use alke_finance_backend.Money.{Decimal, zero_decimal, sum}
use alke_finance_backend.Ledger.Types.{
  LedgerOwnerType, LedgerAccountKind, LedgerTxnType, OwnerId, row, fee_code, FeeCode,
  LedgerAccountRef, LedgerKey, LedgerEntryInput, PostTxnInput, Db,
}
use alke_finance_backend.Brokerage.OrderState.{OrderStatus}
use alke_finance_backend.Ledger.Retry.{post_within}
use alke_finance_backend.Ledger.Reversing.{reverse_in}

pub data OrderSide : Type 0 where
  buy sell : OrderSide

pub data SettlementState : Type 0 where
  unsettled settling settled failed : SettlementState

-- A line of `feesJson`.
pub record StoredFeeLine : Type 0 where
  pub code : FeeCode
  pub amount : Decimal

pub record Order : Type 0 where
  pub id : ℕ
  pub user_id : ℕ
  pub instrument_id : ℕ
  pub market_id : ℕ
  pub partner_id : Option ℕ
  pub batch_id : Option ℕ
  pub side : OrderSide
  pub quantity : Decimal
  pub max_amount : Decimal
  pub fees : List StoredFeeLine
  pub status : OrderStatus
  pub simulated : Bool
  pub filled_quantity : Decimal
  pub avg_executed_price : Option Decimal
  pub reserve_txn_id : Option ℕ
  pub expires_after_sessions : ℕ
  -- milliseconds of the epoch
  pub transmitted_at : Option ℕ

pub record Execution : Type 0 where
  pub id : ℕ
  pub order_id : ℕ
  pub batch_id : Option ℕ
  pub quantity : Decimal
  pub price : Decimal
  pub gross_amount : Decimal
  pub courtage : Decimal
  pub taxes : Decimal
  pub net_amount : Decimal
  pub sdb_exec_ref : Text
  pub settlement_state : SettlementState
  pub fill_txn_id : Option ℕ

-- The tables that the postings of an order read and write.
pub record Store : Type 0 where
  pub ledger : Db
  pub orders : List Order
  pub executions : List Execution

-- `userAccount`, `sdbClearing`, `feeAccount`
abbrev pub user_account : ℕ → Text → LedgerAccountKind → LedgerAccountRef
user_account user currency kind = record {
  owner_type = LedgerOwnerType.user;
  owner_id = row user;
  currency = currency;
  kind = kind;
}

abbrev pub sdb_clearing : ℕ → Text → LedgerAccountRef
sdb_clearing partner currency = record {
  owner_type = LedgerOwnerType.sdb;
  owner_id = row partner;
  currency = currency;
  kind = LedgerAccountKind.clearing;
}

abbrev pub fee_account : FeeCode → Text → LedgerAccountRef
fee_account code currency = record {
  owner_type = LedgerOwnerType.fee;
  owner_id = fee_code code;
  currency = currency;
  kind = LedgerAccountKind.available;
}

abbrev pub is_commission : FeeCode → Bool
is_commission FeeCode.commission_alke = true
is_commission _ = false

-- `feesFromJson(json).commission`
abbrev pub commission_of : List StoredFeeLine → Decimal
commission_of lines = sum (map (λ l. l.amount) (keep (λ l. is_commission l.code) lines))

abbrev pub entry : LedgerAccountRef → Decimal → LedgerEntryInput
entry account amount = record { account = account; amount = amount }

-- A posting with the default guard.
abbrev pub posting :
    LedgerTxnType → LedgerKey → Text → Option ℕ → List LedgerEntryInput → PostTxnInput
posting kind key currency actor entries = record {
  txn_type = kind;
  idempotency_key = key;
  currency = currency;
  entries = entries;
  actor_id = actor;
  enforce_non_negative = none;
}

-- A move between two accounts of one user.
abbrev pub transfer :
    ℕ → Text → LedgerAccountKind → LedgerAccountKind → Decimal → List LedgerEntryInput
transfer user currency source target amount =
    entry (user_account user currency source) (neg amount)
    ∷ entry (user_account user currency target) amount
    ∷ []

abbrev pub is_failed : SettlementState → Bool
is_failed SettlementState.failed = true
is_failed _ = false

unfoldable pub update_order : ℕ → (Order → Order) → List Order → List Order
update_order id f [] = []
update_order id f (o ∷ os) = (if o.id == id then f o else o) ∷ update_order id f os

unfoldable pub set_fill : ℕ → ℕ → List Execution → List Execution
set_fill id txn [] = []
set_fill id txn (e ∷ es) =
    (if e.id == id then record e { fill_txn_id = some txn } else e) ∷ set_fill id txn es

unfoldable pub reserve_input : Order → Text → PostTxnInput
reserve_input o currency =
    posting LedgerTxnType.reserve (LedgerKey.reserve_of o.id) currency (some o.user_id) (
      transfer o.user_id currency LedgerAccountKind.available LedgerAccountKind.reserved
        o.max_amount)

-- `reserveCash`
unfoldable pub reserve_cash : Order → Text → Store → Result (ℕ × Store)
reserve_cash o currency s = do
  (r, ledger) ← post_within (reserve_input o currency) s.ledger
  ok (
    r.txn.id,
    record s {
      ledger = ledger;
      orders = update_order o.id (λ x. record x { reserve_txn_id = some r.txn.id }) s.orders;
    },
  )

unfoldable pub release_input : Order → Text → Option ℕ → Decimal → PostTxnInput
release_input o currency actor remaining =
    posting LedgerTxnType.release (LedgerKey.release_of o.id) currency actor
      (transfer o.user_id currency LedgerAccountKind.reserved LedgerAccountKind.available remaining)

unfoldable pub sell_fill_input : Order → Execution → ℕ → Text → Option ℕ → PostTxnInput
sell_fill_input o e partner currency actor =
    posting LedgerTxnType.fill (LedgerKey.fill_of e.id) currency actor (
      entry (sdb_clearing partner currency) (neg e.net_amount)
      ∷ entry (user_account o.user_id currency LedgerAccountKind.settling) e.net_amount
      ∷ [])

unfoldable pub settlement_input : Order → Execution → Text → Option ℕ → PostTxnInput
settlement_input o e currency actor =
    posting LedgerTxnType.settlement (LedgerKey.settlement_of e.id) currency actor (
      transfer o.user_id currency LedgerAccountKind.settling LedgerAccountKind.available
        e.net_amount)

-- `postSellSettlement`
unfoldable pub post_sell_settlement :
    Order → Execution → Text → Option ℕ → Store → Result (ℕ × Store)
post_sell_settlement o e currency actor s = do
  (r, ledger) ← post_within (settlement_input o e currency actor) s.ledger
  ok (r.txn.id, record s { ledger = ledger })

-- `if (!amount.isZero()) entries.push(...)`
abbrev pub fee_entry : FeeCode → Text → Decimal → List LedgerEntryInput
fee_entry code currency amount =
    if eqb_ℤ amount zero_decimal then [] else entry (fee_account code currency) amount ∷ []

-- `roundMoney(commission.times(qty).dividedBy(quantity), currency)` divides with decimal.js: a
-- parameter, of the commission, the executed and the ordered quantity, and the currency.
module _ (prorate : Decimal → Decimal → Decimal → Text → Decimal) where
  -- `commissionFor`
  unfoldable pub commission_for : Order → Decimal → Text → Decimal
  commission_for o qty currency =
      if eqb_ℤ (commission_of o.fees) zero_decimal
      then zero_decimal
      else prorate (commission_of o.fees) qty o.quantity currency

  -- `buyDebit`
  unfoldable pub buy_debit : Order → Execution → Text → Decimal
  buy_debit o e currency =
      e.gross_amount +ℤ e.courtage +ℤ e.taxes +ℤ commission_for o e.quantity currency

  -- `consumedReserve`, in the default currency of `commissionFor`.
  unfoldable pub consumed_reserve : Order → List Execution → Decimal
  consumed_reserve o es = sum (
      map (λ e. buy_debit o e (letters "XAF"))
        (keep
          (λ e.
            (e.order_id == o.id) && (is_some e.fill_txn_id && not (is_failed e.settlement_state)))
          es))

  -- The entries of a BUY in `postFill`.
  unfoldable pub buy_entries : Order → Execution → ℕ → Text → List LedgerEntryInput
  buy_entries o e partner currency =
      entry (user_account o.user_id currency LedgerAccountKind.reserved)
        (neg (e.gross_amount +ℤ e.courtage +ℤ e.taxes +ℤ commission_for o e.quantity currency))
      ∷ entry (sdb_clearing partner currency) e.gross_amount
      ∷ (fee_entry FeeCode.courtage_sdb currency e.courtage
          ++ (fee_entry FeeCode.taxe currency e.taxes
              ++ fee_entry FeeCode.commission_alke currency (commission_for o e.quantity currency)))

  unfoldable pub buy_fill_input : Order → Execution → ℕ → Text → Option ℕ → PostTxnInput
  buy_fill_input o e partner currency actor =
      posting LedgerTxnType.fill (LedgerKey.fill_of e.id) currency actor
        (buy_entries o e partner currency)

  -- What a BUY had taken from its reserve before this execution.
  unfoldable pub consumed_before : Order → Execution → Text → List Execution → Decimal
  consumed_before o e currency es =
      consumed_reserve o es
      -ℤ (if is_some e.fill_txn_id then buy_debit o e currency else zero_decimal)

  -- `postFill`
  unfoldable pub post_fill : Order → Execution → ℕ → Text → Option ℕ → Store → Result (ℕ × Store)
  post_fill o e partner currency actor s = do
    (r, ledger) ← (elim o.side [
      | buy ↦ do
        throw_if
            (ltb_ℤ o.max_amount
              (consumed_before o e currency s.executions +ℤ buy_debit o e currency))
            (bad_request "Montant supérieur à la réserve restante de l’ordre.")
        post_within (buy_fill_input o e partner currency actor) s.ledger
      | sell ↦ post_within (sell_fill_input o e partner currency actor) s.ledger
    ])
    ok (r.txn.id, record s { ledger = ledger; executions = set_fill e.id r.txn.id s.executions })

  -- The BUY side of `releaseRemaining`; the SELL side is `Positions.unreserve_shares`.
  unfoldable pub release_remaining : Order → Text → Option ℕ → Store → Result Store
  release_remaining o currency actor s =
      let remaining = o.max_amount -ℤ consumed_reserve o s.executions in
      let posted = post_within (release_input o currency actor remaining) s.ledger in
      if o.simulated || not (is_some o.reserve_txn_id)
      then ok s
      else if ltb_ℤ zero_decimal remaining
      then posted >>= (λ x. ok (record s { ledger = x.1 }))
      else ok s

  unfoldable pub fail_release_input : Order → Execution → Text → Option ℕ → PostTxnInput
  fail_release_input o e currency actor =
      posting LedgerTxnType.release (LedgerKey.settlement_fail_release_of e.id) currency actor (
        transfer o.user_id currency LedgerAccountKind.reserved LedgerAccountKind.available
          (buy_debit o e currency))

  -- `reverseFill`
  unfoldable pub reverse_fill : Order → Execution → Text → Option ℕ → Store → Result Store
  reverse_fill o e currency actor s = elim e.fill_txn_id [
    | none ↦ ok s
    | some txn ↦ do
      (r, ledger) ← reverse_in txn actor s.ledger
      (elim o.side [
        | sell ↦ ok (record s { ledger = ledger })
        | buy ↦ do
          (r', ledger') ← post_within (fail_release_input o e currency actor) ledger
          ok (record s { ledger = ledger' })
      ])
  ]
