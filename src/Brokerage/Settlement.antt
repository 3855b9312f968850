-- ===== src/Brokerage/Settlement.antt =====
-- Settlement of executions: src/modules/brokerage/settlement.service.ts. One turn of the loop of
-- `settleDue` is one transaction, as is `failSettlement`; a result that is an error leaves the tables
-- as they were. Dates, alerts, events and `settlementTxnId` are only stored and are left out.
pub mod Once
mod Tests
use alke_finance_backend.Base.{
  ℕ, ◌==◌, ◌+ℤ◌, ◌-ℤ◌, Bool, true, false, not, ◌&&◌, Option, none, some, List, [], ◌∷◌, map, keep,
  find, Text, Result, ok, err, ◌>>=◌, bad_request, not_found, if◌then◌else◌,
}
use alke_finance_backend.Money.{Decimal, sum}
use alke_finance_backend.Brokerage.OrderLedger.{
  OrderSide, buy, sell, SettlementState, unsettled, settling, settled, failed, Order, Execution,
  Store, is_failed, post_sell_settlement, reverse_fill, update_order,
}
use alke_finance_backend.Brokerage.OrderLedger.Positions.{
  Position, of_user, greatest_zero, update_positions, unreserve_shares, settle_buy_shares,
  settle_sell_shares,
}

-- The tables of the service.
pub record World : Type 0 where
  pub store : Store
  pub positions : List Position

unfoldable pub set_settlement : ℕ → SettlementState → List Execution → List Execution
set_settlement id state [] = []
set_settlement id state (e ∷ es) =
    (if e.id == id then record e { settlement_state = state } else e) ∷ set_settlement id state es

-- UNSETTLED or SETTLING
abbrev pub is_due : SettlementState → Bool
is_due unsettled = true
is_due settling = true
is_due settled = false
is_due failed = false

-- Whether the `updateMany` that claims an execution counts a row.
unfoldable pub claimable : ℕ → List Execution → Bool
claimable id es = elim (find (λ e. e.id == id) es) [
  | none ↦ false
  | some e ↦ is_due e.settlement_state
]

abbrev pub with_state : ℕ → SettlementState → World → World
with_state id state w = record w {
  store = record (w.store) { executions = set_settlement id state w.store.executions };
}

-- The delivery of a claimed execution.
unfoldable pub deliver : Order → Execution → Text → Option ℕ → World → Result World
deliver o e currency actor w = if o.simulated then ok w else (elim o.side [
  | buy ↦
      ok (record w {
        positions = settle_buy_shares o.user_id o.instrument_id e.quantity w.positions;
      })
  | sell ↦ do
    (txn, store) ← post_sell_settlement o e currency actor w.store
    ok (record {
      store = store;
      positions = settle_sell_shares o.user_id o.instrument_id e.quantity w.positions;
    })
])

-- The transaction of `settleDue`: whether the execution was settled, and the tables.
unfoldable pub settle : Order → Execution → Text → Option ℕ → World → Result (Bool × World)
settle o e currency actor w =
    let delivered = deliver o e currency actor (with_state e.id settling w) in
    if claimable e.id w.store.executions
    then delivered >>= (λ w'. ok (true, with_state e.id settled w'))
    else ok (false, w)

module _ (prorate : Decimal → Decimal → Decimal → Text → Decimal) where
  -- The quantity of the executions of an order that did not fail.
  unfoldable pub standing_quantity : ℕ → List Execution → Decimal
  standing_quantity order es = sum (
      map (λ e. e.quantity)
        (keep (λ e. (e.order_id == order) && not (is_failed e.settlement_state)) es))

  -- The position's part of `failSettlement`.
  unfoldable pub undo_shares : Order → Execution → List Position → List Position
  undo_shares o e ps = if o.simulated then ps else (elim o.side [
    | buy ↦
        update_positions (of_user o.user_id o.instrument_id)
          (λ p. record p { pending_quantity = greatest_zero (p.pending_quantity -ℤ e.quantity) }) ps
    | sell ↦ unreserve_shares o.user_id o.instrument_id e.quantity ps
  ])

  -- `failSettlement` of an execution that is neither settled nor failed; the average price and the
  -- status of the order are left out of the row.
  unfoldable pub fail_due : Order → Execution → Text → Option ℕ → World → Result World
  fail_due o e currency actor w = do
    store ← reverse_fill prorate o e currency actor w.store
    let es = set_settlement e.id failed store.executions
    ok (record {
      store = record store {
        executions = es;
        orders =
            update_order o.id (λ x. record x { filled_quantity = standing_quantity o.id es })
              store.orders;
      };
      positions = undo_shares o e w.positions;
    })

  -- `failSettlement`, for an execution that was found, with a reason.
  unfoldable pub fail_settlement : Order → Execution → Text → Option ℕ → World → Result World
  fail_settlement o e currency actor w = elim e.settlement_state [
    | settled ↦ err (bad_request "Cette exécution est déjà réglée.")
    | failed ↦ ok w
    | unsettled ↦ fail_due o e currency actor w
    | settling ↦ fail_due o e currency actor w
  ]
