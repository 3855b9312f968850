-- ===== src/Brokerage/OrderState.antt =====
-- src/modules/brokerage/order-state.ts: the state machine of an order, and its fill counters.
pub mod Graph
pub mod Fills
mod Tests
use alke_finance_backend.Base.{
  ℕ, ℤ, pos, ◌+ℤ◌, ◌-ℤ◌, ◌*ℤ◌, eqb_ℤ, ltb_ℤ, Bool, true, false, not, Option, none, some, List, [],
  ◌∷◌, any, Result, ok, err, plain, ◌>>=◌, ◌>>◌, throw_if, same, if◌then◌else◌,
}
use alke_finance_backend.Money.{Decimal, zero_decimal}

pub data OrderStatus : Type 0 where
  pending transmitted acknowledged partially_executed executed rejected cancelled expired adjusted :
      OrderStatus

unfoldable pub OrderStatus-discrete : Discrete OrderStatus
OrderStatus-discrete = hlevel

-- `set.has(status)`
abbrev pub has : List OrderStatus → OrderStatus → Bool
has statuses s = any (same OrderStatus-discrete s) statuses

-- `FINAL_STATUSES`
abbrev pub final_statuses : List OrderStatus
final_statuses = executed ∷ rejected ∷ cancelled ∷ expired ∷ adjusted ∷ []

-- `OPEN_AT_SDB`
abbrev pub open_at_sdb : List OrderStatus
open_at_sdb = transmitted ∷ acknowledged ∷ partially_executed ∷ []

-- `TRANSITIONS`
unfoldable pub transitions : OrderStatus → List OrderStatus
transitions pending = transmitted ∷ cancelled ∷ rejected ∷ adjusted ∷ []
transitions transmitted =
    acknowledged ∷ rejected ∷ partially_executed ∷ executed ∷ expired ∷ adjusted ∷ []
transitions acknowledged = partially_executed ∷ executed ∷ expired ∷ rejected ∷ adjusted ∷ []
transitions partially_executed = partially_executed ∷ executed ∷ expired ∷ adjusted ∷ []
transitions executed = []
transitions rejected = []
transitions cancelled = []
transitions expired = []
transitions adjusted = []

-- `isFinal`
unfoldable pub is_final : OrderStatus → Bool
unfolding OrderStatus-discrete
is_final s = has final_statuses s

-- `canTransition`
unfoldable pub can_transition : OrderStatus → OrderStatus → Bool
unfolding OrderStatus-discrete transitions
can_transition source target = has (transitions source) target

-- `assertTransition`
unfoldable pub assert_transition : OrderStatus → OrderStatus → Result (Unit {0})
unfolding can_transition
assert_transition source target =
    throw_if (not (can_transition source target)) (plain "Transition interdite.")

-- `FillState`
pub record FillState : Type 0 where
  pub quantity : Decimal
  pub filled_quantity : Decimal
  pub avg_executed_price : Option Decimal

-- `FillResult`
pub record FillResult : Type 0 where
  pub filled_quantity : Decimal
  pub avg_executed_price : Decimal
  pub status : OrderStatus
  pub remaining : Decimal

abbrev pub price_or_zero : Option Decimal → Decimal
price_or_zero none = zero_decimal
price_or_zero (some p) = p

-- `dividedBy(b).toDecimalPlaces(4)` of a cost that counts 10^-8 by a quantity is decimal.js's: a
-- parameter, from the cost and the quantity to the average.
module _ (average : ℤ → Decimal → Decimal) where
  -- `applyFill`
  unfoldable pub apply_fill : FillState → Decimal → Decimal → Result FillResult
  apply_fill state q p = do
    throw_if (not (ltb_ℤ zero_decimal q)) (plain "Quantité exécutée invalide.")
    let filled = state.filled_quantity +ℤ q
    throw_if (ltb_ℤ state.quantity filled) (plain "Exécution supérieure à la quantité de l’ordre.")
    let prev_cost = state.filled_quantity *ℤ price_or_zero state.avg_executed_price
    let avg = average (prev_cost +ℤ q *ℤ p) filled
    let remaining = state.quantity -ℤ filled
    ok (record {
      filled_quantity = filled;
      avg_executed_price = avg;
      status = if eqb_ℤ remaining zero_decimal then executed else partially_executed;
      remaining = remaining;
    })

  -- `weightedAvgCost`
  unfoldable pub weighted_avg_cost : Decimal → Decimal → Decimal → Decimal → Decimal
  weighted_avg_cost held_qty avg_cost qty price =
      let total = held_qty +ℤ qty in
      if eqb_ℤ total zero_decimal
      then price
      else average (held_qty *ℤ avg_cost +ℤ qty *ℤ price) total
