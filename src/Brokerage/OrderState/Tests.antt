-- ===== src/Brokerage/OrderState/Tests.antt =====
-- An order for a hundred shares, filled in two executions.
use alke_finance_backend.Base.{
  ◌≡◌, ◌↔◌, ◌⊎◌, ◌<◌, refl, arith, ℤ, pos, pos_part, ◌/◌, ◌+ℤ◌, ◌≤ℤ◌, true, false, none, some, List,
  [], ◌∷◌, ok, ◌*ℤ◌, ◌-ℤ◌,
}
use alke_finance_backend.Money.{Decimal, whole}
use alke_finance_backend.Brokerage.OrderState.{
  OrderStatus, pending, transmitted, acknowledged, partially_executed, executed, is_final,
  assert_transition, transitions, OrderStatus-discrete, can_transition, FillState, FillResult,
  apply_fill, OrderStatus-discrete,
}
use alke_finance_backend.Brokerage.OrderState.Graph.{
  rank, Trail, stay, move, is_final_no_exit, Trail_forward, Trail_to_executed, Trail_final,
}
use alke_finance_backend.Brokerage.OrderState.Fills.{
  Filled, apply_fill-Filled, apply_fill_transition, apply_fills, quantities, apply_fills_bounded,
}

-- The average for costs and quantities that are not negative.
abbrev average : ℤ → Decimal → Decimal
average cost quantity = pos (pos_part cost / pos_part quantity)

abbrev order : FillState
order = record { quantity = whole 100; filled_quantity = whole 0; avg_executed_price = none }

abbrev first_fill : FillResult
first_fill = record {
  filled_quantity = whole 60;
  avg_executed_price = whole 1500;
  status = partially_executed;
  remaining = whole 40;
}

filled_first : apply_fill average order (whole 60) (whole 1500) ≡ ok first_fill
unfolding apply_fill ◌+ℤ◌ ◌*ℤ◌ ◌-ℤ◌
filled_first = refl

abbrev filled_order : FillState
filled_order = record {
  quantity = whole 100;
  filled_quantity = whole 100;
  avg_executed_price = some (whole 1540);
}

abbrev fills : List (Decimal × Decimal)
fills = (whole 60, whole 1500) ∷ (whole 40, whole 1600) ∷ []

filled_all : apply_fills average order fills ≡ ok filled_order
unfolding apply_fills apply_fill ◌+ℤ◌ ◌*ℤ◌
filled_all = refl

apply_fill-Filled_example : Filled order (whole 60) first_fill
apply_fill-Filled_example = apply_fill-Filled average order (whole 60) (whole 1500) filled_first

apply_fill_transition_example : can_transition acknowledged partially_executed ≡ true
unfolding OrderStatus-discrete
apply_fill_transition_example =
    apply_fill_transition average acknowledged order (whole 60) (whole 1500) refl filled_first

empty_fits : whole 0 ≤ℤ whole 100
empty_fits = omega arith

apply_fills_bounded_example :
    (filled_order.quantity ≡ order.quantity)
    × (filled_order.filled_quantity ≡ order.filled_quantity +ℤ quantities fills)
    × (filled_order.filled_quantity ≤ℤ order.quantity)
apply_fills_bounded_example = apply_fills_bounded average order fills empty_fits filled_all

sent : assert_transition pending transmitted ≡ ok tt
unfolding assert_transition can_transition transitions OrderStatus-discrete
sent = refl

done : assert_transition transmitted executed ≡ ok tt
unfolding assert_transition can_transition transitions OrderStatus-discrete
done = refl

abbrev life : Trail pending executed
life = move sent (move done stay)

Trail_forward_example : (pending ≡ executed) ⊎ (rank pending < rank executed)
Trail_forward_example = Trail_forward life

Trail_final_example : executed ≡ executed
unfolding is_final
Trail_final_example = Trail_final refl (stay)

still_open : is_final partially_executed ≡ false
unfolding is_final OrderStatus-discrete
still_open = refl

Trail_to_executed_example : Trail partially_executed executed
Trail_to_executed_example = Trail_to_executed partially_executed still_open

is_final_no_exit_example :
    (is_final executed ≡ true) ↔ ((t : OrderStatus) → can_transition executed t ≡ false)
is_final_no_exit_example = is_final_no_exit executed
