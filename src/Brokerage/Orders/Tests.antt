-- ===== src/Brokerage/Orders/Tests.antt =====
-- Runs of the order service: a quote, a cancellation, a review and a plan.
use native.Mathlib.Decide.{ℕ_discrete}
use alke_finance_backend.Base.{
  ◌≡◌, refl, ℕ, pos, pos_part, ◌*◌, ◌/◌, [], ◌∷◌, none, some, Text, letters, ok, err, bad_request,
  is_ok, true, false, Text-discrete, ◌+ℤ◌, ◌-ℤ◌, ◌*ℤ◌, to_upper,
}
use alke_finance_backend.Money.{
  Decimal, whole, round_product, round_to, minor_unit, scale_down, sum, plus_all, decimals_for,
}
use alke_finance_backend.Fees.{compute_fees, compute_fee, active_schedule, find_latest}
use alke_finance_backend.Policy.Facts.{InstrumentRow}
use alke_finance_backend.Brokerage.OrderState.{
  OrderStatus-discrete, pending, executed, cancelled, transitions, can_transition, is_final,
}
use alke_finance_backend.Brokerage.OrderLedger.{buy, sell, Order, update_order}
use alke_finance_backend.Brokerage.OrderLedger.Positions.{unreserve_shares, update_positions}
use alke_finance_backend.Brokerage.Settlement.{World}
use alke_finance_backend.Brokerage.Batches.{claim_order, release}
use alke_finance_backend.Brokerage.Batches.Fills.{find_order}
use alke_finance_backend.Brokerage.Orders.Placing.{quote}
use alke_finance_backend.Brokerage.Orders.Changing.{check_review, cancel, claim_and_release}
use alke_finance_backend.Brokerage.Orders.CancelOnce.{cancel_once}
use alke_finance_backend.Brokerage.Orders.Plans.{weekly, create_recurring_plan}

abbrev prorate : Decimal → Decimal → Decimal → Text → Decimal
prorate c q n currency = pos (pos_part c * pos_part q / pos_part n)

abbrev currency_of : ℕ → Text
currency_of n = letters "XAF"

abbrev order : Order
order = record {
  id = 1;
  user_id = 7;
  instrument_id = 3;
  market_id = 1;
  partner_id = some 9;
  batch_id = none;
  side = sell;
  quantity = whole 10;
  max_amount = whole 10000;
  fees = [];
  status = pending;
  simulated = false;
  filled_quantity = whole 0;
  avg_executed_price = none;
  reserve_txn_id = none;
  expires_after_sessions = 1;
  transmitted_at = none;
}

-- Twelve shares, ten of them reserved; none after the cancellation.
abbrev world_of : Order → Decimal → World
world_of o reserved = record {
  store = record {
    ledger = record { accounts = []; txns = []; entries = []; next_id = 1 };
    orders = o ∷ [];
    executions = [];
  };
  positions =
      record {
        user_id = 7;
        instrument_id = 3;
        quantity = whole 12;
        pending_quantity = whole 0;
        reserved_quantity = reserved;
        avg_cost = whole 9;
      }
      ∷ [];
}

cancelled_once :
    cancel currency_of prorate (λ w. w) 7 1 (world_of order (whole 10))
    ≡ ok (world_of (record order { status = cancelled }) (whole 0))
unfolding cancel find_order claim_and_release claim_order update_order release unreserve_shares
    update_positions OrderStatus-discrete ◌+ℤ◌ ◌-ℤ◌
cancelled_once = refl

cancel_once_example :
    is_ok (
      cancel currency_of prorate
        (λ w. world_of (record order { status = cancelled }) (whole 0))
        7
        1
        (world_of order (whole 10)))
    ≡ false
cancel_once_example =
    cancel_once currency_of prorate (λ w. w)
      (λ w. world_of (record order { status = cancelled }) (whole 0)) 7 7 1
      (world_of order (whole 10)) (world_of (record order { status = cancelled }) (whole 0))
      (world_of order (whole 10)) cancelled_once (λ h. h)

-- A pending order cannot be executed by a review.
no_jump :
    check_review 1
      (record {
        status = executed;
        executed_price = some (whole 9);
        executed_quantity = some (whole 10);
        sdb_ref = none;
        reason = [];
      })
      (order ∷ [])
    ≡ err (bad_request "Transition interdite.")
unfolding check_review find_order is_final can_transition transitions OrderStatus-discrete
no_jump = refl

abbrev instrument : InstrumentRow
instrument = record {
  id = 3;
  market_id = 1;
  currency = letters "XAF";
  facts = record { is_active = true; last_price = some (pos 4_500_500); lot_size = pos 1 };
}

-- Three shares at 450.05 francs cost 1350 francs.
quoted :
    quote instrument buy (whole 3) 0 []
    ≡ ok (record {
      currency = letters "XAF";
      estimated_price = pos 4_500_500;
      estimated_total = whole 1350;
      fees = [];
      fee_total = whole 0;
      max_amount = whole 1350;
    })
unfolding quote round_product round_to minor_unit scale_down sum plus_all decimals_for compute_fees
    compute_fee active_schedule find_latest Text-discrete ◌+ℤ◌ ◌*ℤ◌ to_upper ℕ_discrete
quoted = refl

plan_in_francs :
    is_ok (create_recurring_plan 1 7 3 (whole 1000) (letters "xaf") weekly 0 (instrument ∷ []) [])
    ≡ true
unfolding create_recurring_plan Text-discrete to_upper ℕ_discrete
plan_in_francs = refl
