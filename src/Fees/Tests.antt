-- ===== src/Fees/Tests.antt =====
-- A market with its own commission, and a general tax.
use alke_finance_backend.Base.{
  ◌≡◌, ◌≤ℤ◌, refl, pos, true, false, none, some, List, [], ◌∷◌, All, letters, ◌*ℤ◌,
}
use alke_finance_backend.Money.{whole, percentage_fee, decimals_for, round_money}
use alke_finance_backend.Ledger.Types.{commission_alke, taxe}
use alke_finance_backend.Fees.{
  FeeSchedule, order_fee_types, active_schedule, find_latest, in_window, compute_fees, compute_fee,
  apply_schedule,
}
use alke_finance_backend.Fees.Schedule.{compute_fees-positive}

abbrev general : FeeSchedule
general = record {
  id = 1;
  market_id = none;
  fee_type = commission_alke;
  is_percentage = true;
  value = whole 2;
  min_amount = none;
  max_amount = none;
  effective_from = 10;
  effective_to = none;
  is_active = true;
}

abbrev own : FeeSchedule
own = record general { id = 2; market_id = some 5; value = whole 1; min_amount = some (whole 500) }

abbrev tax : FeeSchedule
tax = record general { id = 3; fee_type = taxe; is_percentage = false; value = whole 250 }

abbrev schedules : List FeeSchedule
schedules = general ∷ own ∷ tax ∷ []

-- One percent of 20 000 francs is less than the minimum.
lines :
    compute_fees order_fee_types 5 (whole 20000) (letters "XAF") 20 schedules
    ≡ record { code = commission_alke; amount = whole 500; schedule_id = 2 }
      ∷ record { code = taxe; amount = whole 250; schedule_id = 3 }
      ∷ []
unfolding compute_fees compute_fee active_schedule find_latest in_window apply_schedule
    percentage_fee ◌*ℤ◌ decimals_for round_money
lines = refl

compute_fees-positive_example :
    All
      (λ l. pos 1 ≤ℤ l.amount)
      (compute_fees order_fee_types 5 (whole 20000) (letters "XAF") 20 schedules)
compute_fees-positive_example =
    compute_fees-positive order_fee_types 5 (whole 20000) (letters "XAF") 20 schedules
