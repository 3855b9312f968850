-- ===== src/Brokerage/Orders/Plans.antt =====
-- Recurring plans: src/modules/brokerage/orders.service.ts.
use alke_finance_backend.Base.{
  ℕ, ◌+◌, ◌*◌, ◌==◌, ltb_ℤ, Bool, true, not, Option, none, some, List, [], ◌∷◌, ◌++◌, find, Text,
  Text-discrete, same, to_upper, Result, ok, bad_request, not_found, ◌>>=◌, ◌>>◌, throw_if,
  if◌then◌else◌,
}
use alke_finance_backend.Money.{Decimal, zero_decimal, round_money}
use alke_finance_backend.Policy.Facts.{InstrumentRow}
use alke_finance_backend.Brokerage.Orders.Placing.{find_or}

pub data Frequency : Type 0 where
  weekly monthly : Frequency

pub record RecurringPlan : Type 0 where
  pub id : ℕ
  pub user_id : ℕ
  pub instrument_id : ℕ
  pub amount : Decimal
  pub currency : Text
  pub frequency : Frequency
  pub active : Bool
  -- milliseconds of the epoch
  pub next_run_at : ℕ

abbrev pub days_of : Frequency → ℕ
days_of weekly = 7
days_of monthly = 30

-- `setUTCDate` adds whole days.
abbrev pub new_plan : ℕ → ℕ → InstrumentRow → Decimal → Text → Frequency → ℕ → RecurringPlan
new_plan fresh user i amount currency frequency now = record {
  id = fresh;
  user_id = user;
  instrument_id = i.id;
  amount = round_money amount currency;
  currency = currency;
  frequency = frequency;
  active = true;
  next_run_at = now + days_of frequency * 86_400_000;
}

-- `createRecurringPlan`, with the id that the database draws.
unfoldable pub create_recurring_plan :
    ℕ
    → ℕ
    → ℕ
    → Decimal
    → Text
    → Frequency
    → ℕ
    → List InstrumentRow
    → List RecurringPlan
    → Result (RecurringPlan × List RecurringPlan)
create_recurring_plan fresh user instrument amount currency frequency now instruments plans = do
  i ← find_or "Valeur introuvable." (find (λ i. i.id == instrument) instruments)
  throw_if (not (ltb_ℤ zero_decimal amount))
      (bad_request "Le montant doit être strictement positif.")
  throw_if (not (same Text-discrete (to_upper currency) i.currency))
      (bad_request "Cette valeur est cotée dans une autre devise.")
  let plan = new_plan fresh user i amount (to_upper currency) frequency now
  ok (plan, plans ++ plan ∷ [])

abbrev pub or_active : Option Bool → Bool → Bool
or_active none old = old
or_active (some b) old = b

unfoldable pub set_active : ℕ → Bool → List RecurringPlan → List RecurringPlan
set_active id active [] = []
set_active id active (p ∷ ps) =
    (if p.id == id then record p { active = active } else p) ∷ set_active id active ps

-- `updateRecurringPlan`
unfoldable pub update_recurring_plan :
    ℕ → ℕ → Option Bool → List RecurringPlan → Result (List RecurringPlan)
update_recurring_plan user id active plans = do
  p ← find_or "Plan introuvable." (find (λ p. p.id == id) plans)
  throw_if (not (p.user_id == user)) (not_found "Plan introuvable.")
  ok (set_active id (or_active active p.active) plans)
