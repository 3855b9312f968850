-- ===== src/Fees.antt =====
-- Fee schedules and the fees of an order: src/modules/fees/fees.service.ts, fees.types.ts.
-- A fee type is a fee code of the ledger; times are numbers. Labels and the audit log are left out.
pub mod Schedule
mod Tests
use alke_finance_backend.Base.{
  ℕ, suc, ◌*◌, ◌==◌, leb, ltb, ltb_ℤ, leb_ℤ, Bool, true, false, not, ◌&&◌, Option, none, some,
  is_some, List, [], ◌∷◌, ◌++◌, Text, find, Result, ok, err, bad_request, not_found, ◌>>◌, throw_if,
  same, if◌then◌else◌,
}
use alke_finance_backend.Money.{Decimal, whole, zero_decimal, round_money, percentage_fee}
use alke_finance_backend.Ledger.Types.{FeeCode, courtage_sdb, commission_alke, taxe}

pub record FeeSchedule : Type 0 where
  pub id : ℕ
  pub market_id : Option ℕ
  pub fee_type : FeeCode
  pub is_percentage : Bool
  pub value : Decimal
  pub min_amount : Option Decimal
  pub max_amount : Option Decimal
  pub effective_from : ℕ
  pub effective_to : Option ℕ
  pub is_active : Bool

unfoldable pub FeeCode-discrete : Discrete FeeCode
FeeCode-discrete = hlevel

-- `FeeLine`
pub record FeeLine : Type 0 where
  pub code : FeeCode
  pub amount : Decimal
  pub schedule_id : ℕ

-- `ORDER_FEE_TYPES`
abbrev pub order_fee_types : List FeeCode
order_fee_types = courtage_sdb ∷ commission_alke ∷ taxe ∷ []

abbrev pub at_least : Option Decimal → Decimal → Decimal
at_least none fee = fee
at_least (some min) fee = if ltb_ℤ fee min then min else fee

abbrev pub at_most : Option Decimal → Decimal → Decimal
at_most none fee = fee
at_most (some max) fee = if ltb_ℤ max fee then max else fee

-- `applySchedule`
unfoldable pub apply_schedule : FeeSchedule → Decimal → Text → Decimal
apply_schedule s gross currency =
    if s.is_percentage
    then percentage_fee gross s.value currency s.min_amount s.max_amount
    else round_money (at_most s.max_amount (at_least s.min_amount s.value)) currency

-- `market_id` of a row against the wanted one.
abbrev pub same_market : Option ℕ → Option ℕ → Bool
same_market none none = true
same_market (some a) (some b) = a == b
same_market none (some b) = false
same_market (some a) none = false

abbrev pub still : ℕ → Option ℕ → Bool
still at none = true
still at (some end) = ltb at end

-- `window`, with the market
unfoldable pub in_window : FeeCode → Option ℕ → ℕ → FeeSchedule → Bool
unfolding FeeCode-discrete
in_window fee_type market at s =
    same FeeCode-discrete s.fee_type fee_type
    && (s.is_active
        && (leb s.effective_from at && (still at s.effective_to && same_market s.market_id market)))

-- The later of two schedules; the first of two that begin together.
abbrev pub later : FeeSchedule → Option FeeSchedule → Option FeeSchedule
later s none = some s
later s (some t) = if ltb s.effective_from t.effective_from then some t else some s

-- `findFirst({ where, orderBy: { effectiveFrom: 'desc' } })`
unfoldable pub find_latest : (FeeSchedule → Bool) → List FeeSchedule → Option FeeSchedule
find_latest test [] = none
find_latest test (s ∷ ss) = let rest = find_latest test ss in if test s then later s rest else rest

-- `activeSchedule`
unfoldable pub active_schedule : FeeCode → Option ℕ → ℕ → List FeeSchedule → Option FeeSchedule
active_schedule fee_type none at ss = find_latest (in_window fee_type none at) ss
active_schedule fee_type (some market) at ss =
    elim (find_latest (in_window fee_type (some market) at) ss) [
      | some specific ↦ some specific
      | none ↦ find_latest (in_window fee_type none at) ss
    ]

-- `computeFee`
unfoldable pub compute_fee :
    FeeCode → Option ℕ → Decimal → Text → ℕ → List FeeSchedule → Option FeeLine
compute_fee fee_type market gross currency at ss = elim (active_schedule fee_type market at ss) [
  | none ↦ none
  | some s ↦
      if leb_ℤ (apply_schedule s gross currency) zero_decimal
      then none
      else some (record {
        code = s.fee_type;
        amount = apply_schedule s gross currency;
        schedule_id = s.id;
      })
]

abbrev pub push : Option FeeLine → List FeeLine → List FeeLine
push none ls = ls
push (some l) ls = l ∷ ls

unfoldable pub compute_fees :
    List FeeCode → ℕ → Decimal → Text → ℕ → List FeeSchedule → List FeeLine
compute_fees [] market gross currency at ss = []
compute_fees (t ∷ ts) market gross currency at ss =
    push (compute_fee t (some market) gross currency at ss)
      (compute_fees ts market gross currency at ss)

-- `computeOrderFees`
abbrev pub compute_order_fees : ℕ → Decimal → Text → ℕ → List FeeSchedule → List FeeLine
compute_order_fees = compute_fees order_fee_types

abbrev pub above : Option Decimal → Option Decimal → Bool
above (some min) (some max) = ltb_ℤ max min
above none m = false
above (some min) none = false

-- The tests of `create`, on the row to be created.
unfoldable pub check_schedule : FeeSchedule → Result FeeSchedule
check_schedule s = do
  throw_if (ltb_ℤ s.value zero_decimal)
      (bad_request "La valeur d’un frais ne peut pas être négative.")
  throw_if (s.is_percentage && ltb_ℤ (whole 100) s.value)
      (bad_request "Un pourcentage ne peut pas dépasser 100.")
  throw_if (above s.min_amount s.max_amount)
      (bad_request "Le minimum ne peut pas dépasser le maximum.")
  ok s
