-- ===== src/Fees/Schedule.antt =====
-- Which schedule applies, and the lines of an order's fees (src/modules/fees/fees.service.ts).
use alke_finance_backend.Base.{
  ℕ, ◌≤◌, ◌<◌, ◌≡◌, subst, inl, inr, arith, pos, ◌≤ℤ◌, leb_ℤ, Bool, true, false, Bool-cases, Option,
  Option-cases, none, some, List, [], ◌∷◌, All, Text,
}
use alke_finance_backend.Money.{Decimal, zero_decimal}
use alke_finance_backend.Ledger.Types.{FeeCode}
use alke_finance_backend.Fees.{
  FeeSchedule, FeeLine, apply_schedule, active_schedule, compute_fee, compute_fees,
}

line_eq : {a b : FeeLine} → some a ≡ some b → a ≡ b
line_eq h = cc

-- The market of a schedule is the wanted one, or there is none on either side.
abbrev pub IsFor : Option ℕ → Option ℕ → Type 0
IsFor none none = Unit
IsFor (some a) (some b) = a ≡ b
IsFor _ _ = ⊥

abbrev pub EndsAfter : ℕ → Option ℕ → Type 0
EndsAfter at none = Unit
EndsAfter at (some end) = at < end

-- The schedule applies to a fee type of a market at a time.
pub record Applies (fee_type : FeeCode) (market : Option ℕ) (at : ℕ) (s : FeeSchedule)
    : Type 0 where
  pub for_type : s.fee_type ≡ fee_type
  pub active : s.is_active ≡ true
  pub begun : s.effective_from ≤ at
  pub not_ended : EndsAfter at s.effective_to
  pub for_market : IsFor s.market_id market

-- The row satisfies the test, and no row that does begins later.
record IsNewest (test : FeeSchedule → Bool) (ss : List FeeSchedule) (r : FeeSchedule) : Type 0 where
  passes : test r ≡ true
  newest : All (λ s. test s ≡ true → s.effective_from ≤ r.effective_from) ss

-- The row applies, and no row that does begins later.
abbrev pub IsCurrent : FeeCode → Option ℕ → ℕ → List FeeSchedule → FeeSchedule → Type 0
IsCurrent fee_type market at ss r =
    Applies fee_type market at r
    × All (λ s. Applies fee_type market at s → s.effective_from ≤ r.effective_from) ss

positive : (a : Decimal) → leb_ℤ a zero_decimal ≡ false → pos 1 ≤ℤ a
positive a h = ground arith

compute_fee-positive :
    (t : FeeCode) (market : Option ℕ) (gross : Decimal) (currency : Text) (at : ℕ)
    (ss : List FeeSchedule) (l : FeeLine)
    → compute_fee t market gross currency at ss ≡ some l
    → pos 1 ≤ℤ l.amount
unfolding compute_fee
compute_fee-positive t market gross currency at ss l h =
    elim (Option-cases (active_schedule t market at ss)) [
      | inl absent ↦ cc (rw (absent, compute_fee) at h)
      | inr (s, found) ↦ elim (Bool-cases (leb_ℤ (apply_schedule s gross currency) zero_decimal)) [
        | inl e ↦ cc (rw e at (rw (found, compute_fee) at h))
        | inr e ↦
            subst (λ x. pos 1 ≤ℤ x.amount) (line_eq (rw e at (rw (found, compute_fee) at h)))
              (positive (apply_schedule s gross currency) e)
      ]
    ]

-- Every fee line of an order, whichever fee types are asked for, has a positive amount.
pub compute_fees-positive :
    (ts : List FeeCode) (market : ℕ) (gross : Decimal) (currency : Text) (at : ℕ)
    (ss : List FeeSchedule)
    → All (λ l. pos 1 ≤ℤ l.amount) (compute_fees ts market gross currency at ss)
unfolding compute_fees
compute_fees-positive [] market gross currency at ss = tt
compute_fees-positive (t ∷ ts) market gross currency at ss =
    let rest = compute_fees-positive ts market gross currency at ss in
    elim (Option-cases (compute_fee t (some market) gross currency at ss)) [
      | inl absent ↦ rw absent rest
      | inr (l, found) ↦
          rw found (compute_fee-positive t (some market) gross currency at ss l found, rest)
    ]
