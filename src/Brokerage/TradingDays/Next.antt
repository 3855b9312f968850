-- ===== src/Brokerage/TradingDays/Next.antt =====
-- The next trading day, and the count of trading days (src/modules/brokerage/trading-days.ts).
use alke_finance_backend.Base.{
  ℕ, zero, suc, ◌+◌, ◌-◌, ◌≤◌, ◌<◌, ◌≡◌, ◌⊎◌, inl, inr, refl, ◌∙◌, ap, arith, true, false,
}
use alke_finance_backend.Brokerage.TradingDays.{
  is_trading_day, skip_closed, next_trading_day, count_days,
}

-- How far the next trading day is, and that the days before it are none.
next_cases :
    (d : ℕ)
    → ((next_trading_day d ≡ d + 1) × (is_trading_day (d + 1) ≡ true))
      ⊎ (((next_trading_day d ≡ d + 2)
            × (is_trading_day (d + 1) ≡ false)
            × (is_trading_day (d + 2) ≡ true))
          ⊎ ((next_trading_day d ≡ d + 3)
              × (is_trading_day (d + 1) ≡ false)
              × (is_trading_day (d + 2) ≡ false)
              × (is_trading_day (d + 3) ≡ true)))
unfolding next_trading_day skip_closed
next_cases d = ground arith

pub count_one :
    (n d : ℕ) → is_trading_day d ≡ true → count_days (suc n) d ≡ suc (count_days n (d + 1))
unfolding count_days
count_one n d h = rw h (omega arith)

count_none : (n d : ℕ) → is_trading_day d ≡ false → count_days (suc n) d ≡ count_days n (d + 1)
unfolding count_days
count_none n d h = rw h (omega arith)

-- `nextTradingDay` answers the first trading day after the given day: a later day that is a trading
-- day, with none in between.
pub next_trading_day_least :
    (d : ℕ)
    → (d < next_trading_day d)
      × (is_trading_day (next_trading_day d) ≡ true)
      × (count_days (next_trading_day d - d - 1) (d + 1) ≡ 0)
unfolding count_days
next_trading_day_least d = elim (next_cases d) [
  | inl (e, t) ↦ rw e (omega arith, t, ground arith)
  | inr (inl (e, a, t)) ↦ rw e (omega arith, t, ground arith)
  | inr (inr (e, a, b, t)) ↦ rw e (omega arith, t, ground arith)
]

count_same : {n m a b : ℕ} → n ≡ m → a ≡ b → count_days n a ≡ count_days m b
count_same {n} {m} {a} {b} e f = ap (λ x. count_days x a) e ∙ ap (count_days m) f

-- Counting up to the next trading day, and from it on.
pub count_after : (n d : ℕ) → d + n < next_trading_day d → count_days n (d + 1) ≡ 0
unfolding count_days
count_after zero d h = refl
count_after (suc zero) d h = ground (arith, next_cases d)
count_after (suc (suc zero)) d h = ground (arith, next_cases d)
count_after (suc (suc (suc n))) d h = absurd (ground (arith, next_cases d))

pub count_from_next :
    (d u : ℕ)
    → next_trading_day d ≤ u
    → count_days (u - d) (d + 1) ≡ count_days (suc (u - next_trading_day d)) (next_trading_day d)
count_from_next d u h = elim (next_cases d) [
  | inl (e, t) ↦ rw e (count_same (omega (arith, rw e at h)) refl)
  | inr (inl (e, a, t)) ↦ rw e (
      count_same (omega (arith, rw e at h)) refl
      ∙ count_none (suc (u - (d + 2))) (d + 1) a
      ∙ count_same refl (omega arith))
  | inr (inr (e, a, b, t)) ↦ rw e (
      count_same (omega (arith, rw e at h)) refl
      ∙ count_none (suc (suc (u - (d + 3)))) (d + 1) a
      ∙ count_same refl (omega arith)
      ∙ count_none (suc (u - (d + 3))) (d + 2) b
      ∙ count_same refl (omega arith))
]

pub next_mono : (a b : ℕ) → a ≤ b → next_trading_day a ≤ next_trading_day b
unfolding next_trading_day skip_closed
next_mono a b h = ground arith

-- The next trading day comes no later than any that follows.
pub next_reach : (a b : ℕ) → a < b → is_trading_day b ≡ true → next_trading_day a ≤ b
unfolding next_trading_day skip_closed
next_reach a b h t = ground arith
