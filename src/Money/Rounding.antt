-- ===== src/Money/Rounding.antt =====
-- Rounding of amounts (src/common/money.ts).
use alke_finance_backend.Base.{
  ℕ, suc, ◌+◌, ◌*◌, ◌/◌, ◌%◌, ◌≤◌, ◌<◌, ◌≡◌, ◌↔◌, ◌⊎◌, ap, ℤ, pos, negsuc, neg, abs, ◌-ℤ◌, arith,
  Text,
}
use alke_finance_backend.Money.{Decimal, minor_unit, round_to, round_money}

pub minor_unit_cases : (c : Text) → (minor_unit c ≡ 10000) ⊎ (minor_unit c ≡ 100)
unfolding minor_unit
minor_unit_cases c = ground arith

-- The nearest multiple: within half a unit.
near : (u n : ℕ) → 0 < u → (n ≤ (n + u / 2) / u * u + u / 2) × ((n + u / 2) / u * u ≤ n + u / 2)
near u n h = grind arith

round_to-near : (u : ℕ) (a : ℤ) → 0 < u → 2 * abs (round_to u a -ℤ a) ≤ u
unfolding round_to ◌-ℤ◌ neg
round_to-near u (pos n) h = ground (arith, near u n h)
round_to-near u (negsuc n) h = ground (arith, near u (suc n) h)

multiple : (q u : ℕ) → 0 < u → q * u % u ≡ 0
multiple q u h = grind arith

abs-neg_pos : (n : ℕ) → abs (neg (pos n)) ≡ n
unfolding neg
abs-neg_pos n = ground arith

round_to-multiple : (u : ℕ) (a : ℤ) → 0 < u → abs (round_to u a) % u ≡ 0
unfolding round_to
round_to-multiple u (pos n) h = ground (arith, multiple ((n + u / 2) / u) u h)
round_to-multiple u (negsuc n) h =
    rw (abs-neg_pos ((suc n + u / 2) / u * u)) (multiple ((suc n + u / 2) / u) u h)

exact : (u n : ℕ) → 0 < u → n % u ≡ 0 → (n + u / 2) / u * u ≡ n
exact u n h m = grind arith

round_to_exact : (u : ℕ) (a : ℤ) → 0 < u → abs a % u ≡ 0 → round_to u a ≡ a
unfolding round_to neg
round_to_exact u (pos n) h m = ap pos (exact u n h m)
round_to_exact u (negsuc n) h m = rw (exact u (suc n) h m) (ground arith)

minor_unit_pos : (c : Text) → 0 < minor_unit c
minor_unit_pos c = omega (arith, minor_unit_cases c)

-- Rounding an amount gives a whole number of minor units of the currency that is at most half a
-- unit away, and an amount is left alone exactly when it is a whole number of minor units.
pub round_money_nearest :
    (a : Decimal) (c : Text)
    → (abs (round_money a c) % minor_unit c ≡ 0)
      × (2 * abs (round_money a c -ℤ a) ≤ minor_unit c)
      × ((round_money a c ≡ a) ↔ (abs a % minor_unit c ≡ 0))
unfolding round_money
round_money_nearest a c =
    let p : 0 < minor_unit c = minor_unit_pos c in
    let r : abs (round_to (minor_unit c) a) % minor_unit c ≡ 0 =
      round_to-multiple (minor_unit c) a p in
    (r, round_to-near (minor_unit c) a p, (λ e. rw e at r, round_to_exact (minor_unit c) a p))
