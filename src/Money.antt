-- ===== src/Money.antt =====
-- src/common/money.ts: decimals and their rounding to a currency's minor unit.
-- A `Prisma.Decimal` is an integer number of ten-thousandths, the finest scale of a column
-- (NUMERIC(18, 4)); sums, differences and comparisons are exact there, as decimal.js's are up to
-- its twenty significant digits. A product of two decimals is an integer number of 10^-8.
pub mod Rounding
mod Tests
use alke_finance_backend.Base.{
  ℕ, suc, ◌==◌, ◌+◌, ◌*◌, ◌/◌, ℤ, pos, negsuc, neg, ◌+ℤ◌, ◌*ℤ◌, pos_part, neg_part, ltb_ℤ, Bool,
  ◌||◌, Option, none, some, List, [], ◌∷◌, Text, letters, Text-discrete, same, any, to_upper,
  if◌then◌else◌,
}

abbrev pub Decimal : Type 0
Decimal = ℤ

-- `D(n)` of a whole number.
abbrev pub whole : ℕ → Decimal
whole n = pos (n * 10000)

-- `ZERO`
abbrev pub zero_decimal : Decimal
zero_decimal = pos 0

-- `ZERO_DECIMAL_CURRENCIES`
abbrev pub zero_decimal_currencies : List Text
zero_decimal_currencies =
    letters "XAF"
    ∷ letters "XOF"
    ∷ letters "GNF"
    ∷ letters "RWF"
    ∷ letters "UGX"
    ∷ letters "JPY"
    ∷ letters "KRW"
    ∷ []

unfoldable pub decimals_for : Text → ℕ
unfolding Text-discrete to_upper
decimals_for currency =
    if any (same Text-discrete (to_upper currency)) zero_decimal_currencies then 0 else 2

-- The minor unit of a currency, in ten-thousandths.
unfoldable pub minor_unit : Text → ℕ
minor_unit currency = if decimals_for currency == 0 then 10000 else 100

-- `toDecimalPlaces(_, ROUND_HALF_UP)`: to the nearest multiple of a unit, halves away from zero.
unfoldable pub round_to : ℕ → ℤ → ℤ
round_to unit (pos n) = pos ((n + unit / 2) / unit * unit)
round_to unit (negsuc n) = neg (pos ((suc n + unit / 2) / unit * unit))

-- `roundMoney`
unfoldable pub round_money : Decimal → Text → Decimal
unfolding round_to minor_unit
round_money amount currency = round_to (minor_unit currency) amount

-- From 10^-8 to 10^-4, for a value that is a whole number of ten-thousandths.
unfoldable pub scale_down : ℤ → ℤ
scale_down (pos n) = pos (n / 10000)
scale_down (negsuc n) = neg (pos (suc n / 10000))

-- `roundMoney` of an exact product, which counts 10^-8.
unfoldable pub round_product : ℤ → Text → Decimal
unfolding round_to minor_unit scale_down
round_product x currency = scale_down (round_to (minor_unit currency * 10000) x)

-- `values.reduce((acc, v) => acc.plus(v), acc)`
unfoldable pub plus_all : Decimal → List Decimal → Decimal
plus_all acc [] = acc
plus_all acc (v ∷ vs) = plus_all (acc +ℤ v) vs

-- `sum`
unfoldable pub sum : List Decimal → Decimal
sum = plus_all zero_decimal

-- From 10^-10 to 10^-4.
unfoldable pub scale_down_fee : ℤ → ℤ
scale_down_fee (pos n) = pos (n / 1000000)
scale_down_fee (negsuc n) = neg (pos (suc n / 1000000))

-- `percentageFee`: `base` times `percent` over 100 counts 10^-10, and so do the bounds there.
abbrev fee_floor : Option Decimal → ℤ → ℤ
fee_floor none fee = fee
fee_floor (some min) fee = let m = min *ℤ pos 1000000 in if ltb_ℤ fee m then m else fee

abbrev fee_cap : Option Decimal → ℤ → ℤ
fee_cap none fee = fee
fee_cap (some max) fee = let m = max *ℤ pos 1000000 in if ltb_ℤ m fee then m else fee

unfoldable pub percentage_fee : Decimal → Decimal → Text → Option Decimal → Option Decimal → Decimal
unfolding round_to minor_unit scale_down_fee
percentage_fee base percent currency min max =
    scale_down_fee
      (round_to (minor_unit currency * 1000000) (fee_cap max (fee_floor min (base *ℤ percent))))
