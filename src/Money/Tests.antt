-- ===== src/Money/Tests.antt =====
-- Roundings in two currencies.
use alke_finance_backend.Base.{◌≡◌, ◌↔◌, ◌≤◌, ◌*◌, ◌%◌, refl, pos, negsuc, abs, ◌-ℤ◌, letters, neg}
use alke_finance_backend.Money.{round_money, minor_unit, decimals_for}
use alke_finance_backend.Money.Rounding.{round_money_nearest}

-- 12.3450 euros are 12.35, and -0.5000 francs are -1.
round_money_halves :
    (round_money (pos 123450) (letters "EUR") ≡ pos 123500)
    × (round_money (negsuc 4999) (letters "XOF") ≡ negsuc 9999)
unfolding round_money decimals_for neg
round_money_halves = (refl, refl)

round_money_nearest_example :
    (abs (round_money (pos 123450) (letters "EUR")) % minor_unit (letters "EUR") ≡ 0)
    × (2 * abs (round_money (pos 123450) (letters "EUR") -ℤ pos 123450)
        ≤ minor_unit (letters "EUR"))
    × ((round_money (pos 123450) (letters "EUR") ≡ pos 123450)
        ↔ (abs (pos 123450) % minor_unit (letters "EUR") ≡ 0))
round_money_nearest_example = round_money_nearest (pos 123450) (letters "EUR")
