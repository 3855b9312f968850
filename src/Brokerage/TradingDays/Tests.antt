-- ===== src/Brokerage/TradingDays/Tests.antt =====
-- A Friday evening, with a date two weeks later.
use alke_finance_backend.Base.{inl, arith, ℕ, ◌≡◌, ◌<◌, ◌-◌, refl, true, some}
use alke_finance_backend.Brokerage.TradingDays.{
  is_trading_day, next_trading_day, count_days, trading_days_inclusive, good_till, last_session,
  is_expired, sessions_for_validity, first_session, skip_closed, add_trading_days,
}
use alke_finance_backend.Brokerage.TradingDays.Next.{next_trading_day_least}
use alke_finance_backend.Brokerage.TradingDays.Sessions.{
  IsLast, good_till-IsLast, is_expired-none_left,
}

-- An instant is its local day and its local minute. The day 19727 is Friday, 2024-01-05.
abbrev calendar_day : ℕ × ℕ → ℕ
calendar_day at = at.0

abbrev local_time : ℕ × ℕ → ℕ
local_time at = at.1

abbrev friday_evening : ℕ × ℕ
friday_evening = (19727, 1200)

abbrev monday_morning : ℕ × ℕ
monday_morning = (19730, 500)

-- The date, 2024-01-20, is a Saturday: ten sessions, the last on Friday, 2024-01-19.
allowed :
    sessions_for_validity calendar_day local_time (good_till (some 19742)) friday_evening 570
    ≡ some 10
unfolding sessions_for_validity first_session next_trading_day skip_closed trading_days_inclusive
    count_days
allowed = refl

last_is_friday : last_session calendar_day local_time friday_evening 10 570 ≡ 19741
unfolding add_trading_days next_trading_day skip_closed first_session
last_is_friday = refl

expired : is_expired calendar_day local_time monday_morning 10 (19741, 960) 570 960 ≡ true
unfolding is_expired add_trading_days next_trading_day skip_closed first_session
expired = refl

next_trading_day_least_example :
    (19727 < next_trading_day 19727)
    × (is_trading_day (next_trading_day 19727) ≡ true)
    × (count_days (next_trading_day 19727 - 19727 - 1) 19728 ≡ 0)
next_trading_day_least_example = next_trading_day_least 19727

good_till-IsLast_example : IsLast (last_session calendar_day local_time friday_evening 10 570) 19742
good_till-IsLast_example = good_till-IsLast calendar_day local_time 19742 friday_evening 570 allowed

is_expired-none_left_example : 19742 < next_trading_day 19741
is_expired-none_left_example =
    is_expired-none_left calendar_day local_time 19742 friday_evening monday_morning (19741, 960)
      570 960 (inl (omega arith)) allowed expired
