-- ===== src/Brokerage/TradingDays.antt =====
-- The calendar of the market: src/modules/brokerage/trading-days.ts.
-- A calendar day is its number since 1970-01-01, which a UTC midnight `Date` counts in milliseconds.
-- What `Intl` reads off an instant, its local day and its local time in minutes, is a parameter; two
-- texts "HH:mm" compare as their minutes do. A validity comes parsed: the date of a GTD one is the
-- answer of `calendarDayFromYYYYMMDD`.
pub mod Next
pub mod Sessions
mod Tests
use alke_finance_backend.Base.{
  ℕ, zero, suc, ◌+◌, ◌-◌, ◌%◌, ◌==◌, ltb, leb, Bool, true, false, not, ◌&&◌, ◌||◌, Option, none,
  some, if◌then◌else◌,
}

-- `getUTCDay`: 1970-01-01 was a Thursday, and Sunday is 0.
abbrev pub day_of_week : ℕ → ℕ
day_of_week day = (day + 4) % 7

-- `isTradingDay`
abbrev pub is_trading_day : ℕ → Bool
is_trading_day day = not (day_of_week day == 0) && not (day_of_week day == 6)

-- `while (!isTradingDay(d)) d = addDays(d, 1)`, for as many turns as the fuel allows.
unfoldable pub skip_closed : ℕ → ℕ → ℕ
skip_closed zero d = d
skip_closed (suc fuel) d =
    let later = skip_closed fuel (d + 1) in if is_trading_day d then d else later

-- `nextTradingDay`; a weekend has two days.
unfoldable pub next_trading_day : ℕ → ℕ
next_trading_day day = skip_closed 2 (day + 1)

-- `addTradingDays`
unfoldable pub add_trading_days : ℕ → ℕ → ℕ
add_trading_days day zero = day
add_trading_days day (suc n) = add_trading_days (next_trading_day day) n

-- The trading days among so many days from one on.
unfoldable pub count_days : ℕ → ℕ → ℕ
count_days zero day = 0
count_days (suc n) day = (if is_trading_day day then 1 else 0) + count_days n (day + 1)

-- `tradingDaysInclusive`
unfoldable pub trading_days_inclusive : ℕ → ℕ → ℕ
trading_days_inclusive first last =
    if ltb last first then 0 else count_days (suc (last - first)) first

-- `Math.max(1, n)`
abbrev pub at_least_one : ℕ → ℕ
at_least_one zero = 1
at_least_one (suc n) = suc n

-- A validity: `DAY`, `GTD:YYYYMMDD`, or another text.
pub data Validity : Type 0 where
  day_order : Validity
  good_till : Option ℕ → Validity
  other_validity : Validity

module _ {Instant : Type 0} (calendar_day : Instant → ℕ) (local_time : Instant → ℕ) where
  -- `firstSession`
  unfoldable pub first_session : Instant → ℕ → ℕ
  first_session at cutoff =
      if is_trading_day (calendar_day at) && ltb (local_time at) cutoff
      then calendar_day at
      else next_trading_day (calendar_day at)

  -- The last session that an order may reach.
  abbrev pub last_session : Instant → ℕ → ℕ → ℕ
  last_session at sessions cutoff =
      add_trading_days (first_session at cutoff) (at_least_one sessions - 1)

  -- `isExpired`
  unfoldable pub is_expired : Instant → ℕ → Instant → ℕ → ℕ → Bool
  is_expired transmitted sessions now cutoff close =
      if ltb (last_session transmitted sessions cutoff) (calendar_day now)
      then true
      else if ltb (calendar_day now) (last_session transmitted sessions cutoff)
      then false
      else leb close (local_time now)

  -- `sessionsForValidity`
  unfoldable pub sessions_for_validity : Validity → Instant → ℕ → Option ℕ
  sessions_for_validity day_order at cutoff = some 1
  sessions_for_validity other_validity at cutoff = none
  sessions_for_validity (good_till none) at cutoff = none
  sessions_for_validity (good_till (some until)) at cutoff =
      if ltb until (first_session at cutoff)
      then none
      else some (at_least_one (trading_days_inclusive (first_session at cutoff) until))
