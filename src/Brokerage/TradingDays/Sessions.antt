-- ===== src/Brokerage/TradingDays/Sessions.antt =====
-- The sessions of an order (src/modules/brokerage/trading-days.ts).
use alke_finance_backend.Base.{
  ℕ, zero, suc, ◌+◌, ◌-◌, ◌≤◌, ◌<◌, ◌≡◌, ◌⊎◌, inl, inr, refl, sym, ◌∙◌, ap, subst, arith, ltb, Bool,
  true, ◌&&◌, Bool-cases, some,
}
use alke_finance_backend.Brokerage.TradingDays.{
  is_trading_day, next_trading_day, add_trading_days, count_days, trading_days_inclusive,
  at_least_one, good_till, first_session, last_session, is_expired, sessions_for_validity,
}
use alke_finance_backend.Brokerage.TradingDays.Next.{
  next_trading_day_least, count_one, count_after, count_from_next, next_mono, next_reach,
}

-- The day is the last trading day up to another.
pub record IsLast (day until : ℕ) : Type 0 where
  pub trades : is_trading_day day ≡ true
  pub before : day ≤ until
  pub none_after : until < next_trading_day day

-- As many trading days on as there are in between, from a trading day.
abbrev reached : ℕ → ℕ → ℕ
reached d u = add_trading_days d (count_days (suc (u - d)) d - 1)

IsLast-alone :
    (d u : ℕ) → is_trading_day d ≡ true → d ≤ u → u < next_trading_day d → IsLast (reached d u) u
unfolding add_trading_days
IsLast-alone d u t le gap =
    let alone : count_days (suc (u - d)) d ≡ 1 =
      count_one (u - d) d t ∙ ap suc (count_after (u - d) d (omega (arith, gap, le))) in
    rw alone (record { trades = t; before = le; none_after = gap })

reached_next :
    (d u : ℕ)
    → is_trading_day d ≡ true
    → next_trading_day d ≤ u
    → reached d u ≡ reached (next_trading_day d) u
unfolding add_trading_days
reached_next d u t reach =
    let e = next_trading_day d in
    let more : count_days (suc (u - d)) d ≡ suc (count_days (suc (u - e)) e) =
      count_one (u - d) d t ∙ ap suc (count_from_next d u reach) in
    let some_more : count_days (suc (u - e)) e ≡ suc (count_days (u - e) (e + 1)) =
      count_one (u - e) e (next_trading_day_least d).1 in
    let step : count_days (suc (u - d)) d - 1 ≡ suc (count_days (suc (u - e)) e - 1) =
      omega (arith, more, some_more) in
    ap (add_trading_days d) step

IsLast-within :
    (fuel d u : ℕ) → is_trading_day d ≡ true → d ≤ u → u ≤ d + fuel → IsLast (reached d u) u
IsLast-within zero d u t le enough =
    IsLast-alone d u t le (omega (arith, (next_trading_day_least d).0))
IsLast-within (suc fuel) d u t le enough = elim (Bool-cases (ltb u (next_trading_day d))) [
  | inl soon ↦ IsLast-alone d u t le (ground (arith, soon))
  | inr far ↦
      let next = next_trading_day_least d in
      let reach : next_trading_day d ≤ u = ground (arith, far) in
      subst (λ x. IsLast x u) (sym (reached_next d u t reach))
        (IsLast-within fuel (next_trading_day d) u next.1 reach (omega (arith, next.0, enough)))
]

some_injective : {a b : ℕ} → some a ≡ some b → a ≡ b
some_injective h = cc

-- The count from a trading day is positive, so that `Math.max(1, n)` changes nothing, twice.
sessions-reached :
    (d u : ℕ)
    → is_trading_day d ≡ true
    → add_trading_days d (at_least_one (at_least_one (count_days (suc (u - d)) d)) - 1)
      ≡ reached d u
unfolding add_trading_days
sessions-reached d u t = rw (count_one (u - d) d t) refl

both_true : (a b : Bool) → (a && b) ≡ true → a ≡ true
both_true a b h = ground arith

still_today :
    (a : Bool) (m n cutoff : ℕ) → m ≤ n → (a && ltb n cutoff) ≡ true → (a && ltb m cutoff) ≡ true
still_today a m n cutoff le h = ground arith

add_mono : (n a b : ℕ) → a ≤ b → add_trading_days a n ≤ add_trading_days b n
unfolding add_trading_days
add_mono zero a b h = h
add_mono (suc n) a b h = add_mono n (next_trading_day a) (next_trading_day b) (next_mono a b h)

module _ {Instant : Type 0} (calendar_day : Instant → ℕ) (local_time : Instant → ℕ) where
  first_session-trades :
      (at : Instant) (cutoff : ℕ)
      → is_trading_day (first_session calendar_day local_time at cutoff) ≡ true
  unfolding first_session
  first_session-trades at cutoff =
      elim (Bool-cases (is_trading_day (calendar_day at) && ltb (local_time at) cutoff)) [
        | inl today ↦ rw today (ground (arith, today))
        | inr later ↦ rw later (next_trading_day_least (calendar_day at)).1
      ]

  -- The sessions that a date allows end on the last trading day up to that date.
  pub good_till-IsLast :
      (until : ℕ) (at : Instant) (cutoff : ℕ) {sessions : ℕ}
      → sessions_for_validity calendar_day local_time (good_till (some until)) at cutoff
        ≡ some sessions
      → IsLast (last_session calendar_day local_time at sessions cutoff) until
  unfolding sessions_for_validity trading_days_inclusive
  good_till-IsLast until at cutoff {sessions} h =
      let first = first_session calendar_day local_time at cutoff in
      let trades = first_session-trades at cutoff in
      elim (Bool-cases (ltb until first)) [
        | inl past ↦ cc (rw (past, sessions_for_validity) at h)
        | inr open_date ↦
            let n : at_least_one (count_days (suc (until - first)) first) ≡ sessions =
              some_injective (rw (open_date, sessions_for_validity) at h) in
            let reach : first ≤ until = ground (arith, open_date) in
            subst (λ k. IsLast (add_trading_days first (at_least_one k - 1)) until) n
              (subst (λ x. IsLast x until) (sym (sessions-reached first until trades))
                (IsLast-within until first until trades reach (omega arith)))
      ]

  -- An instant is not before another.
  abbrev pub NotBefore : Instant → Instant → Type 0
  NotBefore placed sent =
      (calendar_day placed < calendar_day sent)
      ⊎ ((calendar_day placed ≡ calendar_day sent) × (local_time placed ≤ local_time sent))

  first_session_bounds :
      (at : Instant) (cutoff : ℕ)
      → (first_session calendar_day local_time at cutoff ≤ next_trading_day (calendar_day at))
        × (calendar_day at ≤ first_session calendar_day local_time at cutoff)
  unfolding first_session
  first_session_bounds at cutoff =
      let next = next_trading_day_least (calendar_day at) in
      elim (Bool-cases (is_trading_day (calendar_day at) && ltb (local_time at) cutoff)) [
        | inl today ↦ rw today (omega (arith, next.0), omega arith)
        | inr later ↦ rw later (omega arith, omega (arith, next.0))
      ]

  first_session_mono :
      (placed sent : Instant) (cutoff : ℕ)
      → NotBefore placed sent
      → first_session calendar_day local_time placed cutoff
        ≤ first_session calendar_day local_time sent cutoff
  unfolding first_session
  first_session_mono placed sent cutoff (inl earlier) =
      let bound = (first_session_bounds placed cutoff).0 in
      elim (Bool-cases (is_trading_day (calendar_day sent) && ltb (local_time sent) cutoff)) [
        | inl today ↦ rw today (
            omega (
              arith,
              bound,
              next_reach (calendar_day placed) (calendar_day sent) earlier (both_true _ _ today),
            ))
        | inr later ↦ rw later (
            omega (arith, bound, next_mono (calendar_day placed) (calendar_day sent) (omega arith)))
      ]
  first_session_mono placed sent cutoff (inr (same_day, later)) =
      elim (Bool-cases (is_trading_day (calendar_day sent) && ltb (local_time sent) cutoff)) [
        | inl today ↦
            rw (same_day, today)
              (rw (still_today _ (local_time placed) (local_time sent) cutoff later today)
                (omega arith))
        | inr late ↦ rw late (
            subst (λ d. first_session calendar_day local_time placed cutoff ≤ next_trading_day d)
              same_day (first_session_bounds placed cutoff).0)
      ]

  -- Once an order with a date has expired, no trading day is left after today up to its date. The
  -- sessions were counted when the order was placed, the expiry counts them from when it was sent,
  -- which was not before.
  pub is_expired-none_left :
      (until : ℕ) (placed sent now : Instant) (cutoff close : ℕ) {sessions : ℕ}
      → NotBefore placed sent
      → sessions_for_validity calendar_day local_time (good_till (some until)) placed cutoff
        ≡ some sessions
      → is_expired calendar_day local_time sent sessions now cutoff close ≡ true
      → until < next_trading_day (calendar_day now)
  unfolding is_expired
  is_expired-none_left until placed sent now cutoff close {sessions} order h e =
      let p = good_till-IsLast until placed cutoff h in
      let counted = last_session calendar_day local_time placed sessions cutoff in
      let last = last_session calendar_day local_time sent sessions cutoff in
      let pushed : counted ≤ last =
        add_mono (at_least_one sessions - 1) _ _ (first_session_mono placed sent cutoff order) in
      let reached_last : last ≤ calendar_day now = ground (arith, e) in
      omega (arith, p.none_after, next_mono counted (calendar_day now) (omega arith))
