-- ===== src/Brokerage/Batches/Expiry.antt =====
-- Orders that outlive their sessions: `expireStale` of src/modules/brokerage/batches.service.ts.
use alke_finance_backend.Base.{
  ℕ, Bool, false, not, ◌&&◌, Option, none, some, is_some, List, [], ◌∷◌, ◌++◌, keep, Text, Result,
  ok, ◌>>=◌, ◌>>◌, if◌then◌else◌,
}
use alke_finance_backend.Money.{Decimal}
use alke_finance_backend.Brokerage.OrderState.{expired, open_at_sdb, has, assert_transition}
use alke_finance_backend.Brokerage.OrderLedger.{Order}
use alke_finance_backend.Brokerage.TradingDays.{is_expired}
use alke_finance_backend.Brokerage.Settlement.{World}
use alke_finance_backend.Brokerage.Batches.{close_order}

-- The rows that the query of `expireStale` selects.
abbrev pub is_open : Order → Bool
is_open o = has open_at_sdb o.status && (not o.simulated && is_some o.transmitted_at)

-- What Intl reads off an instant in the zone of a market, the cut-off and close of the market
-- of an order, the currency of an instrument, and the division of `commissionFor`.
module _ (calendar_day local_time : ℕ → ℕ → ℕ) (cutoff_of close_of : ℕ → ℕ) (currency_of : ℕ → Text)
    (prorate : Decimal → Decimal → Decimal → Text → Decimal) where
  -- The tests of one turn.
  unfoldable pub is_stale : ℕ → Order → Bool
  is_stale now o = elim o.transmitted_at [
    | none ↦ false
    | some at ↦
        is_expired (calendar_day o.market_id) (local_time o.market_id) at o.expires_after_sessions
          now (cutoff_of o.market_id) (close_of o.market_id)
  ]

  -- One turn, and the ids that have expired.
  unfoldable pub expire_order : ℕ → Option ℕ → Order → List ℕ → World → Result (List ℕ × World)
  expire_order now actor o done w =
      let closed = (do
        assert_transition o.status expired
        (counted, w') ← close_order prorate o expired (currency_of o.instrument_id) actor w
        ok (if counted then done ++ o.id ∷ [] else done, w')) in
      if is_stale now o then closed else ok (done, w)

  unfoldable pub expire_orders :
      ℕ → Option ℕ → List Order → List ℕ → World → Result (List ℕ × World)
  expire_orders now actor [] done w = ok (done, w)
  expire_orders now actor (o ∷ os) done w = do
    (done', w') ← expire_order now actor o done w
    expire_orders now actor os done' w'

  -- `expireStale`
  unfoldable pub expire_stale : ℕ → Option ℕ → World → Result (List ℕ × World)
  expire_stale now actor w = expire_orders now actor (keep is_open w.store.orders) [] w
