-- ===== src/Brokerage/Orders/Placing.antt =====
-- Placing an order: `quote`, `preview` and `placeOrder` of src/modules/brokerage/orders.service.ts.
-- The texts of a row, its order type and times are left out, as are the events.
use alke_finance_backend.Base.{
  ℕ, ◌==◌, ◌+ℤ◌, ◌*ℤ◌, ltb_ℤ, Bool, true, false, not, ◌&&◌, Option, none, some, is_some, List, [],
  ◌∷◌, ◌++◌, map, find, Text, Result, ok, err, bad_request, not_found, forbidden, unavailable,
  ◌>>=◌, ◌>>◌, throw_if, if◌then◌else◌, String,
}
use alke_finance_backend.Money.{Decimal, zero_decimal, round_product, sum}
use alke_finance_backend.Fees.{FeeSchedule, FeeLine, compute_order_fees}
use alke_finance_backend.Kyc.BrokerAccounts.{MarketPartner, is_active}
use alke_finance_backend.Policy.{PolicyCheck, allow, deny, OrderDraftFacts}
use alke_finance_backend.Policy.Facts.{
  Environment, Tables, InstrumentRow, can_trade, can_place_order, is_simulated,
}
use alke_finance_backend.Brokerage.OrderState.{pending, executed}
use alke_finance_backend.Brokerage.OrderLedger.{
  OrderSide, buy, sell, Order, StoredFeeLine, reserve_cash,
}
use alke_finance_backend.Brokerage.OrderLedger.Positions.{reserve_shares}
use alke_finance_backend.Brokerage.Settlement.{World}
use alke_finance_backend.Brokerage.TradingDays.{Validity, sessions_for_validity}
use alke_finance_backend.Brokerage.Batches.{with_orders}

-- `OrderQuote`
pub record OrderQuote : Type 0 where
  pub currency : Text
  pub estimated_price : Decimal
  pub estimated_total : Decimal
  pub fees : List FeeLine
  pub fee_total : Decimal
  pub max_amount : Decimal

-- `PlaceOrderDto`, parsed.
pub record PlaceOrderDto : Type 0 where
  pub instrument_id : ℕ
  pub side : OrderSide
  pub quantity : Decimal
  pub is_market_order : Bool
  pub validity : Validity

-- `feesToJson`
unfoldable pub fees_to_json : List FeeLine → List StoredFeeLine
fees_to_json ls = map (λ l. record { code = l.code; amount = l.amount }) ls

abbrev pub the_price : Option Decimal → Result Decimal
the_price none = err (bad_request "Valeur indisponible ou sans cours de référence.")
the_price (some p) = ok p

abbrev pub with_fees : OrderSide → Decimal → Decimal → Decimal
with_fees buy total fees = total +ℤ fees
with_fees sell total fees = total

-- `quote`, at the instant at which the fees are read.
unfoldable pub quote :
    InstrumentRow → OrderSide → Decimal → ℕ → List FeeSchedule → Result OrderQuote
quote i side quantity now schedules = do
  price ← the_price i.facts.last_price
  let total = round_product (quantity *ℤ price) i.currency
  let fees = compute_order_fees i.market_id total i.currency now schedules
  let fee_total = sum (map (λ l. l.amount) fees)
  ok (record {
    currency = i.currency;
    estimated_price = price;
    estimated_total = total;
    fees = fees;
    fee_total = fee_total;
    max_amount = with_fees side total fee_total;
  })

-- `parseDto`; a parsed quantity is finite.
unfoldable pub parse_dto : PlaceOrderDto → Result (Unit {0})
parse_dto dto = do
  throw_if (not dto.is_market_order)
      (bad_request "Seuls les ordres au marché (MARKET) sont disponibles en v1.0.")
  throw_if (not (ltb_ℤ zero_decimal dto.quantity))
      (bad_request "La quantité doit être strictement positive.")

abbrev pub find_or {ℓ} : {A : Type ℓ} → String → Option A → Result A
find_or message none = err (not_found message)
find_or message (some a) = ok a

abbrev pub the_sessions : Option ℕ → Result ℕ
the_sessions none = err (bad_request "Validité invalide ou déjà échue (DAY ou GTD:YYYYMMDD).")
the_sessions (some n) = ok n

-- A refusal's text; those that print values keep their fixed part.
abbrev pub refuse_trade : PolicyCheck → Result (Unit {0})
refuse_trade allow = ok tt
refuse_trade (deny why review) = err (forbidden "Opération refusée par la politique.")

abbrev pub refuse_order : PolicyCheck → Result (Unit {0})
refuse_order allow = ok tt
refuse_order (deny why review) = err (bad_request "Ordre refusé par la politique.")

abbrev pub is_allowed : PolicyCheck → Bool
is_allowed allow = true
is_allowed (deny why review) = false

abbrev pub serves : ℕ → MarketPartner → Bool
serves market p = (p.market_id == market) && is_active p.agreement_status

-- The partner of a real order: the first active one, in the order of creation.
unfoldable pub choose_partner : Bool → ℕ → List MarketPartner → Result (Option ℕ)
choose_partner simulated market partners =
    if simulated then ok none else (elim (find (serves market) partners) [
      | none ↦ err (unavailable "Aucun partenaire SDB actif pour ce marché.")
      | some p ↦ ok (some p.id)
    ])

-- The new row; a simulated one is executed at once.
unfoldable pub new_order :
    ℕ → ℕ → PlaceOrderDto → InstrumentRow → OrderQuote → Option ℕ → ℕ → Bool → Order
new_order fresh user dto i q partner sessions simulated = record {
  id = fresh;
  user_id = user;
  instrument_id = i.id;
  market_id = i.market_id;
  partner_id = partner;
  batch_id = none;
  side = dto.side;
  quantity = dto.quantity;
  max_amount = q.max_amount;
  fees = fees_to_json q.fees;
  status = if simulated then executed else pending;
  simulated = simulated;
  filled_quantity = if simulated then dto.quantity else zero_decimal;
  avg_executed_price = if simulated then some q.estimated_price else none;
  reserve_txn_id = none;
  expires_after_sessions = sessions;
  transmitted_at = none;
}

-- The reserve of a real order: cash for a BUY, shares for a SELL.
unfoldable pub reserve : Order → Text → World → Result World
reserve o currency w = elim o.side [
  | buy ↦ do (txn, store) ← reserve_cash o currency w.store; ok (record w { store = store })
  | sell ↦
      let (reserved, positions) = reserve_shares o.user_id o.instrument_id o.quantity w.positions in
      if reserved
      then ok (record w { positions = positions })
      else err (bad_request "Quantité insuffisante en portefeuille pour cette vente.")
]

-- The transaction of `placeOrder`.
unfoldable pub create_order : Order → Text → World → Result World
create_order o currency w =
    let w' = with_orders (w.store.orders ++ o ∷ []) w in
    let reserved = reserve o currency w' in if o.simulated then ok w' else reserved

-- As in `Policy.Facts` and `TradingDays`, the latter by market; and the cut-off of a market.
module _ (to_lower : Text → Text) (env : Environment) (calendar_day local_time : ℕ → ℕ → ℕ)
    (cutoff_of : ℕ → ℕ) where
  -- `sessionsForValidity` of an order.
  abbrev pub sessions_of : PlaceOrderDto → ℕ → ℕ → Option ℕ
  sessions_of dto market now =
      sessions_for_validity (calendar_day market) (local_time market) dto.validity now
        (cutoff_of market)

  abbrev pub order_facts : PlaceOrderDto → OrderQuote → OrderDraftFacts
  order_facts dto q = record {
    side = dto.side;
    quantity = dto.quantity;
    max_amount = q.max_amount;
    currency = q.currency;
  }

  -- Whether `preview` says that the order would be taken.
  unfoldable pub preview : ℕ → PlaceOrderDto → ℕ → List FeeSchedule → Tables → Result Bool
  preview user dto now schedules t = do
    parse_dto dto
    i ← find_or "Valeur introuvable." (find (λ i. i.id == dto.instrument_id) t.instruments)
    m ← find_or "Valeur introuvable." (find (λ m. m.id == i.market_id) t.markets)
    q ← quote i dto.side dto.quantity now schedules
    let trade = can_trade to_lower env user m.id now t
    check ← (elim trade [
      | allow ↦
          can_place_order to_lower env user i.id (is_simulated to_lower env m) (order_facts dto q)
            now t
      | deny why review ↦ ok (deny why review)
    ])
    ok (is_allowed trade && (is_allowed check && is_some (sessions_of dto m.id now)))

  -- The tables that the checks read, with the ledger and the positions of the world.
  abbrev pub tables_of : Tables → World → Tables
  tables_of t w = record t { ledger = w.store.ledger; positions = w.positions }

  -- `placeOrder`, with the id that the database draws.
  unfoldable pub place_order :
      ℕ
      → ℕ
      → PlaceOrderDto
      → ℕ
      → List FeeSchedule
      → List MarketPartner
      → Tables
      → World
      → Result (Order × World)
  place_order fresh user dto now schedules partners t w = do
    parse_dto dto
    i ← find_or "Valeur introuvable." (find (λ i. i.id == dto.instrument_id) t.instruments)
    m ← find_or "Valeur introuvable." (find (λ m. m.id == i.market_id) t.markets)
    sessions ← the_sessions (sessions_of dto m.id now)
    refuse_trade (can_trade to_lower env user m.id now t)
    let simulated = is_simulated to_lower env m
    q ← quote i dto.side dto.quantity now schedules
    check ← can_place_order to_lower env user i.id simulated (order_facts dto q) now (tables_of t w)
    refuse_order check
    partner ← choose_partner simulated m.id partners
    let o = new_order fresh user dto i q partner sessions simulated
    w' ← create_order o q.currency w
    ok (o, w')
