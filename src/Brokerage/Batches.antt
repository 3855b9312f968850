-- ===== src/Brokerage/Batches.antt =====
-- Batches sent to a broker and what it answers: src/modules/brokerage/batches.service.ts. Here the
-- tables and what the operations share; the operations stand in the modules below. A call that
-- throws inside a transaction leaves the tables as they were before it. Texts and instants that
-- only a reader of a row sees (reasons, hashes, `sentAt`, `sdbRef`) and events are left out.
pub mod Acks
pub mod Fills
pub mod Expiry
pub mod Building
pub mod Withdrawals
pub mod References
pub mod FillsOnce
pub mod FillsAgain
mod Tests
use alke_finance_backend.Base.{
  ℕ, ◌-ℤ◌, ◌==◌, Bool, true, false, ◌&&◌, Option, none, some, List, [], ◌∷◌, any, find, Text, same,
  Result, ok, err, ◌>>=◌, not_found, if◌then◌else◌,
}
use alke_finance_backend.Money.{Decimal}
use alke_finance_backend.Brokerage.OrderState.{OrderStatus, OrderStatus-discrete}
use alke_finance_backend.Brokerage.OrderLedger.{
  buy, sell, Order, Store, release_remaining, update_order,
}
use alke_finance_backend.Brokerage.OrderLedger.Positions.{unreserve_shares}
use alke_finance_backend.Brokerage.Settlement.{World}

pub data BatchType : Type 0 where
  ord wdr : BatchType

pub data BatchState : Type 0 where
  built sent acked processed failed : BatchState

pub record OrderBatch : Type 0 where
  pub id : ℕ
  pub market_id : ℕ
  pub partner_id : ℕ
  pub batch_type : BatchType
  pub state : BatchState
  pub sequence : ℕ
  -- milliseconds of the epoch
  pub cutoff_at : ℕ
  pub line_count : ℕ

-- The tables of the service.
pub record Desk : Type 0 where
  pub world : World
  pub batches : List OrderBatch

-- `getBatch`
unfoldable pub get_batch : ℕ → List OrderBatch → Result OrderBatch
get_batch id bs = elim (find (λ b. b.id == id) bs) [
  | none ↦ err (not_found "Lot introuvable.")
  | some b ↦ ok b
]

unfoldable pub update_batch : ℕ → (OrderBatch → OrderBatch) → List OrderBatch → List OrderBatch
update_batch id f [] = []
update_batch id f (b ∷ bs) = (if b.id == id then f b else b) ∷ update_batch id f bs

abbrev pub with_orders : List Order → World → World
with_orders os w = record w { store = record (w.store) { orders = os } }

abbrev pub in_status : OrderStatus → Order → Bool
in_status status o = same OrderStatus-discrete o.status status

-- `updateMany({ where: { id, status }, data: { status: target } })`: whether a row was counted, and
-- the rows.
unfoldable pub claim_order : ℕ → OrderStatus → OrderStatus → List Order → Bool × List Order
claim_order id status target os = (
  any (λ o. (o.id == id) && in_status status o) os,
  update_order id (λ o. if in_status status o then record o { status = target } else o) os,
)

-- What the database joins to an order (`include: { instrument: true }`): the currency of an
-- instrument.
module _ (currency_of : ℕ → Text) where
  abbrev pub order_currency : Order → Text
  order_currency o = currency_of o.instrument_id

-- The division of `commissionFor`, as in `OrderLedger`.
module _ (prorate : Decimal → Decimal → Decimal → Text → Decimal) where
  -- `releaseRemaining`, for either side.
  unfoldable pub release : Order → Text → Option ℕ → World → Result World
  release o currency actor w = if o.simulated then ok w else (elim o.side [
    | buy ↦ do
      store ← release_remaining prorate o currency actor w.store
      ok (record w { store = store })
    | sell ↦ ok (record w {
      positions =
          unreserve_shares o.user_id o.instrument_id (o.quantity -ℤ o.filled_quantity) w.positions;
    })
  ])

  -- The claim of an order and, when it counts a row, its release, in one transaction.
  unfoldable pub close_order : Order → OrderStatus → Text → Option ℕ → World → Result (Bool × World)
  close_order o target currency actor w =
      let claimed = claim_order o.id o.status target w.store.orders in
      let released = release o currency actor (with_orders claimed.1 w) in
      if claimed.0 then released >>= (λ w'. ok (true, w')) else ok (false, with_orders claimed.1 w)
