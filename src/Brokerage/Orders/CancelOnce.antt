-- ===== src/Brokerage/Orders/CancelOnce.antt =====
-- An order is cancelled at most once (src/modules/brokerage/orders.service.ts).
use alke_finance_backend.Base.{
  any, sym, Error, ℕ, ◌≡◌, ◌≢◌, refl, ◌==◌, Bool, true, false, not, ◌&&◌, Option, some, List, [],
  ◌∷◌, Text, same_ne, same→eq, subst, All, ok, is_ok, is_ok-bind, bad_request, not_found, >>=-eq-ok,
  throw_if, throw_if_ok, Holds-eq-ok, ok_injective, arith, if◌then◌else◌,
}
use alke_finance_backend.Money.{Decimal}
use alke_finance_backend.Brokerage.OrderState.{
  OrderStatus, OrderStatus-discrete, pending, cancelled,
}
use alke_finance_backend.Brokerage.OrderLedger.{Order, update_order}
use alke_finance_backend.Brokerage.Settlement.{World}
use alke_finance_backend.Brokerage.Batches.{with_orders, in_status, claim_order, release}
use alke_finance_backend.Brokerage.Batches.References.{SameTables, release-SameTables}
use alke_finance_backend.Brokerage.Batches.Fills.{find_order}
use alke_finance_backend.Brokerage.Orders.Changing.{claim_and_release, cancel}

-- No row of the id has the status.
abbrev pub Left : ℕ → OrderStatus → List Order → Type 0
Left id status = All (λ o. ((o.id == id) && in_status status o) ≡ false)

claim_order-Left :
    (id : ℕ) (status target : OrderStatus) (os : List Order)
    → target ≢ status
    → Left id status (claim_order id status target os).1
unfolding claim_order update_order
claim_order-Left id status target [] h = tt
claim_order-Left id status target (o ∷ os) h = (
  ground (arith, same_ne OrderStatus-discrete target status h),
  claim_order-Left id status target os h,
)

find_order-Left :
    (id : ℕ) (status : OrderStatus) (o : Order) (os : List Order)
    → Left id status os
    → find_order id os ≡ ok o
    → in_status status o ≡ false
unfolding find_order
find_order-Left id status o [] h e = cc
find_order-Left id status o (x ∷ os) h e = ground (arith, find_order-Left id status o os h.1)

find_order_id : (id : ℕ) (o : Order) (os : List Order) → find_order id os ≡ ok o → o.id ≡ id
unfolding find_order
find_order_id id o [] e = cc
find_order_id id o (x ∷ os) e = ground (arith, find_order_id id o os)

unclaimed :
    (id : ℕ) (status : OrderStatus) (os : List Order)
    → Left id status os
    → any (λ o. (o.id == id) && in_status status o) os ≡ false
unclaimed id status [] h = refl
unclaimed id status (o ∷ os) h = ground (arith, unclaimed id status os h.1)

passed : (b : Bool) (e : Error) {u : Unit {0}} → throw_if (not b) e ≡ ok u → b ≡ true
passed true e h = refl
passed false e h = cc

negated_false : (b : Bool) → not b ≡ false → b ≡ true
negated_false true h = refl
negated_false false h = cc

module _ (currency_of : ℕ → Text) (prorate : Decimal → Decimal → Decimal → Text → Decimal) where
  claim_and_release-Left :
      (releases : Bool) (o : Order) (target : OrderStatus) (actor : Option ℕ) (w w' : World)
      → target ≢ o.status
      → claim_and_release currency_of prorate releases o target actor w ≡ ok w'
      → Left o.id o.status w'.store.orders
  unfolding claim_and_release
  claim_and_release-Left releases o target actor w w' h e =
      go releases (throw_if_ok (not claimed.0) (bad_request "L’ordre a changé d’état.") _ e).1
    where
      claimed : Bool × List Order
      claimed = claim_order o.id o.status target w.store.orders

      left : Left o.id o.status claimed.1
      left = claim_order-Left o.id o.status target w.store.orders h

      go :
          (b : Bool)
          → (if b
              then release prorate o (currency_of o.instrument_id) actor (with_orders claimed.1 w)
              else ok (with_orders claimed.1 w))
            ≡ ok w'
          → Left o.id o.status w'.store.orders
      go true k =
          rw
            (Holds-eq-ok (SameTables prorate (with_orders claimed.1 w)) _
              (release-SameTables prorate o (currency_of o.instrument_id) actor
                (with_orders claimed.1 w))
              k).0
            left
      go false k = rw (← ok_injective k) left

  claim_refused :
      (o : Order) (actor : Option ℕ) (w : World)
      → Left o.id o.status w.store.orders
      → is_ok (claim_and_release currency_of prorate true o cancelled actor w) ≡ false
  unfolding claim_and_release claim_order
  claim_refused o actor w h = rw (unclaimed o.id o.status w.store.orders h) refl

  cancel_refused :
      (others : World → World) (user id : ℕ) (w : World)
      → Left id pending (others w).store.orders
      → is_ok (cancel currency_of prorate others user id w) ≡ false
  unfolding cancel
  cancel_refused others user id w h = is_ok-bind (find_order id w.store.orders) _ (λ o found.
      is_ok-bind (throw_if (not (o.user_id == user)) (not_found "Ordre introuvable.")) _ (λ _ _.
        is_ok-bind
          (throw_if (not (in_status pending o))
            (bad_request "Seul un ordre en attente (non transmis) peut être annulé."))
          _
          (λ u waits. claim_refused o (some user) (others w) (
            moved o (sym (find_order_id id o w.store.orders found))
              (sym (same→eq OrderStatus-discrete o.status pending (passed _ _ waits)))))))
    where
      moved :
          (o : Order) → id ≡ o.id → pending ≡ o.status → Left o.id o.status (others w).store.orders
      moved o same_id same_status =
          subst (λ i. Left i o.status (others w).store.orders) same_id
            (subst (λ st. Left id st (others w).store.orders) same_status h)

  -- Once a call of `cancel` has gone through, whatever others committed between its read and its
  -- transaction, every other call of `cancel` for that order fails whose transaction comes later,
  -- by any user, even one that read the order before, unless others have made the order PENDING
  -- again in between.
  pub cancel_once :
      (others others' : World → World) (user user' id : ℕ) (w w' read : World)
      → cancel currency_of prorate others user id w ≡ ok w'
      → (Left id pending w'.store.orders → Left id pending (others' read).store.orders)
      → is_ok (cancel currency_of prorate others' user' id read) ≡ false
  unfolding cancel
  cancel_once others others' user user' id w w' read h stays =
      let (o, found, h₁) = >>=-eq-ok (find_order id w.store.orders) _ h in
      let (mine, h₂) =
        throw_if_ok (not (o.user_id == user)) (not_found "Ordre introuvable.") _ h₁ in
      let (waits, h₃) =
        throw_if_ok (not (in_status pending o))
          (bad_request "Seul un ordre en attente (non transmis) peut être annulé.") _ h₂ in
      let status = same→eq OrderStatus-discrete o.status pending (negated_false _ waits) in
      let cancels : cancelled ≢ o.status = λ e. cc in
      cancel_refused others' user' id read (
        stays (
          subst (λ i. Left i pending w'.store.orders) (find_order_id id o w.store.orders found)
            (subst (λ st. Left o.id st w'.store.orders) status
              (claim_and_release-Left true o cancelled (some user) (others w) w' cancels h₃))))
