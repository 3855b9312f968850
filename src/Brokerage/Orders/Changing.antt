-- ===== src/Brokerage/Orders/Changing.antt =====
-- Cancelling and reviewing an order: `cancel`, `requestReview` and `applyReview` of
-- src/modules/brokerage/orders.service.ts. An order may change between the read of its row and the
-- transaction, by what others commit: an argument. Reasons and times are only stored.
use alke_finance_backend.Base.{
  ℕ, ℤ, ◌==◌, ◌*ℤ◌, Bool, true, not, ◌&&◌, ◌||◌, Option, none, some, is_some, List, [], ◌∷◌, ◌++◌,
  Text, letters, same, Result, ok, err, bad_request, not_found, ◌>>=◌, ◌>>◌, throw_if,
  if◌then◌else◌,
}
use alke_finance_backend.Money.{Decimal, round_product}
use alke_finance_backend.Approvals.{ApprovalActionType, Db, PendingApproval, request}
use alke_finance_backend.Brokerage.OrderState.{
  OrderStatus, OrderStatus-discrete, pending, cancelled, executed, partially_executed, is_final,
  can_transition, assert_transition,
}
use alke_finance_backend.Brokerage.OrderLedger.{Order}
use alke_finance_backend.Brokerage.Settlement.{World}
use alke_finance_backend.Brokerage.Csv.Formats.{ExeLine, filled, partial}
use alke_finance_backend.Brokerage.Batches.{with_orders, in_status, claim_order, release}
use alke_finance_backend.Brokerage.Batches.Fills.{find_order, apply_execution}

abbrev pub is_status : OrderStatus → OrderStatus → Bool
is_status a b = same OrderStatus-discrete a b

-- `EXECUTED || PARTIALLY_EXECUTED`
abbrev pub is_fill : OrderStatus → Bool
is_fill s = is_status s executed || is_status s partially_executed

-- `ReviewOrderDto`
pub record ReviewOrderDto : Type 0 where
  pub status : OrderStatus
  pub executed_price : Option Decimal
  pub executed_quantity : Option Decimal
  pub sdb_ref : Option Text
  pub reason : Text

-- The tests of `requestReview`.
unfoldable pub check_review : ℕ → ReviewOrderDto → List Order → Result (Unit {0})
check_review id dto orders = do
  o ← find_order id orders
  throw_if (is_final o.status)
      (bad_request "Ordre dans un état final : aucune correction possible.")
  throw_if (not (can_transition o.status dto.status)) (bad_request "Transition interdite.")
  throw_if (is_fill dto.status && not (is_some dto.executed_price && is_some dto.executed_quantity))
      (bad_request "Une exécution manuelle requiert executedPrice et executedQuantity.")

-- `requestReview`
unfoldable pub request_review :
    ℕ → ℕ → ReviewOrderDto → List Order → Db → Result PendingApproval × Db
request_review actor id dto orders db = elim (check_review id dto orders) [
  | err e ↦ (err e, db)
  | ok checked ↦ request ApprovalActionType.order_review dto.reason actor db
]

-- The division of `commissionFor` and the currency of an instrument.
module _ (currency_of : ℕ → Text) (prorate : Decimal → Decimal → Decimal → Text → Decimal) where
  -- The transaction of a change of status: the claim of the row and, when asked, its release.
  unfoldable pub claim_and_release : Bool → Order → OrderStatus → Option ℕ → World → Result World
  claim_and_release releases o target actor w =
      let claimed = claim_order o.id o.status target w.store.orders in
      let w' = with_orders claimed.1 w in
      let released = release prorate o (currency_of o.instrument_id) actor w' in
      do
        throw_if (not claimed.0) (bad_request "L’ordre a changé d’état.")
        (if releases then released else ok w')

  -- `cancel`
  unfoldable pub cancel : (World → World) → ℕ → ℕ → World → Result World
  cancel others user id w = do
    o ← find_order id w.store.orders
    throw_if (not (o.user_id == user)) (not_found "Ordre introuvable.")
    throw_if (not (in_status pending o))
        (bad_request "Seul un ordre en attente (non transmis) peut être annulé.")
    claim_and_release true o cancelled (some user) (others w)

  -- The writes of `applyReview` for a target that is no fill.
  unfoldable pub move_order :
      (World → World) → Order → OrderStatus → Option ℕ → World → Result World
  move_order others o target actor w = claim_and_release (is_final target) o target actor (others w)

  -- As in `Batches.Fills`, with the printing of decimals (`toFixed`) and of an instant, and the id
  -- of an approval as text.
  module _ (id_text : ℕ → Text) (new_date : Text → Option ℕ) (average : ℤ → Decimal → Decimal)
      (to_decimal : Text → Decimal) (to_fixed : Decimal → Text) (to_iso : ℕ → Text) where
    abbrev pub manual_ref : ℕ → Text
    manual_ref approval = letters "manual:" ++ id_text approval

    abbrev pub ref_or : Option Text → Text → Text
    ref_or none other = other
    ref_or (some []) other = other
    ref_or (some (c ∷ cs)) other = c ∷ cs

    -- The line of an execution by hand.
    unfoldable pub manual_line : Order → ReviewOrderDto → ℕ → Decimal → Decimal → ℕ → ExeLine
    manual_line o dto approval qty price now =
        let gross = to_fixed (round_product (qty *ℤ price) (currency_of o.instrument_id)) in
        record {
          order_id = id_text o.id;
          sdb_ref = ref_or dto.sdb_ref (manual_ref approval);
          executed_qty = to_fixed qty;
          price = to_fixed price;
          gross_amount = gross;
          courtage = letters "0";
          taxes = letters "0";
          net_amount = gross;
          settlement_date = [];
          executed_at = to_iso now;
          status = if is_status dto.status executed then filled else partial;
        }

    -- The execution by hand, if quantity and price are given.
    unfoldable pub fill_by_hand :
        ℕ
        → Order
        → ReviewOrderDto
        → ℕ
        → Option Decimal
        → Option Decimal
        → ℕ
        → Option ℕ
        → World
        → Result World
    fill_by_hand fresh o dto approval (some qty) (some price) now actor w = do
      (a, w') ←
          apply_execution id_text currency_of prorate new_date average to_decimal fresh o
            (manual_line o dto approval qty price now) none actor (some (manual_ref approval)) w
      ok w'
    fill_by_hand fresh o dto approval qty price now actor w =
        err (bad_request "Exécution manuelle sans quantité ou prix.")

    -- `applyReview`: the payload of the approval is the dto; the order's id comes with it.
    unfoldable pub apply_review :
        (World → World) → ℕ → ℕ → ReviewOrderDto → ℕ → ℕ → Option ℕ → World → Result World
    apply_review others fresh id dto approval now actor w = find_order id w.store.orders >>= λ o.
        throw_if (is_final o.status) (bad_request "L’ordre est déjà dans l’état final.")
        >> (assert_transition o.status dto.status
            >> (if is_fill dto.status
                then fill_by_hand fresh o dto approval dto.executed_quantity dto.executed_price now
                    actor (others w)
                else move_order others o dto.status actor w))
