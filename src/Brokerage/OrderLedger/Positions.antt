-- ===== src/Brokerage/OrderLedger/Positions.antt =====
-- The positions of users, and their updates (src/modules/brokerage/order-ledger.service.ts).
use alke_finance_backend.Base.{
  ℕ, ℤ, ◌+ℤ◌, ◌-ℤ◌, ◌==◌, leb_ℤ, ltb_ℤ, Bool, ◌&&◌, any, List, [], ◌∷◌, ◌++◌, if◌then◌else◌,
}
use alke_finance_backend.Money.{Decimal, zero_decimal}
use alke_finance_backend.Brokerage.OrderState.{weighted_avg_cost}

pub record Position : Type 0 where
  pub user_id : ℕ
  pub instrument_id : ℕ
  pub quantity : Decimal
  pub pending_quantity : Decimal
  pub reserved_quantity : Decimal
  pub avg_cost : Decimal

-- `WHERE "userId" = … AND "instrumentId" = …`
abbrev pub of_user : ℕ → ℕ → Position → Bool
of_user user instrument p = (p.user_id == user) && (p.instrument_id == instrument)

-- `GREATEST(x, 0)`
abbrev pub greatest_zero : Decimal → Decimal
greatest_zero x = if ltb_ℤ x zero_decimal then zero_decimal else x

unfoldable pub update_positions :
    (Position → Bool) → (Position → Position) → List Position → List Position
update_positions test f [] = []
update_positions test f (p ∷ ps) = (if test p then f p else p) ∷ update_positions test f ps

-- The condition on the row in `reserveShares`.
abbrev pub sellable : ℕ → ℕ → Decimal → Position → Bool
sellable user instrument qty p =
    of_user user instrument p && leb_ℤ qty (p.quantity -ℤ p.reserved_quantity)

abbrev pub reserve_row : Decimal → Position → Position
reserve_row qty p = record p { reserved_quantity = p.reserved_quantity +ℤ qty }

-- `reserveShares`: whether a row was updated, and the rows.
unfoldable pub reserve_shares : ℕ → ℕ → Decimal → List Position → Bool × List Position
reserve_shares user instrument qty ps = (
  any (sellable user instrument qty) ps,
  update_positions (sellable user instrument qty) (reserve_row qty) ps,
)

abbrev pub unreserve_row : Decimal → Position → Position
unreserve_row qty p = record p { reserved_quantity = greatest_zero (p.reserved_quantity -ℤ qty) }

-- `unreserveShares`
unfoldable pub unreserve_shares : ℕ → ℕ → Decimal → List Position → List Position
unreserve_shares user instrument qty ps =
    if ltb_ℤ zero_decimal qty
    then update_positions (of_user user instrument) (unreserve_row qty) ps
    else ps

abbrev pub settle_buy_row : Decimal → Position → Position
settle_buy_row qty p = record p {
  pending_quantity = greatest_zero (p.pending_quantity -ℤ qty);
  quantity = p.quantity +ℤ qty;
}

-- `settleBuyShares`
unfoldable pub settle_buy_shares : ℕ → ℕ → Decimal → List Position → List Position
settle_buy_shares user instrument qty ps =
    update_positions (of_user user instrument) (settle_buy_row qty) ps

abbrev pub settle_sell_row : Decimal → Position → Position
settle_sell_row qty p = record p {
  reserved_quantity = greatest_zero (p.reserved_quantity -ℤ qty);
  quantity = greatest_zero (p.quantity -ℤ qty);
}

-- `settleSellShares`
unfoldable pub settle_sell_shares : ℕ → ℕ → Decimal → List Position → List Position
settle_sell_shares user instrument qty ps =
    update_positions (of_user user instrument) (settle_sell_row qty) ps

-- decimal.js's division in the average, as in `OrderState`.
module _ (average : ℤ → Decimal → Decimal) where
  abbrev pub pending_row : Decimal → Decimal → Position → Position
  pending_row qty price p = record p {
    pending_quantity = p.pending_quantity +ℤ qty;
    avg_cost = weighted_avg_cost average (p.quantity +ℤ p.pending_quantity) p.avg_cost qty price;
  }

  abbrev pub new_position : ℕ → ℕ → Decimal → Decimal → Position
  new_position user instrument qty price = record {
    user_id = user;
    instrument_id = instrument;
    quantity = zero_decimal;
    pending_quantity = qty;
    reserved_quantity = zero_decimal;
    avg_cost = price;
  }

  -- `addPendingShares`
  unfoldable pub add_pending_shares : ℕ → ℕ → Decimal → Decimal → List Position → List Position
  add_pending_shares user instrument qty price ps =
      if any (of_user user instrument) ps
      then update_positions (of_user user instrument) (pending_row qty price) ps
      else ps ++ new_position user instrument qty price ∷ []
