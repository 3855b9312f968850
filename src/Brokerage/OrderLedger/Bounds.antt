-- ===== src/Brokerage/OrderLedger/Bounds.antt =====
-- Reserved shares against the position (src/modules/brokerage/order-ledger.service.ts).
use alke_finance_backend.Base.{
  ℕ, ℤ, pos, ◌≡◌, arith, ◌≤ℤ◌, +ℤ_parts, -ℤ_parts, ltb_ℤ, Bool, true, Bool-cases, inl, inr, any,
  List, [], ◌∷◌, All, All-append,
}
use alke_finance_backend.Money.{Decimal, zero_decimal}
use alke_finance_backend.Brokerage.OrderLedger.Positions.{
  Position, of_user, update_positions, sellable, reserve_row, reserve_shares, unreserve_row,
  unreserve_shares, settle_buy_row, settle_buy_shares, settle_sell_row, settle_sell_shares,
  pending_row, new_position, add_pending_shares,
}

-- A position whose reserved shares are among its settled ones.
pub record IsSound (p : Position) : Type 0 where
  pub reserved_nonneg : pos 0 ≤ℤ p.reserved_quantity
  pub covered : p.reserved_quantity ≤ℤ p.quantity
  pub pending_nonneg : pos 0 ≤ℤ p.pending_quantity

update-All :
    (test : Position → Bool) (f : Position → Position) (ps : List Position)
    → ((p : Position) → test p ≡ true → IsSound p → IsSound (f p))
    → All IsSound ps
    → All IsSound (update_positions test f ps)
unfolding update_positions
update-All test f [] h s = tt
update-All test f (p ∷ ps) h s = elim (Bool-cases (test p)) [
  | inl e ↦ rw e (h p e s.0, update-All test f ps h s.1)
  | inr e ↦ rw e (s.0, update-All test f ps h s.1)
]

reserve_row-IsSound :
    (user instrument : ℕ) (q : Decimal) (p : Position)
    → pos 0 ≤ℤ q
    → sellable user instrument q p ≡ true
    → IsSound p
    → IsSound (reserve_row q p)
reserve_row-IsSound user instrument q p nonneg h s = record {
  reserved_nonneg = ground (arith, +ℤ_parts p.reserved_quantity q, s.reserved_nonneg);
  covered =
      ground (arith, +ℤ_parts p.reserved_quantity q, -ℤ_parts p.quantity p.reserved_quantity, h);
  pending_nonneg = s.pending_nonneg;
}

unreserve_row-IsSound :
    (q : Decimal) (p : Position) → pos 0 ≤ℤ q → IsSound p → IsSound (unreserve_row q p)
unreserve_row-IsSound q p nonneg s = record {
  reserved_nonneg = ground (arith, -ℤ_parts p.reserved_quantity q);
  covered = ground (arith, -ℤ_parts p.reserved_quantity q, s.covered, s.reserved_nonneg);
  pending_nonneg = s.pending_nonneg;
}

settle_buy_row-IsSound :
    (q : Decimal) (p : Position) → pos 0 ≤ℤ q → IsSound p → IsSound (settle_buy_row q p)
settle_buy_row-IsSound q p nonneg s = record {
  reserved_nonneg = s.reserved_nonneg;
  covered = ground (arith, +ℤ_parts p.quantity q, s.covered);
  pending_nonneg = ground (arith, -ℤ_parts p.pending_quantity q);
}

settle_sell_row-IsSound : (q : Decimal) (p : Position) → IsSound p → IsSound (settle_sell_row q p)
settle_sell_row-IsSound q p s = record {
  reserved_nonneg = ground (arith, -ℤ_parts p.reserved_quantity q);
  covered = ground (arith, -ℤ_parts p.reserved_quantity q, -ℤ_parts p.quantity q, s.covered);
  pending_nonneg = s.pending_nonneg;
}

-- The updates of positions.
pub data Move : Type 0 where
  reserving unreserving settling_buy settling_sell : ℕ → ℕ → Decimal → Move
  adding : ℕ → ℕ → Decimal → Decimal → Move

abbrev pub quantity_of : Move → Decimal
quantity_of (reserving u i q) = q
quantity_of (unreserving u i q) = q
quantity_of (settling_buy u i q) = q
quantity_of (settling_sell u i q) = q
quantity_of (adding u i q price) = q

module _ (average : ℤ → Decimal → Decimal) where
  unfoldable pub run_move : Move → List Position → List Position
  run_move (reserving u i q) ps = (reserve_shares u i q ps).1
  run_move (unreserving u i q) ps = unreserve_shares u i q ps
  run_move (settling_buy u i q) ps = settle_buy_shares u i q ps
  run_move (settling_sell u i q) ps = settle_sell_shares u i q ps
  run_move (adding u i q price) ps = add_pending_shares average u i q price ps

  unfoldable pub run_moves : List Move → List Position → List Position
  run_moves [] ps = ps
  run_moves (m ∷ ms) ps = run_moves ms (run_move m ps)

  pending_row-IsSound :
      (q price : Decimal) (p : Position)
      → pos 0 ≤ℤ q
      → IsSound p
      → IsSound (pending_row average q price p)
  pending_row-IsSound q price p nonneg s = record {
    reserved_nonneg = s.reserved_nonneg;
    covered = s.covered;
    pending_nonneg = ground (arith, +ℤ_parts p.pending_quantity q, s.pending_nonneg);
  }

  run_move-IsSound :
      (m : Move) (ps : List Position)
      → pos 0 ≤ℤ quantity_of m
      → All IsSound ps
      → All IsSound (run_move m ps)
  unfolding run_move reserve_shares unreserve_shares settle_buy_shares settle_sell_shares
      add_pending_shares
  run_move-IsSound (reserving u i q) ps nonneg s =
      update-All (sellable u i q) (reserve_row q) ps
        (λ p t h. reserve_row-IsSound u i q p nonneg t h) s
  run_move-IsSound (unreserving u i q) ps nonneg s = elim (Bool-cases (ltb_ℤ zero_decimal q)) [
    | inl e ↦ rw e (
        update-All (of_user u i) (unreserve_row q) ps (λ p t h. unreserve_row-IsSound q p nonneg h)
          s)
    | inr e ↦ rw e s
  ]
  run_move-IsSound (settling_buy u i q) ps nonneg s =
      update-All (of_user u i) (settle_buy_row q) ps (λ p t h. settle_buy_row-IsSound q p nonneg h)
        s
  run_move-IsSound (settling_sell u i q) ps nonneg s =
      update-All (of_user u i) (settle_sell_row q) ps (λ p t h. settle_sell_row-IsSound q p h) s
  run_move-IsSound (adding u i q price) ps nonneg s = elim (Bool-cases (any (of_user u i) ps)) [
    | inl e ↦ rw e (
        update-All (of_user u i) (pending_row average q price) ps
          (λ p t h. pending_row-IsSound q price p nonneg h) s)
    | inr e ↦ rw e (
        All-append IsSound ps (new_position average u i q price ∷ []) s (
          record { reserved_nonneg = omega arith; covered = omega arith; pending_nonneg = nonneg },
          tt,
        ))
  ]

  -- After any updates with quantities that are not negative, on positions that are sound, every
  -- position's reserved quantity is between zero and its quantity, and its pending one not negative.
  pub run_moves-IsSound :
      (ms : List Move) (ps : List Position)
      → All (λ m. pos 0 ≤ℤ quantity_of m) ms
      → All IsSound ps
      → All IsSound (run_moves ms ps)
  unfolding run_moves
  run_moves-IsSound [] ps q s = s
  run_moves-IsSound (m ∷ ms) ps q s =
      run_moves-IsSound ms (run_move m ps) q.1 (run_move-IsSound m ps q.0 s)
