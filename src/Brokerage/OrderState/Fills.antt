-- ===== src/Brokerage/OrderState/Fills.antt =====
-- `applyFill` over the executions of an order (src/modules/brokerage/order-state.ts).
use alke_finance_backend.Base.{
  ◌≡◌, ◌≢◌, ◌↔◌, ◌⊎◌, inl, inr, arith, int_laws, ℤ, pos, ◌+ℤ◌, ◌-ℤ◌, ◌≤ℤ◌, List, [], ◌∷◌, ◌∙◌, refl,
  some, Result, ◌>>=◌, >>=-eq-ok, +ℤ_assoc, -ℤ_parts, eq_of_parts, eqb_ℤ, ltb_ℤ, Bool, true, false,
  Bool-cases, not, subst, ap, ok, throw_if_ok, ok_injective, if◌then◌else◌,
}
use alke_finance_backend.Money.{Decimal, zero_decimal}
use alke_finance_backend.Brokerage.OrderState.{
  OrderStatus, executed, partially_executed, open_at_sdb, has, can_transition, OrderStatus-discrete,
  FillState, FillResult, apply_fill,
}

-- `applyFill`'s effect on the counters.
pub record Filled (state : FillState) (q : Decimal) (r : FillResult) : Type 0 where
  pub positive : pos 1 ≤ℤ q
  pub counted : r.filled_quantity ≡ state.filled_quantity +ℤ q
  pub within : r.filled_quantity ≤ℤ state.quantity
  pub left : r.filled_quantity +ℤ r.remaining ≡ state.quantity
  pub complete : (r.status ≡ executed) ↔ (r.filled_quantity ≡ state.quantity)
  pub otherwise : (r.status ≡ executed) ⊎ (r.status ≡ partially_executed)

ltb_ℤ_true : (a : ℤ) → not (ltb_ℤ zero_decimal a) ≡ false → pos 1 ≤ℤ a
ltb_ℤ_true a h = ground arith

ltb_ℤ_false : (a b : ℤ) → ltb_ℤ a b ≡ false → b ≤ℤ a
ltb_ℤ_false a b h = ground arith

remaining_zero : (a b : ℤ) → eqb_ℤ (a -ℤ b) zero_decimal ≡ true → b ≡ a
remaining_zero a b h = eq_of_parts b a (ground (arith, -ℤ_parts a b))

remaining_some : (a b : ℤ) → eqb_ℤ (a -ℤ b) zero_decimal ≡ false → b ≢ a
remaining_some a b h e = ground (arith, -ℤ_parts a b)

status_of_remaining :
    (b : Bool)
    → ((if b then executed else partially_executed) ≡ executed)
      ⊎ ((if b then executed else partially_executed) ≡ partially_executed)
status_of_remaining true = inl refl
status_of_remaining false = inr refl

status_complete :
    (a b : ℤ)
    → ((if eqb_ℤ (a -ℤ b) zero_decimal then executed else partially_executed) ≡ executed) ↔ (b ≡ a)
status_complete a b = elim (Bool-cases (eqb_ℤ (a -ℤ b) zero_decimal)) [
  | inl e ↦ rw e (λ _. remaining_zero a b e, λ _. refl)
  | inr e ↦ rw e (λ h. cc, λ h. absurd (remaining_some a b e h))
]

remaining_left : (a b : ℤ) → b +ℤ (a -ℤ b) ≡ a
remaining_left a b = omega int_laws

-- The sum of the executed quantities.
abbrev pub quantities : List (Decimal × Decimal) → Decimal
quantities [] = zero_decimal
quantities ((q, p) ∷ fills) = q +ℤ quantities fills

module _ (average : ℤ → Decimal → Decimal) where
  -- A successful `applyFill` read a positive quantity, added it to the filled one, stayed within the
  -- order's quantity, left the rest as `remaining`, and answers `executed` exactly when the order is
  -- filled, `partially_executed` otherwise.
  pub apply_fill-Filled :
      (state : FillState) (q p : Decimal) {r : FillResult}
      → apply_fill average state q p ≡ ok r
      → Filled state q r
  unfolding apply_fill
  apply_fill-Filled state q p {r} h =
      let s1 = throw_if_ok (not (ltb_ℤ zero_decimal q)) _ _ h in
      let filled = state.filled_quantity +ℤ q in
      let s2 = throw_if_ok (ltb_ℤ state.quantity filled) _ _ s1.1 in
      subst (Filled state q) (ok_injective s2.1) (record {
        positive = ltb_ℤ_true q s1.0;
        counted = refl;
        within = ltb_ℤ_false state.quantity filled s2.0;
        left = remaining_left state.quantity filled;
        complete = status_complete state.quantity filled;
        otherwise = status_of_remaining (eqb_ℤ (state.quantity -ℤ filled) zero_decimal);
      })

  open_to_fill :
      (s : OrderStatus)
      → has open_at_sdb s ≡ true
      → (can_transition s executed ≡ true) × (can_transition s partially_executed ≡ true)
  unfolding can_transition OrderStatus-discrete
  open_to_fill s h = ground arith

  -- From a status that is open at the SDB, the status that `applyFill` answers is one that
  -- `canTransition` allows.
  pub apply_fill_transition :
      (s : OrderStatus) (state : FillState) (q p : Decimal) {r : FillResult}
      → has open_at_sdb s ≡ true
      → apply_fill average state q p ≡ ok r
      → can_transition s r.status ≡ true
  apply_fill_transition s state q p {r} o h = elim ((apply_fill-Filled state q p h).otherwise) [
    | inl e ↦ rw e (open_to_fill s o).0
    | inr e ↦ rw e (open_to_fill s o).1
  ]

  -- The executions of one order, one after the other: `applyExecution` stores the counters of each
  -- result for the next.
  abbrev pub next_state : FillState → FillResult → FillState
  next_state state r = record {
    quantity = state.quantity;
    filled_quantity = r.filled_quantity;
    avg_executed_price = some r.avg_executed_price;
  }

  unfoldable pub apply_fills : FillState → List (Decimal × Decimal) → Result FillState
  apply_fills state [] = ok state
  apply_fills state ((q, p) ∷ fills) =
      apply_fill average state q p >>= λ r. apply_fills (next_state state r) fills

  count_step : (a q b : ℤ) {f g : ℤ} → f ≡ a +ℤ q → g ≡ f +ℤ b → g ≡ a +ℤ (q +ℤ b)
  count_step a q b e e' = e' ∙ ap (λ x. x +ℤ b) e ∙ +ℤ_assoc a q b

  count_zero : (a : ℤ) → a ≡ a +ℤ zero_decimal
  count_zero a = omega int_laws

  -- Whatever executions are accepted for an order whose filled quantity does not exceed its own, the
  -- order's quantity does not change, the filled quantity grows by exactly their sum, and it still
  -- does not exceed the order's.
  pub apply_fills_bounded :
      (state : FillState) (fills : List (Decimal × Decimal)) {last : FillState}
      → state.filled_quantity ≤ℤ state.quantity
      → apply_fills state fills ≡ ok last
      → (last.quantity ≡ state.quantity)
        × (last.filled_quantity ≡ state.filled_quantity +ℤ quantities fills)
        × (last.filled_quantity ≤ℤ state.quantity)
  unfolding apply_fills
  apply_fills_bounded state [] w h =
      let e = ok_injective h in
      subst
        (λ x.
          (x.quantity ≡ state.quantity)
          × (x.filled_quantity ≡ state.filled_quantity +ℤ zero_decimal)
          × (x.filled_quantity ≤ℤ state.quantity))
        e (refl, count_zero state.filled_quantity, w)
  apply_fills_bounded state ((q, p) ∷ fills) w h =
      let (r, hr, h') = >>=-eq-ok (apply_fill average state q p) _ h in
      let f = apply_fill-Filled state q p hr in
      let (a, b, c) = apply_fills_bounded (next_state state r) fills f.within h' in
      (a, count_step state.filled_quantity q (quantities fills) f.counted b, c)
