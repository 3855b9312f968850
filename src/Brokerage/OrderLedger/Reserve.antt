-- ===== src/Brokerage/OrderLedger/Reserve.antt =====
-- The fills of a BUY against its reserve (src/modules/brokerage/order-ledger.service.ts).
use alke_finance_backend.Base.{
  ℕ, ℤ, ◌+◌, ◌≤◌, ◌≡◌, refl, sym, ◌∙◌, ap, subst, arith, int_laws, ◌+ℤ◌, ◌-ℤ◌, ◌≤ℤ◌, zero_+ℤ,
  +ℤ_assoc, ltb_ℤ, ◌==◌, ==_iff, Bool, true, false, not, ◌&&◌, Bool-cases, inl, inr, Option, some,
  is_some, List, [], ◌∷◌, map, keep, find, Text, letters, ok, >>=-eq-ok, throw_if_ok, ok_injective,
  if◌then◌else◌,
}
use alke_finance_backend.Money.{Decimal, zero_decimal, plus_all, sum}
use alke_finance_backend.Ledger.Effect.{plus_all-from}
use alke_finance_backend.Brokerage.OrderLedger.{
  buy, Order, Execution, Store, is_failed, set_fill, buy_debit, consumed_reserve, consumed_before,
  post_fill,
}

-- The executions with an id.
unfoldable pub count_id : ℕ → List Execution → ℕ
count_id id [] = 0
count_id id (e ∷ es) = (if e.id == id then 1 else 0) + count_id id es

first_term :
    (a : Decimal) (vs : List Decimal)
    → plus_all zero_decimal (a ∷ vs) ≡ a +ℤ plus_all zero_decimal vs
unfolding plus_all
first_term a vs =
    plus_all-from (zero_decimal +ℤ a) vs ∙ ap (λ x. x +ℤ plus_all zero_decimal vs) (zero_+ℤ a)

swap_terms : (a b c : ℤ) → a +ℤ b +ℤ c ≡ c +ℤ b +ℤ a
swap_terms a b c = omega int_laws

under_term : (a b c d e : ℤ) → b +ℤ c ≡ d +ℤ e → a +ℤ b +ℤ c ≡ a +ℤ d +ℤ e
under_term a b c d e h = +ℤ_assoc a b c ∙ ap (λ x. a +ℤ x) h ∙ sym (+ℤ_assoc a d e)

some_injective : {a b : Execution} → some a ≡ some b → a ≡ b
some_injective h = cc

module _ (prorate : Decimal → Decimal → Decimal → Text → Decimal) where
  -- What one execution counts for in `consumedReserve`.
  weight : Order → Execution → Decimal
  weight o e =
      if (e.order_id == o.id) && (is_some e.fill_txn_id && not (is_failed e.settlement_state))
      then buy_debit prorate o e (letters "XAF")
      else zero_decimal

  abbrev debits : Order → List Execution → List Decimal
  debits o es =
      map (λ e. buy_debit prorate o e (letters "XAF"))
        (keep
          (λ e.
            (e.order_id == o.id) && (is_some e.fill_txn_id && not (is_failed e.settlement_state)))
          es)

  consumed-cons :
      (o : Order) (e : Execution) (es : List Execution)
      → consumed_reserve prorate o (e ∷ es) ≡ weight o e +ℤ consumed_reserve prorate o es
  unfolding consumed_reserve sum plus_all weight
  consumed-cons o e es =
      elim (Bool-cases
        ((e.order_id == o.id) && (is_some e.fill_txn_id && not (is_failed e.settlement_state)))) [
          | inl c ↦ rw c (first_term (buy_debit prorate o e (letters "XAF")) (debits o es))
          | inr c ↦ rw c (sym (zero_+ℤ (plus_all zero_decimal (debits o es))))
        ]

  -- The row with its fill.
  abbrev filled : Execution → ℕ → Execution
  filled e txn = record e { fill_txn_id = some txn }

  set_fill-absent :
      (id txn : ℕ) (es : List Execution) → count_id id es ≡ 0 → set_fill id txn es ≡ es
  unfolding count_id set_fill
  set_fill-absent id txn [] h = refl
  set_fill-absent id txn (e ∷ es) h = ground (arith, set_fill-absent id txn es)

  consumed-set_fill :
      (o : Order) (e : Execution) (txn : ℕ) (es : List Execution)
      → find (λ x. x.id == e.id) es ≡ some e
      → count_id e.id es ≤ 1
      → consumed_reserve prorate o (set_fill e.id txn es) +ℤ weight o e
        ≡ consumed_reserve prorate o es +ℤ weight o (filled e txn)
  unfolding count_id set_fill
  consumed-set_fill o e txn [] found one = cc
  consumed-set_fill o e txn (x ∷ es) found one = elim (Bool-cases (x.id == e.id)) [
    | inl same ↦
        let x_is_e : x ≡ e = some_injective (rw same at found) in
        let once : 1 + count_id e.id es ≤ 1 = rw same at one in
        let rest : set_fill e.id txn es ≡ es = set_fill-absent e.id txn es (omega (arith, once)) in
        rw same (
          ap (λ r. consumed_reserve prorate o (filled x txn ∷ r) +ℤ weight o e) rest
          ∙ ap (λ y. consumed_reserve prorate o (filled y txn ∷ es) +ℤ weight o e) x_is_e
          ∙ ap (λ y. y +ℤ weight o e) (consumed-cons o (filled e txn) es)
          ∙ swap_terms (weight o (filled e txn)) (consumed_reserve prorate o es) (weight o e)
          ∙ ap (λ y. y +ℤ weight o (filled e txn)) (sym (consumed-cons o e es))
          ∙ ap (λ y. consumed_reserve prorate o (y ∷ es) +ℤ weight o (filled e txn)) (sym x_is_e))
    | inr other ↦
        let later : find (λ y. y.id == e.id) es ≡ some e = rw other at found in
        let once : 0 + count_id e.id es ≤ 1 = rw other at one in
        let ih = consumed-set_fill o e txn es later (omega (arith, once)) in
        rw other (
          ap (λ y. y +ℤ weight o e) (consumed-cons o x (set_fill e.id txn es))
          ∙ under_term (weight o x) (consumed_reserve prorate o (set_fill e.id txn es)) (weight o e)
              (consumed_reserve prorate o es) (weight o (filled e txn)) ih
          ∙ ap (λ y. y +ℤ weight o (filled e txn)) (sym (consumed-cons o x es)))
  ]

  weight_open :
      (o : Order) (e : Execution)
      → e.order_id ≡ o.id
      → is_failed e.settlement_state ≡ false
      → weight o e
        ≡ (if is_some e.fill_txn_id then buy_debit prorate o e (letters "XAF") else zero_decimal)
  unfolding weight
  weight_open o e mine live =
      rw ((==_iff e.order_id o.id).1 mine) (rw live (go (is_some e.fill_txn_id)))
    where
      go :
          (b : Bool)
          → (if true && (b && not false)
              then buy_debit prorate o e (letters "XAF")
              else zero_decimal)
            ≡ (if b then buy_debit prorate o e (letters "XAF") else zero_decimal)
      go true = refl
      go false = refl

  debit-filled :
      (o : Order) (e : Execution) (txn : ℕ) (currency : Text)
      → buy_debit prorate o (filled e txn) currency ≡ buy_debit prorate o e currency
  unfolding buy_debit
  debit-filled o e txn currency = refl

  within : (c c' w d m : ℤ) → c' +ℤ w ≡ c +ℤ d → ltb_ℤ m (c -ℤ w +ℤ d) ≡ false → c' ≤ℤ m
  within c c' w d m moved fits =
      let same : c' ≡ c -ℤ w +ℤ d = solve c c' w d moved in
      subst (λ x. x ≤ℤ m) (sym same) (ground (arith, fits))
    where
      solve : (c c' w d : ℤ) → c' +ℤ w ≡ c +ℤ d → c' ≡ c -ℤ w +ℤ d
      solve c c' w d h = back c' w ∙ ap (λ x. x -ℤ w) h ∙ move c d w
        where
          back : (a b : ℤ) → a ≡ a +ℤ b -ℤ b
          back a b = omega int_laws

          move : (a b x : ℤ) → a +ℤ b -ℤ x ≡ a -ℤ x +ℤ b
          move a b x = omega int_laws

  -- What `postFill` has stored when it returns for a BUY.
  post_fill-buy :
      (o : Order) (e : Execution) (partner : ℕ) (currency : Text) (actor : Option ℕ) (s : Store)
      {txn : ℕ} {s' : Store}
      → o.side ≡ buy
      → post_fill prorate o e partner currency actor s ≡ ok (txn, s')
      → (ltb_ℤ o.max_amount
            (consumed_before prorate o e currency s.executions +ℤ buy_debit prorate o e currency)
          ≡ false)
        × (s'.executions ≡ set_fill e.id txn s.executions)
  unfolding post_fill
  post_fill-buy o e partner currency actor s {txn} {s'} side h =
      let (x, hx, rest) = >>=-eq-ok _ _ (rw (side, post_fill) at h) in
      let fits =
        throw_if_ok
          (ltb_ℤ o.max_amount
            (consumed_before prorate o e currency s.executions +ℤ buy_debit prorate o e currency))
          _ _ hx in
      let done = ok_injective rest in
      (
        fits.0,
        sym (ap (λ y. y.1.executions) done)
            ∙ ap (λ i. set_fill e.id i s.executions) (ap (λ y. y.0) done),
      )

  -- When `postFill` returns for the execution of a BUY in francs, whose row is the only one with its
  -- id and has not failed to settle, then all that the order's executions take from the reserve, this
  -- one included, is at most the order's maximal amount.
  pub post_fill_within_reserve :
      (o : Order) (e : Execution) (partner : ℕ) (actor : Option ℕ) (s : Store) {txn : ℕ}
      {s' : Store}
      → o.side ≡ buy
      → find (λ x. x.id == e.id) s.executions ≡ some e
      → count_id e.id s.executions ≤ 1
      → e.order_id ≡ o.id
      → is_failed e.settlement_state ≡ false
      → post_fill prorate o e partner (letters "XAF") actor s ≡ ok (txn, s')
      → consumed_reserve prorate o s'.executions ≤ℤ o.max_amount
  unfolding consumed_before
  post_fill_within_reserve o e partner actor s {txn} {s'} side found one mine live h =
      let (fits, stored) = post_fill-buy o e partner (letters "XAF") actor s side h in
      let moved = consumed-set_fill o e txn s.executions found one in
      let after = weight_open o (filled e txn) mine live ∙ debit-filled o e txn (letters "XAF") in
      subst (λ x. consumed_reserve prorate o x ≤ℤ o.max_amount) (sym stored)
        (within (consumed_reserve prorate o s.executions)
          (consumed_reserve prorate o (set_fill e.id txn s.executions)) (weight o e)
          (buy_debit prorate o e (letters "XAF")) o.max_amount
          (moved ∙ ap (λ x. consumed_reserve prorate o s.executions +ℤ x) after)
          (ap
              (λ x. ltb_ℤ o.max_amount (
                consumed_reserve prorate o s.executions
                -ℤ x
                +ℤ buy_debit prorate o e (letters "XAF")))
              (weight_open o e mine live)
            ∙ fits))
