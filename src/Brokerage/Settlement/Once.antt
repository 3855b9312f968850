-- ===== src/Brokerage/Settlement/Once.antt =====
-- Repeated settlements of an execution (src/modules/brokerage/settlement.service.ts).
use alke_finance_backend.Base.{
  ℕ, ◌≡◌, refl, ap, subst, inl, inr, ◌==◌, true, false, Bool-cases, Option, List, [], ◌∷◌, Text, ok,
  >>=-eq-ok, ok_injective,
}
use alke_finance_backend.Money.{Decimal}
use alke_finance_backend.Brokerage.OrderLedger.{
  SettlementState, settling, settled, failed, Order, Execution, reverse_fill,
}
use alke_finance_backend.Brokerage.Settlement.{
  World, set_settlement, is_due, claimable, with_state, deliver, settle, fail_due,
}

claimable-set :
    (id : ℕ) (state : SettlementState) (es : List Execution)
    → is_due state ≡ false
    → claimable id (set_settlement id state es) ≡ false
unfolding claimable set_settlement
claimable-set id state [] h = refl
claimable-set id state (e ∷ es) h = elim (Bool-cases (e.id == id)) [
  | inl same ↦ rw same (rw (same, claimable) h)
  | inr other ↦ rw other (rw (other, claimable) (claimable-set id state es h))
]

settle_closed :
    (o : Order) (e : Execution) (currency : Text) (actor : Option ℕ) (w : World)
    → claimable e.id w.store.executions ≡ false
    → settle o e currency actor w ≡ ok (false, w)
unfolding settle
settle_closed o e currency actor w h = rw h refl

-- An execution that was settled is not settled again: a second run finds no due row and changes
-- nothing, whatever order it reads.
pub settle_twice :
    (o o' : Order) (e : Execution) (currency : Text) (actor : Option ℕ) (w after : World)
    → settle o e currency actor w ≡ ok (true, after)
    → settle o' e currency actor after ≡ ok (false, after)
unfolding settle
settle_twice o o' e currency actor w after h =
    elim (Bool-cases (claimable e.id w.store.executions)) [
      | inr closed ↦ cc (ap (λ x. x.0) (ok_injective (rw closed at h)))
      | inl open_row ↦
          let (w', hd, hr) =
            >>=-eq-ok (deliver o e currency actor (with_state e.id settling w)) _
              (rw open_row at h) in
          settle_closed o' e currency actor after (
            subst (λ x. claimable e.id x.store.executions ≡ false) (ap (λ x. x.1) (ok_injective hr))
              (claimable-set e.id settled w'.store.executions refl))
    ]

module _ (prorate : Decimal → Decimal → Decimal → Text → Decimal) where
  -- An execution whose delivery failed is not settled afterwards.
  pub fail_due-unsettled :
      (o o' : Order) (e : Execution) (currency : Text) (actor : Option ℕ) (w after : World)
      → fail_due prorate o e currency actor w ≡ ok after
      → settle o' e currency actor after ≡ ok (false, after)
  unfolding fail_due
  fail_due-unsettled o o' e currency actor w after h =
      let (store, hs, hr) = >>=-eq-ok (reverse_fill prorate o e currency actor w.store) _ h in
      settle_closed o' e currency actor after (
        subst (λ x. claimable e.id x.store.executions ≡ false) (ok_injective hr)
          (claimable-set e.id failed store.executions refl))
