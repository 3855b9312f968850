-- ===== src/Brokerage/OrderState/Graph.antt =====
-- The diagram of an order's states (src/modules/brokerage/order-state.ts).
use mathlib.Core.Bool.{false≢true}
use alke_finance_backend.Base.{
  ℕ, ◌<◌, ◌≡◌, ◌↔◌, ◌⊎◌, inl, inr, refl, arith, true, false, Bool-cases, sym, ◌∙◌, subst, ok,
}
use alke_finance_backend.Brokerage.OrderState.{
  executed, rejected, cancelled, expired, transitions, OrderStatus-discrete, OrderStatus, pending,
  transmitted, acknowledged, partially_executed, adjusted, is_final, can_transition,
  assert_transition,
}

-- How far a status is along the life of an order.
abbrev pub rank : OrderStatus → ℕ
rank pending = 0
rank transmitted = 1
rank acknowledged = 2
rank partially_executed = 3
rank _ = 4

open_exit : (s : OrderStatus) → is_final s ≡ false → can_transition s adjusted ≡ true
unfolding is_final can_transition
open_exit s h = ground arith

final_closed : (s t : OrderStatus) → is_final s ≡ true → can_transition s t ≡ false
unfolding is_final can_transition
final_closed s t h = ground arith

-- A status is final exactly when `canTransition` lets nothing leave it.
pub is_final_no_exit :
    (s : OrderStatus) → (is_final s ≡ true) ↔ ((t : OrderStatus) → can_transition s t ≡ false)
is_final_no_exit s = (λ h t. final_closed s t h, back)
  where
    back : ((t : OrderStatus) → can_transition s t ≡ false) → is_final s ≡ true
    back h = elim (Bool-cases (is_final s)) [
      | inl e ↦ e
      | inr e ↦ absurd (false≢true (sym (h adjusted) ∙ open_exit s e))
    ]

step_forward :
    (s t : OrderStatus)
    → can_transition s t ≡ true
    → (rank s < rank t) ⊎ ((s ≡ partially_executed) × (t ≡ partially_executed))
unfolding can_transition
step_forward s t h = ground arith

-- A run of transitions that `assertTransition` let through.
pub data Trail : OrderStatus → OrderStatus → Type 0 where
  stay : {s : OrderStatus} → Trail s s
  move : {s t u : OrderStatus} → assert_transition s t ≡ ok tt → Trail t u → Trail s u

asserted : (s t : OrderStatus) → assert_transition s t ≡ ok tt → can_transition s t ≡ true
unfolding assert_transition
asserted s t h = ground arith

advance :
    (s t u : OrderStatus)
    → (rank s < rank t) ⊎ ((s ≡ partially_executed) × (t ≡ partially_executed))
    → (t ≡ u) ⊎ (rank t < rank u)
    → (s ≡ u) ⊎ (rank s < rank u)
advance s t u (inl a) (inl e) = inr (subst (λ x. rank s < rank x) e a)
advance s t u (inl a) (inr b) = inr (omega arith)
advance s t u (inr (p, q)) (inl e) = inl (p ∙ sym q ∙ e)
advance s t u (inr (p, q)) (inr b) = inr (subst (λ x. rank x < rank u) (q ∙ sym p) b)

-- Along any run of transitions the order stays where it is or moves forward: a status that was
-- left is never seen again.
pub Trail_forward : {s t : OrderStatus} → Trail s t → (s ≡ t) ⊎ (rank s < rank t)
Trail_forward stay = inl refl
Trail_forward (move {s} {t} {u} h r) =
    advance s t u (step_forward s t (asserted s t h)) (Trail_forward r)

-- A run that starts in a final status has no step.
pub Trail_final : {s t : OrderStatus} → is_final s ≡ true → Trail s t → s ≡ t
Trail_final f stay = refl
Trail_final f (move {s} {t} h r) = absurd (false≢true (sym (final_closed s t f) ∙ asserted s t h))

-- No open order is stuck: from every status that is not final, a run of transitions that
-- `assertTransition` lets through leads to EXECUTED.
pub Trail_to_executed : (s : OrderStatus) → is_final s ≡ false → Trail s executed
unfolding is_final can_transition assert_transition transitions OrderStatus-discrete
Trail_to_executed pending h = move {t = transmitted} refl (move refl stay)
Trail_to_executed transmitted h = move refl stay
Trail_to_executed acknowledged h = move refl stay
Trail_to_executed partially_executed h = move refl stay
Trail_to_executed executed h = stay
Trail_to_executed rejected h = absurd (false≢true (sym h))
Trail_to_executed cancelled h = absurd (false≢true (sym h))
Trail_to_executed expired h = absurd (false≢true (sym h))
Trail_to_executed adjusted h = absurd (false≢true (sym h))
