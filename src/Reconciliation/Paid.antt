-- ===== src/Reconciliation/Paid.antt =====
-- What the confirmation of a withdrawal leaves of the intents (src/modules/payments/payments.service.ts).
use alke_finance_backend.Base.{
  ℕ, ◌≡◌, refl, inl, inr, ◌==◌, Bool, true, not, Bool-cases, Option, Option-cases, List, some, any,
  bad_request, subst, ==_iff, if◌then◌else◌, Result, ok, err, if_both,
}
use alke_finance_backend.Ledger.Types.{PostTxnInput, LedgerTxn}
use alke_finance_backend.Ledger.Retry.{Rivals, post}
use alke_finance_backend.Payments.{
  PaymentIntent, Store, is_incoming, is_paid, is_pending, find_intent, set_paid, post_then,
  mark_withdrawal_paid, withdrawal_input,
}
use alke_finance_backend.Reconciliation.Open.{
  any_found, found_passes, both_hold, is_paid_intent, update_intent-any, set_paid-any, eqb_refl,
}

-- A payment changes nothing of the test.
abbrev pub IgnoresPayment : (PaymentIntent → Bool) → Type 0
IgnoresPayment p = (txn : ℕ) (i : PaymentIntent) → p i ≡ true → p (set_paid txn i) ≡ true

abbrev pub PaidIf : ℕ → Result PaymentIntent → List PaymentIntent → Type 0
PaidIf id (ok row) is = any (is_paid_intent id) is ≡ true
PaidIf id (err e) is = Unit

-- Intents stay but for a payment, and success means that the intent is paid.
abbrev pub Marks : ℕ → List PaymentIntent → Result PaymentIntent × Store → Type 0
Marks id is x =
    ((p : PaymentIntent → Bool) → IgnoresPayment p → any p is ≡ true → any p x.1.intents ≡ true)
    × PaidIf id x.0 x.1.intents

post_then-Marks :
    (w : Rivals) (input : PostTxnInput) (i : PaymentIntent) (s : Store)
    → any (λ x. x.id == i.id) s.intents ≡ true
    → Marks i.id s.intents (post_then w input i set_paid s)
unfolding post_then
post_then-Marks w input i s held = go (post w input s.ledger).result refl
  where
    go :
        (r : Result LedgerTxn)
        → (post w input s.ledger).result ≡ r
        → Marks i.id s.intents (post_then w input i set_paid s)
    go (err e) h = rw (h, post_then) (λ p k a. a, tt)
    go (ok t) h =
        rw (h, post_then)
          (
            λ p k a. update_intent-any p i.id (set_paid t.id) (k t.id) s.intents a,
            set_paid-any i.id t.id s.intents held,
          )

pub mark_withdrawal_paid-Marks :
    (w : Rivals) (id : ℕ) (actor : Option ℕ) (s : Store)
    → Marks id s.intents (mark_withdrawal_paid w id actor s)
unfolding mark_withdrawal_paid find_intent
mark_withdrawal_paid-Marks w id actor s = elim (Option-cases (find_intent id s.intents)) [
  | inl absent ↦ rw (absent, mark_withdrawal_paid) (λ p k a. a, tt)
  | inr (i, found) ↦ rw (found, mark_withdrawal_paid) (go i found)
]
  where
    go :
        (i : PaymentIntent)
        → find_intent id s.intents ≡ some i
        → Marks id s.intents (
            if is_incoming i.direction
            then (err (bad_request "Cette intention n’est pas un retrait."), s)
            else if is_paid i.state
            then (ok i, s)
            else if not (is_pending i.state)
            then (err (bad_request "Paiement impossible."), s)
            else post_then w (withdrawal_input i actor) i set_paid s)
    go i found =
        if_both (Marks id s.intents) (is_incoming i.direction) _ _ (λ p k a. a, tt)
          (elim (Bool-cases (is_paid i.state)) [
            | inl e ↦ rw e (
              λ p k a. a,
              any_found (is_paid_intent id) _ s.intents i found
                  (both_hold _ _ (found_passes _ s.intents i found) e),
            )
            | inr e ↦ rw e (
                if_both (Marks id s.intents) (not (is_pending i.state)) _ _ (λ p k a. a, tt)
                  (subst
                    (λ x. Marks x s.intents (post_then w (withdrawal_input i actor) i set_paid s))
                    ((==_iff i.id id).0 (found_passes _ s.intents i found))
                    (post_then-Marks w (withdrawal_input i actor) i s
                      (any_found (λ x. x.id == i.id) _ s.intents i found (eqb_refl i.id)))))
          ])
