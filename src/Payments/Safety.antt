-- ===== src/Payments/Safety.antt =====
-- The payments and the ledger's invariant (src/modules/payments/payments.service.ts).
use alke_finance_backend.Base.{
  ℕ, ◌≡◌, refl, sym, subst, inl, inr, Bool, not, ◌||◌, Bool-cases, Option, Option-cases, none, some,
  List, [], ◌∷◌, All, Text, to_upper, Result, ok, err,
}
use alke_finance_backend.Money.{Decimal}
use alke_finance_backend.Ledger.Types.{Db, LedgerTxn, PostTxnInput, PaymentProvider}
use alke_finance_backend.Ledger.Retry.{Rivals, post}
use alke_finance_backend.Ledger.Invariant.{Inv}
use alke_finance_backend.Ledger.Calls.{Respects, post-Sound}
use alke_finance_backend.Payments.{
  PaymentIntent, PaymentIntentState, Store, find_intent, set_state, set_paid, is_incoming, is_paid,
  is_pending, is_dropped, is_cancelled, is_open, deposit_input, withdrawal_input,
  withdraw_release_input, withdraw_reserve_input, post_then, credit_deposit, ProviderStatus,
  status_paid, status_failed, status_pending, confirm_found, confirm_deposit, mark_withdrawal_paid,
  fail_withdrawal, force_complete, reserve_withdrawal, request_withdrawal, reserve_outcome,
  new_withdrawal, admit_withdrawal, expire_one, expire_checked, row_or,
}

post_then-Inv :
    (w : Rivals) (input : PostTxnInput) (i : PaymentIntent)
    (write : ℕ → PaymentIntent → PaymentIntent) (s : Store)
    → Respects w
    → input.enforce_non_negative ≡ none
    → Inv s.ledger
    → Inv (post_then w input i write s).1.ledger
unfolding post_then
post_then-Inv w input i write s respects default inv = go (post w input s.ledger).result refl
  where
    kept : Inv (post w input s.ledger).db
    kept = (post-Sound w input s.ledger respects default inv).inv

    go :
        (r : Result LedgerTxn)
        → (post w input s.ledger).result ≡ r
        → Inv (post_then w input i write s).1.ledger
    go (err e) h = rw (h, post_then) kept
    go (ok t) h = rw (h, post_then) kept

confirm_found-Inv :
    (w : Rivals) (answer : Option ProviderStatus) (i : PaymentIntent) (s : Store)
    → Respects w
    → Inv s.ledger
    → Inv (confirm_found w answer i s).1.ledger
unfolding credit_deposit deposit_input
confirm_found-Inv w none i s respects inv = inv
confirm_found-Inv w (some status_paid) i s respects inv =
    post_then-Inv w (deposit_input i none) i set_paid s respects refl inv
confirm_found-Inv w (some status_failed) i s respects inv = inv
confirm_found-Inv w (some status_pending) i s respects inv = inv

confirm_deposit-Inv :
    (w : Rivals) (query : PaymentIntent → Option ProviderStatus) (id : ℕ) (s : Store)
    → Respects w
    → Inv s.ledger
    → Inv (confirm_deposit w query id s).1.ledger
unfolding confirm_deposit
confirm_deposit-Inv w query id s respects inv = elim (Option-cases (find_intent id s.intents)) [
  | inl absent ↦ rw (absent, confirm_deposit) inv
  | inr (i, found) ↦ elim (Bool-cases (not (is_incoming i.direction))) [
    | inl e ↦ rw (found, confirm_deposit) (rw e inv)
    | inr e ↦ elim (Bool-cases (is_paid i.state || is_dropped i.state)) [
      | inl d ↦ rw (found, confirm_deposit) (rw e (rw d inv))
      | inr d ↦
          rw (found, confirm_deposit) (rw e (rw d (confirm_found-Inv w (query i) i s respects inv)))
    ]
  ]
]

mark_withdrawal_paid-Inv :
    (w : Rivals) (id : ℕ) (actor : Option ℕ) (s : Store)
    → Respects w
    → Inv s.ledger
    → Inv (mark_withdrawal_paid w id actor s).1.ledger
unfolding mark_withdrawal_paid withdrawal_input
mark_withdrawal_paid-Inv w id actor s respects inv =
    elim (Option-cases (find_intent id s.intents)) [
      | inl absent ↦ rw (absent, mark_withdrawal_paid) inv
      | inr (i, found) ↦ elim (Bool-cases (is_incoming i.direction)) [
        | inl e ↦ rw (found, mark_withdrawal_paid) (rw e inv)
        | inr e ↦ elim (Bool-cases (is_paid i.state)) [
          | inl p ↦ rw (found, mark_withdrawal_paid) (rw e (rw p inv))
          | inr p ↦ elim (Bool-cases (not (is_pending i.state))) [
            | inl q ↦ rw (found, mark_withdrawal_paid) (rw e (rw p (rw q inv)))
            | inr q ↦
                rw (found, mark_withdrawal_paid)
                  (rw e (
                    rw p (
                      rw q (
                        post_then-Inv w (withdrawal_input i actor) i set_paid s respects refl
                          inv))))
          ]
        ]
      ]
    ]

fail_withdrawal-Inv :
    (w : Rivals) (id : ℕ) (actor : Option ℕ) (s : Store)
    → Respects w
    → Inv s.ledger
    → Inv (fail_withdrawal w id actor s).1.ledger
unfolding fail_withdrawal withdraw_release_input
fail_withdrawal-Inv w id actor s respects inv = elim (Option-cases (find_intent id s.intents)) [
  | inl absent ↦ rw (absent, fail_withdrawal) inv
  | inr (i, found) ↦ elim (Bool-cases (is_incoming i.direction)) [
    | inl e ↦ rw (found, fail_withdrawal) (rw e inv)
    | inr e ↦ elim (Bool-cases (is_dropped i.state)) [
      | inl p ↦ rw (found, fail_withdrawal) (rw e (rw p inv))
      | inr p ↦ elim (Bool-cases (not (is_pending i.state))) [
        | inl q ↦ rw (found, fail_withdrawal) (rw e (rw p (rw q inv)))
        | inr q ↦
            rw (found, fail_withdrawal)
              (rw e (
                rw p (
                  rw q (
                    post_then-Inv w (withdraw_release_input i actor) i
                      (λ txn. set_state PaymentIntentState.failed) s respects refl inv))))
      ]
    ]
  ]
]

force_complete-Inv :
    (w : Rivals) (id : ℕ) (actor : Option ℕ) (s : Store)
    → Respects w
    → Inv s.ledger
    → Inv (force_complete w id actor s).1.ledger
unfolding force_complete credit_deposit deposit_input
force_complete-Inv w id actor s respects inv = elim (Option-cases (find_intent id s.intents)) [
  | inl absent ↦ rw (absent, force_complete) inv
  | inr (i, found) ↦ elim (Bool-cases (is_paid i.state)) [
    | inl p ↦ rw (found, force_complete) (rw p inv)
    | inr p ↦ elim (Bool-cases (is_cancelled i.state)) [
      | inl c ↦ rw (found, force_complete) (rw p (rw c inv))
      | inr c ↦ elim (Bool-cases (is_incoming i.direction)) [
        | inl e ↦
            rw (found, force_complete)
              (rw p (
                rw c
                  (rw e (post_then-Inv w (deposit_input i actor) i set_paid s respects refl inv))))
        | inr e ↦ elim (Bool-cases (not (is_pending i.state))) [
          | inl q ↦ rw (found, force_complete) (rw p (rw c (rw e (rw q inv))))
          | inr q ↦
              rw (found, force_complete)
                (rw p (rw c (rw e (rw q (mark_withdrawal_paid-Inv w i.id actor s respects inv)))))
        ]
      ]
    ]
  ]
]

reserve_outcome-ledger :
    (i : PaymentIntent) (r : Result LedgerTxn) (ledger : Db) (s : Store)
    → (reserve_outcome i r ledger s).1.ledger ≡ ledger
reserve_outcome-ledger i (err e) ledger s = refl
reserve_outcome-ledger i (ok t) ledger s = refl

reserve_withdrawal-Inv :
    (w : Rivals) (user : ℕ) (provider : PaymentProvider) (amount : Decimal) (currency : Text)
    (s : Store)
    → Respects w
    → Inv s.ledger
    → Inv (reserve_withdrawal w user provider amount currency s).1.ledger
unfolding reserve_withdrawal withdraw_reserve_input
reserve_withdrawal-Inv w user provider amount currency s respects inv =
    let i = new_withdrawal s.next_id user provider amount currency in
    let o = post w (withdraw_reserve_input i) s.ledger in
    subst Inv (sym (reserve_outcome-ledger i o.result o.db s))
      (post-Sound w (withdraw_reserve_input i) s.ledger respects refl inv).inv

request_withdrawal-Inv :
    (w : Rivals) (limit : Decimal) (today : PaymentIntent → Bool) (user : ℕ)
    (provider : PaymentProvider) (amount : Decimal) (currency : Text) (s : Store)
    → Respects w
    → Inv s.ledger
    → Inv (request_withdrawal w limit today user provider amount currency s).1.ledger
unfolding request_withdrawal
request_withdrawal-Inv w limit today user provider amount currency s respects inv =
    go (admit_withdrawal limit today user amount (to_upper currency) s.intents) refl
  where
    go :
        (r : Result Decimal)
        → admit_withdrawal limit today user amount (to_upper currency) s.intents ≡ r
        → Inv (request_withdrawal w limit today user provider amount currency s).1.ledger
    go (err e) h = rw (h, request_withdrawal) inv
    go (ok a) h =
        rw (h, request_withdrawal)
          (reserve_withdrawal-Inv w user provider a (to_upper currency) s respects inv)

expire_checked-ledger :
    (i : PaymentIntent) (x : Result PaymentIntent × Store)
    → (expire_checked i x).ledger ≡ x.1.ledger
expire_checked-ledger i (r, s) = elim (Bool-cases (is_open (row_or i r).state)) [
  | inl e ↦ rw e refl
  | inr e ↦ rw e refl
]

expire_one-Inv :
    (w : Rivals) (query : PaymentIntent → Option ProviderStatus) (i : PaymentIntent) (s : Store)
    → Respects w
    → Inv s.ledger
    → Inv (expire_one w query i s).ledger
unfolding expire_one
expire_one-Inv w query i s respects inv = elim (Bool-cases (is_pending i.state)) [
  | inl e ↦
      rw (e, expire_one)
        (subst Inv (sym (expire_checked-ledger i (confirm_deposit w query i.id s)))
          (confirm_deposit-Inv w query i.id s respects inv))
  | inr e ↦ rw (e, expire_one) (subst Inv (sym (expire_checked-ledger i (ok i, s))) inv)
]

-- The operations on payment intents.
pub data Operation : Type 0 where
  confirming : (PaymentIntent → Option ProviderStatus) → ℕ → Operation
  marking_paid failing forcing : ℕ → Option ℕ → Operation
  requesting : Decimal → (PaymentIntent → Bool) → ℕ → PaymentProvider → Decimal → Text → Operation
  expiring : (PaymentIntent → Option ProviderStatus) → PaymentIntent → Operation

unfoldable pub run_operation : Rivals → Operation → Store → Store
run_operation w (confirming query id) s = (confirm_deposit w query id s).1
run_operation w (marking_paid id actor) s = (mark_withdrawal_paid w id actor s).1
run_operation w (failing id actor) s = (fail_withdrawal w id actor s).1
run_operation w (forcing id actor) s = (force_complete w id actor s).1
run_operation w (requesting limit today user provider amount currency) s =
    (request_withdrawal w limit today user provider amount currency s).1
run_operation w (expiring query i) s = expire_one w query i s

unfoldable pub run_operations : List (Rivals × Operation) → Store → Store
run_operations [] s = s
run_operations ((w, o) ∷ os) s = run_operations os (run_operation w o s)

run_operation-Inv :
    (w : Rivals) (o : Operation) (s : Store)
    → Respects w
    → Inv s.ledger
    → Inv (run_operation w o s).ledger
unfolding run_operation
run_operation-Inv w (confirming query id) s r inv = confirm_deposit-Inv w query id s r inv
run_operation-Inv w (marking_paid id actor) s r inv = mark_withdrawal_paid-Inv w id actor s r inv
run_operation-Inv w (failing id actor) s r inv = fail_withdrawal-Inv w id actor s r inv
run_operation-Inv w (forcing id actor) s r inv = force_complete-Inv w id actor s r inv
run_operation-Inv w (requesting limit today user provider amount currency) s r inv =
    request_withdrawal-Inv w limit today user provider amount currency s r inv
run_operation-Inv w (expiring query i) s r inv = expire_one-Inv w query i s r inv

-- Any confirmations, forced completions, withdrawals and expiries of payment intents, beside other
-- writers that keep the ledger's invariant, keep it: the ledger stays balanced, with each key once
-- and no user account below zero.
pub run_operations-Inv :
    (os : List (Rivals × Operation)) (s : Store)
    → All (λ o. Respects o.0) os
    → Inv s.ledger
    → Inv (run_operations os s).ledger
unfolding run_operations
run_operations-Inv [] s r inv = inv
run_operations-Inv ((w, o) ∷ os) s r inv =
    run_operations-Inv os (run_operation w o s) r.1 (run_operation-Inv w o s r.0 inv)
