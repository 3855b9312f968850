-- ===== src/Payments/Credit.antt =====
-- A confirmed deposit and the ledger (src/modules/payments/payments.service.ts).
use mathlib.Core.Bool.{false≢true}
use alke_finance_backend.Base.{
  ℕ, ◌≡◌, refl, sym, ap, subst, ◌∙◌, inl, inr, true, false, not, ◌||◌, Bool-cases, Option, none,
  some, List, [], ◌∷◌, ◌==◌, ==_iff, Result, ok, err, ok_injective,
}
use alke_finance_backend.Ledger.Types.{LedgerKey, LedgerTxn}
use alke_finance_backend.Ledger.Store.{find_by_key}
use alke_finance_backend.Ledger.Retry.{Rivals, post}
use alke_finance_backend.Ledger.Invariant.{Inv}
use alke_finance_backend.Ledger.Calls.{Respects, OnRecord, post-Sound}
use alke_finance_backend.Payments.{
  PaymentIntent, Store, find_intent, set_paid, is_incoming, is_paid, is_dropped, deposit_input,
  post_then, credit_deposit, ProviderStatus, status_paid, status_failed, status_pending,
  confirm_found, confirm_deposit,
}

-- What a deposit that has become paid rests on.
pub record Credited (query : PaymentIntent → Option ProviderStatus) (id : ℕ)
    (i paid_row : PaymentIntent) (after : Store) : Type 0 where
  pub confirmed : query i ≡ some status_paid
  pub txn : LedgerTxn
  pub recorded : find_by_key (LedgerKey.deposit_of id) after.ledger ≡ some txn
  pub linked : paid_row.ledger_txn_id ≡ some txn.id

find_intent-id :
    (id : ℕ) (is : List PaymentIntent) (i : PaymentIntent) → find_intent id is ≡ some i → i.id ≡ id
unfolding find_intent
find_intent-id id [] i h = cc
find_intent-id id (x ∷ is) i h = elim (Bool-cases (x.id == id)) [
  | inl e ↦ subst (λ y. y.id ≡ id) (some_eq (rw e at h)) ((==_iff x.id id).0 e)
  | inr e ↦ find_intent-id id is i (rw e at h)
]
  where
    some_eq : {a b : PaymentIntent} → some a ≡ some b → a ≡ b
    some_eq k = cc

post_then-Credited :
    (w : Rivals) (query : PaymentIntent → Option ProviderStatus) (i paid_row : PaymentIntent)
    (s after : Store)
    → Respects w
    → Inv s.ledger
    → query i ≡ some status_paid
    → post_then w (deposit_input i none) i set_paid s ≡ (ok paid_row, after)
    → Credited query i.id i paid_row after
unfolding post_then deposit_input
post_then-Credited w query i paid_row s after respects inv says h =
    go (post w (deposit_input i none) s.ledger).result refl
  where
    go :
        (r : Result LedgerTxn)
        → (post w (deposit_input i none) s.ledger).result ≡ r
        → Credited query i.id i paid_row after
    go (err e) k = cc (rw (k, post_then) at h)
    go (ok t) k =
        let e = rw (k, post_then) at h in
        record {
          confirmed = says;
          txn = t;
          recorded =
              ap (λ x. find_by_key (LedgerKey.deposit_of i.id) x.1.ledger) (sym e)
              ∙ subst
                  (OnRecord (LedgerKey.deposit_of i.id) (post w (deposit_input i none) s.ledger).db)
                  k (post-Sound w (deposit_input i none) s.ledger respects refl inv).recorded;
          linked = ap (λ x. x.ledger_txn_id) (sym (ok_injective (ap (λ x. x.0) e)));
        }

confirm_found-Credited :
    (w : Rivals) (query : PaymentIntent → Option ProviderStatus) (i paid_row : PaymentIntent)
    (s after : Store)
    → Respects w
    → Inv s.ledger
    → is_paid i.state ≡ false
    → (answer : Option ProviderStatus) → query i ≡ answer
    → confirm_found w answer i s ≡ (ok paid_row, after)
    → is_paid paid_row.state ≡ true
    → Credited query i.id i paid_row after
unfolding credit_deposit
confirm_found-Credited w query i paid_row s after respects inv before none says h now =
    absurd
      (false≢true (sym before ∙ ap (λ x. is_paid x.state) (ok_injective (ap (λ x. x.0) h)) ∙ now))
confirm_found-Credited w query i paid_row s after respects inv before (some status_paid) says h
      now =
    post_then-Credited w query i paid_row s after respects inv says h
confirm_found-Credited w query i paid_row s after respects inv before (some status_failed) says h
      now =
    absurd (false≢true (ap (λ x. is_paid x.state) (ok_injective (ap (λ x. x.0) h)) ∙ now))
confirm_found-Credited w query i paid_row s after respects inv before (some status_pending) says h
      now =
    absurd
      (false≢true (sym before ∙ ap (λ x. is_paid x.state) (ok_injective (ap (λ x. x.0) h)) ∙ now))

-- When `confirmDeposit` returns a paid deposit that was not paid before, the provider answered PAID
-- for it, the ledger has a transaction under the deposit's key, and the returned row points to it.
pub confirm_deposit-Credited :
    (w : Rivals) (query : PaymentIntent → Option ProviderStatus) (id : ℕ)
    (i paid_row : PaymentIntent) (s after : Store)
    → Respects w
    → Inv s.ledger
    → find_intent id s.intents ≡ some i
    → is_paid i.state ≡ false
    → confirm_deposit w query id s ≡ (ok paid_row, after)
    → is_paid paid_row.state ≡ true
    → Credited query id i paid_row after
unfolding confirm_deposit
confirm_deposit-Credited w query id i paid_row s after respects inv found before h now =
    elim (Bool-cases (not (is_incoming i.direction))) [
      | inl e ↦ cc (ap (λ x. x.0) (rw e at (rw (found, confirm_deposit) at h)))
      | inr e ↦ elim (Bool-cases (is_paid i.state || is_dropped i.state)) [
        | inl d ↦ absurd (
            false≢true (
              sym before
              ∙ ap (λ x. is_paid x.state)
                  (ok_injective (ap (λ x. x.0) (rw (e, d) at (rw (found, confirm_deposit) at h))))
              ∙ now))
        | inr d ↦
            subst (λ k. Credited query k i paid_row after) (find_intent-id id s.intents i found)
              (confirm_found-Credited w query i paid_row s after respects inv before (query i) refl
                (rw (e, d) at (rw (found, confirm_deposit) at h)) now)
      ]
    ]
