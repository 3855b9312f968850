-- ===== src/Payments/Deposits.antt =====
-- New deposits: `createDeposit` of src/modules/payments/payments.service.ts.
use alke_finance_backend.Base.{
  ℕ, suc, ◌+ℤ◌, ◌==◌, ltb_ℤ, ◌&&◌, Option, none, some, List, [], ◌∷◌, ◌++◌, map, keep, Text,
  Text-discrete, letters, to_upper, same, Result, ok, err, bad_request, ◌>>=◌, throw_if,
  if◌then◌else◌,
}
use alke_finance_backend.Money.{Decimal, sum}
use alke_finance_backend.Ledger.Types.{PaymentProvider}
use alke_finance_backend.Ledger.Retry.{Rivals}
use alke_finance_backend.Payments.{
  PaymentDirection, PaymentIntentState, PaymentIntent, Store, ProviderStatus, status_paid,
  status_failed, status_pending, is_incoming, is_paid, set_state, find_intent, update_intent,
  parse_amount, confirm_deposit,
}

-- `enforceDepositCap`
unfoldable pub enforce_deposit_cap :
    Decimal → ℕ → Decimal → Text → List PaymentIntent → Result (Unit {0})
enforce_deposit_cap cap user amount currency intents =
    let counted =
      keep
        (λ i.
          (i.user_id == user)
          && (is_incoming i.direction
              && (same Text-discrete i.currency currency && is_paid i.state)))
        intents in
    if same Text-discrete currency (letters "XAF")
    then throw_if (ltb_ℤ cap (sum (map (λ i. i.amount) counted) +ℤ amount))
        (bad_request "Plafond de dépôt du pilote atteint.")
    else ok tt

abbrev pub new_deposit : ℕ → ℕ → PaymentProvider → Decimal → Text → PaymentIntent
new_deposit id user provider amount currency = record {
  id = id;
  user_id = user;
  direction = PaymentDirection.incoming;
  provider = provider;
  amount = amount;
  currency = currency;
  state = PaymentIntentState.created;
  ledger_txn_id = none;
  batch_id = none;
}

abbrev pub store_deposit : PaymentIntent → Store → Store
store_deposit i s = record s { intents = s.intents ++ i ∷ []; next_id = suc s.next_id }

abbrev pub stored : PaymentIntent → Option PaymentIntent → PaymentIntent
stored i none = i
stored i (some row) = row

-- `paymentIntent.update` of the state, whatever it was: the row, and the tables.
unfoldable pub write_state : PaymentIntentState → PaymentIntent → Store → PaymentIntent × Store
write_state state i s =
    let intents = update_intent i.id (set_state state) s.intents in
    (stored (set_state state i) (find_intent i.id intents), record s { intents = intents })

-- An error of `confirmDeposit` is caught with those of the provider's call.
abbrev pub confirmed : PaymentIntent → Result PaymentIntent × Store → PaymentIntent × Store
confirmed i (ok row, s) = (row, s)
confirmed i (err e, s) = write_state PaymentIntentState.pending i s

-- Behind the provider's answer, none where the call throws.
unfoldable pub settle_collection :
    Rivals
    → (PaymentIntent → Option ProviderStatus)
    → Option ProviderStatus
    → PaymentIntent
    → Store
    → PaymentIntent × Store
settle_collection w query none i s = write_state PaymentIntentState.pending i s
settle_collection w query (some status_failed) i s = write_state PaymentIntentState.failed i s
settle_collection w query (some status_pending) i s = write_state PaymentIntentState.pending i s
settle_collection w query (some status_paid) i s =
    let (row, s') = write_state PaymentIntentState.pending i s in
    confirmed row (confirm_deposit w query row.id s')

-- The tests of `createDeposit`.
unfoldable pub admit_deposit : Decimal → ℕ → Decimal → Text → List PaymentIntent → Result Decimal
admit_deposit cap user amount currency intents = do
  a ← parse_amount amount currency
  _ ← enforce_deposit_cap cap user a currency intents
  ok a

-- `createDeposit`, with what others commit during the provider's call.
unfoldable pub create_deposit :
    Rivals
    → (PaymentIntent → Option ProviderStatus)
    → (PaymentIntent → Option ProviderStatus)
    → (Store → Store)
    → Decimal
    → ℕ
    → PaymentProvider
    → Decimal
    → Text
    → Store
    → Result PaymentIntent × Store
create_deposit w collect query others cap user provider amount currency s =
    elim (admit_deposit cap user amount (to_upper currency) s.intents) [
      | err e ↦ (err e, s)
      | ok a ↦
          let i = new_deposit s.next_id user provider a (to_upper currency) in
          let (row, s') = settle_collection w query (collect i) i (others (store_deposit i s)) in
          (ok row, s')
    ]
