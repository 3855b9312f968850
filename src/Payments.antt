-- ===== src/Payments.antt =====
-- Payment intents: src/modules/payments/payments.service.ts. Amounts come parsed as decimals, what a
-- provider answers is a parameter, and references, times and the provider's texts are only stored.
pub mod Credit
pub mod Deposits
pub mod Safety
mod Tests
use alke_finance_backend.Base.{
  ℕ, suc, pos, neg, ◌+ℤ◌, ◌==◌, eqb_ℤ, ltb_ℤ, Bool, true, false, not, ◌&&◌, ◌||◌, Option, none,
  some, List, [], ◌∷◌, ◌++◌, map, keep, find, Text, Text-discrete, letters, to_upper, same, Result,
  ok, err, bad_request, not_found, ◌>>◌, ◌>>=◌, throw_if, if◌then◌else◌,
}
use alke_finance_backend.Money.{Decimal, zero_decimal, round_money, sum}
use alke_finance_backend.Ledger.Types.{
  LedgerOwnerType, LedgerAccountKind, LedgerTxnType, OwnerId, payment_provider, PaymentProvider,
  LedgerAccountRef, LedgerKey, PostTxnInput, LedgerTxn, Db,
}
use alke_finance_backend.Ledger.Retry.{Rivals, Outcome, post}
use alke_finance_backend.Brokerage.OrderLedger.{user_account, entry, posting, transfer}

pub data PaymentDirection : Type 0 where
  incoming outgoing : PaymentDirection

pub data PaymentIntentState : Type 0 where
  created pending paid failed expired cancelled : PaymentIntentState

pub record PaymentIntent : Type 0 where
  pub id : ℕ
  pub user_id : ℕ
  pub direction : PaymentDirection
  pub provider : PaymentProvider
  pub amount : Decimal
  pub currency : Text
  pub state : PaymentIntentState
  pub ledger_txn_id : Option ℕ
  pub batch_id : Option ℕ

pub record Store : Type 0 where
  pub ledger : Db
  pub intents : List PaymentIntent
  pub next_id : ℕ

-- `providerClearing`
abbrev pub provider_clearing : PaymentProvider → Text → LedgerAccountRef
provider_clearing provider currency = record {
  owner_type = LedgerOwnerType.provider;
  owner_id = payment_provider provider;
  currency = currency;
  kind = LedgerAccountKind.clearing;
}

unfoldable pub find_intent : ℕ → List PaymentIntent → Option PaymentIntent
find_intent id intents = find (λ i. i.id == id) intents

-- `paymentIntent.update({ where: { id } })`
unfoldable pub update_intent :
    ℕ → (PaymentIntent → PaymentIntent) → List PaymentIntent → List PaymentIntent
update_intent id f [] = []
update_intent id f (i ∷ is) = (if i.id == id then f i else i) ∷ update_intent id f is

abbrev pub set_state : PaymentIntentState → PaymentIntent → PaymentIntent
set_state state i = record i { state = state }

abbrev pub set_paid : ℕ → PaymentIntent → PaymentIntent
set_paid txn i = record i { state = paid; ledger_txn_id = some txn }

abbrev pub is_incoming : PaymentDirection → Bool
is_incoming incoming = true
is_incoming outgoing = false

abbrev pub is_paid : PaymentIntentState → Bool
is_paid paid = true
is_paid _ = false

abbrev pub is_pending : PaymentIntentState → Bool
is_pending pending = true
is_pending _ = false

-- FAILED or CANCELLED
abbrev pub is_dropped : PaymentIntentState → Bool
is_dropped failed = true
is_dropped cancelled = true
is_dropped _ = false

abbrev pub is_cancelled : PaymentIntentState → Bool
is_cancelled cancelled = true
is_cancelled _ = false

unfoldable pub deposit_input : PaymentIntent → Option ℕ → PostTxnInput
deposit_input i actor = posting LedgerTxnType.deposit (LedgerKey.deposit_of i.id) i.currency actor (
    entry (user_account i.user_id i.currency LedgerAccountKind.available) i.amount
    ∷ entry (provider_clearing i.provider i.currency) (neg i.amount)
    ∷ [])

unfoldable pub withdrawal_input : PaymentIntent → Option ℕ → PostTxnInput
withdrawal_input i actor =
    posting LedgerTxnType.withdrawal (LedgerKey.withdraw_of i.id) i.currency actor (
      entry (user_account i.user_id i.currency LedgerAccountKind.withdrawable) (neg i.amount)
      ∷ entry (provider_clearing i.provider i.currency) i.amount
      ∷ [])

unfoldable pub withdraw_release_input : PaymentIntent → Option ℕ → PostTxnInput
withdraw_release_input i actor =
    posting LedgerTxnType.release (LedgerKey.withdraw_release_of i.id) i.currency actor (
      transfer i.user_id i.currency LedgerAccountKind.withdrawable LedgerAccountKind.available
        i.amount)

unfoldable pub withdraw_reserve_input : PaymentIntent → PostTxnInput
withdraw_reserve_input i =
    posting LedgerTxnType.reserve (LedgerKey.withdraw_reserve_of i.id) i.currency (some i.user_id) (
      transfer i.user_id i.currency LedgerAccountKind.available LedgerAccountKind.withdrawable
        i.amount)

-- A posting for an intent, and the write to the intent behind it: the error of a posting that throws
-- leaves the intent as it was.
unfoldable pub post_then :
    Rivals
    → PostTxnInput
    → PaymentIntent
    → (ℕ → PaymentIntent → PaymentIntent)
    → Store
    → Result PaymentIntent × Store
post_then w input i write s =
    let o = post w input s.ledger in
    (elim o.result [
      | err e ↦ (err e, record s { ledger = o.db })
      | ok t ↦ (
        ok (write t.id i),
        record s { ledger = o.db; intents = update_intent i.id (write t.id) s.intents },
      )
    ])

-- `creditDeposit`
unfoldable pub credit_deposit :
    Rivals → PaymentIntent → Option ℕ → Store → Result PaymentIntent × Store
credit_deposit w i actor s = post_then w (deposit_input i actor) i set_paid s

-- What a provider answers for a status.
pub data ProviderStatus : Type 0 where
  status_paid status_failed status_pending : ProviderStatus

-- Nobody writes the intent between its read and this write, so that the row after the write of a
-- pending status is the row that was read.
abbrev pub confirm_found :
    Rivals → Option ProviderStatus → PaymentIntent → Store → Result PaymentIntent × Store
confirm_found w none i s = (ok i, s)
confirm_found w (some status_paid) i s = credit_deposit w i none s
confirm_found w (some status_failed) i s = (
  ok (set_state failed i),
  record s { intents = update_intent i.id (set_state failed) s.intents },
)
confirm_found w (some status_pending) i s = (ok i, s)

-- `confirmDeposit`; `query` is the provider's answer, `none` where the call throws.
unfoldable pub confirm_deposit :
    Rivals → (PaymentIntent → Option ProviderStatus) → ℕ → Store → Result PaymentIntent × Store
confirm_deposit w query id s = elim (find_intent id s.intents) [
  | none ↦ (err (not_found "Opération introuvable."), s)
  | some i ↦
      if not (is_incoming i.direction)
      then (err (bad_request "Cette intention n’est pas un dépôt."), s)
      else if is_paid i.state || is_dropped i.state
      then (ok i, s)
      else confirm_found w (query i) i s
]

-- `markWithdrawalPaid`
unfoldable pub mark_withdrawal_paid : Rivals → ℕ → Option ℕ → Store → Result PaymentIntent × Store
mark_withdrawal_paid w id actor s = elim (find_intent id s.intents) [
  | none ↦ (err (not_found "Opération introuvable."), s)
  | some i ↦
      if is_incoming i.direction
      then (err (bad_request "Cette intention n’est pas un retrait."), s)
      else if is_paid i.state
      then (ok i, s)
      else if not (is_pending i.state)
      then (err (bad_request "Paiement impossible."), s)
      else post_then w (withdrawal_input i actor) i set_paid s
]

-- `failWithdrawal`
unfoldable pub fail_withdrawal : Rivals → ℕ → Option ℕ → Store → Result PaymentIntent × Store
fail_withdrawal w id actor s = elim (find_intent id s.intents) [
  | none ↦ (err (not_found "Opération introuvable."), s)
  | some i ↦
      if is_incoming i.direction
      then (err (bad_request "Cette intention n’est pas un retrait."), s)
      else if is_dropped i.state
      then (ok i, s)
      else if not (is_pending i.state)
      then (err (bad_request "Annulation impossible."), s)
      else post_then w (withdraw_release_input i actor) i (λ txn. set_state failed) s
]

-- `forceComplete`
unfoldable pub force_complete : Rivals → ℕ → Option ℕ → Store → Result PaymentIntent × Store
force_complete w id actor s = elim (find_intent id s.intents) [
  | none ↦ (err (not_found "Opération introuvable."), s)
  | some i ↦
      if is_paid i.state
      then (ok i, s)
      else if is_cancelled i.state
      then (err (bad_request "Cette intention a été annulée."), s)
      else if is_incoming i.direction
      then credit_deposit w i actor s
      else if not (is_pending i.state)
      then (err (bad_request "Seul un retrait en attente peut être forcé."), s)
      else mark_withdrawal_paid w i.id actor s
]

-- `parseAmount` on a number
unfoldable pub parse_amount : Decimal → Text → Result Decimal
parse_amount amount currency = do
  throw_if (not (ltb_ℤ zero_decimal amount))
      (bad_request "Le montant doit être strictement positif.")
  throw_if (not (eqb_ℤ (round_money amount currency) amount))
      (bad_request "Le montant a trop de décimales.")
  ok amount

-- `enforceWithdrawalCap`: `today` says whether an intent was created today.
unfoldable pub enforce_withdrawal_cap :
    Decimal → (PaymentIntent → Bool) → ℕ → Decimal → Text → List PaymentIntent → Result (Unit {0})
enforce_withdrawal_cap limit today user amount currency intents =
    let counted =
      keep
        (λ i.
          (i.user_id == user)
          && (not (is_incoming i.direction)
              && (same Text-discrete i.currency currency
                  && ((is_pending i.state || is_paid i.state) && today i))))
        intents in
    if same Text-discrete currency (letters "XAF")
    then throw_if (ltb_ℤ limit (sum (map (λ i. i.amount) counted) +ℤ amount))
        (bad_request "Plafond de retrait journalier atteint.")
    else ok tt

abbrev pub new_withdrawal : ℕ → ℕ → PaymentProvider → Decimal → Text → PaymentIntent
new_withdrawal id user provider amount currency = record {
  id = id;
  user_id = user;
  direction = outgoing;
  provider = provider;
  amount = amount;
  currency = currency;
  state = created;
  ledger_txn_id = none;
  batch_id = none;
}

abbrev pub store_withdrawal : PaymentIntentState → PaymentIntent → Db → Store → Store
store_withdrawal state i ledger s = record {
  ledger = ledger;
  intents = s.intents ++ set_state state i ∷ [];
  next_id = suc s.next_id;
}

-- What becomes of the intent behind the posting of its reserve.
abbrev pub reserve_outcome :
    PaymentIntent → Result LedgerTxn → Db → Store → Result PaymentIntent × Store
reserve_outcome i (err e) ledger s = (err e, store_withdrawal failed i ledger s)
reserve_outcome i (ok t) ledger s = (ok (set_state pending i), store_withdrawal pending i ledger s)

-- `requestWithdrawal` behind its tests, outside the simulated mode.
unfoldable pub reserve_withdrawal :
    Rivals → ℕ → PaymentProvider → Decimal → Text → Store → Result PaymentIntent × Store
reserve_withdrawal w user provider amount currency s =
    let i = new_withdrawal s.next_id user provider amount currency in
    let o = post w (withdraw_reserve_input i) s.ledger in reserve_outcome i o.result o.db s

-- The tests of `requestWithdrawal`.
unfoldable pub admit_withdrawal :
    Decimal → (PaymentIntent → Bool) → ℕ → Decimal → Text → List PaymentIntent → Result Decimal
admit_withdrawal limit today user amount currency intents = do
  a ← parse_amount amount currency
  _ ← enforce_withdrawal_cap limit today user a currency intents
  ok a

-- `requestWithdrawal`
unfoldable pub request_withdrawal :
    Rivals
    → Decimal
    → (PaymentIntent → Bool)
    → ℕ
    → PaymentProvider
    → Decimal
    → Text
    → Store
    → Result PaymentIntent × Store
request_withdrawal w limit today user provider amount currency s =
    elim (admit_withdrawal limit today user amount (to_upper currency) s.intents) [
      | err e ↦ (err e, s)
      | ok a ↦ reserve_withdrawal w user provider a (to_upper currency) s
    ]

-- Whether the last write of `expireStaleIntents` counts an intent as open.
abbrev pub is_open : PaymentIntentState → Bool
is_open created = true
is_open pending = true
is_open _ = false

-- The body of the loop of `expireStaleIntents` for one stale intent.
abbrev pub row_or : PaymentIntent → Result PaymentIntent → PaymentIntent
row_or i (ok c) = c
row_or i (err e) = i

abbrev pub expire_checked : PaymentIntent → Result PaymentIntent × Store → Store
expire_checked i (r, s) =
    if is_open (row_or i r).state
    then record s {
      intents =
          update_intent i.id (λ x. if is_open x.state then set_state expired x else x) s.intents;
    }
    else s

unfoldable pub expire_one :
    Rivals → (PaymentIntent → Option ProviderStatus) → PaymentIntent → Store → Store
expire_one w query i s =
    expire_checked i (if is_pending i.state then confirm_deposit w query i.id s else (ok i, s))
