-- ===== src/Payments/Tests.antt =====
-- A deposit that the provider confirms.
use native.Mathlib.Decide.{ℕ_discrete}
use alke_finance_backend.Ledger.Store.{ensure_account, find_account, find_by_key, sum_of}
use alke_finance_backend.Ledger.Posting.{
  normalise, normalise_entries, normalise_entry, account_id, create_txn, delta, lookup, overdraws,
  post_in, post_locked, resolve, resolve_one, rows, user_refs,
}
use alke_finance_backend.Payments.Deposits.{
  create_deposit, admit_deposit, enforce_deposit_cap, settle_collection, write_state,
}
use alke_finance_backend.Base.{
  map, length, is_ok, false, ◌≡◌, refl, neg, false, Option, none, some, [], ◌∷◌, Text, letters, ok,
  to_upper, Text-discrete, ◌+ℤ◌,
}
use alke_finance_backend.Money.{
  whole, round_money, decimals_for, plus_all, minor_unit, round_to, sum,
}
use alke_finance_backend.Ledger.Types.{
  LedgerAccountKind, LedgerTxnType, LedgerTxnStatus, LedgerKey, mtn_momo, LedgerAccountRef-discrete,
  LedgerKey-discrete,
}
use alke_finance_backend.Ledger.Retry.{Rivals, post, post_from, finish, publish_posted}
use alke_finance_backend.Ledger.Calls.{Respects}
use alke_finance_backend.Ledger.History.{empty_db, empty-Inv}
use alke_finance_backend.Brokerage.OrderLedger.{user_account}
use alke_finance_backend.Payments.{
  PaymentDirection, PaymentIntentState, PaymentIntent, Store, ProviderStatus, status_paid,
  status_pending, provider_clearing, confirm_deposit, find_intent, credit_deposit, post_then,
  deposit_input, update_intent, parse_amount,
}
use alke_finance_backend.Payments.Credit.{Credited, confirm_deposit-Credited}

abbrev xaf : Text
xaf = letters "XAF"

abbrev intent : PaymentIntent
intent = record {
  id = 3;
  user_id = 7;
  direction = PaymentDirection.incoming;
  provider = mtn_momo;
  amount = whole 5000;
  currency = xaf;
  state = PaymentIntentState.pending;
  ledger_txn_id = none;
  batch_id = none;
}

abbrev paid_intent : PaymentIntent
paid_intent = record intent { state = PaymentIntentState.paid; ledger_txn_id = some 2 }

abbrev store : Store
store = record { ledger = empty_db; intents = intent ∷ []; next_id = 4 }

abbrev credited : Store
credited = record {
  ledger = record {
    accounts =
        record { id = 0; ref = user_account 7 xaf LedgerAccountKind.available }
        ∷ record { id = 1; ref = provider_clearing mtn_momo xaf }
        ∷ [];
    txns =
        record {
          id = 2;
          txn_type = LedgerTxnType.deposit;
          status = LedgerTxnStatus.posted;
          idempotency_key = LedgerKey.deposit_of 3;
          currency = xaf;
          actor_id = none;
          reversal_of_id = none;
        }
        ∷ [];
    entries =
        record { txn_id = 2; account_id = 0; amount = whole 5000 }
        ∷ record { txn_id = 2; account_id = 1; amount = neg (whole 5000) }
        ∷ [];
    next_id = 3;
  };
  intents = paid_intent ∷ [];
  next_id = 4;
}

abbrev alone : Rivals
alone = record { commit = λ n db. db; clash = λ n. false }

alone-Respects : Respects alone
alone-Respects n db inv = inv

abbrev says_paid : PaymentIntent → Option ProviderStatus
says_paid i = some status_paid

known : find_intent 3 store.intents ≡ some intent
unfolding find_intent
known = refl

confirms : confirm_deposit alone says_paid 3 store ≡ (ok paid_intent, credited)
unfolding confirm_deposit find_intent credit_deposit post_then post normalise deposit_input to_upper
    Text-discrete normalise_entries normalise_entry round_money decimals_for neg plus_all ◌+ℤ◌
    post_from account_id create_txn delta lookup overdraws post_in post_locked resolve resolve_one
    rows user_refs finish publish_posted ensure_account find_account find_by_key sum_of
    LedgerAccountRef-discrete LedgerKey-discrete minor_unit round_to update_intent ℕ_discrete
confirms = refl

confirm_deposit-Credited_example : Credited says_paid 3 intent paid_intent credited
confirm_deposit-Credited_example =
    confirm_deposit-Credited alone says_paid 3 intent paid_intent store credited alone-Respects
      empty-Inv known refl confirms refl

-- A deposit that a webhook confirms while the provider is still being asked.
abbrev new_store : Store
new_store = record { ledger = empty_db; intents = []; next_id = 3 }

abbrev says_pending : PaymentIntent → Option ProviderStatus
says_pending i = some status_pending

abbrev created_deposit : Store
created_deposit =
    (create_deposit alone says_pending says_paid (λ s. (confirm_deposit alone says_paid 3 s).1)
      (whole 100000) 7 mtn_momo (whole 5000) xaf new_store).1

pending_again :
    map {A = PaymentIntent} (λ i. i.state) created_deposit.intents ≡ PaymentIntentState.pending ∷ []
unfolding create_deposit admit_deposit parse_amount round_money decimals_for enforce_deposit_cap
    ◌+ℤ◌ sum plus_all settle_collection write_state update_intent confirm_deposit find_intent
    credit_deposit post_then post Text-discrete to_upper neg account_id create_txn delta lookup
    normalise normalise_entries normalise_entry overdraws post_in post_locked resolve resolve_one
    rows user_refs finish post_from publish_posted ensure_account find_account find_by_key sum_of
    LedgerAccountRef-discrete LedgerKey-discrete minor_unit round_to deposit_input ℕ_discrete
pending_again = refl

credited_already : length created_deposit.ledger.txns ≡ 1
unfolding create_deposit admit_deposit parse_amount round_money decimals_for enforce_deposit_cap
    ◌+ℤ◌ sum plus_all settle_collection write_state confirm_deposit find_intent credit_deposit
    post_then post normalise Text-discrete to_upper neg account_id create_txn delta lookup
    normalise_entries normalise_entry overdraws post_in post_locked resolve resolve_one rows
    user_refs finish post_from publish_posted ensure_account find_account find_by_key sum_of
    LedgerAccountRef-discrete LedgerKey-discrete minor_unit round_to deposit_input update_intent
    ℕ_discrete
credited_already = refl

above_the_cap :
    is_ok
      (create_deposit alone says_pending says_paid
        (λ s. s)
        (whole 8000)
        7
        mtn_momo
        (whole 5000)
        xaf
        credited).0
    ≡ false
unfolding create_deposit admit_deposit parse_amount round_money decimals_for enforce_deposit_cap
    ◌+ℤ◌ sum plus_all
above_the_cap = refl
