-- ===== src/Ledger/Tests.antt =====
-- A deposit, its replay and its reversal, run on the ledger's model.
use native.Mathlib.Decide.{ℕ_discrete}
use alke_finance_backend.Base.{
  err, bad_request, ◌≡◌, refl, true, false, none, some, List, [], ◌∷◌, ok, letters, Text, ◌==◌, neg,
  ◌+ℤ◌, to_upper, Text-discrete,
}
use alke_finance_backend.Money.{minor_unit, round_to, whole, round_money, decimals_for, plus_all}
use alke_finance_backend.Ledger.Types.{
  LedgerKey-discrete, LedgerOwnerType, LedgerAccountKind, LedgerTxnType, LedgerTxnStatus, row,
  payment_provider, mtn_momo, LedgerAccountRef, deposit_of, reversal_of, PostTxnInput, LedgerTxn,
  Db, LedgerAccountRef-discrete,
}
use alke_finance_backend.Ledger.Repeated.{reverse_in_once}
use alke_finance_backend.Ledger.Store.{
  find_txn, find_account_by_id, balance, sum_of, find_account, find_by_key, ensure_account,
  find_account,
}
use alke_finance_backend.Ledger.Posting.{
  NormalisedEntry, normalise, PostResult, post_in, delta, normalise_entries, normalise_entry,
  post_locked, resolve, resolve_one, lookup, user_refs, overdraws, create_txn, rows, account_id,
}
use alke_finance_backend.Ledger.Reversing.{
  reversal_input, reversal_entries, mark_reversed, reverse_in,
}
use alke_finance_backend.Ledger.Retry.{Rivals, post, post_within}
use alke_finance_backend.Ledger.Report.{verify_invariants, report_ok}
use alke_finance_backend.Ledger.Validation.{Accepted, normalise_sound, normalise_complete}
use alke_finance_backend.Ledger.Reversal.{of_both}
use alke_finance_backend.Ledger.Invariant.{Inv}
use alke_finance_backend.Ledger.Soundness.{post_in-Inv, post_in_balance}
use alke_finance_backend.Base.{◌↔◌}
use alke_finance_backend.Ledger.Audit.{IsClean, verify_invariants_iff}
use alke_finance_backend.Ledger.Calls.{Respects, Sound, post-Sound, post_within_twice}
use alke_finance_backend.Ledger.Reversal.{reverse_in_cancels}
use alke_finance_backend.Ledger.History.{
  Call, posting, reversing, run_calls, empty_db, empty-Inv, run_calls_verified,
}

abbrev xof : Text
xof = letters "XOF"

abbrev user_cash : LedgerAccountRef
user_cash = record {
  owner_type = LedgerOwnerType.user;
  owner_id = row 7;
  currency = xof;
  kind = LedgerAccountKind.available;
}

abbrev momo : LedgerAccountRef
momo = record {
  owner_type = LedgerOwnerType.provider;
  owner_id = payment_provider mtn_momo;
  currency = xof;
  kind = LedgerAccountKind.clearing;
}

abbrev deposit_entries : List NormalisedEntry
deposit_entries =
    record { ref = momo; amount = neg (whole 1000) }
    ∷ record { ref = user_cash; amount = whole 1000 }
    ∷ []

abbrev deposit : PostTxnInput
deposit = record {
  txn_type = LedgerTxnType.deposit;
  idempotency_key = deposit_of 1;
  currency = xof;
  entries =
      record { account = momo; amount = neg (whole 1000) }
      ∷ record { account = user_cash; amount = whole 1000 }
      ∷ [];
  actor_id = none;
  enforce_non_negative = none;
}

valid : normalise deposit ≡ ok deposit_entries
unfolding normalise to_upper Text-discrete normalise_entries normalise_entry round_money neg
    decimals_for plus_all ◌+ℤ◌
valid = refl

abbrev deposit_txn : LedgerTxn
deposit_txn = record {
  id = 2;
  txn_type = LedgerTxnType.deposit;
  status = LedgerTxnStatus.posted;
  idempotency_key = deposit_of 1;
  currency = xof;
  actor_id = none;
  reversal_of_id = none;
}

abbrev deposited : Db
deposited = record {
  accounts = record { id = 0; ref = momo } ∷ record { id = 1; ref = user_cash } ∷ [];
  txns = deposit_txn ∷ [];
  entries =
      record { txn_id = 2; account_id = 0; amount = neg (whole 1000) }
      ∷ record { txn_id = 2; account_id = 1; amount = whole 1000 }
      ∷ [];
  next_id = 3;
}

abbrev deposit_result : PostResult
deposit_result = record { txn = deposit_txn; created = true }

posts : post_in deposit deposit_entries none empty_db ≡ ok (deposit_result, deposited)
unfolding post_in find_by_key post_locked resolve resolve_one lookup LedgerAccountRef-discrete
    ensure_account find_account user_refs overdraws ℕ_discrete delta ◌+ℤ◌ create_txn rows account_id
posts = refl

deposited-Inv : Inv deposited
deposited-Inv =
    post_in-Inv deposit deposit_entries none empty_db refl (normalise_sound deposit valid).balanced
      empty-Inv posts

-- A second request under the same key, for another amount.
abbrev deposit_again : PostTxnInput
deposit_again = record deposit {
  entries =
      record { account = momo; amount = neg (whole 5) }
      ∷ record { account = user_cash; amount = whole 5 }
      ∷ [];
}

abbrev again_entries : List NormalisedEntry
again_entries =
    record { ref = momo; amount = neg (whole 5) }
    ∷ record { ref = user_cash; amount = whole 5 }
    ∷ []

valid_again : normalise deposit_again ≡ ok again_entries
unfolding normalise to_upper Text-discrete normalise_entries normalise_entry round_money neg
    decimals_for plus_all ◌+ℤ◌
valid_again = refl

posts_within : post_within deposit empty_db ≡ ok (deposit_result, deposited)
unfolding post_within neg
posts_within = rw (valid) posts

abbrev alone : Rivals
alone = record { commit = λ n db. db; clash = λ n. false }

-- The first attempt loses the race for the key.
abbrev beaten : Rivals
beaten = record { commit = λ n db. db; clash = λ n. n == 0 }

alone-Respects : Respects alone
alone-Respects n db inv = inv

beaten-Respects : Respects beaten
beaten-Respects n db inv = inv

abbrev reversed : Db
reversed = record {
  accounts = deposited.accounts;
  txns =
      record deposit_txn { status = LedgerTxnStatus.reversed }
      ∷ record {
        id = 3;
        txn_type = LedgerTxnType.reversal;
        status = LedgerTxnStatus.posted;
        idempotency_key = reversal_of 2;
        currency = xof;
        actor_id = some 9;
        reversal_of_id = some 2;
      }
      ∷ [];
  entries =
      record { txn_id = 2; account_id = 0; amount = neg (whole 1000) }
      ∷ record { txn_id = 2; account_id = 1; amount = whole 1000 }
      ∷ record { txn_id = 3; account_id = 0; amount = whole 1000 }
      ∷ record { txn_id = 3; account_id = 1; amount = neg (whole 1000) }
      ∷ [];
  next_id = 4;
}

abbrev reversal_result : PostResult
reversal_result = record {
  txn = record {
    id = 3;
    txn_type = LedgerTxnType.reversal;
    status = LedgerTxnStatus.posted;
    idempotency_key = reversal_of 2;
    currency = xof;
    actor_id = some 9;
    reversal_of_id = some 2;
  };
  created = true;
}

reverses : reverse_in 2 (some 9) deposited ≡ ok (reversal_result, reversed)
unfolding reverse_in find_txn normalise reversal_input reversal_entries find_account_by_id to_upper
    Text-discrete normalise_entries normalise_entry round_money neg decimals_for plus_all ◌+ℤ◌
    post_in find_by_key account_id create_txn delta lookup overdraws post_locked resolve resolve_one
    rows user_refs mark_reversed ensure_account find_account sum_of LedgerAccountRef-discrete
    LedgerKey-discrete minor_unit round_to ℕ_discrete
reverses = refl

-- A deposit, a replay of it that loses a race, and a reversal.
abbrev calls : List (Rivals × Call)
calls =
    (alone, posting deposit) ∷ (beaten, posting deposit_again) ∷ (alone, reversing 2 (some 9)) ∷ []

run_calls_verified_example : report_ok (verify_invariants (run_calls calls empty_db)) ≡ true
run_calls_verified_example =
    run_calls_verified calls
      ((alone-Respects, refl), ((beaten-Respects, refl), ((alone-Respects, tt), tt)))

post_within_twice_example :
    post_within deposit_again deposited
    ≡ ok (record { txn = deposit_txn; created = false }, deposited)
post_within_twice_example =
    post_within_twice deposit deposit_again empty_db empty-Inv posts_within refl valid_again

post-Sound_example : Sound (deposit_of 1) (post beaten deposit_again deposited)
post-Sound_example = post-Sound beaten deposit_again deposited beaten-Respects refl deposited-Inv

post_in_balance_example :
    balance user_cash deposited ≡ balance user_cash empty_db +ℤ delta user_cash deposit_entries
post_in_balance_example =
    post_in_balance deposit deposit_entries none empty_db empty-Inv posts user_cash

post_in-Inv_example : Inv deposited
post_in-Inv_example =
    post_in-Inv deposit deposit_entries none empty_db refl (normalise_sound deposit valid).balanced
      empty-Inv posts

normalise_sound_example : Accepted deposit deposit_entries
normalise_sound_example = normalise_sound deposit valid

normalise_complete_example : normalise deposit ≡ ok deposit_entries
normalise_complete_example =
    normalise_complete deposit deposit_entries (normalise_sound deposit valid)

user_row : find_account user_cash deposited.accounts ≡ some (record { id = 1; ref = user_cash })
unfolding find_account LedgerAccountRef-discrete ℕ_discrete
user_row = refl

reverse_in_cancels_example :
    balance user_cash reversed
    ≡ balance user_cash deposited +ℤ neg (sum_of (of_both 2 1) deposited.entries)
reverse_in_cancels_example =
    reverse_in_cancels 2 (some 9) deposited user_cash (record { id = 1; ref = user_cash })
      deposited-Inv reverses refl user_row

verify_invariants_iff_example : (report_ok (verify_invariants deposited) ≡ true) ↔ IsClean deposited
verify_invariants_iff_example = verify_invariants_iff deposited

balances : (balance user_cash deposited ≡ whole 1000) × (balance user_cash reversed ≡ whole 0)
unfolding balance find_account LedgerAccountRef-discrete ℕ_discrete sum_of ◌+ℤ◌ neg
balances = (refl, refl)

reverse_in_once_example :
    reverse_in 2 (some 8) reversed ≡ err (bad_request "Cette transaction a déjà été annulée.")
reverse_in_once_example = reverse_in_once 2 (some 9) (some 8) deposited deposited-Inv reverses refl
