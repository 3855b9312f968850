-- ===== src/Brokerage/OrderLedger/Tests.antt =====
-- An order for ten shares: its reserve, a fill, and its shares.
use native.Mathlib.Decide.{ℕ_discrete}
use alke_finance_backend.Ledger.Posting.{
  normalise, normalise_entries, normalise_entry, account_id, create_txn, delta, lookup, overdraws,
  post_in, post_locked, resolve, resolve_one, rows, user_refs,
}
use alke_finance_backend.Ledger.Retry.{post_within}
use alke_finance_backend.Base.{
  ◌≡◌, ℤ, refl, arith, pos, pos_part, ◌/◌, ◌*◌, neg, ◌≤ℤ◌, false, none, some, List, [], ◌∷◌, All,
  Text, letters, ok, ◌-ℤ◌, ◌+ℤ◌, to_upper, Text-discrete,
}
use alke_finance_backend.Money.{
  Decimal, whole, sum, plus_all, decimals_for, minor_unit, round_money, round_to,
}
use alke_finance_backend.Ledger.Types.{
  LedgerAccountKind, LedgerTxnType, LedgerTxnStatus, LedgerKey, FeeCode, LedgerAccountRef,
  LedgerAccountRef-discrete, LedgerKey-discrete,
}
use alke_finance_backend.Ledger.Store.{ensure_account, find_account, find_by_key, sum_of}
use alke_finance_backend.Brokerage.OrderState.{transmitted}
use alke_finance_backend.Brokerage.OrderLedger.{
  buy, Order, Execution, SettlementState, Store, post_fill, consumed_reserve, reserve_input,
  release_input, buy_fill_input, sell_fill_input, settlement_input, fail_release_input,
  user_account, sdb_clearing, fee_account, consumed_before, buy_debit, commission_for, buy_entries,
  set_fill,
}
use alke_finance_backend.Brokerage.OrderLedger.Positions.{
  unreserve_shares, update_positions, settle_sell_shares, reserve_shares, settle_buy_shares,
  add_pending_shares,
}
use alke_finance_backend.Brokerage.OrderLedger.Bounds.{
  IsSound, Move, reserving, unreserving, settling_buy, settling_sell, adding, run_moves,
  run_moves-IsSound, run_move,
}
use alke_finance_backend.Brokerage.OrderLedger.Balanced.{IsBalanced, postings-IsBalanced}
use alke_finance_backend.Brokerage.OrderLedger.Reserve.{post_fill_within_reserve, count_id}

-- A commission of 500 francs, in proportion, for whole numbers of shares.
abbrev prorate : Decimal → Decimal → Decimal → Text → Decimal
prorate c q n currency = pos (pos_part c * pos_part q / pos_part n)

abbrev xaf : Text
xaf = letters "XAF"

abbrev order : Order
order = record {
  id = 1;
  user_id = 7;
  instrument_id = 3;
  market_id = 1;
  partner_id = some 9;
  batch_id = some 1;
  side = buy;
  quantity = whole 10;
  max_amount = whole 10600;
  fees =
      record { code = FeeCode.courtage_sdb; amount = whole 100 }
      ∷ record { code = FeeCode.commission_alke; amount = whole 500 }
      ∷ [];
  status = transmitted;
  simulated = false;
  filled_quantity = whole 0;
  avg_executed_price = none;
  reserve_txn_id = some 2;
  expires_after_sessions = 1;
  transmitted_at = some 0;
}

abbrev execution : Execution
execution = record {
  id = 5;
  order_id = 1;
  batch_id = some 1;
  price = whole 1000;
  quantity = whole 4;
  gross_amount = whole 4000;
  courtage = whole 40;
  taxes = whole 0;
  net_amount = whole 4040;
  sdb_exec_ref = letters "S1:t";
  settlement_state = SettlementState.unsettled;
  fill_txn_id = none;
}

abbrev reserved_account : LedgerAccountRef
reserved_account = user_account 7 xaf LedgerAccountKind.reserved

-- The reserve is on the ledger.
abbrev store : Store
store = record {
  ledger = record {
    accounts = record { id = 0; ref = reserved_account } ∷ [];
    txns = [];
    entries = record { txn_id = 2; account_id = 0; amount = whole 10600 } ∷ [];
    next_id = 10;
  };
  orders = order ∷ [];
  executions = execution ∷ [];
}

abbrev stored : Store
stored = record {
  ledger = record {
    accounts =
        record { id = 0; ref = reserved_account }
        ∷ record { id = 10; ref = sdb_clearing 4 xaf }
        ∷ record { id = 11; ref = fee_account FeeCode.courtage_sdb xaf }
        ∷ record { id = 12; ref = fee_account FeeCode.commission_alke xaf }
        ∷ [];
    txns =
        record {
          id = 13;
          txn_type = LedgerTxnType.fill;
          status = LedgerTxnStatus.posted;
          idempotency_key = LedgerKey.fill_of 5;
          currency = xaf;
          actor_id = none;
          reversal_of_id = none;
        }
        ∷ [];
    entries =
        record { txn_id = 2; account_id = 0; amount = whole 10600 }
        ∷ record { txn_id = 13; account_id = 0; amount = neg (whole 4240) }
        ∷ record { txn_id = 13; account_id = 10; amount = whole 4000 }
        ∷ record { txn_id = 13; account_id = 11; amount = whole 40 }
        ∷ record { txn_id = 13; account_id = 12; amount = whole 200 }
        ∷ [];
    next_id = 14;
  };
  orders = order ∷ [];
  executions = record execution { fill_txn_id = some 13 } ∷ [];
}

fills : post_fill prorate order execution 4 xaf none store ≡ ok (13, stored)
unfolding post_fill ◌+ℤ◌ consumed_before ◌-ℤ◌ consumed_reserve sum plus_all buy_debit commission_for
    post_within normalise buy_fill_input buy_entries to_upper Text-discrete normalise_entries
    normalise_entry neg sell_fill_input set_fill account_id create_txn delta lookup overdraws
    post_in post_locked resolve resolve_one rows user_refs ensure_account find_account find_by_key
    sum_of LedgerAccountRef-discrete LedgerKey-discrete decimals_for minor_unit round_money round_to
    ℕ_discrete
fills = refl

post_fill_within_reserve_example : consumed_reserve prorate order stored.executions ≤ℤ whole 10600
unfolding count_id
post_fill_within_reserve_example =
    post_fill_within_reserve prorate order execution 4 none store refl refl (omega arith) refl refl
      fills

postings-IsBalanced_example :
    IsBalanced (reserve_input order xaf)
    × IsBalanced (release_input order xaf none (whole 6360))
    × IsBalanced (buy_fill_input prorate order execution 4 xaf none)
    × IsBalanced (sell_fill_input order execution 4 xaf none)
    × IsBalanced (settlement_input order execution xaf none)
    × IsBalanced (fail_release_input prorate order execution xaf none)
postings-IsBalanced_example = postings-IsBalanced prorate order execution 4 xaf none (whole 6360)

abbrev average : ℤ → Decimal → Decimal
average cost quantity = pos (pos_part cost / pos_part quantity)

abbrev moves : List Move
moves =
    adding 7 3 (whole 10) (whole 1000)
    ∷ settling_buy 7 3 (whole 10)
    ∷ reserving 7 3 (whole 6)
    ∷ reserving 7 3 (whole 6)
    ∷ settling_sell 7 3 (whole 4)
    ∷ unreserving 7 3 (whole 2)
    ∷ []

-- The second reservation is more than what is left, and does nothing.
moved :
    run_moves average moves []
    ≡ record {
      user_id = 7;
      instrument_id = 3;
      quantity = whole 6;
      pending_quantity = whole 0;
      reserved_quantity = whole 0;
      avg_cost = whole 1000;
    }
      ∷ []
unfolding run_moves run_move unreserve_shares update_positions settle_sell_shares reserve_shares
    settle_buy_shares add_pending_shares ◌-ℤ◌ ◌+ℤ◌
moved = refl

run_moves-IsSound_example : All IsSound (run_moves average moves [])
run_moves-IsSound_example =
    run_moves-IsSound average moves []
      (omega arith, (omega arith, (omega arith, (omega arith, (omega arith, (omega arith, tt))))))
      tt
