-- ===== src/Brokerage/Batches/Tests.antt =====
-- Runs of the files of a batch: an execution read twice, and an order whose rejection is followed
-- by an acceptance.
use alke_finance_backend.Base.{
  ◌≡◌, refl, ◌+◌, ◌-◌, ◌*◌, ◌/◌, ℕ, ℤ, pos, pos_part, List, [], ◌∷◌, Option, none, some, Text,
  letters, Result, ok, err, false, map, Text-discrete, ◌+ℤ◌, ◌-ℤ◌, ◌*ℤ◌, to_upper, neg,
}
use native.Mathlib.Decide.{ℕ_discrete}
use alke_finance_backend.Ledger.Posting.{
  normalise, normalise_entries, normalise_entry, account_id, create_txn, delta, lookup, overdraws,
  post_in, post_locked, resolve, resolve_one, rows, user_refs,
}
use alke_finance_backend.Ledger.Retry.{post_within}
use alke_finance_backend.Ledger.Types.{LedgerAccountRef-discrete, LedgerKey-discrete}
use alke_finance_backend.Ledger.Store.{ensure_account, find_account, find_by_key, sum_of}
use alke_finance_backend.Money.{
  Decimal, whole, sum, plus_all, decimals_for, minor_unit, round_money, round_to,
}
use alke_finance_backend.Brokerage.OrderState.{
  assert_transition, can_transition, transitions, OrderStatus-discrete, apply_fill, OrderStatus,
  transmitted, acknowledged,
}
use alke_finance_backend.Brokerage.OrderLedger.{
  sell, Order, post_fill, sell_fill_input, set_fill, update_order, release_remaining,
}
use alke_finance_backend.Brokerage.OrderLedger.Positions.{unreserve_shares, update_positions}
use alke_finance_backend.Brokerage.Csv.Formats.{
  AckLine, AckStatus, ExeLine, accepted, rejected, partial,
}
use alke_finance_backend.Brokerage.Batches.{
  BatchType, BatchState, Desk, get_batch, update_batch, release, close_order, claim_order,
}
use alke_finance_backend.Brokerage.Batches.Acks.{
  AckSummary, process_ack, ack_lines, ack_line, accept_line, reject_line, order_of, parse_date,
}
use alke_finance_backend.Brokerage.Batches.Fills.{
  ExeSummary, no_fills, process_executions, fill_batch, exe_lines, exe_line, apply_execution,
  sdb_exec_ref, by_ref, fill_order, plan_fill, find_order, write_fill, new_execution, book_fill,
  close_fill,
}
use alke_finance_backend.Brokerage.Batches.FillsAgain.{process_executions_again}

abbrev prorate : Decimal → Decimal → Decimal → Text → Decimal
prorate c q n currency = pos (pos_part c * pos_part q / pos_part n)

abbrev average : ℤ → Decimal → Decimal
average cost q = pos (pos_part cost / pos_part q)

abbrev id_text : ℕ → Text
id_text n = b'o' ∷ (48 + n) ∷ []

abbrev currency_of : ℕ → Text
currency_of n = letters "XAF"

abbrev new_date : Text → Option ℕ
new_date t = some 0

abbrev value : ℕ → Text → ℕ
value acc [] = acc
value acc (c ∷ cs) = value (acc * 10 + (c - 48)) cs

abbrev to_decimal : Text → Decimal
to_decimal t = whole (value 0 t)

abbrev order : Order
order = record {
  id = 1;
  user_id = 7;
  instrument_id = 3;
  market_id = 1;
  partner_id = some 9;
  batch_id = some 4;
  side = sell;
  quantity = whole 10;
  max_amount = whole 10000;
  fees = [];
  status = transmitted;
  simulated = false;
  filled_quantity = whole 0;
  avg_executed_price = none;
  reserve_txn_id = none;
  expires_after_sessions = 1;
  transmitted_at = some 0;
}

abbrev desk : Desk
desk = record {
  world = record {
    store = record {
      ledger = record { accounts = []; txns = []; entries = []; next_id = 1 };
      orders = order ∷ [];
      executions = [];
    };
    positions = [];
  };
  batches =
      record {
        id = 4;
        market_id = 1;
        partner_id = 9;
        batch_type = BatchType.ord;
        state = BatchState.sent;
        sequence = 1;
        cutoff_at = 0;
        line_count = 1;
      }
      ∷ [];
}

abbrev four_sold : ExeLine
four_sold = record {
  order_id = letters "o1";
  sdb_ref = letters "S";
  executed_qty = letters "4";
  price = letters "9";
  gross_amount = letters "36";
  courtage = letters "1";
  taxes = letters "0";
  net_amount = letters "35";
  settlement_date = [];
  executed_at = letters "t";
  status = partial;
}

abbrev lines : List ExeLine
lines = four_sold ∷ []

abbrev read : Result (ExeSummary × Desk)
read =
    process_executions id_text currency_of prorate new_date average to_decimal (λ n. 100 + n) 4
      lines (some 2) desk

abbrev summary_of : Result (ExeSummary × Desk) → ExeSummary
summary_of (err e) = no_fills
summary_of (ok r) = r.0

abbrev desk_of : Result (ExeSummary × Desk) → Desk
desk_of (err e) = desk
desk_of (ok r) = r.1

one_execution : (summary_of read).executions ≡ 100 ∷ []
unfolding process_executions get_batch fill_batch exe_lines exe_line order_of Text-discrete
    apply_execution sdb_exec_ref by_ref fill_order plan_fill parse_date find_order assert_transition
    can_transition transitions OrderStatus-discrete apply_fill write_fill new_execution book_fill
    close_fill update_order release release_remaining update_batch post_fill ◌+ℤ◌ ◌-ℤ◌ ◌*ℤ◌ sum
    plus_all sell_fill_input post_within normalise normalise_entries normalise_entry to_upper neg
    set_fill account_id create_txn delta lookup overdraws post_in post_locked resolve resolve_one
    rows user_refs ensure_account find_account find_by_key sum_of LedgerAccountRef-discrete
    LedgerKey-discrete decimals_for minor_unit round_money round_to ℕ_discrete
one_execution = refl

process_executions_again_example :
    (s' : ExeSummary) × (process_executions id_text currency_of prorate new_date average to_decimal
        (λ n. 200 + n)
        4
        lines
        none
        (desk_of read)
      ≡ ok (s', desk_of read))
    × (s'.executions ≡ [])
unfolding process_executions get_batch fill_batch exe_lines exe_line order_of Text-discrete
    apply_execution sdb_exec_ref by_ref fill_order plan_fill parse_date find_order assert_transition
    can_transition transitions OrderStatus-discrete apply_fill write_fill new_execution book_fill
    close_fill update_order release release_remaining update_batch post_fill ◌+ℤ◌ ◌-ℤ◌ ◌*ℤ◌ sum
    plus_all sell_fill_input post_within normalise normalise_entries normalise_entry to_upper neg
    set_fill account_id create_txn delta lookup overdraws post_in post_locked resolve resolve_one
    rows user_refs ensure_account find_account find_by_key sum_of LedgerAccountRef-discrete
    LedgerKey-discrete decimals_for minor_unit round_money round_to ℕ_discrete
process_executions_again_example =
    process_executions_again prorate id_text currency_of new_date average to_decimal (λ n. 100 + n)
      (λ n. 200 + n) 4 lines (some 2) none desk (desk_of read) (summary_of read) refl

abbrev ack : AckStatus → AckLine
ack status = record {
  order_id = letters "o1";
  status = status;
  reject_code = none;
  reject_text = none;
  sdb_ref = letters "S";
  ack_at = letters "t";
}

abbrev statuses : Result (AckSummary × Desk) → List OrderStatus
statuses (err e) = []
statuses (ok r) = map (λ o. o.status) r.1.world.store.orders

-- The loop tests the status that was read before it, so the second line overwrites REJECTED.
rejected_revived :
    statuses (
      process_ack id_text currency_of prorate new_date 4
        (ack rejected ∷ ack accepted ∷ [])
        none
        desk)
    ≡ acknowledged ∷ []
unfolding process_ack get_batch ack_lines ack_line order_of Text-discrete accept_line reject_line
    close_order claim_order update_order release unreserve_shares update_positions parse_date
    assert_transition can_transition transitions OrderStatus-discrete update_batch ℕ_discrete ◌+ℤ◌
    ◌-ℤ◌
rejected_revived = refl

-- In the other order the rejection is reported and not written.
rejection_lost :
    statuses (
      process_ack id_text currency_of prorate new_date 4
        (ack accepted ∷ ack rejected ∷ [])
        none
        desk)
    ≡ acknowledged ∷ []
unfolding process_ack get_batch ack_lines ack_line order_of Text-discrete accept_line reject_line
    close_order claim_order update_order release unreserve_shares update_positions parse_date
    assert_transition can_transition transitions OrderStatus-discrete update_batch ℕ_discrete ◌+ℤ◌
    ◌-ℤ◌
rejection_lost = refl
