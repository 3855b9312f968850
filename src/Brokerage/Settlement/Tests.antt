-- ===== src/Brokerage/Settlement/Tests.antt =====
-- A purchase of four shares, delivered, and one whose delivery fails.
use alke_finance_backend.Base.{
  ◌≡◌, refl, true, false, none, some, [], ◌∷◌, Text, letters, ok, ◌+ℤ◌, ◌-ℤ◌,
}
use alke_finance_backend.Money.{Decimal, whole, sum, plus_all}
use alke_finance_backend.Ledger.History.{empty_db}
use alke_finance_backend.Brokerage.OrderState.{transmitted}
use alke_finance_backend.Brokerage.OrderLedger.{
  buy, SettlementState, Order, Execution, reverse_fill, update_order,
}
use alke_finance_backend.Brokerage.OrderLedger.Positions.{
  Position, settle_buy_shares, update_positions,
}
use alke_finance_backend.Brokerage.Settlement.{
  World, settle, fail_due, claimable, deliver, set_settlement, undo_shares, standing_quantity,
}
use alke_finance_backend.Brokerage.Settlement.Once.{settle_twice, fail_due-unsettled}

abbrev prorate : Decimal → Decimal → Decimal → Text → Decimal
prorate c q n currency = whole 0

abbrev xaf : Text
xaf = letters "XAF"

abbrev order : Order
order = record {
  id = 1;
  user_id = 7;
  instrument_id = 3;
  market_id = 1;
  partner_id = some 9;
  batch_id = some 1;
  side = buy;
  quantity = whole 10;
  max_amount = whole 10600;
  fees = [];
  status = transmitted;
  simulated = false;
  filled_quantity = whole 4;
  avg_executed_price = none;
  reserve_txn_id = some 2;
  expires_after_sessions = 1;
  transmitted_at = some 0;
}

abbrev execution : Execution
execution = record {
  id = 5;
  order_id = 1;
  batch_id = some 1;
  price = whole 1000;
  quantity = whole 4;
  gross_amount = whole 4000;
  courtage = whole 40;
  taxes = whole 0;
  net_amount = whole 4040;
  sdb_exec_ref = letters "S1:t";
  settlement_state = SettlementState.unsettled;
  fill_txn_id = none;
}

abbrev position : Position
position = record {
  user_id = 7;
  instrument_id = 3;
  quantity = whole 0;
  pending_quantity = whole 4;
  reserved_quantity = whole 0;
  avg_cost = whole 1000;
}

abbrev world : World
world = record {
  store = record { ledger = empty_db; orders = order ∷ []; executions = execution ∷ [] };
  positions = position ∷ [];
}

abbrev delivered : World
delivered = record {
  store = record {
    ledger = empty_db;
    orders = order ∷ [];
    executions = record execution { settlement_state = SettlementState.settled } ∷ [];
  };
  positions = record position { quantity = whole 4; pending_quantity = whole 0 } ∷ [];
}

settles : settle order execution xaf none world ≡ ok (true, delivered)
unfolding settle claimable deliver set_settlement settle_buy_shares update_positions ◌+ℤ◌ ◌-ℤ◌
settles = refl

settle_twice_example : settle order execution xaf none delivered ≡ ok (false, delivered)
settle_twice_example = settle_twice order order execution xaf none world delivered settles

abbrev undone : World
undone = record {
  store = record {
    ledger = empty_db;
    orders = record order { filled_quantity = whole 0 } ∷ [];
    executions = record execution { settlement_state = SettlementState.failed } ∷ [];
  };
  positions = record position { pending_quantity = whole 0 } ∷ [];
}

fails : fail_due prorate order execution xaf none world ≡ ok undone
unfolding fail_due reverse_fill update_order set_settlement undo_shares standing_quantity
    update_positions sum ◌-ℤ◌ plus_all
fails = refl

fail_due-unsettled_example : settle order execution xaf none undone ≡ ok (false, undone)
fail_due-unsettled_example =
    fail_due-unsettled prorate order order execution xaf none world undone fails
