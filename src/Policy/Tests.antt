-- ===== src/Policy/Tests.antt =====
-- A user who buys ten shares within the cap.
use alke_finance_backend.Base.{
  ◌≡◌, ◌↔◌, ◌⊎◌, refl, pos, true, false, some, letters, Text-discrete, to_upper,
}
use alke_finance_backend.Money.{whole}
use alke_finance_backend.Brokerage.OrderLedger.{buy}
use alke_finance_backend.Policy.{
  validated, is_simulated_trading, allow, UserFacts, MarketFacts, rule_can_trade, OrderDraftFacts,
  InstrumentFacts, FundsFacts, rule_can_place_order, deny, over_pilot_cap,
}
use alke_finance_backend.Policy.Rules.{MayPlace, rule_can_trade_iff, rule_can_place_order_iff}

abbrev trader : UserFacts
trader = record { kyc_status = validated; is_blocked = false; is_demo = false }

abbrev live_market : MarketFacts
live_market = record { live_trading = true; connector_simulated = false }

abbrev purchase : OrderDraftFacts
purchase = record {
  side = buy;
  quantity = whole 10;
  max_amount = whole 10600;
  currency = letters "XAF";
}

abbrev share : InstrumentFacts
share = record { is_active = true; last_price = some (whole 1000); lot_size = pos 5 }

abbrev funds : FundsFacts
funds = record {
  available = whole 20000;
  sellable_quantity = whole 0;
  order_cap = some (whole 500000);
}

capped :
    rule_can_place_order (record purchase { max_amount = whole 600000 }) share funds
    ≡ deny (over_pilot_cap (whole 500000)) false
unfolding rule_can_place_order Text-discrete to_upper
capped = refl

rule_can_place_order_iff_example :
    (rule_can_place_order purchase share funds ≡ allow) ↔ MayPlace purchase share funds
rule_can_place_order_iff_example = rule_can_place_order_iff purchase share funds

rule_can_trade_iff_example : (rule_can_trade trader live_market ≡ allow) ↔ (
    (false ≡ false)
    × (validated ≡ validated)
    × ((false ≡ true) ⊎ ((true ≡ true) × (false ≡ false))))
rule_can_trade_iff_example = rule_can_trade_iff trader live_market

trades : rule_can_trade trader live_market ≡ allow
unfolding rule_can_trade is_simulated_trading
trades = refl
