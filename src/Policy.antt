-- ===== src/Policy.antt =====
-- The eligibility rules: src/modules/policy/policy.rules.ts. A refusal's text is named, with the
-- values that it prints.
pub mod Rules
pub mod Facts
mod Tests
use alke_finance_backend.Base.{
  ℕ, suc, zero, ℤ, pos, abs, ◌==◌, ◌%◌, ◌*◌, leb, ltb_ℤ, Bool, true, false, not, ◌&&◌, ◌||◌, Option,
  none, some, List, Text, Text-discrete, letters, to_upper, same, if◌then◌else◌,
}
use alke_finance_backend.Money.{Decimal, zero_decimal}
use alke_finance_backend.Brokerage.OrderLedger.{OrderSide, buy, sell}

pub data KycStatus : Type 0 where
  not_started draft submitted auto_approved manual_review validated rejected re_kyc : KycStatus

pub data Reason : Type 0 where
  account_suspended kyc_not_validated_for_orders market_not_open kyc_not_validated_for_account :
      Reason
  no_reference_price quantity_not_positive insufficient_quantity : Reason
  user_not_found market_not_found instrument_not_found : Reason
  lot_multiple : ℕ → Reason
  over_pilot_cap : Decimal → Reason
  insufficient_cash : Text → Decimal → Decimal → Reason

-- `PolicyCheck`: `ALLOW`, or `deny(reason, review)`.
pub data PolicyCheck : Type 0 where
  allow : PolicyCheck
  deny : Reason → Bool → PolicyCheck

pub record UserFacts : Type 0 where
  pub kyc_status : KycStatus
  pub is_blocked : Bool
  pub is_demo : Bool

pub record MarketFacts : Type 0 where
  pub live_trading : Bool
  pub connector_simulated : Bool

abbrev pub is_validated : KycStatus → Bool
is_validated validated = true
is_validated _ = false

-- `isSimulatedTrading`
unfoldable pub is_simulated_trading : MarketFacts → Bool
is_simulated_trading market = not (market.live_trading && not market.connector_simulated)

-- `ruleCanTrade`
unfoldable pub rule_can_trade : UserFacts → MarketFacts → PolicyCheck
unfolding is_simulated_trading
rule_can_trade user market =
    if user.is_blocked
    then deny account_suspended true
    else if not (is_validated user.kyc_status)
    then deny kyc_not_validated_for_orders false
    else if is_simulated_trading market && not user.is_demo
    then deny market_not_open false
    else allow

-- `ruleCanOpenBrokerAccount`
unfoldable pub rule_can_open_broker_account : KycStatus → Bool → PolicyCheck
rule_can_open_broker_account status blocked =
    if blocked
    then deny account_suspended true
    else if not (is_validated status)
    then deny kyc_not_validated_for_account false
    else allow

pub record OrderDraftFacts : Type 0 where
  pub side : OrderSide
  pub quantity : Decimal
  pub max_amount : Decimal
  pub currency : Text

pub record InstrumentFacts : Type 0 where
  pub is_active : Bool
  pub last_price : Option Decimal
  pub lot_size : ℤ

pub record FundsFacts : Type 0 where
  pub available : Decimal
  pub sellable_quantity : Decimal
  pub order_cap : Option Decimal

abbrev pub is_missing : Option Decimal → Bool
is_missing none = true
is_missing (some p) = false

-- `Math.max(1, lotSize)`
abbrev pub lot_of : ℤ → ℕ
lot_of (pos (suc n)) = suc n
lot_of _ = 1

-- `qty.mod(lot).isZero()`
abbrev pub is_multiple : Decimal → ℕ → Bool
is_multiple qty lot = (abs qty % (lot * 10000)) == 0

-- `funds.orderCap && currency is XAF && maxAmount > orderCap`
abbrev pub over_cap : Option Decimal → OrderDraftFacts → Option Decimal
over_cap none asked = none
over_cap (some limit) asked =
    if same Text-discrete (to_upper asked.currency) (letters "XAF") && ltb_ℤ limit asked.max_amount
    then some limit
    else none

-- The last test of `ruleCanPlaceOrder`, by the side.
abbrev pub rule_funds : OrderSide → OrderDraftFacts → FundsFacts → PolicyCheck
rule_funds buy asked funds =
    if ltb_ℤ funds.available asked.max_amount
    then deny (insufficient_cash asked.currency funds.available asked.max_amount) false
    else allow
rule_funds sell asked funds =
    if ltb_ℤ funds.sellable_quantity asked.quantity then deny insufficient_quantity false else allow

-- `ruleCanPlaceOrder`
unfoldable pub rule_can_place_order : OrderDraftFacts → InstrumentFacts → FundsFacts → PolicyCheck
rule_can_place_order asked instrument funds =
    if not instrument.is_active || is_missing instrument.last_price
    then deny no_reference_price false
    else if not (ltb_ℤ zero_decimal asked.quantity)
    then deny quantity_not_positive false
    else if not (is_multiple asked.quantity (lot_of instrument.lot_size))
    then deny (lot_multiple (lot_of instrument.lot_size)) false
    else (elim (over_cap funds.order_cap asked) [
      | some limit ↦ deny (over_pilot_cap limit) false
      | none ↦ rule_funds asked.side asked funds
    ])
