-- ===== src/Policy/Facts.antt =====
-- The facts that the eligibility rules read: src/modules/policy/policy.service.ts. The environment
-- (APP_ENV, SDB_CONNECTOR) is an argument; a configured value comes parsed.
use alke_finance_backend.Base.{
  ℕ, ◌==◌, leb, ltb, ◌-ℤ◌, Bool, true, false, ◌&&◌, ◌||◌, Option, none, some, List, [], ◌∷◌, any,
  find, Text, Text-discrete, Result, ok, err, plain, ◌>>=◌, letters, same, if◌then◌else◌,
}
use alke_finance_backend.Money.{Decimal, whole, zero_decimal}
use alke_finance_backend.Ledger.Types.{Db}
use alke_finance_backend.Ledger.Report.{user_balances}
use alke_finance_backend.Brokerage.OrderLedger.Positions.{Position, of_user}
use alke_finance_backend.Policy.{
  KycStatus, user_not_found, market_not_found, instrument_not_found, PolicyCheck, deny, UserFacts,
  MarketFacts, OrderDraftFacts, InstrumentFacts, FundsFacts, is_simulated_trading, rule_can_trade,
  rule_can_open_broker_account, rule_can_place_order,
}

-- A JSON value: null, a number (or its text), a list of texts, or another.
pub data ConfigValue : Type 0 where
  null_value other_value : ConfigValue
  number_value : Decimal → ConfigValue
  texts_value : List Text → ConfigValue

pub record ConfigRow : Type 0 where
  pub key : Text
  pub value : ConfigValue
  pub effective_from : ℕ
  pub effective_to : Option ℕ

pub record UserRow : Type 0 where
  pub id : ℕ
  pub email : Text
  pub kyc_status : KycStatus
  pub is_blocked : Bool

pub record MarketRow : Type 0 where
  pub id : ℕ
  pub live_trading : Bool
  pub currency : Text

pub record InstrumentRow : Type 0 where
  pub id : ℕ
  pub market_id : ℕ
  pub currency : Text
  pub facts : InstrumentFacts

pub record Environment : Type 0 where
  pub is_local : Bool
  pub connector_simulated : Bool

-- The tables that the service reads.
pub record Tables : Type 0 where
  pub users : List UserRow
  pub markets : List MarketRow
  pub instruments : List InstrumentRow
  pub positions : List Position
  pub config : List ConfigRow
  pub ledger : Db

abbrev pub not_ended : ℕ → Option ℕ → Bool
not_ended now none = true
not_ended now (some end) = ltb now end

abbrev pub is_effective : Text → ℕ → ConfigRow → Bool
is_effective key now r =
    same Text-discrete r.key key && (leb r.effective_from now && not_ended now r.effective_to)

abbrev pub later_row : ConfigRow → Option ConfigRow → ConfigRow
later_row r none = r
later_row r (some s) = if ltb r.effective_from s.effective_from then s else r

-- `findFirst({ …, orderBy: { effectiveFrom: 'desc' } })`
unfoldable pub latest_row : Text → ℕ → List ConfigRow → Option ConfigRow
latest_row key now [] = none
latest_row key now (r ∷ rs) =
    let rest = latest_row key now rs in
    if is_effective key now r then some (later_row r rest) else rest

-- `configValue`
unfoldable pub config_value : Text → ℕ → List ConfigRow → Option ConfigValue
config_value key now rows = elim (latest_row key now rows) [ none ↦ none | some r ↦ some r.value ]

-- `DEFAULT_ORDER_CAP_XAF`
abbrev pub default_order_cap_xaf : Decimal
default_order_cap_xaf = whole 250000

-- The cap of a value; `D` of a list or an object throws.
abbrev pub cap_of : Option ConfigValue → Result (Option Decimal)
cap_of none = ok (some default_order_cap_xaf)
cap_of (some null_value) = ok none
cap_of (some (number_value n)) = ok (some n)
cap_of (some (texts_value ts)) = err (plain "[DecimalError] Invalid argument")
cap_of (some other_value) = err (plain "[DecimalError] Invalid argument")

-- `orderCap`
unfoldable pub order_cap : ℕ → List ConfigRow → Result (Option Decimal)
order_cap now rows = cap_of (config_value (letters "pilot.order_cap_xaf") now rows)

abbrev pub texts_of : Option ConfigValue → List Text
texts_of (some (texts_value ts)) = ts
texts_of _ = []

-- `toLowerCase` is the language's: a parameter.
module _ (to_lower : Text → Text) (env : Environment) where
  -- `isDemoUser`
  unfoldable pub is_demo_user : Text → ℕ → List ConfigRow → Bool
  is_demo_user email now rows =
      env.is_local
      || any (λ e. same Text-discrete (to_lower e) (to_lower email))
          (texts_of (config_value (letters "demo.user_emails") now rows))

  -- `marketFacts`
  abbrev pub market_facts : MarketRow → MarketFacts
  market_facts m = record {
    live_trading = m.live_trading;
    connector_simulated = env.connector_simulated;
  }

  -- `isSimulated`
  unfoldable pub is_simulated : MarketRow → Bool
  is_simulated m = is_simulated_trading (market_facts m)

  -- `userFacts`
  unfoldable pub user_facts : ℕ → ℕ → Tables → Option UserFacts
  user_facts user now t = elim (find (λ u. u.id == user) t.users) [
    | none ↦ none
    | some u ↦ some (record {
      kyc_status = u.kyc_status;
      is_blocked = u.is_blocked;
      is_demo = is_demo_user u.email now t.config;
    })
  ]

  -- `canTrade`
  unfoldable pub can_trade : ℕ → ℕ → ℕ → Tables → PolicyCheck
  can_trade user market now t = elim (user_facts user now t) [
    | none ↦ deny user_not_found false
    | some u ↦ elim (find (λ m. m.id == market) t.markets) [
      | none ↦ deny market_not_found false
      | some m ↦ rule_can_trade u (market_facts m)
    ]
  ]

  -- `canOpenBrokerAccount`
  unfoldable pub can_open_broker_account : ℕ → ℕ → Tables → PolicyCheck
  can_open_broker_account user now t = elim (user_facts user now t) [
    | none ↦ deny user_not_found false
    | some u ↦ rule_can_open_broker_account u.kyc_status u.is_blocked
  ]

  -- The sellable quantity of a position, if there is one.
  unfoldable pub sellable_quantity : ℕ → ℕ → List Position → Decimal
  sellable_quantity user instrument ps = elim (find (of_user user instrument) ps) [
    | none ↦ zero_decimal
    | some p ↦ p.quantity -ℤ p.reserved_quantity
  ]

  -- The funds that `canPlaceOrder` reads; those of a simulated order suffice.
  unfoldable pub funds_facts : ℕ → ℕ → Bool → OrderDraftFacts → Option Decimal → Tables → FundsFacts
  funds_facts user instrument simulated asked cap t =
      if simulated
      then record {
        available = asked.max_amount;
        sellable_quantity = asked.quantity;
        order_cap = cap;
      }
      else record {
        available = (user_balances user asked.currency t.ledger).available;
        sellable_quantity = sellable_quantity user instrument t.positions;
        order_cap = cap;
      }

  -- `canPlaceOrder`
  unfoldable pub can_place_order : ℕ → ℕ → Bool → OrderDraftFacts → ℕ → Tables → Result PolicyCheck
  can_place_order user instrument simulated asked now t =
      elim (find (λ i. i.id == instrument) t.instruments) [
        | none ↦ ok (deny instrument_not_found false)
        | some i ↦ do
          cap ← order_cap now t.config
          ok (
              rule_can_place_order asked i.facts
                (funds_facts user instrument simulated asked cap t))
      ]
