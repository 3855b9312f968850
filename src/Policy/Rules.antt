-- ===== src/Policy/Rules.antt =====
-- Whom the eligibility rules let through (src/modules/policy/policy.rules.ts).
use mathlib.Core.Bool.{false≢true}
use alke_finance_backend.Base.{
  same_refl, subst, ℕ, ◌*◌, ◌%◌, ◌≡◌, ◌↔◌, ◌⊎◌, inl, inr, arith, pos, abs, ◌≤ℤ◌, ltb_ℤ, ◌==◌, Bool,
  true, false, not, ◌||◌, Bool-cases, Option-cases, none, some, Option, same, same→eq,
  Text-discrete, to_upper, letters, sym, ◌∙◌, refl,
}
use alke_finance_backend.Money.{Decimal, zero_decimal}
use alke_finance_backend.Brokerage.OrderLedger.{OrderSide, buy, sell}
use alke_finance_backend.Policy.{
  validated, allow, UserFacts, MarketFacts, is_simulated_trading, rule_can_trade,
  rule_can_open_broker_account, OrderDraftFacts, InstrumentFacts, FundsFacts, is_missing, lot_of,
  is_multiple, over_cap, rule_funds, rule_can_place_order,
}

-- `ruleCanTrade` allows exactly a user who is not blocked, whose file is validated, and who is a demo
-- user or trades on a live market whose connector is real.
pub rule_can_trade_iff :
    (user : UserFacts) (market : MarketFacts)
    → (rule_can_trade user market ≡ allow) ↔ (
        (user.is_blocked ≡ false)
        × (user.kyc_status ≡ validated)
        × ((user.is_demo ≡ true)
            ⊎ ((market.live_trading ≡ true) × (market.connector_simulated ≡ false))))
unfolding rule_can_trade is_simulated_trading
rule_can_trade_iff user market = ground arith

-- A broker account is open to whoever may trade.
pub rule_can_trade-account :
    (user : UserFacts) (market : MarketFacts)
    → rule_can_trade user market ≡ allow
    → rule_can_open_broker_account user.kyc_status user.is_blocked ≡ allow
unfolding rule_can_trade is_simulated_trading rule_can_open_broker_account
rule_can_trade-account user market h = ground arith

-- The user has the cash, or the shares.
abbrev pub IsFunded : OrderSide → OrderDraftFacts → FundsFacts → Type 0
IsFunded buy asked funds = asked.max_amount ≤ℤ funds.available
IsFunded sell asked funds = asked.quantity ≤ℤ funds.sellable_quantity

rule_funds_iff :
    (side : OrderSide) (asked : OrderDraftFacts) (funds : FundsFacts)
    → (rule_funds side asked funds ≡ allow) ↔ IsFunded side asked funds
rule_funds_iff buy asked funds = ground arith
rule_funds_iff sell asked funds = ground arith

-- An amount in francs stays within the cap, if there is one.
abbrev pub KeepsCap : Option Decimal → OrderDraftFacts → Type 0
KeepsCap none asked = Unit
KeepsCap (some limit) asked = to_upper asked.currency ≡ letters "XAF" → asked.max_amount ≤ℤ limit

over_cap_iff :
    (cap : Option Decimal) (asked : OrderDraftFacts)
    → (over_cap cap asked ≡ none) ↔ KeepsCap cap asked
over_cap_iff none asked = (λ h. tt, λ h. refl)
over_cap_iff (some limit) asked =
    elim (Bool-cases (same Text-discrete (to_upper asked.currency) (letters "XAF"))) [
      | inl francs ↦ (
        λ h _. ground (arith, rw francs at h),
        λ h. rw francs (
            ground
              (arith, h (same→eq Text-discrete (to_upper asked.currency) (letters "XAF") francs))),
      )
      | inr other ↦ (
        λ h e. absurd (
            false≢true (
              sym other
              ∙ subst (λ t. same Text-discrete t (letters "XAF") ≡ true) (sym e)
                  (same_refl Text-discrete (letters "XAF")))),
        λ h. rw other refl,
      )
    ]

-- What an order needs.
pub record MayPlace (asked : OrderDraftFacts) (instrument : InstrumentFacts) (funds : FundsFacts)
    : Type 0 where
  pub active : instrument.is_active ≡ true
  pub priced : is_missing instrument.last_price ≡ false
  pub positive : pos 1 ≤ℤ asked.quantity
  pub whole_lots : abs asked.quantity % (lot_of instrument.lot_size * 10000) ≡ 0
  pub under_cap : KeepsCap funds.order_cap asked
  pub funded : IsFunded asked.side asked funds

not_priced : (a m : Bool) → (not a || m) ≡ false → (a ≡ true) × (m ≡ false)
not_priced a m h = ground arith

is_positive : (q : Decimal) → (not (ltb_ℤ zero_decimal q) ≡ false) ↔ (pos 1 ≤ℤ q)
is_positive q = ground arith

is_multiple_iff : (n : ℕ) → (not (n == 0) ≡ false) ↔ (n ≡ 0)
is_multiple_iff n = ground arith

may_place :
    (asked : OrderDraftFacts) (instrument : InstrumentFacts) (funds : FundsFacts)
    → rule_can_place_order asked instrument funds ≡ allow
    → MayPlace asked instrument funds
unfolding rule_can_place_order
may_place asked instrument funds h =
    elim (Bool-cases (not instrument.is_active || is_missing instrument.last_price)) [
      | inl e ↦ cc (rw e at h)
      | inr e ↦ elim (Bool-cases (not (ltb_ℤ zero_decimal asked.quantity))) [
        | inl e' ↦ cc (rw (e, e') at h)
        | inr e' ↦
            elim (Bool-cases (not (is_multiple asked.quantity (lot_of instrument.lot_size)))) [
              | inl m ↦ cc (rw (e, e', m) at h)
              | inr m ↦ elim (Option-cases (over_cap funds.order_cap asked)) [
                | inr (limit, c) ↦ cc (rw (e, e', m, c) at h)
                | inl c ↦
                    let (active, priced) =
                      not_priced instrument.is_active (is_missing instrument.last_price) e in
                    record {
                      active = active;
                      priced = priced;
                      positive = (is_positive asked.quantity).0 e';
                      whole_lots = (is_multiple_iff _).0 m;
                      under_cap = (over_cap_iff funds.order_cap asked).0 c;
                      funded = (rule_funds_iff asked.side asked funds).0 (rw (e, e', m, c) at h);
                    }
              ]
            ]
      ]
    ]

-- `ruleCanPlaceOrder` allows an order exactly when the instrument is active and has a price, the
-- quantity is positive and a whole number of lots, an amount in XAF is at most the pilot cap if there
-- is one, and the user has the cash of a purchase or the shares of a sale.
pub rule_can_place_order_iff :
    (asked : OrderDraftFacts) (instrument : InstrumentFacts) (funds : FundsFacts)
    → (rule_can_place_order asked instrument funds ≡ allow) ↔ MayPlace asked instrument funds
unfolding rule_can_place_order
rule_can_place_order_iff asked instrument funds = (
  may_place asked instrument funds,
  λ p.
      rw (p.active, p.priced)
        (rw ((is_positive asked.quantity).1 p.positive) (
          rw ((is_multiple_iff _).1 p.whole_lots) (
            rw ((over_cap_iff funds.order_cap asked).1 p.under_cap)
              ((rule_funds_iff asked.side asked funds).1 p.funded)))),
)
