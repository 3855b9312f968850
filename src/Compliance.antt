-- ===== src/Compliance.antt =====
-- Compliance alerts: src/modules/compliance/compliance.service.ts. Here the rows and the alerts;
-- Compliance/Cases has the cases and their decisions. Summaries, details, titles, times, events and
-- audit rows are left out.
pub mod Cases
pub mod OneOpen
mod Tests
use alke_finance_backend.Base.{
  ℕ, ◌+◌, ltb_ℤ, Bool, true, false, not, ◌&&◌, ◌||◌, Option, none, some, List, [], ◌∷◌, ◌++◌, find,
  is_some, Text, letters, same, if◌then◌else◌,
}
use native.Mathlib.Decide.{ℕ_discrete}
use alke_finance_backend.Money.{Decimal}
use alke_finance_backend.Payments.{PaymentIntent}
use alke_finance_backend.Kyc.BrokerAccounts.{is_given}
use alke_finance_backend.Kyc.Cases.{User}
use alke_finance_backend.Brokerage.Csv.{eq_text, is_empty}

pub data AlertSource : Type 0 where
  kyc_screening reconciliation transaction_threshold settlement_failure withdrawal_velocity manual :
      AlertSource

pub data AlertSeverity : Type 0 where
  low medium high critical : AlertSeverity

pub data AlertStatus : Type 0 where
  opened attached dismissed : AlertStatus

-- `source`, `entityType` and `entityId`
pub record AlertKey : Type 0 where
  pub source : AlertSource
  pub entity_type : Option Text
  pub entity_id : Option Text

unfoldable AlertSource-discrete : Discrete AlertSource
AlertSource-discrete = hlevel

unfoldable pub AlertKey-discrete : Discrete AlertKey
AlertKey-discrete = hlevel ℕ_discrete

pub record ComplianceAlert : Type 0 where
  pub id : ℕ
  pub key : AlertKey
  pub severity : AlertSeverity
  pub status : AlertStatus
  pub user_id : Option ℕ
  pub case_id : Option ℕ

pub record RaiseAlertInput : Type 0 where
  pub key : AlertKey
  pub severity : AlertSeverity
  pub user_id : Option ℕ

pub data ComplianceCaseState : Type 0 where
  case_open under_review escalated cleared reported closed : ComplianceCaseState

pub record ComplianceCase : Type 0 where
  pub id : ℕ
  pub reference : Text
  pub subject_user_id : Option ℕ
  pub owner_id : ℕ
  pub state : ComplianceCaseState

pub data ComplianceDecisionCode : Type 0 where
  to_clear to_report to_report_to_anif to_block to_close : ComplianceDecisionCode

pub record ComplianceDecision : Type 0 where
  pub case_id : ℕ
  pub decision : ComplianceDecisionCode
  pub decided_by_id : ℕ
  pub approval_id : ℕ

pub record ComplianceNote : Type 0 where
  pub case_id : ℕ
  pub author_id : ℕ
  pub body : Text

-- The tables.
pub record Register : Type 0 where
  pub alerts : List ComplianceAlert
  pub cases : List ComplianceCase
  pub notes : List ComplianceNote
  pub decisions : List ComplianceDecision
  pub users : List User
  pub next_id : ℕ

abbrev pub is_open : AlertStatus → Bool
is_open opened = true
is_open _ = false

-- An open alert of the key.
abbrev pub is_open_for : AlertKey → ComplianceAlert → Bool
is_open_for key a = same AlertKey-discrete a.key key && is_open a.status

-- `input.entityType && input.entityId`
abbrev pub names_entity : AlertKey → Bool
names_entity key = is_given key.entity_type && is_given key.entity_id

abbrev pub existing_alert : AlertKey → List ComplianceAlert → Option ComplianceAlert
existing_alert key alerts = if names_entity key then find (is_open_for key) alerts else none

abbrev pub new_alert : ℕ → RaiseAlertInput → ComplianceAlert
new_alert id input = record {
  id = id;
  key = input.key;
  severity = input.severity;
  status = opened;
  user_id = input.user_id;
  case_id = none;
}

-- `raiseAlert`, with what others commit between the look-up and the creation.
unfoldable pub raise_alert :
    (Register → Register) → RaiseAlertInput → Register → ComplianceAlert × Register
raise_alert others input r = elim (existing_alert input.key r.alerts) [
  | some a ↦ (a, r)
  | none ↦
      let r' = others r in
      (
        new_alert r'.next_id input,
        record r' {
          alerts = r'.alerts ++ new_alert r'.next_id input ∷ [];
          next_id = r'.next_id + 1;
        },
      )
]

-- A domain event, its payload read by `readDecimal` and `readString`.
pub record DomainEvent : Type 0 where
  pub entity_type : Text
  pub entity_id : Text
  pub amount : Option Decimal
  pub user_id : Option ℕ
  pub hits : List Text

abbrev pub input_of : AlertSource → AlertSeverity → Text → Option ℕ → DomainEvent → RaiseAlertInput
input_of source severity entity user e = record {
  key = record { source = source; entity_type = some entity; entity_id = some e.entity_id };
  severity = severity;
  user_id = user;
}

-- `onReconciliationMismatch`
unfoldable pub on_reconciliation_mismatch :
    (Register → Register) → DomainEvent → Register → Register
on_reconciliation_mismatch others e r =
    (raise_alert others
      (input_of AlertSource.reconciliation AlertSeverity.high e.entity_type e.user_id e) r).1

-- `onSettlementFailed`
unfoldable pub on_settlement_failed : (Register → Register) → DomainEvent → Register → Register
on_settlement_failed others e r =
    (raise_alert others
      (input_of AlertSource.settlement_failure AlertSeverity.high e.entity_type e.user_id e) r).1

abbrev pub or_else {ℓ} : {A : Type ℓ} → Option A → Option A → Option A
or_else none o = o
or_else (some x) o = some x

-- The event with what its intent adds, if one is looked up and found.
unfoldable pub completed : (Text → Option PaymentIntent) → DomainEvent → DomainEvent
completed intent_of e =
    if not (is_some e.amount && is_some e.user_id)
      && eq_text e.entity_type (letters "PaymentIntent")
    then (elim (intent_of e.entity_id) [
      | none ↦ e
      | some i ↦ record e {
        amount = or_else e.amount (some i.amount);
        user_id = or_else e.user_id (some i.user_id);
      }
    ])
    else e

abbrev pub large : Decimal → Option Decimal → Bool
large threshold none = false
large threshold (some amount) = not (ltb_ℤ amount threshold)

-- `onLargeTransaction`, with the configured threshold.
unfoldable pub on_large_transaction :
    (Register → Register)
    → (Text → Option PaymentIntent)
    → Decimal
    → DomainEvent
    → Register
    → Register
on_large_transaction others intent_of threshold e r =
    let e' = completed intent_of e in
    if large threshold e'.amount
    then (raise_alert others
        (input_of AlertSource.transaction_threshold AlertSeverity.medium e.entity_type e'.user_id e)
        r).1
    else r

-- `onKycManualReview`
unfoldable pub on_kyc_manual_review : (Register → Register) → DomainEvent → Register → Register
on_kyc_manual_review others e r =
    if is_empty e.hits
    then r
    else (raise_alert others
        (input_of AlertSource.kyc_screening AlertSeverity.high (letters "KycSubmission") e.user_id
          e)
        r).1
