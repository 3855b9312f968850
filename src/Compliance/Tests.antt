-- ===== src/Compliance/Tests.antt =====
-- Two large deposits of one intent, a case for the alert, and two decisions about the case.
use native.Mathlib.Decide.{ℕ_discrete}
use alke_finance_backend.Base.{
  ◌≡◌, refl, Option, none, some, List, [], ◌∷◌, Text, letters, map, arith,
}
use alke_finance_backend.Money.{whole}
use alke_finance_backend.Approvals.{PendingApproval, ApprovalActionType, ApprovalState}
use alke_finance_backend.Compliance.{
  AlertStatus, ComplianceAlert, ComplianceCase, ComplianceCaseState, ComplianceDecisionCode,
  Register, DomainEvent, on_large_transaction, completed, raise_alert, AlertKey-discrete,
}
use alke_finance_backend.Compliance.Cases.{
  execute_decision, get_case, add_note, open_case, try_open, set_case_state, move_case,
  update_alerts, next_reference,
}
use alke_finance_backend.Compliance.OneOpen.{
  Operation, OneOpen, run_operations, run_operations-OneOpen,
}

abbrev empty : Register
empty = record { alerts = []; cases = []; notes = []; decisions = []; users = []; next_id = 1 }

abbrev event : DomainEvent
event = record {
  entity_type = letters "PaymentIntent";
  entity_id = letters "p3";
  amount = some (whole 6000000);
  user_id = some 7;
  hits = [];
}

abbrev transfer : Operation
transfer = Operation.transaction (λ r. r) (λ t. none) (whole 5000000) event

abbrev approval : PendingApproval
approval = record {
  id = 20;
  action_type = ApprovalActionType.compliance_decision;
  reason = letters "vu";
  maker_id = 2;
  checker_id = some 5;
  state = ApprovalState.approved;
  decision_note = none;
  error = none;
}

abbrev operations : List Operation
operations =
    transfer
    ∷ transfer
    ∷ Operation.opening (λ n r. r) 2 (record { subject_user_id = none; alert_ids = 1 ∷ [] }) 2026
    ∷ Operation.noting 2 2 (letters "appel")
    ∷ Operation.deciding approval 2 ComplianceDecisionCode.to_clear
    ∷ Operation.deciding approval 2 ComplianceDecisionCode.to_report
    ∷ []

abbrev last_of : Text → List ComplianceCase → Option Text
last_of prefix cs = none

abbrev after : Register
after = run_operations last_of (λ t. 1) (λ n. letters "1") operations empty

-- The second transfer raises no alert, and the decision dismisses the only one.
the_alert : map {A = ComplianceAlert} (λ a. a.status) after.alerts ≡ AlertStatus.dismissed ∷ []
unfolding execute_decision get_case add_note open_case on_large_transaction completed raise_alert
    AlertKey-discrete ℕ_discrete try_open set_case_state move_case update_alerts
the_alert = refl

-- The second decision is applied although the first closed the case.
decided_twice :
    map {A = ComplianceCase} (λ c. c.state) after.cases ≡ ComplianceCaseState.reported ∷ []
unfolding execute_decision get_case add_note open_case on_large_transaction completed raise_alert
    AlertKey-discrete ℕ_discrete try_open set_case_state move_case
decided_twice = refl

the_reference : map {A = ComplianceCase} (λ c. c.reference) after.cases ≡ letters "CC-1-0001" ∷ []
unfolding execute_decision get_case add_note open_case on_large_transaction completed raise_alert
    AlertKey-discrete ℕ_discrete try_open set_case_state move_case next_reference
the_reference = refl

run_operations-OneOpen_example : OneOpen after.alerts
run_operations-OneOpen_example =
    run_operations-OneOpen last_of (λ t. 1) (λ n. letters "1") operations empty
      ((λ r key. omega arith), ((λ r key. omega arith), ((λ n r h. h), (tt, (tt, (tt, tt))))))
      (λ key named. omega arith)

-- The same event handled twice at once: both look-ups come before both creations.
abbrev raced : Register
raced =
    (run_operations last_of (λ t. 1) (λ n. letters "1")
      (Operation.transaction
          (λ r. run_operations last_of (λ t. 1) (λ n. letters "1") (transfer ∷ []) r) (λ t. none)
          (whole 5000000) event
        ∷ [])
      empty)

two_open_alerts :
    map {A = ComplianceAlert} (λ a. a.status) raced.alerts
    ≡ AlertStatus.opened ∷ AlertStatus.opened ∷ []
unfolding on_large_transaction completed raise_alert
two_open_alerts = refl
