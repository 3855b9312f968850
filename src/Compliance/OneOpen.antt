-- ===== src/Compliance/OneOpen.antt =====
-- At most one open alert for a source and an entity, under the operations of
-- src/modules/compliance/compliance.service.ts.
use alke_finance_backend.Base.{
  if_both, Result-cases, zero, throw_if, conflict, ℕ, suc, ◌≤◌, ◌≡◌, refl, subst, ◌+◌, Bool, true,
  false, Option, none, some, List, [], ◌∷◌, ◌++◌, any, find, keep, length, All, Text, Result, ok,
  err, arith, same, same→eq, Option-cases, Bool-cases, inl, inr, Holds, Holds-next, Holds-ok,
  if◌then◌else◌,
}
use alke_finance_backend.Money.{Decimal}
use alke_finance_backend.Payments.{PaymentIntent}
use alke_finance_backend.Approvals.{PendingApproval}
use alke_finance_backend.Brokerage.Csv.{eq_text, is_empty}
use alke_finance_backend.Compliance.{
  to_clear, to_report, to_report_to_anif, to_block, to_close, AlertKey, AlertKey-discrete,
  AlertStatus, ComplianceAlert, ComplianceCase, ComplianceDecisionCode, RaiseAlertInput, Register,
  DomainEvent, is_open, is_open_for, names_entity, existing_alert, new_alert, raise_alert,
  on_large_transaction, on_kyc_manual_review, on_settlement_failed, on_reconciliation_mismatch,
  escalated, large, completed,
}
use alke_finance_backend.Compliance.Cases.{
  OpenComplianceCaseDto, update_alerts, try_open, open_case, attach, dismiss, move_case,
  execute_decision, add_note, is_among, is_attached_to, get_case, is_case_open, is_terminal,
  next_reference, set_case_state, check_case,
}

abbrev open_count : AlertKey → List ComplianceAlert → ℕ
open_count key alerts = length (keep (is_open_for key) alerts)

-- For a source and an entity that are named, at most one alert is open.
abbrev pub OneOpen : List ComplianceAlert → Type 0
OneOpen alerts = (key : AlertKey) → names_entity key ≡ true → open_count key alerts ≤ 1

abbrev pub Tidy : Register → Type 0
Tidy r = OneOpen r.alerts

nothing_kept :
    (test : ComplianceAlert → Bool) (alerts : List ComplianceAlert)
    → find test alerts ≡ none
    → length (keep test alerts) ≡ 0
nothing_kept test [] h = refl
nothing_kept test (a ∷ alerts) h = ground (arith, nothing_kept test alerts)

kept_at_end :
    (test : ComplianceAlert → Bool) (alerts : List ComplianceAlert) (a : ComplianceAlert)
    → length (keep test (alerts ++ a ∷ [])) ≡ length (keep test alerts) + (if test a then 1 else 0)
kept_at_end test [] a = ground arith
kept_at_end test (x ∷ alerts) a = ground (arith, kept_at_end test alerts a)

-- Alerts that are only closed stay few.
update_alerts-OneOpen :
    (test : ComplianceAlert → Bool) (f : ComplianceAlert → ComplianceAlert)
    → ((a : ComplianceAlert) → is_open (f a).status ≡ false)
    → (key : AlertKey) (alerts : List ComplianceAlert)
    → open_count key (update_alerts test f alerts) ≤ open_count key alerts
unfolding update_alerts
update_alerts-OneOpen test f closes key [] = omega arith
update_alerts-OneOpen test f closes key (a ∷ alerts) =
    ground (arith, closes a, update_alerts-OneOpen test f closes key alerts)

fresh :
    (key : AlertKey) (alerts : List ComplianceAlert)
    → names_entity key ≡ true
    → existing_alert key alerts ≡ none
    → open_count key alerts ≡ 0
fresh key alerts named h =
    nothing_kept (is_open_for key) alerts
      (subst (λ b. (if b then find (is_open_for key) alerts else none) ≡ none) named h)

-- What others commit opens no alert.
abbrev pub OpensNone : (Register → Register) → Type 0
OpensNone others =
    (r : Register) (key : AlertKey) → open_count key (others r).alerts ≤ open_count key r.alerts

raise_alert-OneOpen :
    (others : Register → Register) (input : RaiseAlertInput) (r : Register)
    → OpensNone others
    → OneOpen r.alerts
    → OneOpen (raise_alert others input r).1.alerts
unfolding raise_alert
raise_alert-OneOpen others input r quiet h key named =
    elim (Option-cases (existing_alert input.key r.alerts)) [
      | inr (a, k) ↦ rw (k, raise_alert) (h key named)
      | inl k ↦
          rw (k, raise_alert)
            (elim (Bool-cases (same AlertKey-discrete input.key key)) [
              | inl e ↦ ground (
                arith,
                e,
                quiet r key,
                kept_at_end (is_open_for key) (others r).alerts
                    (new_alert (others r).next_id input),
                fresh key r.alerts named (
                    subst (λ x. existing_alert x r.alerts ≡ none)
                      (same→eq AlertKey-discrete input.key key e) k),
              )
              | inr e ↦ ground (
                arith,
                e,
                h key named,
                quiet r key,
                kept_at_end (is_open_for key) (others r).alerts
                    (new_alert (others r).next_id input),
              )
            ])
    ]

attach-OneOpen :
    (ids : List ℕ) (id : ℕ) (alerts : List ComplianceAlert)
    → OneOpen alerts
    → OneOpen (attach ids id alerts)
attach-OneOpen ids id alerts h key named = omega (
  arith,
  h key named,
  update_alerts-OneOpen (is_among ids)
      (λ a. record a { case_id = some id; status = AlertStatus.attached }) (λ a. refl) key alerts,
)

dismiss-OneOpen :
    (decision : ComplianceDecisionCode) (id : ℕ) (alerts : List ComplianceAlert)
    → OneOpen alerts
    → OneOpen (dismiss decision id alerts)
dismiss-OneOpen to_clear id alerts h = λ key named. omega (
  arith,
  h key named,
  update_alerts-OneOpen (is_attached_to id) (λ a. record a { status = AlertStatus.dismissed })
      (λ a. refl) key alerts,
)
dismiss-OneOpen to_report id alerts h = h
dismiss-OneOpen to_report_to_anif id alerts h = h
dismiss-OneOpen to_block id alerts h = h
dismiss-OneOpen to_close id alerts h = h

move_case-OneOpen :
    (decision : ComplianceDecisionCode) (c : ComplianceCase) (r : Register)
    → OneOpen r.alerts
    → OneOpen (move_case decision c r).alerts
unfolding move_case
move_case-OneOpen to_clear c r h = dismiss-OneOpen to_clear c.id r.alerts h
move_case-OneOpen to_report c r h = h
move_case-OneOpen to_report_to_anif c r h = h
move_case-OneOpen to_close c r h = h
move_case-OneOpen to_block c r h =
    if_both Tidy (is_case_open c.state) (record r { cases = set_case_state c.id escalated r.cases })
      r h h

execute_decision-OneOpen :
    (approval : PendingApproval) (id : ℕ) (decision : ComplianceDecisionCode) (r : Register)
    → OneOpen r.alerts
    → Holds Tidy (execute_decision approval id decision r)
unfolding execute_decision
execute_decision-OneOpen approval id decision r h =
    Holds-next Tidy (get_case id r.cases) _ (λ c. Holds-ok Tidy (move_case-OneOpen decision c r h))

add_note-OneOpen :
    (id author : ℕ) (body : Text) (r : Register)
    → OneOpen r.alerts
    → Holds Tidy (add_note id author body r)
unfolding add_note
add_note-OneOpen id author body r h = Holds-next Tidy (get_case id r.cases) _ (λ c.
    Holds-next Tidy (throw_if (is_terminal c.state) (conflict "Ce dossier est clos.")) _
      (λ u. Holds-ok Tidy h))

module _ (last_of : Text → List ComplianceCase → Option Text) (parse_int : Text → ℕ)
    (digits : ℕ → Text) where
  try_open-OneOpen :
      (others : ℕ → Register → Register)
      → ((n : ℕ) (r : Register) → Tidy r → Tidy (others n r))
      → (attempts owner : ℕ) (dto : OpenComplianceCaseDto) (year : ℕ) (r : Register) → Tidy r
      → Tidy (try_open last_of parse_int digits others attempts owner dto year r).1
  unfolding try_open
  try_open-OneOpen others keeps zero owner dto year r h = h
  try_open-OneOpen others keeps (suc n) owner dto year r h =
      if_both (λ x. Tidy x.1)
        (any
          (λ c. eq_text c.reference (next_reference last_of parse_int digits others year r.cases))
          (others n r).cases)
        (try_open last_of parse_int digits others n owner dto year (others n r)) _
        (try_open-OneOpen others keeps n owner dto year (others n r) (keeps n r h))
        (attach-OneOpen dto.alert_ids (others n r).next_id (others n r).alerts (keeps n r h))

  open_case-OneOpen :
      (others : ℕ → Register → Register)
      → ((n : ℕ) (r : Register) → Tidy r → Tidy (others n r))
      → (owner : ℕ) (dto : OpenComplianceCaseDto) (year : ℕ) (r : Register) → Tidy r
      → Tidy (open_case last_of parse_int digits others owner dto year r).1
  unfolding open_case
  open_case-OneOpen others keeps owner dto year r h =
      elim (Result-cases (check_case last_of parse_int digits others dto r)) [
        | inl (e, k) ↦ rw (k, open_case) h
        | inr (b, k) ↦ rw (k, open_case) (try_open-OneOpen others keeps 5 owner dto year r h)
      ]

-- The operations of the service, with what others commit between the look-up of an alert and its
-- creation, and during an opening.
pub data Operation : Type 0 where
  mismatch failure review : (Register → Register) → DomainEvent → Operation
  transaction :
      (Register → Register) → (Text → Option PaymentIntent) → Decimal → DomainEvent → Operation
  opening : (ℕ → Register → Register) → ℕ → OpenComplianceCaseDto → ℕ → Operation
  noting : ℕ → ℕ → Text → Operation
  deciding : PendingApproval → ℕ → ComplianceDecisionCode → Operation

-- What others commit opens no alert, and keeps the alerts tidy during an opening.
abbrev pub Considerate : Operation → Type 0
Considerate (opening others owner dto year) = (n : ℕ) (r : Register) → Tidy r → Tidy (others n r)
Considerate (mismatch others e) = OpensNone others
Considerate (failure others e) = OpensNone others
Considerate (review others e) = OpensNone others
Considerate (transaction others intent_of threshold e) = OpensNone others
Considerate (noting id author body) = Unit
Considerate (deciding approval id decision) = Unit

-- The tables after a call: as they were, where it throws.
abbrev pub settled : Register → Result Register → Register
settled r (err e) = r
settled r (ok r') = r'

settled-Tidy : (r : Register) (a : Result Register) → Tidy r → Holds Tidy a → Tidy (settled r a)
unfolding Holds
settled-Tidy r (err e) h k = h
settled-Tidy r (ok r') h k = k

module _ (last_of : Text → List ComplianceCase → Option Text) (parse_int : Text → ℕ)
    (digits : ℕ → Text) where
  abbrev pub run_operation : Operation → Register → Register
  run_operation (mismatch others e) r = on_reconciliation_mismatch others e r
  run_operation (failure others e) r = on_settlement_failed others e r
  run_operation (review others e) r = on_kyc_manual_review others e r
  run_operation (transaction others intent_of threshold e) r =
      on_large_transaction others intent_of threshold e r
  run_operation (opening others owner dto year) r =
      (open_case last_of parse_int digits others owner dto year r).1
  run_operation (noting id author body) r = settled r (add_note id author body r)
  run_operation (deciding approval id decision) r =
      settled r (execute_decision approval id decision r)

  abbrev pub run_operations : List Operation → Register → Register
  run_operations [] r = r
  run_operations (op ∷ ops) r = run_operations ops (run_operation op r)

  run_operation-OneOpen :
      (op : Operation) (r : Register)
      → Considerate op
      → OneOpen r.alerts
      → OneOpen (run_operation op r).alerts
  unfolding on_reconciliation_mismatch on_settlement_failed on_kyc_manual_review
      on_large_transaction
  run_operation-OneOpen (mismatch others e) r c h = raise_alert-OneOpen others _ r c h
  run_operation-OneOpen (failure others e) r c h = raise_alert-OneOpen others _ r c h
  run_operation-OneOpen (review others e) r c h =
      if_both Tidy (is_empty e.hits) r _ h (raise_alert-OneOpen others _ r c h)
  run_operation-OneOpen (transaction others intent_of threshold e) r c h =
      if_both Tidy (large threshold (completed intent_of e).amount) _ r
        (raise_alert-OneOpen others _ r c h) h
  run_operation-OneOpen (opening others owner dto year) r c h =
      open_case-OneOpen last_of parse_int digits others c owner dto year r h
  run_operation-OneOpen (noting id author body) r c h =
      settled-Tidy r _ h (add_note-OneOpen id author body r h)
  run_operation-OneOpen (deciding approval id decision) r c h =
      settled-Tidy r _ h (execute_decision-OneOpen approval id decision r h)

  -- From tables with at most one open alert for each source and named entity, any sequence of
  -- events, openings, notes and decisions leaves at most one, provided that others open no alert
  -- between the look-up of an alert and its creation, and keep at most one open during an opening.
  pub run_operations-OneOpen :
      (ops : List Operation) (r : Register)
      → All Considerate ops
      → OneOpen r.alerts
      → OneOpen (run_operations ops r).alerts
  run_operations-OneOpen [] r c h = h
  run_operations-OneOpen (op ∷ ops) r c h =
      run_operations-OneOpen ops (run_operation op r) c.1 (run_operation-OneOpen op r c.0 h)
