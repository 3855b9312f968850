-- ===== src/Compliance/Cases.antt =====
-- Compliance cases: `openCase`, `addNote`, `requestDecision` and the part of `executeDecision` that
-- decides a case, of src/modules/compliance/compliance.service.ts. A decision about a KYC file goes
-- to Kyc/Deciding.
use alke_finance_backend.Base.{
  ℕ, zero, suc, ◌+◌, ◌-◌, ◌==◌, Bool, true, false, not, ◌&&◌, Option, none, some, is_some, List, [],
  ◌∷◌, ◌++◌, any, find, keep, map, length, Text, letters, Result, ok, err, bad_request, not_found,
  conflict, ◌>>=◌, ◌>>◌, throw_if, if◌then◌else◌,
}
use alke_finance_backend.Approvals.{ApprovalActionType, PendingApproval, request}
use alke_finance_backend.Approvals.{Db as ApprovalsDb}
use alke_finance_backend.Kyc.Cases.{User}
use alke_finance_backend.Brokerage.Csv.{eq_text, trim}
use alke_finance_backend.Compliance.{
  AlertStatus, ComplianceAlert, ComplianceCaseState, case_open, under_review, escalated, cleared,
  reported, closed, ComplianceCase, ComplianceDecisionCode, to_clear, to_report, to_report_to_anif,
  to_block, to_close, Register, is_open,
}

-- `TERMINAL_STATES.includes`
abbrev pub is_terminal : ComplianceCaseState → Bool
is_terminal cleared = true
is_terminal reported = true
is_terminal closed = true
is_terminal _ = false

abbrev pub is_case_open : ComplianceCaseState → Bool
is_case_open case_open = true
is_case_open _ = false

-- `DECISION_STATE`
abbrev pub decision_state : ComplianceDecisionCode → Option ComplianceCaseState
decision_state to_clear = some cleared
decision_state to_report = some reported
decision_state to_report_to_anif = some reported
decision_state to_block = none
decision_state to_close = some closed

unfoldable pub update_alerts :
    (ComplianceAlert → Bool)
    → (ComplianceAlert → ComplianceAlert)
    → List ComplianceAlert
    → List ComplianceAlert
update_alerts test f [] = []
update_alerts test f (a ∷ alerts) = (if test a then f a else a) ∷ update_alerts test f alerts

unfoldable pub set_case_state : ℕ → ComplianceCaseState → List ComplianceCase → List ComplianceCase
set_case_state id state cs = map (λ c. if c.id == id then record c { state = state } else c) cs

-- `getCase`
unfoldable pub get_case : ℕ → List ComplianceCase → Result ComplianceCase
get_case id cs = elim (find (λ c. c.id == id) cs) [
  | none ↦ err (not_found "Dossier de conformité introuvable.")
  | some c ↦ ok c
]

-- `OpenComplianceCaseDto`, whose title is only stored.
pub record OpenComplianceCaseDto : Type 0 where
  pub subject_user_id : Option ℕ
  pub alert_ids : List ℕ

abbrev pub is_unknown : Option ℕ → List User → Bool
is_unknown none users = false
is_unknown (some id) users = not (any (λ u. u.id == id) users)

abbrev pub is_among : List ℕ → ComplianceAlert → Bool
is_among ids a = any (λ id. id == a.id) ids

-- The zeros that `padStart` adds.
abbrev pub zeros : ℕ → Text
zeros zero = []
zeros (suc n) = b'0' ∷ zeros n

-- `padStart(n, '0')`
abbrev pub pad_start : ℕ → Text → Text
pad_start n t = zeros (n - length t) ++ t

abbrev pub attach : List ℕ → ℕ → List ComplianceAlert → List ComplianceAlert
attach ids id alerts =
    update_alerts (is_among ids)
      (λ a. record a { case_id = some id; status = AlertStatus.attached }) alerts

-- The transaction of `openCase`.
abbrev pub create_case : ℕ → OpenComplianceCaseDto → Text → Register → ComplianceCase × Register
create_case owner dto reference r =
    let c : ComplianceCase = record {
      id = r.next_id;
      reference = reference;
      subject_user_id = dto.subject_user_id;
      owner_id = owner;
      state = case_open;
    } in
    (
      c,
      record r {
        alerts = attach dto.alert_ids r.next_id r.alerts;
        cases = r.cases ++ c ∷ [];
        next_id = r.next_id + 1;
      },
    )

-- The last of the references with a prefix in the database's order of text, `parseInt`, the digits of
-- a number, and what others commit between the reading of the last reference and the transaction,
-- by the attempts that are left.
module _ (last_of : Text → List ComplianceCase → Option Text) (parse_int : Text → ℕ)
    (digits : ℕ → Text) (others : ℕ → Register → Register) where
  abbrev pub drop : ℕ → Text → Text
  drop zero t = t
  drop (suc n) [] = []
  drop (suc n) (c ∷ cs) = drop n cs

  abbrev pub sequence_after : Text → Option Text → ℕ
  sequence_after prefix none = 1
  sequence_after prefix (some reference) = parse_int (drop (length prefix) reference) + 1

  -- `nextReference`
  unfoldable pub next_reference : ℕ → List ComplianceCase → Text
  next_reference year cs =
      let prefix = letters "CC-" ++ (digits year ++ letters "-") in
      prefix ++ pad_start 4 (digits (sequence_after prefix (last_of prefix cs)))

  -- The attempts of `openCase`, so many at most.
  unfoldable pub try_open :
      ℕ → ℕ → OpenComplianceCaseDto → ℕ → Register → Result ComplianceCase × Register
  try_open zero owner dto year r =
      (err (conflict "Impossible d’attribuer une référence de dossier, réessayez."), r)
  try_open (suc attempts) owner dto year r =
      let reference = next_reference year r.cases in
      let r' = others attempts r in
      let again = try_open attempts owner dto year r' in
      let (c, r'') = create_case owner dto reference r' in
      if any (λ c'. eq_text c'.reference reference) r'.cases then again else (ok c, r'')

  abbrev pub check_case : OpenComplianceCaseDto → Register → Result Bool
  check_case dto r = do
    throw_if (is_unknown dto.subject_user_id r.users) (not_found "Utilisateur sujet introuvable.")
    throw_if
        (not (
          length (keep (λ a. is_among dto.alert_ids a && is_open a.status) r.alerts)
          == length dto.alert_ids))
        (bad_request "Une ou plusieurs alertes sont introuvables ou déjà rattachées.")
    ok true

  -- `openCase`
  unfoldable pub open_case :
      ℕ → OpenComplianceCaseDto → ℕ → Register → Result ComplianceCase × Register
  open_case owner dto year r = elim (check_case dto r) [
    | err e ↦ (err e, r)
    | ok b ↦ try_open 5 owner dto year r
  ]

-- `addNote`
unfoldable pub add_note : ℕ → ℕ → Text → Register → Result Register
add_note id author body r = do
  c ← get_case id r.cases
  throw_if (is_terminal c.state) (conflict "Ce dossier est clos.")
  ok (record r {
    notes = r.notes ++ record { case_id = id; author_id = author; body = trim body } ∷ [];
    cases = if is_case_open c.state then set_case_state id under_review r.cases else r.cases;
  })

abbrev pub blocks_nobody : ComplianceDecisionCode → ComplianceCase → Bool
blocks_nobody to_block c = not (is_some c.subject_user_id)
blocks_nobody _ c = false

abbrev pub check_request : ComplianceDecisionCode → ComplianceCase → Result ComplianceCase
check_request decision c = do
  throw_if (is_terminal c.state) (conflict "Ce dossier est déjà clos.")
  throw_if (blocks_nobody decision c)
      (bad_request "Le dossier n’a pas d’utilisateur sujet à bloquer.")
  ok c

-- `requestDecision`
unfoldable pub request_decision :
    ℕ
    → ℕ
    → ComplianceDecisionCode
    → Text
    → List ComplianceCase
    → ApprovalsDb
    → Result PendingApproval × ApprovalsDb
request_decision maker id decision reason cs db = elim (get_case id cs >>= check_request decision) [
  | err e ↦ (err e, db)
  | ok c ↦ request ApprovalActionType.compliance_decision reason maker db
]

abbrev pub decider : PendingApproval → ℕ
decider a = elim a.checker_id [ some id ↦ id | none ↦ a.maker_id ]

abbrev pub is_attached : AlertStatus → Bool
is_attached AlertStatus.attached = true
is_attached _ = false

abbrev pub is_of_case : ℕ → Option ℕ → Bool
is_of_case id none = false
is_of_case id (some c) = c == id

abbrev pub is_attached_to : ℕ → ComplianceAlert → Bool
is_attached_to id a = is_of_case id a.case_id && is_attached a.status

-- The status that a terminal decision gives the case's alerts.
abbrev pub dismiss : ComplianceDecisionCode → ℕ → List ComplianceAlert → List ComplianceAlert
dismiss to_clear id alerts =
    update_alerts (is_attached_to id) (λ a. record a { status = AlertStatus.dismissed }) alerts
dismiss _ id alerts = alerts

abbrev pub blocked_users : ComplianceDecisionCode → Option ℕ → List User → List User
blocked_users to_block (some id) users =
    map (λ u. if u.id == id then record u { is_blocked = true } else u) users
blocked_users _ subject users = users

-- The moves of the case and of its alerts.
unfoldable pub move_case : ComplianceDecisionCode → ComplianceCase → Register → Register
move_case decision c r = elim (decision_state decision) [
  | some next ↦ record r {
    cases = set_case_state c.id next r.cases;
    alerts = if is_terminal next then dismiss decision c.id r.alerts else r.alerts;
  }
  | none ↦
      if is_case_open c.state then record r { cases = set_case_state c.id escalated r.cases } else r
]

-- `executeDecision` for a case.
unfoldable pub execute_decision :
    PendingApproval → ℕ → ComplianceDecisionCode → Register → Result Register
execute_decision approval id decision r = do
  c ← get_case id r.cases
  ok (
      let moved = move_case decision c r in
      record moved {
        decisions =
            moved.decisions
            ++ record {
              case_id = c.id;
              decision = decision;
              decided_by_id = decider approval;
              approval_id = approval.id;
            }
              ∷ [];
        users = blocked_users decision c.subject_user_id moved.users;
      })
