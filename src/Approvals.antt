-- ===== src/Approvals.antt =====
-- Maker and checker (src/modules/approvals/approvals.service.ts, approvals.types.ts).
-- The rows' times, payload and entity are only stored and are left out, as is the link from a row to
-- its audit row. The executors are the other modules' functions: a parameter.
pub mod Once
pub mod Checked
pub mod Calls
mod Tests
use alke_finance_backend.Base.{
  ℕ, suc, ◌==◌, leb, Bool, true, false, not, ◌&&◌, ◌||◌, Option, none, some, is_some, List, [], ◌∷◌,
  ◌++◌, map, length, any, find, String, Text, Result, ok, err, bad_request, not_found, conflict,
  forbidden, ◌>>=◌, ◌>>◌, throw_if, if◌then◌else◌,
}

pub data UserRole : Type 0 where
  user support compliance admin : UserRole

pub data ApprovalState : Type 0 where
  pending approved rejected executed failed : ApprovalState

-- `APPROVAL_ACTIONS`; `unknown` is any other text.
pub data ApprovalActionType : Type 0 where
  live_trading_toggle ledger_adjust ledger_reversal withdrawal_override fee_change
        instrument_activation user_unblock compliance_decision recon_write_off order_review
        config_change payment_force_complete unknown :
      ApprovalActionType

pub record User : Type 0 where
  pub id : ℕ
  pub role : UserRole
  pub is_blocked : Bool

pub record PendingApproval : Type 0 where
  pub id : ℕ
  pub action_type : ApprovalActionType
  pub reason : Text
  pub maker_id : ℕ
  pub checker_id : Option ℕ
  pub state : ApprovalState
  pub decision_note : Option Text
  pub error : Option String

pub data AuditAction : Type 0 where
  approval_requested approval_approved approval_rejected approval_executed approval_failed :
      AuditAction

pub record AuditEntry : Type 0 where
  pub actor_user_id : ℕ
  pub action : AuditAction
  pub entity_id : ℕ

-- The events, each with the approval's id.
pub data ApprovalEvent : Type 0 where
  requested_event : ℕ → ApprovalEvent
  decided_event : ℕ → ApprovalState → ApprovalEvent
  executed_event : ℕ → ApprovalState → ApprovalEvent

-- The tables, the events published, and the approvals whose executor was called, last first.
pub record Db : Type 0 where
  pub approvals : List PendingApproval
  pub users : List User
  pub audit : List AuditEntry
  pub events : List ApprovalEvent
  pub runs : List ℕ
  pub next_id : ℕ

-- `String.prototype.trim`
abbrev is_white : ℕ → Bool
is_white c =
    (leb 9 c && leb c 13)
    || (leb 8192 c && leb c 8202)
    || any (λ w. w == c) (32 ∷ 160 ∷ 5760 ∷ 8232 ∷ 8233 ∷ 8239 ∷ 8287 ∷ 12288 ∷ 65279 ∷ [])

unfoldable pub trim_start : Text → Text
trim_start [] = []
trim_start (c ∷ cs) = if is_white c then trim_start cs else c ∷ cs

unfoldable pub trim_end : Text → Text
trim_end [] = []
trim_end (c ∷ cs) =
    let rest = trim_end cs in if is_white c && (length rest == 0) then [] else c ∷ rest

abbrev pub trim : Text → Text
trim t = trim_end (trim_start t)

-- `!note || !note.trim()`
abbrev pub is_empty_text : Text → Bool
is_empty_text t = length (trim t) == 0

abbrev pub is_pending : ApprovalState → Bool
is_pending pending = true
is_pending _ = false

-- `CHECKER_ROLES.has`
abbrev pub is_checker_role : UserRole → Bool
is_checker_role admin = true
is_checker_role compliance = true
is_checker_role _ = false

unfoldable pub find_approval : ℕ → List PendingApproval → Option PendingApproval
find_approval id rows = find (λ a. a.id == id) rows

unfoldable pub find_user : ℕ → List User → Option User
find_user id users = find (λ u. u.id == id) users

abbrev is_known : ApprovalActionType → Bool
is_known unknown = false
is_known _ = true

-- `request`
unfoldable pub request : ApprovalActionType → Text → ℕ → Db → Result PendingApproval × Db
request action reason maker db =
    if not (is_known action)
    then (err (bad_request "Type d'action inconnu."), db)
    else if is_empty_text reason
    then (err (bad_request "Un motif est requis pour toute demande de validation."), db)
    else (let a : PendingApproval = record {
      id = db.next_id;
      action_type = action;
      reason = trim reason;
      maker_id = maker;
      checker_id = none;
      state = pending;
      decision_note = none;
      error = none;
    } in
        (
          ok a,
          record db {
            approvals = db.approvals ++ a ∷ [];
            audit =
                record {
                  actor_user_id = maker;
                  action = approval_requested;
                  entity_id = db.next_id;
                }
                ∷ db.audit;
            events = requested_event db.next_id ∷ db.events;
            next_id = suc db.next_id;
          },
        ))

-- `assertChecker`
unfoldable pub assert_checker : PendingApproval → ℕ → List User → Result User
assert_checker approval checker_id users = do
  throw_if (approval.maker_id == checker_id)
      (forbidden "Un demandeur ne peut pas valider sa propre action.")
  (elim (find_user checker_id users) [
    | none ↦
        err (forbidden "Seul un administrateur ou un agent conformité peut valider une demande.")
    | some checker ↦ do
      throw_if (not (is_checker_role checker.role) || checker.is_blocked)
          (forbidden "Seul un administrateur ou un agent conformité peut valider une demande.")
      ok checker
  ])

-- What `approve` and `reject` test before they write.
unfoldable pub check : ℕ → ℕ → Db → Result PendingApproval
check id checker_id db = elim (find_approval id db.approvals) [
  | none ↦ err (not_found "Demande de validation introuvable.")
  | some approval ↦ do
    _ ← assert_checker approval checker_id db.users
    throw_if (not (is_pending approval.state)) (conflict "Cette demande a déjà été traitée.")
    ok approval
]

-- `pendingApproval.update({ where: { id } })`
unfoldable pub update_approval :
    ℕ → (PendingApproval → PendingApproval) → List PendingApproval → List PendingApproval
update_approval id f [] = []
update_approval id f (a ∷ rows) = (if a.id == id then f a else a) ∷ update_approval id f rows

abbrev pub decide : ApprovalState → ℕ → Option Text → PendingApproval → PendingApproval
decide state checker note a = record a {
  state = state;
  checker_id = some checker;
  decision_note = note;
}

-- `markFailed`; the cut of the message at 2000 characters is left out.
abbrev pub mark_failed : String → PendingApproval → PendingApproval
mark_failed message a = record a { state = failed; error = some message }

abbrev pub mark_executed : PendingApproval → PendingApproval
mark_executed a = record a { state = executed; error = none }

-- An executor answers the message that it threw, if it threw.
abbrev pub Executors : Type 0
Executors = ApprovalActionType → Option (PendingApproval → Option String)

-- What the executor of an approval comes to: the last write, and whether an executor was called.
unfoldable pub run_executor :
    Executors → PendingApproval → (PendingApproval → PendingApproval) × Bool
run_executor executors a = elim (executors a.action_type) [
  | none ↦ (mark_failed "Aucun exécuteur enregistré pour l'action.", false)
  | some f ↦ elim (f a) [
    | none ↦ (mark_executed, true)
    | some message ↦ (mark_failed message, true)
  ]
]

abbrev pub outcome_action : ApprovalState → AuditAction
outcome_action executed = approval_executed
outcome_action _ = approval_failed

-- `approve` behind the claim, with the claimed row.
unfoldable pub execute : Executors → PendingApproval → ℕ → Db → Result PendingApproval × Db
execute executors a checker db =
    let (write, called) = run_executor executors a in
    let final = write a in
    (
      ok final,
      record db {
        approvals = update_approval a.id write db.approvals;
        audit =
            record {
              actor_user_id = checker;
              action = outcome_action final.state;
              entity_id = a.id;
            }
            ∷ record { actor_user_id = checker; action = approval_approved; entity_id = a.id }
            ∷ db.audit;
        events = executed_event a.id final.state ∷ decided_event a.id approved ∷ db.events;
        runs = if called then a.id ∷ db.runs else db.runs;
      },
    )

-- `approve`; `others` is what other requests commit between the tests and the claim.
unfoldable pub approve :
    Executors → (Db → Db) → ℕ → ℕ → Option Text → Db → Result PendingApproval × Db
approve executors others id checker note db = elim (check id checker db) [
  | err e ↦ (err e, db)
  | ok seen ↦
      let now = others db in
      (elim (find_approval id now.approvals) [
        | none ↦ (err (conflict "Cette demande a déjà été traitée."), now)
        | some a ↦
            if is_pending a.state
            then execute executors (decide approved checker note a) checker (record now {
              approvals = update_approval id (decide approved checker note) now.approvals;
            })
            else (err (conflict "Cette demande a déjà été traitée."), now)
      ])
]

-- `reject`; `others` as for `approve`.
unfoldable pub reject : (Db → Db) → ℕ → ℕ → Text → Db → Result PendingApproval × Db
reject others id checker note db = elim (check id checker db) [
  | err e ↦ (err e, db)
  | ok seen ↦
      if is_empty_text note
      then (err (bad_request "Un motif de refus est requis."), db)
      else (let now = others db in
          (elim (find_approval id now.approvals) [
            | none ↦ (err (conflict "Cette demande a déjà été traitée."), now)
            | some a ↦
                if is_pending a.state
                then (
                  ok (decide rejected checker (some (trim note)) a),
                  record now {
                    approvals =
                        update_approval id (decide rejected checker (some (trim note)))
                          now.approvals;
                    audit =
                        record {
                          actor_user_id = checker;
                          action = approval_rejected;
                          entity_id = id;
                        }
                        ∷ now.audit;
                    events = decided_event id rejected ∷ now.events;
                  },
                )
                else (err (conflict "Cette demande a déjà été traitée."), now)
          ]))
]
