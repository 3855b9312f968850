-- ===== src/Approvals/Tests.antt =====
-- One request, approved twice at the same time and once by its maker.
use alke_finance_backend.Base.{◌≡◌, ◌⊎◌, ◌≤◌, refl, false, none, some, List, [], ◌∷◌, Text, letters}
use alke_finance_backend.Approvals.{
  UserRole, ApprovalActionType, PendingApproval, Db, Executors, request, approve, trim, reject,
  check, find_approval, trim_end, trim_start, assert_checker, find_user, execute, update_approval,
  run_executor,
}
use alke_finance_backend.Approvals.Once.{count, decided}
use alke_finance_backend.Approvals.Checked.{Checked}
use alke_finance_backend.Approvals.Calls.{
  Call, requesting, approving, rejecting, run_calls, runs_once, approve_runs, run_call,
}

abbrev start : Db
start = record {
  approvals = [];
  users =
      record { id = 1; role = UserRole.admin; is_blocked = false }
      ∷ record { id = 2; role = UserRole.compliance; is_blocked = false }
      ∷ [];
  audit = [];
  events = [];
  runs = [];
  next_id = 7;
}

-- Every action has an executor that succeeds.
abbrev executors : Executors
executors action = some (λ a. none)

abbrev nobody : Db → Db
nobody db = db

abbrev reason : Text
reason = letters " erreur de saisie "

abbrev asked : Db
asked = run_calls executors (requesting ApprovalActionType.ledger_adjust reason 1 ∷ []) start

-- The maker approves, the checker approves twice, and then rejects.
abbrev calls : List Call
calls =
    requesting ApprovalActionType.ledger_adjust reason 1
    ∷ approving nobody 7 1 none
    ∷ approving nobody 7 2 none
    ∷ approving nobody 7 2 none
    ∷ rejecting nobody 7 2 reason
    ∷ []

-- The maker's own approval fails, the checker's first succeeds, and nothing runs after it.
ran_once : (run_calls executors calls start).runs ≡ 7 ∷ []
unfolding run_calls run_call reject check find_approval approve request trim_end trim_start
    assert_checker find_user execute update_approval run_executor
ran_once = refl

-- Two approvals overlap: the other one claims first.
overlapped :
    (approve executors (λ db. (approve executors nobody 7 2 none db).1) 7 2 none asked).1.runs
    ≡ 7 ∷ []
unfolding approve check find_approval run_calls run_call request trim_end trim_start assert_checker
    find_user execute update_approval run_executor
overlapped = refl

trimmed : trim reason ≡ letters "erreur de saisie"
unfolding trim_end trim_start
trimmed = refl

runs_once_example :
    (count 7 (run_calls executors calls start).runs
      ≤ decided 7 (run_calls executors calls start).approvals)
    × (count 7 (run_calls executors calls start).runs ≤ 1)
runs_once_example =
    runs_once executors calls start refl
      (tt, ((λ db inv. inv), ((λ db inv. inv), ((λ db inv. inv), ((λ db inv. inv), tt))))) 7

approve_runs_example :
    ((approve executors nobody 7 2 none asked).1.runs ≡ asked.runs)
    ⊎ (((approve executors nobody 7 2 none asked).1.runs ≡ (nobody asked).runs)
        ⊎ ((a : PendingApproval) × Checked 7 2 asked a
            × ((approve executors nobody 7 2 none asked).1.runs ≡ 7 ∷ (nobody asked).runs)))
approve_runs_example = approve_runs executors nobody 7 2 none asked
