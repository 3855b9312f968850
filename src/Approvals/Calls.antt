-- ===== src/Approvals/Calls.antt =====
-- The calls on approvals, one after the other, with what others commit in between
-- (src/modules/approvals/approvals.service.ts).
use alke_finance_backend.Base.{
  ℕ, ◌≤◌, ◌≡◌, ◌⊎◌, inl, inr, refl, sym, ap, ◌∙◌, subst, arith, true, not, Bool-cases, Option,
  Option-cases, some, List, [], ◌∷◌, All, Text, Result, ok, err, if◌then◌else◌, Error, conflict,
}
use alke_finance_backend.Approvals.{
  trim, approved, rejected, ApprovalActionType, PendingApproval, Db, is_pending, find_approval,
  request, check, update_approval, decide, Executors, run_executor, execute, approve, reject,
  is_known, is_empty_text,
}
use alke_finance_backend.Approvals.Checked.{Checked, check-Checked}
use alke_finance_backend.Approvals.Once.{
  count, decided, Inv, Respects, decided_le, decided-update, decided_pending, decided-append,
  decide-Decides, run_executor-Decides, count_claim, twice-update, count_nil,
}

-- The tables right after the claim.
abbrev claim : ℕ → ℕ → Option Text → Db → Db
claim id checker note now = record now {
  approvals = update_approval id (decide approved checker note) now.approvals;
}

-- How a call of `approve` ends.
data Approving (executors : Executors) (others : Db → Db) (id checker : ℕ) (note : Option Text)
    (db : Db) : Type 0 where
  refused :
      (e : Error)
      → approve executors others id checker note db ≡ (err e, db)
      → Approving executors others id checker note db
  lost :
      (e : Error)
      → approve executors others id checker note db ≡ (err e, others db)
      → Approving executors others id checker note db
  claimed :
      (seen a : PendingApproval)
      → check id checker db ≡ ok seen
      → find_approval id (others db).approvals ≡ some a
      → is_pending a.state ≡ true
      → approve executors others id checker note db
        ≡ execute executors
            (decide approved checker note a)
            checker
            (claim id checker note (others db))
      → Approving executors others id checker note db

approve-Approving :
    (executors : Executors) (others : Db → Db) (id checker : ℕ) (note : Option Text) (db : Db)
    → Approving executors others id checker note db
unfolding approve
approve-Approving executors others id checker note db = go (check id checker db) refl
  where
    go :
        (r : Result PendingApproval)
        → check id checker db ≡ r
        → Approving executors others id checker note db
    go (err e) h = refused e (rw (h, approve))
    go (ok seen) h = elim (Option-cases (find_approval id (others db).approvals)) [
      | inl absent ↦
          lost (conflict "Cette demande a déjà été traitée.") (rw (h, approve) (rw absent refl))
      | inr (a, found) ↦ elim (Bool-cases (is_pending a.state)) [
        | inl p ↦ claimed seen a h found p (rw (h, approve) (rw found (rw p refl)))
        | inr p ↦
            lost (conflict "Cette demande a déjà été traitée.")
              (rw (h, approve) (rw found (rw p refl)))
      ]
    ]

claimed-Inv :
    (executors : Executors) (id checker : ℕ) (note : Option Text) (now : Db) (a : PendingApproval)
    → Inv now
    → find_approval id now.approvals ≡ some a
    → is_pending a.state ≡ true
    → Inv (execute executors (decide approved checker note a) checker (claim id checker note now)).1
unfolding execute
claimed-Inv executors id checker note now a inv found p =
    let b = decide approved checker note a in
    let (zero_before, same) = decided_pending id now.approvals a found p in
    let (one, grows) =
      twice-update (decide approved checker note) (run_executor executors b).0 id a.id now.approvals
        a (decide-Decides approved checker note refl) (run_executor-Decides executors b) found in
    count_claim id a.id (run_executor executors b).1 now.runs now.approvals _ inv zero_before same
      one grows

approve-Inv :
    (executors : Executors) (others : Db → Db) (id checker : ℕ) (note : Option Text) (db : Db)
    → Respects others
    → Inv db
    → Inv (approve executors others id checker note db).1
approve-Inv executors others id checker note db respects inv =
    elim (approve-Approving executors others id checker note db) [
      | refused e h ↦ subst (λ x. Inv x.1) (sym h) inv
      | lost e h ↦ subst (λ x. Inv x.1) (sym h) (respects db inv)
      | claimed seen a c found p h ↦
          subst (λ x. Inv x.1) (sym h)
            (claimed-Inv executors id checker note (others db) a (respects db inv) found p)
    ]

request-Inv :
    (action : ApprovalActionType) (reason : Text) (maker : ℕ) (db : Db)
    → Inv db
    → Inv (request action reason maker db).1
unfolding request
request-Inv action reason maker db inv = elim (Bool-cases (not (is_known action))) [
  | inl e ↦ rw e inv
  | inr e ↦ elim (Bool-cases (is_empty_text reason)) [
    | inl e' ↦ rw e (rw e' inv)
    | inr e' ↦ rw e (rw e' (λ id. omega (arith, inv id, decided-append id db.approvals _)))
  ]
]

rejected-Inv :
    (id checker : ℕ) (note : Option Text) (now : Db)
    → Inv now
    → (j : ℕ)
    → count j now.runs ≤ decided j (update_approval id (decide rejected checker note) now.approvals)
rejected-Inv id checker note now inv j = omega (
  arith,
  inv j,
  decided-update (decide rejected checker note) id j now.approvals
      (decide-Decides rejected checker note refl),
)

reject-Inv :
    (others : Db → Db) (id checker : ℕ) (note : Text) (db : Db)
    → Respects others
    → Inv db
    → Inv (reject others id checker note db).1
unfolding reject
reject-Inv others id checker note db respects inv = go (check id checker db) refl
  where
    go :
        (r : Result PendingApproval)
        → check id checker db ≡ r
        → Inv (reject others id checker note db).1
    go (err e) h = rw (h, reject) inv
    go (ok seen) h = elim (Bool-cases (is_empty_text note)) [
      | inl e ↦ rw (h, reject) (rw e inv)
      | inr e ↦ elim (Option-cases (find_approval id (others db).approvals)) [
        | inl absent ↦ rw (h, reject) (rw e (rw absent (respects db inv)))
        | inr (a, found) ↦ elim (Bool-cases (is_pending a.state)) [
          | inl p ↦
              rw (h, reject)
                (rw e (
                  rw found (
                    rw p
                      (rejected-Inv id checker (some (trim note)) (others db) (respects db inv)))))
          | inr p ↦ rw (h, reject) (rw e (rw found (rw p (respects db inv))))
        ]
      ]
    ]

-- A call of the writing operations, with what others commit inside it.
pub data Call : Type 0 where
  requesting : ApprovalActionType → Text → ℕ → Call
  approving : (Db → Db) → ℕ → ℕ → Option Text → Call
  rejecting : (Db → Db) → ℕ → ℕ → Text → Call

unfoldable pub run_call : Executors → Call → Db → Db
run_call executors (requesting action reason maker) db = (request action reason maker db).1
run_call executors (approving others id checker note) db =
    (approve executors others id checker note db).1
run_call executors (rejecting others id checker note) db = (reject others id checker note db).1

unfoldable pub run_calls : Executors → List Call → Db → Db
run_calls executors [] db = db
run_calls executors (c ∷ cs) db = run_calls executors cs (run_call executors c db)

abbrev pub CallRespects : Call → Type 0
CallRespects (requesting action reason maker) = Unit
CallRespects (approving others id checker _) = Respects others
CallRespects (rejecting others id checker note) = Respects others

run_call-Inv :
    (executors : Executors) (c : Call) (db : Db)
    → CallRespects c
    → Inv db
    → Inv (run_call executors c db)
unfolding run_call
run_call-Inv executors (requesting action reason maker) db r inv =
    request-Inv action reason maker db inv
run_call-Inv executors (approving others id checker note) db r inv =
    approve-Inv executors others id checker note db r inv
run_call-Inv executors (rejecting others id checker note) db r inv =
    reject-Inv others id checker note db r inv

run_calls-Inv :
    (executors : Executors) (cs : List Call) (db : Db)
    → All CallRespects cs
    → Inv db
    → Inv (run_calls executors cs db)
unfolding run_calls
run_calls-Inv executors [] db r inv = inv
run_calls-Inv executors (c ∷ cs) db r inv =
    run_calls-Inv executors cs (run_call executors c db) r.1 (run_call-Inv executors c db r.0 inv)

-- From tables on which no executor has run, after any requests, approvals and rejections, in which
-- others may commit whatever keeps the invariant between a call's tests and its claim, the executor
-- of an approval has run once at most, and not at all for one that is still pending.
pub runs_once :
    (executors : Executors) (cs : List Call) (start : Db)
    → start.runs ≡ []
    → All CallRespects cs
    → (id : ℕ)
    → (count id (run_calls executors cs start).runs
        ≤ decided id (run_calls executors cs start).approvals)
      × (count id (run_calls executors cs start).runs ≤ 1)
runs_once executors cs start fresh r id =
    let inv = run_calls-Inv executors cs start r (λ j. rw fresh (omega (arith, count_nil j))) id in
    (inv, omega (arith, inv, decided_le id (run_calls executors cs start).approvals))

execute_runs :
    (executors : Executors) (a : PendingApproval) (checker : ℕ) (db : Db)
    → (execute executors a checker db).1.runs
      ≡ (if (run_executor executors a).1 then a.id ∷ db.runs else db.runs)
unfolding execute
execute_runs executors a checker db = refl

-- A call of `approve` either runs no executor, leaving the runs as they were or as others left them,
-- or its tests passed on a pending approval of another person, for a user who is an administrator or
-- in compliance and not blocked, and it ran that one approval's executor.
pub approve_runs :
    (executors : Executors) (others : Db → Db) (id checker : ℕ) (note : Option Text) (db : Db)
    → ((approve executors others id checker note db).1.runs ≡ db.runs)
      ⊎ (((approve executors others id checker note db).1.runs ≡ (others db).runs)
          ⊎ ((a : PendingApproval) × Checked id checker db a
              × ((approve executors others id checker note db).1.runs ≡ id ∷ (others db).runs)))
approve_runs executors others id checker note db =
    elim (approve-Approving executors others id checker note db) [
      | refused e h ↦ inl (ap (λ x. x.1.runs) h)
      | lost e h ↦ inr (inl (ap (λ x. x.1.runs) h))
      | claimed seen a c found p h ↦ inr (
          executed_runs seen a (check-Checked id checker db c) (ap (λ x. x.1.runs) h)
            (decided_pending id (others db).approvals a found p).1)
    ]
  where
    executed_runs :
        (seen a : PendingApproval)
        → Checked id checker db seen
        → (approve executors others id checker note db).1.runs
          ≡ (execute executors
              (decide approved checker note a)
              checker
              (claim id checker note (others db))).1.runs
        → a.id ≡ id
        → ((approve executors others id checker note db).1.runs ≡ (others db).runs)
          ⊎ ((a : PendingApproval) × Checked id checker db a
              × ((approve executors others id checker note db).1.runs ≡ id ∷ (others db).runs))
    executed_runs seen a c h same =
        elim (Bool-cases (run_executor executors (decide approved checker note a)).1) [
          | inl called ↦ inr (
            seen,
            c,
            h
                ∙ execute_runs executors _ checker _
                ∙ rw called (ap (λ i. i ∷ (others db).runs) same),
          )
          | inr idle ↦ inl (h ∙ execute_runs executors _ checker _ ∙ rw idle refl)
        ]
