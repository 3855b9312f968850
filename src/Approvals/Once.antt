-- ===== src/Approvals/Once.antt =====
-- The runs of an approval's executor (src/modules/approvals/approvals.service.ts).
use alke_finance_backend.Base.{
  ℕ, ◌+◌, ◌≤◌, ◌≡◌, inl, inr, refl, arith, ◌==◌, Bool, true, false, Option, Option-cases, some,
  List, [], ◌∷◌, ◌++◌, Text, if◌then◌else◌,
}
use alke_finance_backend.Approvals.{
  ApprovalState, PendingApproval, Db, is_pending, find_approval, update_approval, decide, Executors,
  run_executor,
}

-- The runs of one approval's executor.
unfoldable pub count : ℕ → List ℕ → ℕ
count id [] = 0
count id (r ∷ runs) = (if r == id then 1 else 0) + count id runs

pub count_nil : (id : ℕ) → count id [] ≡ 0
unfolding count
count_nil id = refl

-- 1 for an approval that was decided, 0 for one that is pending or unknown.
unfoldable pub decided : ℕ → List PendingApproval → ℕ
decided id [] = 0
decided id (a ∷ rows) =
    if a.id == id then (if is_pending a.state then 0 else 1) else decided id rows

-- No executor was called but for a decided approval, and then once.
abbrev pub Inv : Db → Type 0
Inv db = (id : ℕ) → count id db.runs ≤ decided id db.approvals

-- What others commit keeps the invariant.
abbrev pub Respects : (Db → Db) → Type 0
Respects others = (db : Db) → Inv db → Inv (others db)

-- A write of a decision.
pub record Decides (f : PendingApproval → PendingApproval) : Type 0 where
  pub same_id : (a : PendingApproval) → (f a).id ≡ a.id
  pub closes : (a : PendingApproval) → is_pending (f a).state ≡ false

pub decided_le : (id : ℕ) (rows : List PendingApproval) → decided id rows ≤ 1
unfolding decided
decided_le id [] = omega arith
decided_le id (a ∷ rows) = ground (arith, decided_le id rows)

pub decided-update :
    (f : PendingApproval → PendingApproval) (id j : ℕ) (rows : List PendingApproval)
    → Decides f
    → decided j rows ≤ decided j (update_approval id f rows)
unfolding decided update_approval
decided-update f id j [] d = omega arith
decided-update f id j (a ∷ rows) d =
    ground (arith, d.same_id a, d.closes a, decided-update f id j rows d)

pub decided-update_same :
    (f : PendingApproval → PendingApproval) (id : ℕ) (rows : List PendingApproval)
    (a : PendingApproval)
    → Decides f
    → find_approval id rows ≡ some a
    → decided id (update_approval id f rows) ≡ 1
unfolding decided update_approval find_approval
decided-update_same f id [] a d h = cc
decided-update_same f id (b ∷ rows) a d h =
    ground (arith, d.same_id b, d.closes b, decided-update_same f id rows a d)

pub decided_pending :
    (id : ℕ) (rows : List PendingApproval) (a : PendingApproval)
    → find_approval id rows ≡ some a
    → is_pending a.state ≡ true
    → (decided id rows ≡ 0) × (a.id ≡ id)
unfolding decided find_approval
decided_pending id [] a h p = cc
decided_pending id (b ∷ rows) a h p = ground (arith, decided_pending id rows a)

pub decided-append :
    (id : ℕ) (rows : List PendingApproval) (a : PendingApproval)
    → decided id rows ≤ decided id (rows ++ a ∷ [])
unfolding decided
decided-append id [] a = omega arith
decided-append id (b ∷ rows) a = ground (arith, decided-append id rows a)

pub decide-Decides :
    (s : ApprovalState) (c : ℕ) (n : Option Text) → is_pending s ≡ false → Decides (decide s c n)
decide-Decides s c n h = record { same_id = λ a. refl; closes = λ a. h }

pub run_executor-Decides :
    (executors : Executors) (a : PendingApproval) → Decides (run_executor executors a).0
unfolding run_executor
run_executor-Decides executors a = elim (Option-cases (executors a.action_type)) [
  | inl e ↦ rw (e, run_executor) (record { same_id = λ b. refl; closes = λ b. refl })
  | inr (f, e) ↦ elim (Option-cases (f a)) [
    | inl e' ↦ rw (e, run_executor) (rw e' (record { same_id = λ b. refl; closes = λ b. refl }))
    | inr (m, e') ↦
        rw (e, run_executor) (rw e' (record { same_id = λ b. refl; closes = λ b. refl }))
  ]
]

-- The claim of a pending approval, followed by one run at most.
pub count_claim :
    (id r : ℕ) (called : Bool) (runs : List ℕ) (rows rows' : List PendingApproval)
    → ((j : ℕ) → count j runs ≤ decided j rows)
    → decided id rows ≡ 0
    → r ≡ id
    → decided id rows' ≡ 1
    → ((j : ℕ) → decided j rows ≤ decided j rows')
    → (j : ℕ) → count j (if called then r ∷ runs else runs) ≤ decided j rows'
unfolding count
count_claim id r called runs rows rows' inv zero_before same one_after grows j =
    ground (arith, inv j, inv id, grows j)

pub twice-update :
    (f g : PendingApproval → PendingApproval) (id r : ℕ) (rows : List PendingApproval)
    (a : PendingApproval)
    → Decides f
    → Decides g
    → find_approval id rows ≡ some a
    → (decided id (update_approval r g (update_approval id f rows)) ≡ 1)
      × ((j : ℕ) → decided j rows ≤ decided j (update_approval r g (update_approval id f rows)))
twice-update f g id r rows a df dg found =
    let one = decided-update_same f id rows a df found in
    let le = decided-update g r id (update_approval id f rows) dg in
    (
      omega (arith, decided_le id (update_approval r g (update_approval id f rows))),
      λ j. omega (
        arith,
        decided-update f id j rows df,
        decided-update g r j (update_approval id f rows) dg,
      ),
    )
