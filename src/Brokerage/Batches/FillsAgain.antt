-- ===== src/Brokerage/Batches/FillsAgain.antt =====
-- A second reading of a file of executions (src/modules/brokerage/batches.service.ts).
use alke_finance_backend.Base.{
  ℕ, ℤ, ◌+◌, ◌≡◌, refl, sym, ap, ◌∙◌, Bool, true, false, not, ◌||◌, ◌&&◌, Bool-cases, Option-cases,
  inl, inr, Option, none, some, List, [], ◌∷◌, ◌++◌, keep, Text, Result, ok, ◌>>=◌, Holds,
  Holds-bind, Holds-eq-ok, Holds-ok, throw_if_ok, >>=-eq-ok, bad_request, if◌then◌else◌, All, arith,
}
use alke_finance_backend.Money.{Decimal}
use alke_finance_backend.Brokerage.OrderLedger.{Order}
use alke_finance_backend.Brokerage.Settlement.{World}
use alke_finance_backend.Brokerage.Csv.{eq_text}
use alke_finance_backend.Brokerage.Csv.Formats.{ExeLine}
use alke_finance_backend.Brokerage.Batches.{OrderBatch, BatchState, Desk, get_batch, update_batch}
use alke_finance_backend.Brokerage.Batches.Acks.{mark, is_ord, in_batch, same_batch, order_of}
use alke_finance_backend.Brokerage.Batches.Fills.{
  ExeSummary, by_ref, sdb_exec_ref, apply_execution, exe_line, exe_lines, fill_batch,
  process_executions, is_unfilled, tally, no_fills,
}
use alke_finance_backend.Brokerage.Batches.References.{has_ref, keys, Keeps}
use alke_finance_backend.Brokerage.Batches.FillsOnce.{is_known, exe_lines-Known}

get_batch_id : (id : ℕ) (b : OrderBatch) (bs : List OrderBatch) → get_batch id bs ≡ ok b → b.id ≡ id
unfolding get_batch
get_batch_id id b [] h = cc
get_batch_id id b (x ∷ bs) h = ground (arith, get_batch_id id b bs)

get_batch-update_batch :
    (id : ℕ) (state : BatchState) (b : OrderBatch) (bs : List OrderBatch)
    → get_batch id bs ≡ ok b
    → get_batch id (update_batch id (mark state) bs) ≡ ok (mark state b)
unfolding get_batch update_batch
get_batch-update_batch id state b [] h = cc
get_batch-update_batch id state b (x ∷ bs) h = ground (arith, get_batch-update_batch id state b bs)

update_batch_twice :
    (id : ℕ) (state : BatchState) (bs : List OrderBatch)
    → update_batch id (mark state) (update_batch id (mark state) bs)
      ≡ update_batch id (mark state) bs
unfolding update_batch
update_batch_twice id state [] = refl
update_batch_twice id state (x ∷ bs) = ground (arith, update_batch_twice id state bs)

module _ (prorate : Decimal → Decimal → Decimal → Text → Decimal) (id_text : ℕ → Text)
    (currency_of : ℕ → Text) (new_date : Text → Option ℕ) (average : ℤ → Decimal → Decimal)
    (to_decimal : Text → Decimal) where
  abbrev Known : List Order → World → ExeLine → Type 0
  Known rows w line =
      is_known prorate id_text currency_of new_date average to_decimal rows line w ≡ true

  -- The line is read without a change of a table and without a new execution.
  abbrev Passes : Result (ExeSummary × World) → ExeSummary → World → Type 0
  Passes r s w = (s' : ExeSummary) × (r ≡ ok (s', w)) × (s'.executions ≡ s.executions)

  exe_line-Passes :
      (ids : ℕ → ℕ) (batch : ℕ) (rows : List Order) (actor : Option ℕ) (line : ExeLine)
      (s : ExeSummary) (w : World)
      → Known rows w line
      → Passes
          (exe_line id_text currency_of prorate new_date average to_decimal ids batch rows actor
            line s w)
          s
          w
  unfolding exe_line apply_execution
  exe_line-Passes ids batch rows actor line s w h =
      elim (Option-cases (order_of id_text line.order_id rows)) [
        | inl n ↦
            (record s { ignored = s.ignored ++ line.order_id ∷ [] }, rw (n, exe_line) refl, refl)
        | inr (o, n) ↦ elim (Bool-cases (is_unfilled line.status)) [
          | inl u ↦ (
            record s { unfilled_ids = s.unfilled_ids ++ o.id ∷ [] },
            rw (n, exe_line, u) refl,
            refl,
          )
          | inr u ↦
              elim (Option-cases
                (by_ref (sdb_exec_ref (id_text o.id) line none) w.store.executions)) [
                  | inl r ↦ cc (rw (n, u, r) at h)
                  | inr (e, r) ↦ (
                    tally (record { execution = e.id; created = false }) s,
                    rw (n, exe_line, u) (rw (r, apply_execution) refl),
                    refl,
                  )
                ]
        ]
      ]

  exe_lines-Passes :
      (ids : ℕ → ℕ) (batch : ℕ) (rows : List Order) (actor : Option ℕ) (lines : List ExeLine)
      (s : ExeSummary) (w : World)
      → All (Known rows w) lines
      → Passes
          (exe_lines id_text currency_of prorate new_date average to_decimal ids batch rows actor
            lines s w)
          s
          w
  unfolding exe_lines
  exe_lines-Passes ids batch rows actor [] s w h = (s, refl, refl)
  exe_lines-Passes ids batch rows actor (line ∷ lines) s w h =
      let (s₁, e₁, k₁) = exe_line-Passes ids batch rows actor line s w h.0 in
      let (s₂, e₂, k₂) = exe_lines-Passes (λ n. ids (n + 1)) batch rows actor lines s₁ w h.1 in
      (s₂, rw e₁ e₂, k₂ ∙ k₁)

  -- The id of the order that a line names, from the keys of the table.
  listed : Text → ℕ → List (ℕ × Option ℕ) → Option ℕ
  listed id batch [] = none
  listed id batch ((o, b) ∷ ks) =
      if same_batch b batch && eq_text (id_text o) id then some o else listed id batch ks

  abbrev known_by : Option ℕ → ExeLine → World → Bool
  known_by none line w = true
  known_by (some o) line w =
      is_unfilled line.status || has_ref (sdb_exec_ref (id_text o) line none) w.store.executions

  is_known-listed :
      (batch : ℕ) (os : List Order) (line : ExeLine) (w : World)
      → is_known prorate id_text currency_of new_date average to_decimal
          (keep (in_batch batch) os)
          line
          w
        ≡ known_by (listed line.order_id batch (keys os)) line w
  unfolding order_of listed
  is_known-listed batch [] line w = refl
  is_known-listed batch (o ∷ os) line w = ground (arith, is_known-listed batch os line w)

  Known-keys :
      (batch : ℕ) (os os' : List Order) (w : World) (lines : List ExeLine)
      → keys os' ≡ keys os
      → All (Known (keep (in_batch batch) os) w) lines
      → All (Known (keep (in_batch batch) os') w) lines
  Known-keys batch os os' w [] e h = tt
  Known-keys batch os os' w (line ∷ lines) e h = (
    is_known-listed batch os' line w
        ∙ ap (λ ks. known_by (listed line.order_id batch ks) line w) e
        ∙ sym (is_known-listed batch os line w)
        ∙ h.0,
    Known-keys batch os os' w lines e h.1,
  )

  -- What a second reading of the same lines does to the tables that the first one left.
  abbrev RunsAgain :
      Desk → List ExeLine → OrderBatch → (ℕ → ℕ) → Option ℕ → ExeSummary × Desk → Type 0
  RunsAgain d lines b ids actor r =
      (s : ExeSummary) × (fill_batch id_text currency_of prorate new_date average to_decimal ids
          lines actor r.1 (mark BatchState.processed b)
        ≡ ok (s, r.1))
      × (s.executions ≡ [])
      × (r.1.batches ≡ update_batch b.id (mark BatchState.processed) d.batches)

  fill_batch-RunsAgain :
      (ids : ℕ → ℕ) (lines : List ExeLine) (actor : Option ℕ) (d : Desk) (b : OrderBatch)
      (ids' : ℕ → ℕ) (actor' : Option ℕ)
      → Holds
          (RunsAgain d lines b ids' actor')
          (fill_batch id_text currency_of prorate new_date average to_decimal ids lines actor d b)
  unfolding fill_batch
  fill_batch-RunsAgain ids lines actor d b ids' actor' = bound
    where
      after : ExeSummary × World → Desk
      after x = record {
        world = x.1;
        batches = update_batch b.id (mark BatchState.processed) d.batches;
      }

      rows : List Order
      rows = keep (in_batch b.id) d.world.store.orders

      again :
          (x : ExeSummary × World)
          → Keeps d.world x.1 × All (Known rows x.1) lines
          → RunsAgain d lines b ids' actor' (x.0, after x)
      again x h =
          let known =
            Known-keys b.id d.world.store.orders x.1.store.orders x.1 lines h.0.same_keys h.1 in
          let (s', e, k) =
            exe_lines-Passes ids' b.id (keep (in_batch b.id) x.1.store.orders) actor' lines no_fills
              x.1 known in
          (s', rw (e, update_batch_twice b.id BatchState.processed d.batches) refl, k, refl)

      bound : Holds (RunsAgain d lines b ids' actor') (
          exe_lines id_text currency_of prorate new_date average to_decimal ids b.id rows actor
            lines no_fills d.world
          >>= (λ x. ok (x.0, after x)))
      bound =
          Holds-bind _ (RunsAgain d lines b ids' actor') _ _
            (exe_lines-Known prorate id_text currency_of new_date average to_decimal ids b.id rows
              actor lines no_fills d.world)
            (λ x h. Holds-ok (RunsAgain d lines b ids' actor') (again x h))

  -- A file of executions that was processed is processed again, under any ids and by any actor,
  -- without a change of a table and without a new execution.
  pub process_executions_again :
      (ids ids' : ℕ → ℕ) (id : ℕ) (lines : List ExeLine) (actor actor' : Option ℕ) (d d' : Desk)
      (s : ExeSummary)
      → process_executions id_text currency_of prorate new_date average to_decimal ids id lines
          actor d
        ≡ ok (s, d')
      → (s' : ExeSummary) × (process_executions id_text currency_of prorate new_date average
            to_decimal ids' id lines actor' d'
          ≡ ok (s', d'))
        × (s'.executions ≡ [])
  unfolding process_executions
  process_executions_again ids ids' id lines actor actor' d d' s h =
      let (b, found, h₁) = >>=-eq-ok (get_batch id d.batches) _ h in
      let (is_order, h₂) =
        throw_if_ok (not (is_ord b.batch_type))
          (bad_request "Un fichier EXE ne concerne qu’un lot ORD.") _ h₁ in
      let (s', e, k, updated) =
        Holds-eq-ok (RunsAgain d lines b ids' actor') _
          (fill_batch-RunsAgain ids lines actor d b ids' actor') h₂ in
      let found' : get_batch id d'.batches ≡ ok (mark BatchState.processed b) =
        ap (λ bs. get_batch id bs)
          (updated
            ∙ ap (λ i. update_batch i (mark BatchState.processed) d.batches)
                (get_batch_id id b d.batches found))
        ∙ get_batch-update_batch id BatchState.processed b d.batches found in
      (s', rw (found', is_order) e, k)
