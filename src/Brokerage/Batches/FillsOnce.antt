-- ===== src/Brokerage/Batches/FillsOnce.antt =====
-- The references of executions, on which `applyExecution` of
-- src/modules/brokerage/batches.service.ts tells a line that it has seen.
use alke_finance_backend.Base.{
  ℕ, ℤ, ◌+◌, ◌≡◌, refl, Bool, true, ◌||◌, Bool-cases, Option-cases, inl, inr, Option, none, some,
  List, [], ◌∷◌, ◌++◌, Text, Holds, Holds-bind, Holds-next, Holds-ok, Holds-weaken, All, arith,
  Text-discrete, same_refl,
}
use alke_finance_backend.Money.{Decimal}
use alke_finance_backend.Brokerage.OrderLedger.{Order, Execution}
use alke_finance_backend.Brokerage.Settlement.{World}
use alke_finance_backend.Brokerage.Csv.Formats.{ExeLine}
use alke_finance_backend.Brokerage.Batches.Acks.{order_of}
use alke_finance_backend.Brokerage.Batches.Fills.{
  ExeSummary, Applied, by_ref, sdb_exec_ref, with_executions, close_fill, new_execution, FillPlan,
  plan_fill, write_fill, fill_order, apply_execution, exe_line, exe_lines, is_unfilled,
}
use alke_finance_backend.Brokerage.Batches.References.{
  has_ref, has_ref-append, or_true, Keeps, Keeps-refl, Keeps-trans, book_fill-Keeps,
  close_fill-Keeps,
}

module _ (prorate : Decimal → Decimal → Decimal → Text → Decimal) (id_text : ℕ → Text)
    (currency_of : ℕ → Text) (new_date : Text → Option ℕ) (average : ℤ → Decimal → Decimal)
    (to_decimal : Text → Decimal) where
  -- What the writes of a fill leave: the new reference is there.
  abbrev Recorded : Text → World → World → Type 0
  Recorded ref w w' = Keeps w w' × (has_ref ref w'.store.executions ≡ true)

  appended-Recorded :
      (e : Execution) (w : World)
      → Recorded e.sdb_exec_ref w (with_executions (w.store.executions ++ e ∷ []) w)
  appended-Recorded e w = (
    record {
      refs = λ ref h. rw (has_ref-append ref w.store.executions e, h) refl;
      same_keys = refl;
    },
    rw (has_ref-append e.sdb_exec_ref w.store.executions e, same_refl Text-discrete e.sdb_exec_ref)
        (or_true (has_ref e.sdb_exec_ref w.store.executions)),
  )

  Recorded-Keeps : (ref : Text) {u v w : World} → Recorded ref u v → Keeps v w → Recorded ref u w
  Recorded-Keeps ref h k = (Keeps-trans h.0 k, k.refs ref h.1)

  write_fill-Recorded :
      (plan : FillPlan) (e : Execution) (currency : Text) (actor : Option ℕ) (w : World)
      → Holds (Recorded e.sdb_exec_ref w) (
          write_fill id_text currency_of prorate new_date average to_decimal plan e currency actor
            w)
  unfolding write_fill
  write_fill-Recorded plan e currency actor w =
      Holds-bind (Keeps added) (Recorded e.sdb_exec_ref w) _
        (λ x.
          close_fill id_text currency_of prorate new_date average to_decimal plan.row plan.fill
            currency actor x)
        (book_fill-Keeps prorate id_text currency_of new_date average to_decimal plan.row e
          plan.partner currency actor added)
        (λ x h.
          Holds-weaken _ _ _
            (close_fill-Keeps prorate id_text currency_of new_date average to_decimal plan.row
              plan.fill currency actor x)
            (λ y k.
              Recorded-Keeps e.sdb_exec_ref
                (Recorded-Keeps e.sdb_exec_ref (appended-Recorded e w) h) k))
    where
      added : World
      added = with_executions (w.store.executions ++ e ∷ []) w

  -- What `applyExecution` leaves under the reference of its line.
  abbrev Seen : Text → World → Applied × World → Type 0
  Seen ref w r = Recorded ref w r.1

  apply_execution-Seen :
      (fresh : ℕ) (o : Order) (line : ExeLine) (batch actor : Option ℕ) (exec_ref : Option Text)
      (w : World)
      → Holds (Seen (sdb_exec_ref (id_text o.id) line exec_ref) w) (
          apply_execution id_text currency_of prorate new_date average to_decimal fresh o line batch
            actor exec_ref w)
  unfolding apply_execution fill_order new_execution
  apply_execution-Seen fresh o line batch actor exec_ref w =
      elim (Option-cases (by_ref ref w.store.executions)) [
        | inl h ↦
            rw (h, apply_execution)
              (Holds-next (Seen ref w)
                (plan_fill id_text currency_of prorate new_date average to_decimal o line w) _
                (λ plan.
                  Holds-bind (Recorded ref w) (Seen ref w) _ _
                    (write_fill-Recorded plan
                      (new_execution id_text currency_of prorate new_date average to_decimal fresh
                        plan.row line batch ref)
                      (currency_of o.instrument_id) actor w)
                    (λ w' k. Holds-ok (Seen ref w) k)))
        | inr (e, h) ↦ rw (h, apply_execution) (Holds-ok (Seen ref w) (Keeps-refl w, rw h refl))
      ]
    where
      ref : Text
      ref = sdb_exec_ref (id_text o.id) line exec_ref

  -- A line that changes nothing: of no order of the batch, unfilled, or recorded.
  abbrev pub known_for : Option Order → ExeLine → World → Bool
  known_for none line w = true
  known_for (some o) line w =
      is_unfilled line.status || has_ref (sdb_exec_ref (id_text o.id) line none) w.store.executions

  abbrev pub is_known : List Order → ExeLine → World → Bool
  is_known rows line w = known_for (order_of id_text line.order_id rows) line w

  Keeps-is_known :
      (rows : List Order) (line : ExeLine) {w w' : World}
      → Keeps w w'
      → is_known rows line w ≡ true
      → is_known rows line w' ≡ true
  Keeps-is_known rows line {w} {w'} k = go (order_of id_text line.order_id rows)
    where
      go : (r : Option Order) → known_for r line w ≡ true → known_for r line w' ≡ true
      go none h = refl
      go (some o) h = ground (arith, k.refs (sdb_exec_ref (id_text o.id) line none))

  abbrev Known : List Order → ExeLine → World → ExeSummary × World → Type 0
  Known rows line w r = Keeps w r.1 × (is_known rows line r.1 ≡ true)

  exe_line-Known :
      (ids : ℕ → ℕ) (batch : ℕ) (rows : List Order) (actor : Option ℕ) (line : ExeLine)
      (s : ExeSummary) (w : World)
      → Holds (Known rows line w) (
          exe_line id_text currency_of prorate new_date average to_decimal ids batch rows actor line
            s w)
  unfolding exe_line
  exe_line-Known ids batch rows actor line s w =
      elim (Option-cases (order_of id_text line.order_id rows)) [
        | inl h ↦ rw (h, exe_line) (Holds-ok (Known rows line w) (Keeps-refl w, rw h refl))
        | inr (o, h) ↦
            rw (h, exe_line)
              (elim (Bool-cases (is_unfilled line.status)) [
                | inl u ↦ rw u (Holds-ok (Known rows line w) (Keeps-refl w, rw (h, u) refl))
                | inr u ↦ rw u (
                    Holds-bind (Seen (sdb_exec_ref (id_text o.id) line none) w) (Known rows line w)
                      _ _ (apply_execution-Seen (ids 0) o line (some batch) actor none w)
                      (λ r k. Holds-ok (Known rows line w) (k.0, rw (h, u) k.1)))
              ])
      ]

  pub exe_lines-Known :
      (ids : ℕ → ℕ) (batch : ℕ) (rows : List Order) (actor : Option ℕ) (lines : List ExeLine)
      (s : ExeSummary) (w : World)
      → Holds
          (λ r. Keeps w r.1 × All (λ l. is_known rows l r.1 ≡ true) lines)
          (exe_lines id_text currency_of prorate new_date average to_decimal ids batch rows actor
            lines s w)
  unfolding exe_lines
  exe_lines-Known ids batch rows actor [] s w =
      Holds-ok (λ r. Keeps w r.1 × Unit) (Keeps-refl w, tt)
  exe_lines-Known ids batch rows actor (line ∷ lines) s w =
      Holds-bind (Known rows line w)
        (λ r. Keeps w r.1 × All (λ l. is_known rows l r.1 ≡ true) (line ∷ lines)) _ _
        (exe_line-Known ids batch rows actor line s w)
        (λ x h.
          Holds-weaken _ _ _ (exe_lines-Known (λ n. ids (n + 1)) batch rows actor lines x.0 x.1)
            (λ y k. (Keeps-trans h.0 k.0, (Keeps-is_known rows line k.0 h.1, k.1))))
