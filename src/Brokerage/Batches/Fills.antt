-- ===== src/Brokerage/Batches/Fills.antt =====
-- Executions: `processExecutions` and `applyExecution` of src/modules/brokerage/batches.service.ts.
use alke_finance_backend.Base.{
  ℕ, ℤ, ◌==◌, Bool, true, false, not, Option, none, some, List, [], ◌∷◌, ◌++◌, keep, find, Text,
  same, Result, ok, err, ◌>>=◌, ◌>>◌, throw_if, bad_request, not_found, if◌then◌else◌, ◌+◌,
}
use alke_finance_backend.Money.{Decimal, zero_decimal}
use alke_finance_backend.Brokerage.OrderState.{
  OrderStatus-discrete, executed, open_at_sdb, has, FillResult, apply_fill, assert_transition,
}
use alke_finance_backend.Brokerage.OrderLedger.{
  buy, sell, Order, Execution, Store, SettlementState, post_fill, update_order,
}
use alke_finance_backend.Brokerage.OrderLedger.Positions.{add_pending_shares}
use alke_finance_backend.Brokerage.Settlement.{World}
use alke_finance_backend.Brokerage.Csv.{eq_text}
use alke_finance_backend.Brokerage.Csv.Formats.{ExeLine, ExeStatus, unfilled}
use alke_finance_backend.Brokerage.Batches.{
  OrderBatch, BatchState, Desk, get_batch, update_batch, with_orders, release,
}
use alke_finance_backend.Brokerage.Batches.Acks.{is_ord, mark, in_batch, order_of, parse_date}

-- `ExeSummary`
pub record ExeSummary : Type 0 where
  pub executions : List ℕ
  pub unfilled_ids : List ℕ
  pub ignored : List Text
  pub duplicates : List ℕ

abbrev pub no_fills : ExeSummary
no_fills = record { executions = []; unfilled_ids = []; ignored = []; duplicates = [] }

-- What `applyExecution` returns: the id of the execution, and whether it was created.
pub record Applied : Type 0 where
  pub execution : ℕ
  pub created : Bool

unfoldable pub find_order : ℕ → List Order → Result Order
find_order id os = elim (find (λ o. o.id == id) os) [
  | none ↦ err (not_found "Ordre introuvable.")
  | some o ↦ ok o
]

abbrev pub the_partner : Option ℕ → Result ℕ
the_partner none = err (bad_request "Ordre sans partenaire SDB.")
the_partner (some p) = ok p

abbrev pub tally : Applied → ExeSummary → ExeSummary
tally a s =
    if a.created
    then record s { executions = s.executions ++ a.execution ∷ [] }
    else record s { duplicates = s.duplicates ++ a.execution ∷ [] }

abbrev pub with_executions : List Execution → World → World
with_executions es w = record w { store = record (w.store) { executions = es } }

-- The order's row after a fill.
abbrev pub filled_row : FillResult → Order → Order
filled_row fill o = record o {
  filled_quantity = fill.filled_quantity;
  avg_executed_price = some fill.avg_executed_price;
  status = fill.status;
}

abbrev pub is_unfilled : ExeStatus → Bool
is_unfilled unfilled = true
is_unfilled _ = false

-- `line.sdb_ref ? … : …` under `execRef ?? …`, with the order's id as text.
unfoldable pub sdb_exec_ref : Text → ExeLine → Option Text → Text
sdb_exec_ref id line none = elim line.sdb_ref [
  | [] ↦ id ++ b':' ∷ line.executed_at
  | c ∷ cs ↦ line.sdb_ref ++ b':' ∷ line.executed_at
]
sdb_exec_ref id line (some ref) = ref

unfoldable pub by_ref : Text → List Execution → Option Execution
by_ref ref es = find (λ e. eq_text e.sdb_exec_ref ref) es

-- The row of the order that a line fills, its partner and the new counters.
pub record FillPlan : Type 0 where
  pub row : Order
  pub partner : ℕ
  pub fill : FillResult

-- As in `Acks` and `OrderState`, and `D(text)` of decimal.js on the texts that are numbers: a file
-- with another text, for which it throws, is outside the model.
module _ (id_text : ℕ → Text) (currency_of : ℕ → Text)
    (prorate : Decimal → Decimal → Decimal → Text → Decimal) (new_date : Text → Option ℕ)
    (average : ℤ → Decimal → Decimal) (to_decimal : Text → Decimal) where
  -- `D(text || 0)`
  abbrev pub or_zero : Text → Decimal
  or_zero [] = zero_decimal
  or_zero (c ∷ cs) = to_decimal (c ∷ cs)

  -- The row that `tx.execution.create` writes under the id that the database draws.
  unfoldable pub new_execution : ℕ → Order → ExeLine → Option ℕ → Text → Execution
  new_execution fresh o line batch ref = record {
    id = fresh;
    order_id = o.id;
    batch_id = batch;
    quantity = to_decimal line.executed_qty;
    price = to_decimal line.price;
    gross_amount = to_decimal line.gross_amount;
    courtage = or_zero line.courtage;
    taxes = or_zero line.taxes;
    net_amount = to_decimal line.net_amount;
    sdb_exec_ref = ref;
    settlement_state = SettlementState.unsettled;
    fill_txn_id = none;
  }

  -- The tables behind the posting of a fill, with the pending shares of a BUY.
  abbrev pub booked : Order → Execution → World → ℕ × Store → World
  booked o e w posted = record {
    store = posted.1;
    positions = elim o.side [
      | buy ↦ add_pending_shares average o.user_id o.instrument_id e.quantity e.price w.positions
      | sell ↦ w.positions
    ];
  }

  unfoldable pub book_fill : Order → Execution → ℕ → Text → Option ℕ → World → Result World
  book_fill o e partner currency actor w =
      let posted = post_fill prorate o e partner currency actor w.store in
      if o.simulated then ok w else posted >>= (λ x. ok (booked o e w x))

  -- The row of the order after its fill, with the rest of its reserve when it is executed.
  unfoldable pub close_fill : Order → FillResult → Text → Option ℕ → World → Result World
  close_fill o fill currency actor w =
      let w' = with_orders (update_order o.id (filled_row fill) w.store.orders) w in
      let released = release prorate (filled_row fill o) currency actor w' in
      if same OrderStatus-discrete fill.status executed then released else ok w'

  -- The reads and tests of `applyExecution` up to `assertTransition`.
  unfoldable pub plan_fill : Order → ExeLine → World → Result FillPlan
  plan_fill o line w = do
    at ← parse_date new_date line.executed_at
    row ← find_order o.id w.store.orders
    throw_if (not (has open_at_sdb row.status)) (bad_request "Exécution refusée.")
    partner ← the_partner row.partner_id
    fill ←
        apply_fill average
          (record {
            quantity = row.quantity;
            filled_quantity = row.filled_quantity;
            avg_executed_price = row.avg_executed_price;
          })
          (to_decimal line.executed_qty) (to_decimal line.price)
    assert_transition row.status fill.status
    ok (record { row = row; partner = partner; fill = fill })

  -- Its writes.
  unfoldable pub write_fill : FillPlan → Execution → Text → Option ℕ → World → Result World
  write_fill plan e currency actor w =
      book_fill plan.row e plan.partner currency actor
        (with_executions (w.store.executions ++ e ∷ []) w)
      >>= (λ x. close_fill plan.row plan.fill currency actor x)

  -- The transaction of `applyExecution`, for a reference that no execution has.
  unfoldable pub fill_order :
      ℕ → Order → ExeLine → Option ℕ → Option ℕ → Text → World → Result (Applied × World)
  fill_order fresh o line batch actor ref w = do
    plan ← plan_fill o line w
    w' ←
        write_fill plan (new_execution fresh plan.row line batch ref) (currency_of o.instrument_id)
          actor w
    ok (record { execution = fresh; created = true }, w')

  -- `applyExecution`, with the id that the database draws for a new row.
  unfoldable pub apply_execution :
      ℕ → Order → ExeLine → Option ℕ → Option ℕ → Option Text → World → Result (Applied × World)
  apply_execution fresh o line batch actor exec_ref w =
      elim (by_ref (sdb_exec_ref (id_text o.id) line exec_ref) w.store.executions) [
        | some e ↦ ok (record { execution = e.id; created = false }, w)
        | none ↦ fill_order fresh o line batch actor (sdb_exec_ref (id_text o.id) line exec_ref) w
      ]

  unfoldable pub exe_line :
      (ℕ → ℕ)
      → ℕ
      → List Order
      → Option ℕ
      → ExeLine
      → ExeSummary
      → World
      → Result (ExeSummary × World)
  exe_line ids batch rows actor line s w = elim (order_of id_text line.order_id rows) [
    | none ↦ ok (record s { ignored = s.ignored ++ line.order_id ∷ [] }, w)
    | some o ↦
        let applied = (do
          (a, w') ← apply_execution (ids 0) o line (some batch) actor none w
          ok (tally a s, w')) in
        if is_unfilled line.status
        then ok (record s { unfilled_ids = s.unfilled_ids ++ o.id ∷ [] }, w)
        else applied
  ]

  -- The loop, with a fresh id for each turn.
  unfoldable pub exe_lines :
      (ℕ → ℕ)
      → ℕ
      → List Order
      → Option ℕ
      → List ExeLine
      → ExeSummary
      → World
      → Result (ExeSummary × World)
  exe_lines ids batch rows actor [] s w = ok (s, w)
  exe_lines ids batch rows actor (line ∷ lines) s w = do
    (s', w') ← exe_line ids batch rows actor line s w
    exe_lines (λ n. ids (n + 1)) batch rows actor lines s' w'

  -- `processExecutions` of a batch that was found.
  unfoldable pub fill_batch :
      (ℕ → ℕ) → List ExeLine → Option ℕ → Desk → OrderBatch → Result (ExeSummary × Desk)
  fill_batch ids lines actor d b =
      exe_lines ids b.id (keep (in_batch b.id) d.world.store.orders) actor lines no_fills d.world
      >>= (λ x. ok (
        x.0,
        record { world = x.1; batches = update_batch b.id (mark BatchState.processed) d.batches },
      ))

  -- `processExecutions`
  unfoldable pub process_executions :
      (ℕ → ℕ) → ℕ → List ExeLine → Option ℕ → Desk → Result (ExeSummary × Desk)
  process_executions ids id lines actor d = do
    b ← get_batch id d.batches
    throw_if (not (is_ord b.batch_type)) (bad_request "Un fichier EXE ne concerne qu’un lot ORD.")
    fill_batch ids lines actor d b
