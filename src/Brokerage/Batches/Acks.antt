-- ===== src/Brokerage/Batches/Acks.antt =====
-- Acknowledgements: `markSent` and `processAck` of src/modules/brokerage/batches.service.ts.
use alke_finance_backend.Base.{
  ℕ, ◌==◌, Bool, true, false, ◌||◌, Option, none, some, List, [], ◌∷◌, ◌++◌, keep, find, Text,
  Result, ok, err, ◌>>=◌, ◌>>◌, throw_if, bad_request, not, if◌then◌else◌,
}
use alke_finance_backend.Money.{Decimal}
use alke_finance_backend.Brokerage.OrderState.{
  OrderStatus, transmitted, acknowledged, assert_transition,
}
use alke_finance_backend.Brokerage.OrderLedger.{Order, update_order}
use alke_finance_backend.Brokerage.Settlement.{World}
use alke_finance_backend.Brokerage.Csv.{eq_text}
use alke_finance_backend.Brokerage.Csv.Formats.{AckLine, accepted, rejected}
use alke_finance_backend.Brokerage.Batches.{
  OrderBatch, BatchType, BatchState, built, sent, acked, processed, failed, Desk, get_batch,
  update_batch, with_orders, in_status, close_order,
}

abbrev pub is_ord : BatchType → Bool
is_ord BatchType.ord = true
is_ord BatchType.wdr = false

abbrev pub mark : BatchState → OrderBatch → OrderBatch
mark state b = record b { state = state }

-- `markSent`
unfoldable pub mark_sent : ℕ → Desk → Result Desk
mark_sent id d = do
  b ← get_batch id d.batches
  (elim b.state [
    | built ↦ ok (record d { batches = update_batch id (mark BatchState.sent) d.batches })
    | sent ↦ ok d
    | acked ↦ err (bad_request "Lot impossible à marquer envoyé.")
    | processed ↦ err (bad_request "Lot impossible à marquer envoyé.")
    | failed ↦ err (bad_request "Lot impossible à marquer envoyé.")
  ])

-- `AckSummary`
pub record AckSummary : Type 0 where
  pub accepted_ids : List ℕ
  pub rejected_ids : List ℕ
  pub ignored : List Text

abbrev pub no_acks : AckSummary
no_acks = record { accepted_ids = []; rejected_ids = []; ignored = [] }

abbrev pub same_batch : Option ℕ → ℕ → Bool
same_batch none id = false
same_batch (some b) id = b == id

-- `where: { batchId }`
abbrev pub in_batch : ℕ → Order → Bool
in_batch id o = same_batch o.batch_id id

abbrev pub state_after_ack : BatchState → BatchState
state_after_ack BatchState.processed = BatchState.processed
state_after_ack _ = BatchState.acked

-- `byId.get(line.order_id)`, in the rows read before the loop; a file writes the id of an order (a
-- uuid) as `id_text` gives it.
unfoldable pub order_of : (ℕ → Text) → Text → List Order → Option Order
order_of id_text id rows = find (λ o. eq_text (id_text o.id) id) rows

-- `parseDate`; `new Date` may be invalid.
unfoldable pub parse_date : (Text → Option ℕ) → Text → Result ℕ
parse_date new_date raw = elim (new_date raw) [
  | none ↦ err (bad_request "Date invalide.")
  | some at ↦ ok at
]

-- Further the currency of an instrument and the division of `commissionFor`.
module _ (id_text : ℕ → Text) (currency_of : ℕ → Text)
    (prorate : Decimal → Decimal → Decimal → Text → Decimal) (new_date : Text → Option ℕ) where
  -- A line ACCEPTED of an order whose row was read before the loop; the write of the status has no
  -- condition on the row.
  unfoldable pub accept_line : Order → AckLine → AckSummary → World → Result (AckSummary × World)
  accept_line o line summary w =
      let written = (do
        assert_transition o.status acknowledged
        at ← parse_date new_date line.ack_at
        ok (
          record summary { accepted_ids = summary.accepted_ids ++ o.id ∷ [] },
          with_orders (update_order o.id (λ x. record x { status = acknowledged }) w.store.orders)
              w,
        )) in
      if in_status transmitted o then written else ok (summary, w)

  unfoldable pub reject_line : Order → Option ℕ → AckSummary → World → Result (AckSummary × World)
  reject_line o actor summary w =
      let closed = (do
        (counted, w') ←
            close_order prorate o OrderStatus.rejected (currency_of o.instrument_id) actor w
        ok (record summary { rejected_ids = summary.rejected_ids ++ o.id ∷ [] }, w')) in
      if in_status transmitted o || in_status acknowledged o then closed else ok (summary, w)

  unfoldable pub ack_line :
      List Order → Option ℕ → AckLine → AckSummary → World → Result (AckSummary × World)
  ack_line rows actor line summary w = elim (order_of id_text line.order_id rows) [
    | none ↦ ok (record summary { ignored = summary.ignored ++ line.order_id ∷ [] }, w)
    | some o ↦ elim line.status [
      | accepted ↦ accept_line o line summary w
      | rejected ↦ reject_line o actor summary w
    ]
  ]

  unfoldable pub ack_lines :
      List Order → Option ℕ → List AckLine → AckSummary → World → Result (AckSummary × World)
  ack_lines rows actor [] summary w = ok (summary, w)
  ack_lines rows actor (line ∷ lines) summary w = do
    (summary', w') ← ack_line rows actor line summary w
    ack_lines rows actor lines summary' w'

  -- `processAck`
  unfoldable pub process_ack : ℕ → List AckLine → Option ℕ → Desk → Result (AckSummary × Desk)
  process_ack id lines actor d = do
    b ← get_batch id d.batches
    throw_if (not (is_ord b.batch_type)) (bad_request "Un fichier ACK ne concerne qu’un lot ORD.")
    (summary, w) ← ack_lines (keep (in_batch id) d.world.store.orders) actor lines no_acks d.world
    ok (
      summary,
      record { world = w; batches = update_batch id (mark (state_after_ack b.state)) d.batches },
    )
