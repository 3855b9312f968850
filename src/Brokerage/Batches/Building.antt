-- ===== src/Brokerage/Batches/Building.antt =====
-- Building a batch: `buildBatch`, `buildWdrBatch` and `nextSequence` of
-- src/modules/brokerage/batches.service.ts. The connector's call and the file hash come after the
-- transaction; a batch that is sent at once is one of the simulated connector.
use alke_finance_backend.Base.{
  ℕ, ◌+◌, ◌-◌, ◌==◌, ltb, leb, Bool, false, not, ◌&&◌, Option, none, some, List, [], ◌∷◌, ◌++◌, any,
  keep, find, length, Text, Result, ok, err, bad_request, not_found, ◌>>=◌, ◌>>◌, throw_if,
  if◌then◌else◌,
}
use alke_finance_backend.Money.{Decimal}
use alke_finance_backend.Brokerage.OrderState.{pending, transmitted, rejected, assert_transition}
use alke_finance_backend.Brokerage.OrderLedger.{Order, update_order}
use alke_finance_backend.Brokerage.Settlement.{World}
use alke_finance_backend.Brokerage.Batches.{
  OrderBatch, BatchType, BatchState, Desk, with_orders, in_status, close_order,
}
use alke_finance_backend.Brokerage.Batches.Acks.{is_ord, mark}
use alke_finance_backend.Kyc.BrokerAccounts.{
  MarketPartner, BrokerAccount, is_active, account_of, is_usable,
}

abbrev pub same_type : BatchType → BatchType → Bool
same_type BatchType.ord t = is_ord t
same_type BatchType.wdr t = not (is_ord t)

-- The milliseconds of an hour and of a day.
abbrev pub hour : ℕ
hour = 3_600_000

abbrev pub day : ℕ
day = 86_400_000

abbrev pub in_day : ℕ → ℕ → Bool
in_day start at = leb (start - hour) at && ltb at (start + day - hour)

-- `nextSequence`, for the instant at which `calendarDay` starts the day.
unfoldable pub next_sequence : ℕ → BatchType → ℕ → List OrderBatch → ℕ
next_sequence partner kind start bs =
    length (
      keep
        (λ b.
          (b.partner_id == partner) && (same_type kind b.batch_type && in_day start b.cutoff_at))
        bs)
    + 1

-- The row of a new batch.
abbrev pub new_batch : ℕ → ℕ → ℕ → BatchType → ℕ → ℕ → ℕ → OrderBatch
new_batch id market partner kind sequence now lines = record {
  id = id;
  market_id = market;
  partner_id = partner;
  batch_type = kind;
  state = BatchState.built;
  sequence = sequence;
  cutoff_at = now;
  line_count = lines;
}

abbrev pub is_partner : Option ℕ → ℕ → Bool
is_partner none partner = false
is_partner (some p) partner = p == partner

-- The rows that the query of `buildBatch` selects.
abbrev pub is_candidate : ℕ → ℕ → Order → Bool
is_candidate market partner o =
    (o.market_id == market)
    && (is_partner o.partner_id partner && (in_status pending o && not o.simulated))

-- The transaction's loop: the rows of the lines, moved to TRANSMITTED.
unfoldable pub transmit : ℕ → ℕ → List Order → World → Result World
transmit batch now [] w = ok w
transmit batch now (o ∷ os) w = do
  assert_transition o.status transmitted
  transmit batch now os (
      with_orders
        (update_order o.id
          (λ x. record x { status = transmitted; batch_id = some batch; transmitted_at = some now })
          w.store.orders)
        w)

-- The currency of an instrument, and the division of `commissionFor`.
module _ (currency_of : ℕ → Text) (prorate : Decimal → Decimal → Decimal → Text → Decimal) where
  -- The first loop: an order whose user has no account at the partner is rejected.
  unfoldable pub sort_orders :
      ℕ
      → Option ℕ
      → List BrokerAccount
      → List Order
      → List Order
      → World
      → Result (List Order × World)
  sort_orders partner actor accounts [] lines w = ok (lines, w)
  sort_orders partner actor accounts (o ∷ os) lines w =
      let refused = (do
        (counted, w') ← close_order prorate o rejected (currency_of o.instrument_id) actor w
        sort_orders partner actor accounts os lines w') in
      let taken = sort_orders partner actor accounts os (lines ++ o ∷ []) w in
      if is_usable (account_of o.user_id partner accounts) then taken else refused

  -- `buildBatch`, for the candidates in the order of their submission, the id that the database
  -- draws, the instant and the start of its day. The batch's id comes back.
  unfoldable pub build_batch :
      ℕ
      → ℕ
      → ℕ
      → ℕ
      → Bool
      → List ℕ
      → List MarketPartner
      → List BrokerAccount
      → ℕ
      → Option ℕ
      → Desk
      → Result (ℕ × Desk)
  build_batch fresh now start market_id simulated markets partners accounts partner_id actor d = do
    throw_if (not (any (λ m. m == market_id) markets)) (not_found "Marché introuvable.")
    partner ← (elim (find (λ p. p.id == partner_id) partners) [
      | none ↦ err (not_found "Partenaire introuvable pour ce marché.")
      | some p ↦ ok p
    ])
    throw_if (not (partner.market_id == market_id))
        (not_found "Partenaire introuvable pour ce marché.")
    throw_if (not (is_active partner.agreement_status))
        (bad_request "Le partenaire n’est pas actif : aucun lot ne peut lui être transmis.")
    (lines, w) ←
        sort_orders partner_id actor accounts
          (keep (is_candidate market_id partner_id) d.world.store.orders) [] d.world
    throw_if (length lines == 0)
        (bad_request "Aucun ordre en attente transmissible pour ce partenaire.")
    let sequence = next_sequence partner_id BatchType.ord start d.batches
    let created = new_batch fresh market_id partner_id BatchType.ord sequence now (length lines)
    w' ← transmit fresh now lines w
    ok (
      fresh,
      record {
        world = w';
        batches = d.batches ++ (if simulated then mark BatchState.sent created else created) ∷ [];
      },
    )
