-- ===== src/Brokerage/Batches/Withdrawals.antt =====
-- Withdrawals handed to a broker: `buildWdrBatch` of src/modules/brokerage/batches.service.ts.
use alke_finance_backend.Base.{
  ℕ, ◌==◌, Bool, not, ◌&&◌, none, some, is_some, List, [], ◌∷◌, ◌++◌, any, keep, map, find, length,
  Text, Result, ok, err, bad_request, not_found, ◌>>=◌, ◌>>◌, throw_if, if◌then◌else◌,
}
use alke_finance_backend.Brokerage.Batches.{OrderBatch, BatchType}
use alke_finance_backend.Brokerage.Batches.Building.{next_sequence, new_batch}
use alke_finance_backend.Brokerage.Csv.{eq_text}
use alke_finance_backend.Kyc.BrokerAccounts.{
  MarketPartner, BrokerAccount, is_active, account_of, is_usable,
}
use alke_finance_backend.Payments.{PaymentIntent, is_incoming, is_pending}

-- The rows that the query of `buildWdrBatch` selects.
abbrev pub awaits_batch : Text → PaymentIntent → Bool
awaits_batch currency i =
    not (is_incoming i.direction)
    && (is_pending i.state && (not (is_some i.batch_id) && eq_text i.currency currency))

unfoldable pub has_account : ℕ → List BrokerAccount → PaymentIntent → Bool
has_account partner accounts i = is_usable (account_of i.user_id partner accounts)

-- `updateMany({ where: { id: { in: ids } }, data: { batchId } })`
unfoldable pub assign_batch : ℕ → List ℕ → List PaymentIntent → List PaymentIntent
assign_batch batch ids [] = []
assign_batch batch ids (i ∷ is) =
    (if any (λ id. i.id == id) ids then record i { batch_id = some batch } else i)
    ∷ assign_batch batch ids is

-- `buildWdrBatch`: the id of the batch, the intents left out, the batches and the intents. The
-- arguments are those of `build_batch`, with the currency of the partner's market.
unfoldable pub build_wdr_batch :
    ℕ
    → ℕ
    → ℕ
    → List MarketPartner
    → (ℕ → Text)
    → List BrokerAccount
    → ℕ
    → List OrderBatch
    → List PaymentIntent
    → Result (ℕ × List ℕ × List OrderBatch × List PaymentIntent)
build_wdr_batch fresh now start partners market_currency accounts partner_id batches intents = do
  partner ← (elim (find (λ p. p.id == partner_id) partners) [
    | none ↦ err (not_found "Partenaire introuvable.")
    | some p ↦ ok p
  ])
  throw_if (not (is_active partner.agreement_status))
      (bad_request "Le partenaire n’est pas actif : aucun lot ne peut lui être transmis.")
  let waiting = keep (awaits_batch (market_currency partner.market_id)) intents
  let lines = keep (has_account partner_id accounts) waiting
  let skipped = keep (λ i. not (has_account partner_id accounts i)) waiting
  throw_if (length lines == 0) (bad_request "Aucun retrait en attente pour ce partenaire.")
  let sequence = next_sequence partner_id BatchType.wdr start batches
  ok (
    fresh,
    map (λ i. i.id) skipped,
    batches
        ++ new_batch fresh partner.market_id partner_id BatchType.wdr sequence now (length lines)
          ∷ [],
    assign_batch fresh (map (λ i. i.id) lines) intents,
  )
