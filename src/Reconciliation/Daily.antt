-- ===== src/Reconciliation/Daily.antt =====
-- Reading a statement: `runDaily` of src/modules/reconciliation/reconciliation.service.ts.
use alke_finance_backend.Base.{
  ℕ, ◌+◌, ◌==◌, ◌-ℤ◌, neg, abs, pos, eqb_ℤ, ltb_ℤ, Bool, true, false, not, ◌&&◌, Option, none, some,
  List, [], ◌∷◌, ◌++◌, find, Text, Text-discrete, letters, same, Result, ok, err, not_found, plain,
  ◌>>=◌, if◌then◌else◌,
}
use alke_finance_backend.Money.{Decimal, round_money}
use alke_finance_backend.Ledger.Retry.{Rivals}
use alke_finance_backend.Ledger.Report.{mirror_total}
use alke_finance_backend.Payments.{
  PaymentIntent, Store, is_incoming, is_paid, is_pending, mark_withdrawal_paid,
}
use alke_finance_backend.Kyc.BrokerAccounts.{MarketPartner}
use alke_finance_backend.Brokerage.Csv.{trim, is_empty, eq_text}
use alke_finance_backend.Brokerage.Csv.Formats.{
  CshLine, CashDirection, into, out_of, direction_text,
}
use alke_finance_backend.Reconciliation.{
  opened, resolved, Reason, unknown_reference, another_amount, another_state, payment_refused,
  mirror_gap, matched_later, ReconciliationItem, is_closed, is_opened, update_items,
  by_external_ref,
}

-- The tables of the service: the payments' and the ledger's, the items, and the items that a
-- compliance alert was raised for.
pub record Desk : Type 0 where
  pub payments : Store
  pub items : List ReconciliationItem
  pub alerts : List ℕ
  pub next_id : ℕ

-- `ReconciliationRun`
pub record ReconciliationRun : Type 0 where
  pub matched : List ℕ
  pub withdrawals_paid : List ℕ
  pub item_ids : List ℕ
  pub difference : Option Decimal
  pub alert : Bool

abbrev pub no_run : ReconciliationRun
no_run = record {
  matched = [];
  withdrawals_paid = [];
  item_ids = [];
  difference = none;
  alert = false;
}

-- `externalRef`
abbrev pub external_ref : CshLine → Text
external_ref line = direction_text line.direction ++ b':' ∷ trim line.reference

abbrev pub signed : CashDirection → Decimal → Decimal
signed into amount = amount
signed out_of amount = neg amount

abbrev pub txn_of : Option PaymentIntent → Option ℕ
txn_of none = none
txn_of (some i) = i.ledger_txn_id

abbrev pub user_of : Option PaymentIntent → Option ℕ
user_of none = none
user_of (some i) = some i.user_id

-- `openItem`: the id of the item, and the tables.
unfoldable pub open_item :
    CshLine → Decimal → Text → Reason → Option PaymentIntent → Desk → ℕ × Desk
open_item line amount currency reason intent d =
    elim (by_external_ref (external_ref line) d.items) [
      | some item ↦ (
        item.id,
        record d {
          items =
              if is_opened item.state
              then update_items (λ i. eq_text i.external_ref (external_ref line))
                  (λ i. record i { reason = reason }) d.items
              else d.items;
        },
      )
      | none ↦ (
        d.next_id,
        record d {
          items =
              d.items
              ++ record {
                id = d.next_id;
                external_ref = external_ref line;
                amount = signed line.direction amount;
                currency = currency;
                matched_txn_id = txn_of intent;
                owner_id = user_of intent;
                state = opened;
                reason = reason;
              }
                ∷ [];
          next_id = d.next_id + 1;
        },
      )
    ]

-- `closeMatchedItem`
unfoldable pub close_matched_item : CshLine → PaymentIntent → Desk → Desk
close_matched_item line intent d = record d {
  items =
      update_items (λ i. eq_text i.external_ref (external_ref line) && not (is_closed i.state))
        (λ i. record i {
          state = resolved;
          matched_txn_id = intent.ledger_txn_id;
          reason = matched_later;
        })
        d.items;
}

abbrev pub same_direction : CashDirection → PaymentIntent → Bool
same_direction into i = is_incoming i.direction
same_direction out_of i = not (is_incoming i.direction)

-- The newest row of a table in the order of its creation.
unfoldable pub find_last {ℓ} : {A : Type ℓ} → (A → Bool) → List A → Option A
find_last test [] = none
find_last test (x ∷ xs) = elim (find_last test xs) [
  | some y ↦ some y
  | none ↦ if test x then some x else none
]

abbrev pub with_item : ReconciliationRun → ℕ × Desk → ReconciliationRun × Desk
with_item run (id, d) = (record run { item_ids = run.item_ids ++ id ∷ [] }, d)

abbrev pub matched_line :
    CshLine → PaymentIntent → ReconciliationRun → Desk → ReconciliationRun × Desk
matched_line line i run d =
    (record run { matched = run.matched ++ i.id ∷ [] }, close_matched_item line i d)

-- Whether a text is an intent's reference, its id or the provider's reference, which no other
-- operation reads; `D` of a text, if it is a
-- number; how the id of a partner and a day are printed.
module _ (names : PaymentIntent → Text → Bool) (to_decimal : Text → Option Decimal)
    (id_text : ℕ → Text) (rivals : Rivals) where
  -- `findIntent`
  unfoldable pub find_intent : CshLine → Text → List PaymentIntent → Option PaymentIntent
  find_intent line currency intents =
      if is_empty (trim line.reference)
      then none
      else find_last
          (λ i.
            same_direction line.direction i
            && (same Text-discrete i.currency currency && names i (trim line.reference)))
          intents

  abbrev pub confirmed :
      CshLine
      → Decimal
      → Text
      → PaymentIntent
      → ReconciliationRun
      → Desk
      → Result PaymentIntent × Store
      → ReconciliationRun × Desk
  confirmed line amount currency i run d (ok paid, payments) = (
    record run { withdrawals_paid = run.withdrawals_paid ++ i.id ∷ [] },
    record d { payments = payments },
  )
  confirmed line amount currency i run d (err e, payments) =
      with_item run
        (open_item line amount currency payment_refused (some i) (record d { payments = payments }))

  -- A line of an intent with the same amount.
  unfoldable pub match_line :
      CshLine → Decimal → Text → PaymentIntent → ReconciliationRun → Desk → ReconciliationRun × Desk
  match_line line amount currency i run d =
      if is_paid i.state then matched_line line i run d else (elim line.direction [
        | into ↦ with_item run (open_item line amount currency another_state (some i) d)
        | out_of ↦
            if is_pending i.state
            then confirmed line amount currency i run d
                (mark_withdrawal_paid rivals i.id none d.payments)
            else with_item run (open_item line amount currency another_state (some i) d)
      ])

  -- `D` of a text, which throws where it is no number.
  abbrev pub amount_of : Text → Result Decimal
  amount_of t = elim (to_decimal t) [ none ↦ err (plain "DecimalError") | some a ↦ ok a ]

  abbrev pub line_amount : Text → Decimal → Decimal
  line_amount currency value = round_money (pos (abs value)) currency

  -- One turn of the loop, behind the line's amount.
  unfoldable pub settle_line :
      Text → CshLine → Decimal → ReconciliationRun → Desk → ReconciliationRun × Desk
  settle_line currency line amount run d = elim (find_intent line currency d.payments.intents) [
    | none ↦ with_item run (open_item line amount currency unknown_reference none d)
    | some i ↦
        if eqb_ℤ i.amount amount
        then match_line line amount currency i run d
        else with_item run (open_item line amount currency another_amount (some i) d)
  ]

  -- One turn of the loop.
  unfoldable pub read_line :
      Text → CshLine → ReconciliationRun → Desk → Result (ReconciliationRun × Desk)
  read_line currency line run d = do
    value ← amount_of line.amount
    ok (settle_line currency line (line_amount currency value) run d)

  -- An error ends the run; what the turns before it committed is not in the result.
  unfoldable pub read_lines :
      Text → List CshLine → ReconciliationRun → Desk → Result (ReconciliationRun × Desk)
  read_lines currency [] run d = ok (run, d)
  read_lines currency (line ∷ lines) run d = do
    r ← read_line currency line run d
    read_lines currency lines r.0 r.1

  abbrev pub mirror_ref : ℕ → Text → Text
  mirror_ref partner date = letters "mirror:" ++ (id_text partner ++ b':' ∷ date)

  -- The writes of `mirrorCheck` beyond the materiality.
  unfoldable pub raise_mirror : ℕ → Text → Text → Decimal → Desk → Desk
  raise_mirror partner currency date difference d =
      elim (by_external_ref (mirror_ref partner date) d.items) [
        | some item ↦ record d {
          items =
              update_items (λ i. eq_text i.external_ref (mirror_ref partner date))
                (λ i. record i { amount = difference; reason = mirror_gap }) d.items;
        }
        | none ↦ record d {
          items =
              d.items
              ++ record {
                id = d.next_id;
                external_ref = mirror_ref partner date;
                amount = difference;
                currency = currency;
                matched_txn_id = none;
                owner_id = some partner;
                state = opened;
                reason = mirror_gap;
              }
                ∷ [];
          alerts = d.alerts ++ d.next_id ∷ [];
          next_id = d.next_id + 1;
        }
      ]

  -- `mirrorCheck` behind the difference.
  unfoldable pub compare_mirror :
      Decimal → ℕ → Text → Decimal → Text → ReconciliationRun → Desk → ReconciliationRun × Desk
  compare_mirror materiality partner currency difference date run d =
      if ltb_ℤ materiality (pos (abs difference))
      then (
        record run { difference = some difference; alert = true },
        raise_mirror partner currency date difference d,
      )
      else (record run { difference = some difference }, d)

  -- `mirrorCheck`, for the closing balance of a statement, if it has lines.
  unfoldable pub mirror_check :
      Decimal
      → ℕ
      → Text
      → Option Text
      → Text
      → ReconciliationRun
      → Desk
      → Result (ReconciliationRun × Desk)
  mirror_check materiality partner currency none date run d = ok (run, d)
  mirror_check materiality partner currency (some closing) date run d =
      let ledger = d.payments.ledger in
      let total = mirror_total currency ledger.accounts ledger.entries in
      (do
        balance ← amount_of closing
        ok (compare_mirror materiality partner currency (total -ℤ balance) date run d))

  unfoldable pub closing_of : List CshLine → Option Text
  closing_of [] = none
  closing_of (line ∷ []) = some line.balance
  closing_of (line ∷ line' ∷ lines) = closing_of (line' ∷ lines)

  -- `runDaily`, for the day of the run as text, and the currency of the partner's market.
  unfoldable pub run_daily :
      Decimal
      → (ℕ → Text)
      → List MarketPartner
      → ℕ
      → List CshLine
      → Text
      → Desk
      → Result (ReconciliationRun × Desk)
  run_daily materiality currency_of partners partner lines date d =
      elim (find (λ p. p.id == partner) partners) [
        | none ↦ err (not_found "Partenaire introuvable.")
        | some p ↦ do
          r ← read_lines (currency_of p.market_id) lines no_run d
          mirror_check materiality partner (currency_of p.market_id) (closing_of lines) date r.0 r.1
      ]
