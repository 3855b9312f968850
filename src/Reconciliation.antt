-- ===== src/Reconciliation.antt =====
-- The daily reconciliation with a broker: src/modules/reconciliation/reconciliation.service.ts. Here
-- the items and their life; Reconciliation/Daily reads a statement. Times, raw lines, events and the
-- wording of reasons are left out.
pub mod Daily
pub mod Open
pub mod Paid
pub mod Tellings
pub mod Told
mod Tests
use alke_finance_backend.Base.{
  ℕ, ◌+◌, ◌==◌, Bool, true, false, not, ◌&&◌, ◌||◌, Option, none, some, is_some, List, [], ◌∷◌,
  ◌++◌, any, find, Text, letters, String, Result, ok, err, bad_request, not_found, ◌>>=◌, ◌>>◌,
  throw_if, if◌then◌else◌,
}
use alke_finance_backend.Money.{Decimal}
use alke_finance_backend.Approvals.{ApprovalActionType, PendingApproval, request}
use alke_finance_backend.Approvals.{Db as ApprovalsDb}
use alke_finance_backend.Ledger.Types.{Db}
use alke_finance_backend.Brokerage.Csv.{eq_text}

pub data ReconciliationState : Type 0 where
  opened investigating resolved written_off : ReconciliationState

-- Why an item is open, or how it was closed.
pub data Reason : Type 0 where
  unknown_reference another_amount another_state payment_refused mirror_gap matched_later : Reason
  given : Text → Reason

pub record ReconciliationItem : Type 0 where
  pub id : ℕ
  pub external_ref : Text
  pub amount : Decimal
  pub currency : Text
  pub matched_txn_id : Option ℕ
  pub owner_id : Option ℕ
  pub state : ReconciliationState
  pub reason : Reason

-- WRITTEN_OFF or RESOLVED
abbrev pub is_closed : ReconciliationState → Bool
is_closed written_off = true
is_closed resolved = true
is_closed _ = false

abbrev pub is_opened : ReconciliationState → Bool
is_opened opened = true
is_opened _ = false

unfoldable pub update_items :
    (ReconciliationItem → Bool)
    → (ReconciliationItem → ReconciliationItem)
    → List ReconciliationItem
    → List ReconciliationItem
update_items test f [] = []
update_items test f (i ∷ is) = (if test i then f i else i) ∷ update_items test f is

-- `findUnique({ where: { source_externalRef } })`, for the one source of the service.
unfoldable pub by_external_ref : Text → List ReconciliationItem → Option ReconciliationItem
by_external_ref ref is = find (λ i. eq_text i.external_ref ref) is

unfoldable pub find_item : ℕ → List ReconciliationItem → Result ReconciliationItem
find_item id is = elim (find (λ i. i.id == id) is) [
  | none ↦ err (not_found "Écart introuvable.")
  | some i ↦ ok i
]

-- `UpdateReconciliationDto`
pub record UpdateReconciliationDto : Type 0 where
  pub state : ReconciliationState
  pub reason : Text
  pub matched_txn_id : Option ℕ

-- INVESTIGATING or RESOLVED
abbrev pub is_direct : ReconciliationState → Bool
is_direct investigating = true
is_direct resolved = true
is_direct _ = false

abbrev pub names_no_txn : Option ℕ → Db → Bool
names_no_txn none db = false
names_no_txn (some id) db = not (any (λ t. t.id == id) db.txns)

abbrev pub or_txn : Option ℕ → Option ℕ → Option ℕ
or_txn none old = old
or_txn (some id) old = some id

-- `update`
unfoldable pub update :
    ℕ → UpdateReconciliationDto → Db → List ReconciliationItem → Result (List ReconciliationItem)
update id dto ledger is = do
  item ← find_item id is
  throw_if (is_closed item.state) (bad_request "Écart déjà clos.")
  throw_if (not (is_direct dto.state))
      (bad_request "Seuls les états INVESTIGATING et RESOLVED sont accessibles directement.")
  throw_if (names_no_txn dto.matched_txn_id ledger)
      (bad_request "Transaction du grand livre introuvable.")
  ok (
      update_items (λ i. i.id == id)
        (λ i. record i {
          state = dto.state;
          reason = given dto.reason;
          matched_txn_id = or_txn dto.matched_txn_id i.matched_txn_id;
        })
        is)

abbrev pub refused :
    ApprovalsDb → Result ReconciliationItem → Option (Result PendingApproval × ApprovalsDb)
refused db (err e) = some (err e, db)
refused db (ok item) =
    if is_closed item.state then some (err (bad_request "Écart déjà clos."), db) else none

-- `requestWriteOff`
unfoldable pub request_write_off :
    ℕ → Text → ℕ → List ReconciliationItem → ApprovalsDb → Result PendingApproval × ApprovalsDb
request_write_off id reason maker is db = elim (refused db (find_item id is)) [
  | some answer ↦ answer
  | none ↦ request ApprovalActionType.recon_write_off reason maker db
]

abbrev pub written_off_rows : ℕ → Text → List ReconciliationItem → List ReconciliationItem
written_off_rows id reason is =
    update_items (λ i. i.id == id)
      (λ i. record i { state = written_off; reason = given (letters "Abandonné : " ++ reason) }) is

-- `applyWriteOff`, with the reason of the approval.
unfoldable pub apply_write_off :
    ℕ → Text → List ReconciliationItem → Result (List ReconciliationItem)
apply_write_off id reason is = do
  item ← find_item id is
  (elim item.state [
    | written_off ↦ ok is
    | resolved ↦ err (bad_request "Écart déjà résolu.")
    | opened ↦ ok (written_off_rows id reason is)
    | investigating ↦ ok (written_off_rows id reason is)
  ])
