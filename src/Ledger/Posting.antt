-- ===== src/Ledger/Posting.antt =====
-- `normalise` and `postIn` (src/modules/ledger/ledger.service.ts).
use alke_finance_backend.Base.{
  ℕ, suc, ◌+ℤ◌, ◌==◌, eqb_ℤ, leb_ℤ, ltb_ℤ, Bool, true, false, not, Option, none, some, List, [],
  ◌∷◌, ◌++◌, map, length, ltb, any, Text, Text-discrete, same, to_upper, Result, ok, err,
  bad_request, ◌>>=◌, ◌>>◌, throw_if, if◌then◌else◌,
}
use alke_finance_backend.Money.{Decimal, zero_decimal, round_money, plus_all, decimals_for}
use alke_finance_backend.Ledger.Types.{
  LedgerTxnStatus, LedgerAccountRef, LedgerKey, blank, LedgerEntryInput, PostTxnInput,
  LedgerAccount, LedgerTxn, LedgerEntry, Db, same_ref, is_user,
}
use alke_finance_backend.Ledger.Store.{find_by_key, ensure_account, sum_account}

-- `NormalisedEntry`; its `key` is the text of its `ref`.
pub record NormalisedEntry : Type 0 where
  pub ref : LedgerAccountRef
  pub amount : Decimal

abbrev pub is_blank : LedgerKey → Bool
is_blank blank = true
is_blank _ = false

abbrev pub same_currency : Text → Text → Bool
same_currency = same Text-discrete

-- The body of `input.entries.map` in `normalise`.
unfoldable pub normalise_entry : Text → LedgerEntryInput → Result NormalisedEntry
normalise_entry currency e = do
  throw_if (not (eqb_ℤ (round_money e.amount currency) e.amount)) (
      bad_request (
        if decimals_for currency == 0
        then "Les montants doivent être des entiers."
        else "Les montants ont trop de décimales."))
  throw_if (not (same_currency e.account.currency currency))
      (bad_request "Toutes les écritures doivent être dans la devise de la transaction.")
  ok (record { ref = e.account; amount = e.amount })

unfoldable pub normalise_entries : Text → List LedgerEntryInput → Result (List NormalisedEntry)
normalise_entries currency [] = ok []
normalise_entries currency (e ∷ es) = do
  n ← normalise_entry currency e
  ns ← normalise_entries currency es
  ok (n ∷ ns)

abbrev pub amounts : List NormalisedEntry → List Decimal
amounts = map (λ e. e.amount)

-- `normalise`
unfoldable pub normalise : PostTxnInput → Result (List NormalisedEntry)
normalise input = do
  throw_if (is_blank input.idempotency_key) (bad_request "Clé d’idempotence requise.")
  throw_if (ltb (length input.entries) 2)
      (bad_request "Une transaction comporte au moins deux écritures.")
  throw_if (length (to_upper input.currency) == 0) (bad_request "Devise requise.")
  throw_if (not (same_currency (to_upper input.currency) input.currency))
      (bad_request "La devise doit être en majuscules (code ISO 4217).")
  normalised ← normalise_entries (to_upper input.currency) input.entries
  throw_if (not (eqb_ℤ (plus_all zero_decimal (amounts normalised)) zero_decimal))
      (bad_request "Les écritures d’une transaction doivent sommer à zéro.")
  ok normalised

-- A `Map` from the keys of accounts.
abbrev pub AccountMap : Type 0 → Type 0
AccountMap V = List (LedgerAccountRef × V)

module _ {V : Type 0} where
  -- `get`
  unfoldable pub lookup : LedgerAccountRef → AccountMap V → Option V
  lookup ref [] = none
  lookup ref ((r, v) ∷ m) = if same_ref r ref then some v else lookup ref m

-- One turn of the loop that resolves the accounts.
unfoldable pub resolve_one :
    NormalisedEntry → AccountMap LedgerAccount × Db → AccountMap LedgerAccount × Db
resolve_one e (m, db) = elim (lookup e.ref m) [
  | some a ↦ (m, db)
  | none ↦ let (a, db') = ensure_account e.ref db in ((e.ref, a) ∷ m, db')
]

unfoldable pub resolve :
    List NormalisedEntry → AccountMap LedgerAccount × Db → AccountMap LedgerAccount × Db
resolve [] s = s
resolve (e ∷ es) s = resolve es (resolve_one e s)

-- `deltas.get(key)`: the net movement of one account.
unfoldable pub delta : LedgerAccountRef → List NormalisedEntry → Decimal
delta ref [] = zero_decimal
delta ref (e ∷ es) = (if same_ref e.ref ref then e.amount else zero_decimal) +ℤ delta ref es

unfoldable pub user_refs : List NormalisedEntry → List LedgerAccountRef
user_refs [] = []
user_refs (e ∷ es) = if is_user e.ref.owner_type then e.ref ∷ user_refs es else user_refs es

-- `guarded`
abbrev pub guarded : PostTxnInput → List NormalisedEntry → List LedgerAccountRef
guarded input es = elim input.enforce_non_negative [ some refs ↦ refs | none ↦ user_refs es ]

-- One turn of the non-negative rule: `true` where it throws.
unfoldable pub overdraws :
    AccountMap LedgerAccount → List NormalisedEntry → List LedgerEntry → LedgerAccountRef → Bool
overdraws m es entries ref = elim (lookup ref m) [
  | none ↦ false
  | some a ↦
      if leb_ℤ zero_decimal (delta ref es)
      then false
      else ltb_ℤ (sum_account a.id entries +ℤ delta ref es) zero_decimal
]

unfoldable pub account_id : AccountMap LedgerAccount → LedgerAccountRef → ℕ
account_id m ref = elim (lookup ref m) [ some a ↦ a.id | none ↦ 0 ]

-- `entries.map((e) => ({ accountId, amount }))`
unfoldable pub rows : ℕ → AccountMap LedgerAccount → List NormalisedEntry → List LedgerEntry
rows txn m [] = []
rows txn m (e ∷ es) =
    record { txn_id = txn; account_id = account_id m e.ref; amount = e.amount } ∷ rows txn m es

-- `PostResult`
pub record PostResult : Type 0 where
  pub txn : LedgerTxn
  pub created : Bool

abbrev pub new_txn : PostTxnInput → Option ℕ → ℕ → LedgerTxn
new_txn input reversal id = record {
  id = id;
  txn_type = input.txn_type;
  status = LedgerTxnStatus.posted;
  idempotency_key = input.idempotency_key;
  currency = input.currency;
  actor_id = input.actor_id;
  reversal_of_id = reversal;
}

-- `ledgerTxn.create`, with its entries
unfoldable pub create_txn :
    PostTxnInput → Option ℕ → AccountMap LedgerAccount → List NormalisedEntry → Db → PostResult × Db
create_txn input reversal m es db =
    let t = new_txn input reversal db.next_id in
    (
      record { txn = t; created = true },
      record db {
        txns = db.txns ++ t ∷ [];
        entries = db.entries ++ rows db.next_id m es;
        next_id = suc db.next_id;
      },
    )

-- Of the part of `postIn` behind the locks: the second look for the key, the rule, the write.
unfoldable pub post_locked :
    PostTxnInput
    → List NormalisedEntry
    → Option ℕ
    → AccountMap LedgerAccount
    → Db
    → Result (PostResult × Db)
post_locked input es reversal m db = elim (find_by_key input.idempotency_key db) [
  | some raced ↦ ok (record { txn = raced; created = false }, db)
  | none ↦
      if any (overdraws m es db.entries) (guarded input es)
      then err (bad_request "Solde insuffisant.")
      else ok (create_txn input reversal m es db)
]

-- `postIn`
unfoldable pub post_in :
    PostTxnInput → List NormalisedEntry → Option ℕ → Db → Result (PostResult × Db)
post_in input es reversal db = elim (find_by_key input.idempotency_key db) [
  | some existing ↦ ok (record { txn = existing; created = false }, db)
  | none ↦ let (m, db') = resolve es ([], db) in post_locked input es reversal m db'
]
