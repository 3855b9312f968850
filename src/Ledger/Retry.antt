-- ===== src/Ledger/Retry.antt =====
-- `post` and `reverse` with their retries and events (src/modules/ledger/ledger.service.ts).
use alke_finance_backend.Base.{
  ℕ, zero, suc, Bool, true, false, Option, none, some, List, [], ◌∷◌, Result, ok, err,
  unique_violation, ◌>>=◌, if◌then◌else◌,
}
use alke_finance_backend.Ledger.Types.{reversal_of, PostTxnInput, LedgerTxn, Db}
use alke_finance_backend.Ledger.Store.{find_by_key}
use alke_finance_backend.Ledger.Posting.{NormalisedEntry, normalise, PostResult, post_in}
use alke_finance_backend.Ledger.Reversing.{is_reversal, reverse_in}

-- `publishPosted`: the ids of the transactions that the two events name.
pub data LedgerEvent : Type 0 where
  txn_posted reversal_posted : ℕ → LedgerEvent

unfoldable pub publish_posted : LedgerTxn → List LedgerEvent
publish_posted t =
    txn_posted t.id ∷ (if is_reversal t.txn_type then reversal_posted t.id ∷ [] else [])

-- What a call returns or throws, the tables it leaves, and the events it published.
pub record Outcome : Type 0 where
  pub result : Result LedgerTxn
  pub db : Db
  pub events : List LedgerEvent

unfoldable pub finish : Db → Result (PostResult × Db) → Outcome
finish before (err e) = record { result = err e; db = before; events = [] }
finish before (ok (r, after)) = record {
  result = ok r.txn;
  db = after;
  events = if r.created then publish_posted r.txn else [];
}

-- What the rest of the system does around our attempts: what others commit before attempt `n`
-- ends, and whether the database aborts attempt `n` with a unique violation.
pub record Rivals : Type 0 where
  pub commit : ℕ → Db → Db
  pub clash : ℕ → Bool

-- The retry loop of `post`, at attempt `n` with `left` more to go.
unfoldable pub post_from : Rivals → PostTxnInput → List NormalisedEntry → ℕ → ℕ → Db → Outcome
unfolding finish
post_from w input es n zero db =
    let seen = w.commit n db in
    if w.clash n
    then record { result = err unique_violation; db = seen; events = [] }
    else finish seen (post_in input es none seen)
post_from w input es n (suc left) db =
    let seen = w.commit n db in
    elim (w.clash n) [
      | false ↦ finish seen (post_in input es none seen)
      | true ↦ elim (find_by_key input.idempotency_key seen) [
        | some existing ↦ record { result = ok existing; db = seen; events = [] }
        | none ↦ post_from w input es (suc n) left seen
      ]
    ]

-- `post` without a caller's transaction: three attempts at most.
unfoldable pub post : Rivals → PostTxnInput → Db → Outcome
post w input db = elim (normalise input) [
  | err e ↦ record { result = err e; db = db; events = [] }
  | ok es ↦ post_from w input es 0 2 db
]

-- `post` inside a caller's transaction.
unfoldable pub post_within : PostTxnInput → Db → Result (PostResult × Db)
post_within input db = do es ← normalise input; post_in input es none db

-- `reverse` without a caller's transaction.
unfoldable pub reverse : Rivals → ℕ → Option ℕ → Db → Outcome
reverse w id actor db =
    let seen = w.commit 0 db in
    if w.clash 0
    then (elim (find_by_key (reversal_of id) seen) [
      | some existing ↦ record { result = ok existing; db = seen; events = [] }
      | none ↦ record { result = err unique_violation; db = seen; events = [] }
    ])
    else finish seen (reverse_in id actor seen)
