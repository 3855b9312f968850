-- ===== src/Ledger/Calls.antt =====
-- `post` with its retries, beside what others commit, and the promises of the contract
-- `LedgerPort` (src/modules/ledger/ledger.types.ts, ledger.service.ts).
use alke_finance_backend.Base.{
  ℕ, ◌≡◌, zero, suc, ◌≡◌, refl, ap, ◌∙◌, inl, inr, pos, false, Option, none, some, List, Bool-cases,
  Option-cases, Result, ok, err, >>=-eq-ok,
}
use alke_finance_backend.Money.{plus_all}
use alke_finance_backend.Ledger.Types.{LedgerTxn, LedgerKey, PostTxnInput, LedgerTxn, Db}
use alke_finance_backend.Ledger.Store.{find_by_key}
use alke_finance_backend.Ledger.Posting.{NormalisedEntry, PostResult, amounts, normalise, post_in}
use alke_finance_backend.Ledger.Retry.{Rivals, Outcome, finish, post_from, post, post_within}
use alke_finance_backend.Ledger.Validation.{normalise_sound}
use alke_finance_backend.Ledger.Invariant.{Inv}
use alke_finance_backend.Ledger.Soundness.{post_in-Inv, post_in_recorded, post_in_replayed}

-- The others keep the invariant.
abbrev pub Respects : Rivals → Type 0
Respects w = (n : ℕ) (db : Db) → Inv db → Inv (w.commit n db)

-- A transaction that a call returned is what its key finds.
abbrev pub OnRecord : LedgerKey → Db → Result LedgerTxn → Type 0
OnRecord key db (ok t) = find_by_key key db ≡ some t
OnRecord key db (err e) = Unit

-- What a call promises: the invariant, and that a returned transaction is on record.
pub record Sound (key : LedgerKey) (o : Outcome) : Type 0 where
  pub inv : Inv o.db
  pub recorded : OnRecord key o.db o.result

finish-Sound :
    (input : PostTxnInput) (es : List NormalisedEntry) (reversal : Option ℕ) (db : Db)
    → input.enforce_non_negative ≡ none
    → plus_all (pos 0) (amounts es) ≡ pos 0
    → Inv db
    → (res : Result (PostResult × Db)) → post_in input es reversal db ≡ res
    → Sound input.idempotency_key (finish db res)
unfolding finish
finish-Sound input es reversal db default zero_sum inv (err e) h = record {
  inv = inv;
  recorded = tt;
}
finish-Sound input es reversal db default zero_sum inv (ok (r, after)) h = record {
  inv = post_in-Inv input es reversal db default zero_sum inv h;
  recorded = post_in_recorded input es reversal db inv.accounts_inv h;
}

post_from-Sound :
    (w : Rivals) (input : PostTxnInput) (es : List NormalisedEntry) (n left : ℕ) (db : Db)
    → Respects w
    → input.enforce_non_negative ≡ none
    → plus_all (pos 0) (amounts es) ≡ pos 0
    → Inv db
    → Sound input.idempotency_key (post_from w input es n left db)
unfolding post_from
post_from-Sound w input es n zero db respects default zero_sum inv =
    let seen = respects n db inv in
    elim (Bool-cases (w.clash n)) [
      | inl clash ↦ rw (clash) (record { inv = seen; recorded = tt })
      | inr free ↦ rw free (finish-Sound input es none (w.commit n db) default zero_sum seen _ refl)
    ]
post_from-Sound w input es n (suc left) db respects default zero_sum inv =
    let seen = respects n db inv in
    elim (Bool-cases (w.clash n)) [
      | inr free ↦
          rw (free, post_from)
            (finish-Sound input es none (w.commit n db) default zero_sum seen _ refl)
      | inl clash ↦ elim (Option-cases (find_by_key input.idempotency_key (w.commit n db))) [
        | inr (x, found) ↦
            rw (clash, post_from) (rw found (record { inv = seen; recorded = found }))
        | inl absent ↦
            rw (clash, post_from)
              (rw absent (
                post_from-Sound w input es (suc n) left (w.commit n db) respects default zero_sum
                  seen))
      ]
    ]

-- From tables that have the ledger's invariant, beside others whose commits keep it, and however
-- often the database aborts an attempt, `post` with the default guard keeps the invariant, and a
-- transaction that it returns is on record under the key.
pub post-Sound :
    (w : Rivals) (input : PostTxnInput) (db : Db)
    → Respects w
    → input.enforce_non_negative ≡ none
    → Inv db
    → Sound input.idempotency_key (post w input db)
unfolding post
post-Sound w input db respects default inv = go (normalise input) refl
  where
    go :
        (r : Result (List NormalisedEntry))
        → normalise input ≡ r
        → Sound input.idempotency_key (post w input db)
    go (err e) h = rw (h, post) (record { inv = inv; recorded = tt })
    go (ok es) h =
        rw (h, post)
          (post_from-Sound w input es 0 2 db respects default (normalise_sound input h).balanced
            inv)

-- On tables that have the ledger's invariant, a post with the key of the post before it, and with
-- entries that pass the checks of `normalise`, whatever they are, returns the transaction of the
-- first and writes nothing.
pub post_within_twice :
    (first second : PostTxnInput) (db : Db) {r : PostResult} {db' : Db} {es : List NormalisedEntry}
    → Inv db
    → post_within first db ≡ ok (r, db')
    → second.idempotency_key ≡ first.idempotency_key
    → normalise second ≡ ok es
    → post_within second db' ≡ ok (record { txn = r.txn; created = false }, db')
unfolding post_within
post_within_twice first second db {r} {db'} {es} inv h same valid =
    let (ns, hn, hp) = >>=-eq-ok (normalise first) _ h in
    let known = post_in_recorded first ns none db inv.accounts_inv hp in
    rw (valid, post_within)
      (post_in_replayed second es none db' r.txn (ap (λ k. find_by_key k db') same ∙ known))
