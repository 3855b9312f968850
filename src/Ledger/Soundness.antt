-- ===== src/Ledger/Soundness.antt =====
-- `postIn` and `post` on the whole ledger (src/modules/ledger/ledger.service.ts).
use mathlib.Core.Path.{ap₂}
use alke_finance_backend.Base.{
  ok_injective, ℕ, ◌≤◌, ◌≡◌, refl, ap, sym, ◌∙◌, inl, inr, pos, ◌+ℤ◌, true, false, Option, none,
  some, List, find, any, Bool-cases, Option-cases, same_refl, subst, if◌then◌else◌, ok, zero_+ℤ,
}
use alke_finance_backend.Money.{plus_all}
use alke_finance_backend.Ledger.Types.{
  LedgerAccountRef, LedgerKey, LedgerKey-discrete, PostTxnInput, LedgerAccount, LedgerTxn, Db,
  same_key,
}
use alke_finance_backend.Ledger.Store.{
  find_by_key, find_account, balance, sum_of, sum_account, of_account, of_txn,
}
use alke_finance_backend.Ledger.Posting.{
  NormalisedEntry, AccountMap, PostResult, delta, rows, overdraws, user_refs, guarded, amounts,
  create_txn, new_txn, post_in,
}
use alke_finance_backend.Ledger.Sums.{sum_of-append, find-append_none}
use alke_finance_backend.Ledger.Resolving.{DbAccountsInv}
use alke_finance_backend.Ledger.Effect.{sum_account-rows, sum_of-rows, delta_uncovered}
use alke_finance_backend.Ledger.Invariant.{
  Inv, count_key, prepared, prepared-Resolved, post_in_new, AccountsInv-write, keys-write,
  find_by_key-txns,
}

-- How a call of `postIn` that returns has ended.
pub data Ended (input : PostTxnInput) (es : List NormalisedEntry) (reversal : Option ℕ) (db : Db)
    (r : PostResult) (db' : Db) : Type 0 where
  replayed :
      find_by_key input.idempotency_key db ≡ some r.txn
      → r.created ≡ false
      → db' ≡ db
      → Ended input es reversal db r db'
  wrote :
      find_by_key input.idempotency_key db ≡ none
      → any (overdraws (prepared es db).0 es (prepared es db).1.entries) (guarded input es) ≡ false
      → (r, db') ≡ create_txn input reversal (prepared es db).0 es (prepared es db).1
      → Ended input es reversal db r db'

pub post_in_replayed :
    (input : PostTxnInput) (es : List NormalisedEntry) (reversal : Option ℕ) (db : Db)
    (t : LedgerTxn)
    → find_by_key input.idempotency_key db ≡ some t
    → post_in input es reversal db ≡ ok (record { txn = t; created = false }, db)
unfolding post_in
post_in_replayed input es reversal db t h = rw (h, post_in)

pub post_in-Ended :
    (input : PostTxnInput) (es : List NormalisedEntry) (reversal : Option ℕ) (db : Db)
    {r : PostResult} {db' : Db}
    → DbAccountsInv db
    → post_in input es reversal db ≡ ok (r, db')
    → Ended input es reversal db r db'
post_in-Ended input es reversal db {r} {db'} inv h =
    elim (Option-cases (find_by_key input.idempotency_key db)) [
      | inr (t, found) ↦
          let e = ok_injective (sym h ∙ post_in_replayed input es reversal db t found) in
          replayed (found ∙ ap (λ x. some x.0.txn) (sym e)) (ap (λ x. x.0.created) e)
            (ap (λ x. x.1) e)
      | inl absent ↦
          let n = sym (post_in_new input es reversal db inv absent) ∙ h in
          elim (Bool-cases
            (any (overdraws (prepared es db).0 es (prepared es db).1.entries) (guarded input es))) [
              | inl refused ↦ cc (rw refused at n)
              | inr passed ↦ wrote absent passed (sym (ok_injective (rw passed at n)))
            ]
    ]

guarded_default :
    (input : PostTxnInput) (es : List NormalisedEntry)
    → input.enforce_non_negative ≡ none
    → guarded input es ≡ user_refs es
guarded_default input es h = rw (h, guarded)

find_by_key_test :
    (k : LedgerKey) (db : Db)
    → find_by_key k db ≡ none
    → find (λ t. same_key t.idempotency_key k) db.txns ≡ none
unfolding find_by_key
find_by_key_test k db h = h

-- The tables after a write.
create-Inv :
    (input : PostTxnInput) (es : List NormalisedEntry) (reversal : Option ℕ) (db : Db)
    → input.enforce_non_negative ≡ none
    → plus_all (pos 0) (amounts es) ≡ pos 0
    → Inv db
    → find_by_key input.idempotency_key db ≡ none
    → any (overdraws (prepared es db).0 es (prepared es db).1.entries) (guarded input es) ≡ false
    → Inv (create_txn input reversal (prepared es db).0 es (prepared es db).1).1
unfolding create_txn
create-Inv input es reversal db default zero_sum inv absent passed =
    let s = prepared es db in
    let p = prepared-Resolved es db inv.accounts_inv in
    record {
      accounts_inv = AccountsInv-write s.1.next_id s.0 es s.1 p.inv p.caches p.covers (
          subst (λ rs. any (overdraws s.0 es s.1.entries) rs ≡ false)
            (guarded_default input es default) passed);
      balanced = λ t.
          sum_of-append (of_txn t) s.1.entries (rows s.1.next_id s.0 es)
          ∙ ap₂ ◌+ℤ◌ (ap (sum_of (of_txn t)) p.extends.same_entries ∙ inv.balanced t)
              (sum_of-rows t s.1.next_id s.0 es zero_sum)
          ∙ zero_+ℤ (pos 0);
      keys =
          keys-write (new_txn input reversal s.1.next_id) s.1.txns
            (find_by_key_test input.idempotency_key s.1
              (find_by_key-txns input.idempotency_key s.1 db p.extends.same_txns ∙ absent))
            (subst (λ ts. (k : LedgerKey) → count_key k ts ≤ 1) (sym p.extends.same_txns) inv.keys);
    }

-- Whatever `postIn` returns, with the default guard and balanced entries it keeps the invariant.
pub post_in-Inv :
    (input : PostTxnInput) (es : List NormalisedEntry) (reversal : Option ℕ) (db : Db)
    {r : PostResult} {db' : Db}
    → input.enforce_non_negative ≡ none
    → plus_all (pos 0) (amounts es) ≡ pos 0
    → Inv db
    → post_in input es reversal db ≡ ok (r, db')
    → Inv db'
post_in-Inv input es reversal db default zero_sum inv h =
    elim (post_in-Ended input es reversal db inv.accounts_inv h) [
      | replayed found old same ↦ subst Inv (sym same) inv
      | wrote absent passed new ↦
          subst Inv (sym (ap (λ x. x.1) new))
            (create-Inv input es reversal db default zero_sum inv absent passed)
    ]

balance_absent :
    (q : LedgerAccountRef) (db : Db) → find_account q db.accounts ≡ none → balance q db ≡ pos 0
unfolding balance
balance_absent q db h = rw (h, balance)

pub balance_found :
    (q : LedgerAccountRef) (db : Db) (a : LedgerAccount)
    → find_account q db.accounts ≡ some a
    → balance q db ≡ sum_account a.id db.entries
unfolding balance
balance_found q db a h = rw (h, balance)

-- The write moves each balance by the net movement of the entries on its account.
create-balance :
    (input : PostTxnInput) (es : List NormalisedEntry) (reversal : Option ℕ) (db : Db)
    (q : LedgerAccountRef)
    → DbAccountsInv db
    → balance q (create_txn input reversal (prepared es db).0 es (prepared es db).1).1
      ≡ balance q db +ℤ delta q es
unfolding create_txn
create-balance input es reversal db q inv =
    let s = prepared es db in
    let p = prepared-Resolved es db inv in
    let after = (create_txn input reversal s.0 es s.1).1 in
    let same = p.extends.same_balance q in
    elim (Option-cases (find_account q s.1.accounts)) [
      | inl absent ↦
          balance_absent q after absent
          ∙ sym (
              ap₂ ◌+ℤ◌ (sym same ∙ balance_absent q s.1 absent)
                (delta_uncovered s.0 s.1 es q p.caches p.covers absent)
              ∙ zero_+ℤ (pos 0))
      | inr (a, found) ↦
          balance_found q after a found
          ∙ sum_of-append (of_account a.id) s.1.entries (rows s.1.next_id s.0 es)
          ∙ ap₂ ◌+ℤ◌ (sym (balance_found q s.1 a found) ∙ same)
              (sum_account-rows s.1.next_id s.0 s.1 es q a p.inv p.caches p.covers found)
    ]

create-created :
    (input : PostTxnInput) (reversal : Option ℕ) (m : AccountMap LedgerAccount)
    (es : List NormalisedEntry) (db : Db)
    → (create_txn input reversal m es db).0.created ≡ true
unfolding create_txn
create-created input reversal m es db = refl

-- `postIn` moves every balance by the net movement of its account if it wrote, and by nothing if
-- the key was known.
pub post_in_balance :
    (input : PostTxnInput) (es : List NormalisedEntry) (reversal : Option ℕ) (db : Db)
    {r : PostResult} {db' : Db}
    → Inv db
    → post_in input es reversal db ≡ ok (r, db')
    → (q : LedgerAccountRef)
    → balance q db' ≡ (if r.created then balance q db +ℤ delta q es else balance q db)
post_in_balance input es reversal db {r} {db'} inv h q =
    elim (post_in-Ended input es reversal db inv.accounts_inv h) [
      | replayed found old same ↦ rw (old, same)
      | wrote absent passed new ↦
          rw
            (ap (λ x. x.0.created) new
              ∙ create-created input reversal (prepared es db).0 es (prepared es db).1)
            (ap (λ x. balance q x.1) new ∙ create-balance input es reversal db q inv.accounts_inv)
    ]

find_by_key_created :
    (input : PostTxnInput) (es : List NormalisedEntry) (reversal : Option ℕ)
    (m : AccountMap LedgerAccount) (db : Db)
    → find_by_key input.idempotency_key db ≡ none
    → find_by_key input.idempotency_key (create_txn input reversal m es db).1
      ≡ some (create_txn input reversal m es db).0.txn
unfolding create_txn find_by_key
find_by_key_created input es reversal m db absent =
    find-append_none (λ t. same_key t.idempotency_key input.idempotency_key) db.txns
      (new_txn input reversal db.next_id) absent
      (same_refl LedgerKey-discrete input.idempotency_key)

-- What `postIn` returned is what its key finds afterwards.
pub post_in_recorded :
    (input : PostTxnInput) (es : List NormalisedEntry) (reversal : Option ℕ) (db : Db)
    {r : PostResult} {db' : Db}
    → DbAccountsInv db
    → post_in input es reversal db ≡ ok (r, db')
    → find_by_key input.idempotency_key db' ≡ some r.txn
post_in_recorded input es reversal db {r} {db'} inv h =
    elim (post_in-Ended input es reversal db inv h) [
      | replayed found old same ↦ ap (find_by_key input.idempotency_key) same ∙ found
      | wrote absent passed new ↦
          ap (λ x. find_by_key input.idempotency_key x.1) new
          ∙ find_by_key_created input es reversal (prepared es db).0 (prepared es db).1 (
              find_by_key-txns input.idempotency_key (prepared es db).1 db
                (prepared-Resolved es db inv).extends.same_txns
              ∙ absent)
          ∙ ap (λ x. some x.0.txn) (sym new)
    ]
