-- ===== src/Ledger/Invariant.antt =====
-- What is to hold of the ledger's tables between two calls, and the writes of `postIn`
-- (src/modules/ledger/ledger.service.ts).
use alke_finance_backend.Base.{
  ℕ, suc, ◌+◌, ◌≤◌, ◌<◌, ◌≡◌, refl, ap, sym, ◌∙◌, inl, inr, pos, ◌≤ℤ◌, arith, true, false, Option,
  none, some, is_some, List, [], ◌∷◌, ◌++◌, All, All-append, All-weaken, All-weaken₂, find, any,
  Bool-cases, Option-cases, same→eq, subst, if◌then◌else◌, ok, err, bad_request, +ℤ_zero,
}
use mathlib.Core.Bool.{false≢true}
use alke_finance_backend.Ledger.Types.{
  LedgerAccountRef, LedgerKey, LedgerKey-discrete, PostTxnInput, LedgerAccount, LedgerTxn, Db,
  same_ref, same_key, is_user,
}
use alke_finance_backend.Ledger.Store.{
  find_by_key, find_account, find_account_by_id, sum_of, sum_account, of_account, of_txn,
}
use alke_finance_backend.Ledger.Posting.{
  NormalisedEntry, AccountMap, lookup, account_id, rows, overdraws, user_refs, guarded, resolve,
  create_txn, post_locked, post_in,
}
use alke_finance_backend.Ledger.Sums.{sum_of-append, All-find}
use alke_finance_backend.Ledger.Resolving.{
  AccountsInv, DbAccountsInv, Caches, Covers, Resolved, resolve-Resolved,
}
use alke_finance_backend.Ledger.Effect.{sum_account-rows, guarded_or_still, overdraws-false}

-- How many transactions carry a key.
abbrev pub count_key : LedgerKey → List LedgerTxn → ℕ
count_key k [] = 0
count_key k (t ∷ ts) = (if same_key t.idempotency_key k then 1 else 0) + count_key k ts

pub record Inv (db : Db) : Type 0 where
  pub accounts_inv : DbAccountsInv db
  pub balanced : (t : ℕ) → sum_of (of_txn t) db.entries ≡ pos 0
  pub keys : (k : LedgerKey) → count_key k db.txns ≤ 1

-- The tables and the map behind the first loop of `postIn`.
abbrev pub prepared : List NormalisedEntry → Db → AccountMap LedgerAccount × Db
prepared es db = resolve es ([], db)

no_rows :
    (db : Db) (q : LedgerAccountRef) (b : LedgerAccount)
    → lookup q [] ≡ some b
    → find_account q db.accounts ≡ some b
unfolding lookup
no_rows db q b h = cc

pub prepared-Resolved :
    (es : List NormalisedEntry) (db : Db) → DbAccountsInv db → Resolved [] db es (prepared es db)
prepared-Resolved es db inv = resolve-Resolved es [] db inv (no_rows db)

pub find_by_key-txns :
    (k : LedgerKey) (a b : Db) → a.txns ≡ b.txns → find_by_key k a ≡ find_by_key k b
unfolding find_by_key
find_by_key-txns k a b h = ap (find (λ t. same_key t.idempotency_key k)) h

-- Under a new key `postIn` throws or writes, by the non-negative rule.
pub post_in_new :
    (input : PostTxnInput) (es : List NormalisedEntry) (reversal : Option ℕ) (db : Db)
    → DbAccountsInv db
    → find_by_key input.idempotency_key db ≡ none
    → let (m, db') = prepared es db in
      post_in input es reversal db ≡ (
        if any (overdraws m es db'.entries) (guarded input es)
        then err (bad_request "Solde insuffisant.")
        else ok (create_txn input reversal m es db'))
unfolding post_in post_locked
post_in_new input es reversal db inv absent =
    let txns = (prepared-Resolved es db inv).extends.same_txns in
    rw (absent, post_in)
      (rw (find_by_key-txns input.idempotency_key (prepared es db).1 db txns ∙ absent, post_locked))

pub find_account_test :
    (r : LedgerAccountRef) (db : Db) (b : LedgerAccount)
    → find_account r db.accounts ≡ some b
    → find (λ x. same_ref x.ref r) db.accounts ≡ some b
unfolding find_account
find_account_test r db b h = h

-- What the map has for a row's reference is that row.
lookup_row :
    (m : AccountMap LedgerAccount) (db : Db) (a : LedgerAccount)
    → Caches m db
    → find_account a.ref db.accounts ≡ some a
    → is_some (lookup a.ref m) ≡ true
    → lookup a.ref m ≡ some a
lookup_row m db a caches row there = elim (Option-cases (lookup a.ref m)) [
  | inl absent ↦ absurd (false≢true (rw absent at there))
  | inr (b, found) ↦ found ∙ sym (caches a.ref b found) ∙ row
]

account_id_found :
    (m : AccountMap LedgerAccount) (r : LedgerAccountRef) (b : LedgerAccount)
    → lookup r m ≡ some b
    → account_id m r ≡ b.id
unfolding account_id
account_id_found m r b h = rw (h, account_id)

rows_below :
    (t : ℕ) (m : AccountMap LedgerAccount) (es : List NormalisedEntry) (db : Db)
    → DbAccountsInv db
    → Caches m db
    → Covers m es
    → All (λ e. e.account_id < suc db.next_id) (rows t m es)
unfolding rows
rows_below t m [] db inv caches covers = tt
rows_below t m (e ∷ es) db inv caches covers = elim (Option-cases (lookup e.ref m)) [
  | inl absent ↦ absurd (false≢true (rw absent at covers.0))
  | inr (b, found) ↦
      let below =
        All-find (λ x. same_ref x.ref e.ref) (λ x. x.id < db.next_id) db.accounts inv.ids_below
          (find_account_test e.ref db b (caches e.ref b found)) in
      (
        rw (account_id_found m e.ref b found) (omega arith),
        rows_below t m es db inv caches covers.1,
      )
]

rows_known :
    (t : ℕ) (m : AccountMap LedgerAccount) (es : List NormalisedEntry) (db : Db)
    → DbAccountsInv db
    → Caches m db
    → Covers m es
    → All (λ e. is_some (find_account_by_id e.account_id db.accounts) ≡ true) (rows t m es)
unfolding rows
rows_known t m [] db inv caches covers = tt
rows_known t m (e ∷ es) db inv caches covers = elim (Option-cases (lookup e.ref m)) [
  | inl absent ↦ absurd (false≢true (rw absent at covers.0))
  | inr (b, found) ↦
      let known =
        All-find (λ x. same_ref x.ref e.ref) (λ x. find_account_by_id x.id db.accounts ≡ some x)
          db.accounts inv.ids (find_account_test e.ref db b (caches e.ref b found)) in
      (
        rw (account_id_found m e.ref b found) (ap is_some known),
        rows_known t m es db inv caches covers.1,
      )
]

-- The balance of a user's row after the write.
user_stays_nonneg :
    (t : ℕ) (m : AccountMap LedgerAccount) (es : List NormalisedEntry) (db : Db) (a : LedgerAccount)
    → DbAccountsInv db
    → Caches m db
    → Covers m es
    → any (overdraws m es db.entries) (user_refs es) ≡ false
    → find_account a.ref db.accounts ≡ some a
    → is_user a.ref.owner_type ≡ true
    → pos 0 ≤ℤ sum_account a.id db.entries
    → pos 0 ≤ℤ sum_account a.id (db.entries ++ rows t m es)
user_stays_nonneg t m es db a inv caches covers guard row user before =
    rw (sum_of-append (of_account a.id) db.entries (rows t m es)) (
      rw (sum_account-rows t m db es a.ref a inv caches covers row)
        (elim (guarded_or_still (overdraws m es db.entries) m es a.ref user guard covers) [
          | inl (passed, there) ↦
              overdraws-false m es db.entries a.ref a (lookup_row m db a caches row there) passed
                before
          | inr still ↦ rw (still, +ℤ_zero) before
        ]))

-- The account table after the write.
pub AccountsInv-write :
    (t : ℕ) (m : AccountMap LedgerAccount) (es : List NormalisedEntry) (db : Db)
    → DbAccountsInv db
    → Caches m db
    → Covers m es
    → any (overdraws m es db.entries) (user_refs es) ≡ false
    → AccountsInv db.accounts (suc db.next_id) (db.entries ++ rows t m es)
AccountsInv-write t m es db inv caches covers guard = record {
  refs = inv.refs;
  ids = inv.ids;
  ids_below = All-weaken _ _ db.accounts (λ x h. omega arith) inv.ids_below;
  entries_below =
      All-append _ db.entries (rows t m es)
        (All-weaken _ _ db.entries (λ e h. omega arith) inv.entries_below)
        (rows_below t m es db inv caches covers);
  entries_known =
      All-append _ db.entries (rows t m es) inv.entries_known
        (rows_known t m es db inv caches covers);
  user_nonneg =
      All-weaken₂ _ _ _ db.accounts
        (λ a row old user.
          user_stays_nonneg t m es db a inv caches covers guard row user (old user))
        inv.refs inv.user_nonneg;
}

count_key-absent :
    (k : LedgerKey) (ts : List LedgerTxn)
    → find (λ t. same_key t.idempotency_key k) ts ≡ none
    → count_key k ts ≡ 0
count_key-absent k [] h = refl
count_key-absent k (t ∷ ts) h = elim (Bool-cases (same_key t.idempotency_key k)) [
  | inl e ↦ absurd (false≢true (sym (ap is_some (rw e at h))))
  | inr e ↦ rw e (omega (arith, count_key-absent k ts (rw e at h)))
]

count_key-append :
    (k : LedgerKey) (ts us : List LedgerTxn)
    → count_key k (ts ++ us) ≡ count_key k ts + count_key k us
count_key-append k [] us = omega arith
count_key-append k (t ∷ ts) us = rw (count_key-append k ts us) (omega arith)

pub keys-write :
    (t : LedgerTxn) (ts : List LedgerTxn)
    → find (λ u. same_key u.idempotency_key t.idempotency_key) ts ≡ none
    → ((k : LedgerKey) → count_key k ts ≤ 1)
    → (k : LedgerKey) → count_key k (ts ++ t ∷ []) ≤ 1
keys-write t ts absent old k =
    rw (count_key-append k ts (t ∷ [])) (elim (Bool-cases (same_key t.idempotency_key k)) [
      | inl e ↦
          let tk = same→eq LedgerKey-discrete t.idempotency_key k e in
          let z =
            count_key-absent k ts
              (subst (λ q. find (λ u. same_key u.idempotency_key q) ts ≡ none) tk absent) in
          rw (e, z) (omega arith)
      | inr n ↦ rw n (omega (arith, old k))
    ])
