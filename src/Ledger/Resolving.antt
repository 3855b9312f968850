-- ===== src/Ledger/Resolving.antt =====
-- Resolving the accounts of a transaction (`ensureAccount`, the first loop of `postIn`).
use alke_finance_backend.Base.{
  ℕ, suc, ◌<◌, ◌≡◌, refl, ap, ◌∙◌, inl, inr, pos, ◌≤ℤ◌, arith, true, none, some, is_some, List, [],
  ◌∷◌, ◌++◌, All, All-append, All-weaken, Bool-cases, Option-cases, ==_iff, ◌==◌, same→eq,
  same_refl, subst, if◌then◌else◌,
}
use alke_finance_backend.Ledger.Types.{
  LedgerAccountRef, LedgerAccountRef-discrete, LedgerAccount, LedgerEntry, Db, same_ref, is_user,
}
use alke_finance_backend.Ledger.Store.{
  find_account, find_account_by_id, ensure_account, create_account, balance, sum_account,
}
use alke_finance_backend.Ledger.Posting.{NormalisedEntry, AccountMap, lookup, resolve_one, resolve}
use alke_finance_backend.Ledger.Sums.{
  sum_account_fresh, find-append_some, find-append_none, is_some-find-append, find-append_neither,
}

-- What the account table promises: one row for each reference and each id, ids that were handed
-- out, entries that point below the next id, and no user below zero.
pub record AccountsInv (accounts : List LedgerAccount) (next : ℕ) (entries : List LedgerEntry)
    : Type 0 where
  pub refs : All (λ a. find_account a.ref accounts ≡ some a) accounts
  pub ids : All (λ a. find_account_by_id a.id accounts ≡ some a) accounts
  pub ids_below : All (λ a. a.id < next) accounts
  pub entries_below : All (λ e. e.account_id < next) entries
  pub entries_known : All (λ e. is_some (find_account_by_id e.account_id accounts) ≡ true) entries
  pub user_nonneg :
      All (λ a. is_user a.ref.owner_type ≡ true → pos 0 ≤ℤ sum_account a.id entries) accounts

find_by_id_fresh :
    (next : ℕ) (accounts : List LedgerAccount)
    → All (λ a. a.id < next) accounts
    → find_account_by_id next accounts ≡ none
unfolding find_account_by_id
find_by_id_fresh next [] h = refl
find_by_id_fresh next (a ∷ as') h = ground (arith, find_by_id_fresh next as' h.1)

pub AccountsInv-create :
    (accounts : List LedgerAccount) (next : ℕ) (entries : List LedgerEntry) (r : LedgerAccountRef)
    → AccountsInv accounts next entries
    → find_account r accounts ≡ none
    → AccountsInv (accounts ++ record { id = next; ref = r } ∷ []) (suc next) entries
unfolding find_account find_account_by_id
AccountsInv-create accounts next entries r inv absent =
    let a : LedgerAccount = record { id = next; ref = r } in
    record {
      refs =
          All-append _ accounts (a ∷ [])
            (All-weaken _ _ accounts
              (λ x. find-append_some (λ y. same_ref y.ref x.ref) accounts (a ∷ [])) inv.refs)
            (
              find-append_none (λ y. same_ref y.ref r) accounts a absent
                  (same_refl LedgerAccountRef-discrete r),
              tt,
            );
      ids =
          All-append _ accounts (a ∷ [])
            (All-weaken _ _ accounts (λ x. find-append_some (λ y. y.id == x.id) accounts (a ∷ []))
              inv.ids)
            (
              find-append_none (λ y. y.id == next) accounts a
                  (find_by_id_fresh next accounts inv.ids_below) ((==_iff next next).1 refl),
              tt,
            );
      ids_below =
          All-append _ accounts (a ∷ [])
            (All-weaken _ _ accounts (λ x h. omega arith) inv.ids_below) (omega arith);
      entries_below = All-weaken _ _ entries (λ e h. omega arith) inv.entries_below;
      entries_known =
          All-weaken _ _ entries
            (λ e. is_some-find-append (λ y. y.id == e.account_id) accounts (a ∷ []))
            inv.entries_known;
      user_nonneg =
          All-append _ accounts (a ∷ []) inv.user_nonneg
            ((λ _. rw (sum_account_fresh next entries inv.entries_below) (omega arith)), tt);
    }

abbrev pub DbAccountsInv : Db → Type 0
DbAccountsInv db = AccountsInv db.accounts db.next_id db.entries

-- A row that is there stays there; nothing but accounts is written.
pub record Extends (db db' : Db) : Type 0 where
  pub same_entries : db'.entries ≡ db.entries
  pub same_txns : db'.txns ≡ db.txns
  pub keeps :
      (q : LedgerAccountRef) (b : LedgerAccount)
      → find_account q db.accounts ≡ some b
      → find_account q db'.accounts ≡ some b
  pub same_balance : (q : LedgerAccountRef) → balance q db' ≡ balance q db

pub Extends-trans : (a b c : Db) → Extends a b → Extends b c → Extends a c
Extends-trans a b c h k = record {
  same_entries = k.same_entries ∙ h.same_entries;
  same_txns = k.same_txns ∙ h.same_txns;
  keeps = λ q x e. k.keeps q x (h.keeps q x e);
  same_balance = λ q. k.same_balance q ∙ h.same_balance q;
}

Extends-refl : (a : Db) → Extends a a
Extends-refl a = record {
  same_entries = refl;
  same_txns = refl;
  keeps = λ q b e. e;
  same_balance = λ q. refl;
}

-- A row that was just created changes no balance.
balance-create :
    (q r : LedgerAccountRef) (db : Db)
    → DbAccountsInv db
    → find_account r db.accounts ≡ none
    → balance q (create_account r db).1 ≡ balance q db
unfolding balance find_account
balance-create q r db inv absent = elim (Option-cases (find_account q db.accounts)) [
  | inl e ↦ elim (Bool-cases (same_ref r q)) [
    | inl s ↦
        rw
          (
            find-append_none (λ y. same_ref y.ref q) db.accounts (create_account r db).0 e s,
            balance,
          )
          (rw (e, balance) (sum_account_fresh db.next_id db.entries inv.entries_below))
    | inr n ↦
        rw
          (
            find-append_neither (λ y. same_ref y.ref q) db.accounts (create_account r db).0 e n,
            balance,
          )
          (rw (e, balance))
  ]
  | inr (a, e) ↦
      rw
        (
          find-append_some (λ y. same_ref y.ref q) db.accounts ((create_account r db).0 ∷ []) e,
          balance,
        )
        (rw (e, balance))
]

record Ensured (r : LedgerAccountRef) (db : Db) (s : LedgerAccount × Db) : Type 0 where
  inv : DbAccountsInv s.1
  found : find_account r s.1.accounts ≡ some s.0
  extends : Extends db s.1

ensure_account-Ensured :
    (r : LedgerAccountRef) (db : Db) → DbAccountsInv db → Ensured r db (ensure_account r db)
unfolding ensure_account find_account
ensure_account-Ensured r db inv = elim (Option-cases (find_account r db.accounts)) [
  | inl e ↦
      rw (e, ensure_account)
        (record {
          inv = AccountsInv-create db.accounts db.next_id db.entries r inv e;
          found =
              find-append_none (λ y. same_ref y.ref r) db.accounts _ e
                (same_refl LedgerAccountRef-discrete r);
          extends = record {
            same_entries = refl;
            same_txns = refl;
            keeps = λ q b h. find-append_some (λ y. same_ref y.ref q) db.accounts _ h;
            same_balance = λ q. balance-create q r db inv e;
          };
        })
  | inr (a, e) ↦ rw (e, ensure_account) (record { inv = inv; found = e; extends = Extends-refl db })
]

-- The map holds rows of the table, under their references.
abbrev pub Caches : AccountMap LedgerAccount → Db → Type 0
Caches m db =
    (q : LedgerAccountRef) (b : LedgerAccount)
    → lookup q m ≡ some b
    → find_account q db.accounts ≡ some b

-- The map has a row for the account of each entry.
abbrev pub Covers : AccountMap LedgerAccount → List NormalisedEntry → Type 0
Covers m = All (λ e. is_some (lookup e.ref m) ≡ true)

abbrev Grows : AccountMap LedgerAccount → AccountMap LedgerAccount → Type 0
Grows m m' = (q : LedgerAccountRef) → is_some (lookup q m) ≡ true → is_some (lookup q m') ≡ true

pub record Resolved (m : AccountMap LedgerAccount) (db : Db) (es : List NormalisedEntry)
    (s : AccountMap LedgerAccount × Db) : Type 0 where
  pub inv : DbAccountsInv s.1
  pub caches : Caches s.0 s.1
  pub covers : Covers s.0 es
  pub grows : Grows m s.0
  pub extends : Extends db s.1

lookup-cons :
    (q r : LedgerAccountRef) (a : LedgerAccount) (m : AccountMap LedgerAccount)
    → lookup q ((r, a) ∷ m) ≡ (if same_ref r q then some a else lookup q m)
unfolding lookup
lookup-cons q r a m = refl

grows-cons :
    (q r : LedgerAccountRef) (a : LedgerAccount) (m : AccountMap LedgerAccount)
    → is_some (lookup q m) ≡ true
    → is_some (lookup q ((r, a) ∷ m)) ≡ true
unfolding lookup
grows-cons q r a m h = ground arith

Caches-cons :
    (r : LedgerAccountRef) (a : LedgerAccount) (m : AccountMap LedgerAccount) (db : Db)
    → find_account r db.accounts ≡ some a
    → Caches m db
    → Caches ((r, a) ∷ m) db
unfolding lookup
Caches-cons r a m db row h q b e = elim (Bool-cases (same_ref r q)) [
  | inl s ↦
      subst (λ x. find_account x db.accounts ≡ some b) (same→eq LedgerAccountRef-discrete r q s)
        (row ∙ rw s at e)
  | inr n ↦ h q b (rw n at e)
]

resolve_one-Resolved :
    (e : NormalisedEntry) (m : AccountMap LedgerAccount) (db : Db)
    → DbAccountsInv db
    → Caches m db
    → Resolved m db (e ∷ []) (resolve_one e (m, db))
unfolding resolve_one
resolve_one-Resolved e m db inv caches = elim (Option-cases (lookup e.ref m)) [
  | inl absent ↦
      let s = ensure_account e.ref db in
      let d = ensure_account-Ensured e.ref db inv in
      rw (absent, resolve_one)
        (record {
          inv = d.inv;
          caches =
              Caches-cons e.ref s.0 m s.1 d.found (λ q b h. d.extends.keeps q b (caches q b h));
          covers =
              (rw (lookup-cons e.ref e.ref s.0 m, same_refl LedgerAccountRef-discrete e.ref), tt);
          grows = λ q h. grows-cons q e.ref s.0 m h;
          extends = d.extends;
        })
  | inr (a, found) ↦
      rw (found, resolve_one)
        (record {
          inv = inv;
          caches = caches;
          covers = (ap is_some found, tt);
          grows = λ q h. h;
          extends = Extends-refl db;
        })
]

pub resolve-Resolved :
    (es : List NormalisedEntry) (m : AccountMap LedgerAccount) (db : Db)
    → DbAccountsInv db
    → Caches m db
    → Resolved m db es (resolve es (m, db))
unfolding resolve
resolve-Resolved [] m db inv caches = record {
  inv = inv;
  caches = caches;
  covers = tt;
  grows = λ q h. h;
  extends = Extends-refl db;
}
resolve-Resolved (e ∷ es) m db inv caches =
    let s = resolve_one e (m, db) in
    let one = resolve_one-Resolved e m db inv caches in
    let rest =
      resolve-Resolved es (resolve_one e (m, db)).0 (resolve_one e (m, db)).1 one.inv one.caches in
    record {
      inv = rest.inv;
      caches = rest.caches;
      covers = (rest.grows e.ref one.covers.0, rest.covers);
      grows = λ q h. rest.grows q (one.grows q h);
      extends = Extends-trans db s.1 _ one.extends rest.extends;
    }
