-- ===== src/Ledger/Audit.antt =====
-- `verifyInvariants` (src/modules/ledger/ledger.service.ts).
use alke_finance_backend.Base.{
  ℕ, ◌≡◌, ◌↔◌, refl, pos, ◌≤ℤ◌, arith, zero_+ℤ, true, false, List, [], ◌∷◌, All, Text, any, Bool,
  Bool-cases, inl, inr, subst, ==_iff, ◌==◌, ◌&&◌,
}
use alke_finance_backend.Money.{Decimal}
use alke_finance_backend.Ledger.Types.{LedgerAccount, LedgerTxn, LedgerEntry, Db, is_user}
use alke_finance_backend.Ledger.Store.{sum_of, sum_account, of_txn, of_account}
use alke_finance_backend.Ledger.Report.{
  unbalanced_txn_ids, currency_total, unbalanced_currencies, negative_user_accounts,
  verify_invariants, report_ok, is_empty, is_zero,
}
use alke_finance_backend.Ledger.Invariant.{Inv}

unbalanced_txn_ids_nil :
    (all es : List LedgerEntry)
    → ((t : ℕ) → sum_of (of_txn t) all ≡ pos 0)
    → unbalanced_txn_ids all es ≡ []
unfolding unbalanced_txn_ids
unbalanced_txn_ids_nil all [] h = refl
unbalanced_txn_ids_nil all (e ∷ es) h = rw (h e.txn_id) (unbalanced_txn_ids_nil all es h)

currency_total_zero :
    (c : Text) (ts : List LedgerTxn) (es : List LedgerEntry)
    → ((t : ℕ) → sum_of (of_txn t) es ≡ pos 0)
    → currency_total c ts es ≡ pos 0
unfolding currency_total
currency_total_zero c [] es h = refl
currency_total_zero c (t ∷ ts) es h =
    ground (arith, h t.id, currency_total_zero c ts es h, zero_+ℤ (pos 0))

unbalanced_currencies_nil :
    (all ts : List LedgerTxn) (es : List LedgerEntry)
    → ((t : ℕ) → sum_of (of_txn t) es ≡ pos 0)
    → unbalanced_currencies all ts es ≡ []
unfolding unbalanced_currencies
unbalanced_currencies_nil all [] es h = refl
unbalanced_currencies_nil all (t ∷ ts) es h =
    rw (currency_total_zero t.currency all es h) (unbalanced_currencies_nil all ts es h)

negative_user_accounts_nil :
    (as' : List LedgerAccount) (es : List LedgerEntry)
    → All (λ a. is_user a.ref.owner_type ≡ true → pos 0 ≤ℤ sum_account a.id es) as'
    → negative_user_accounts as' es ≡ []
unfolding negative_user_accounts
negative_user_accounts_nil [] es h = refl
negative_user_accounts_nil (a ∷ as') es h =
    ground (arith, h.0, negative_user_accounts_nil as' es h.1)

-- What the check looks for: every transaction's entries add up to zero, and no account of a user is
-- below zero.
pub record IsClean (db : Db) : Type 0 where
  pub balanced : (t : ℕ) → sum_of (of_txn t) db.entries ≡ pos 0
  pub user_nonneg :
      All (λ a. is_user a.ref.owner_type ≡ true → pos 0 ≤ℤ sum_account a.id db.entries) db.accounts

clean_ok : (db : Db) → IsClean db → report_ok (verify_invariants db) ≡ true
unfolding report_ok verify_invariants
clean_ok db clean = rw (unbalanced_txn_ids_nil db.entries db.entries clean.balanced) (
    rw (unbalanced_currencies_nil db.txns db.txns db.entries clean.balanced)
      (rw (negative_user_accounts_nil db.accounts db.entries clean.user_nonneg) refl))

no_entries :
    (test : LedgerEntry → Bool) (es : List LedgerEntry)
    → any test es ≡ false
    → sum_of test es ≡ pos 0
unfolding sum_of
no_entries test [] h = refl
no_entries test (e ∷ es) h = ground (arith, no_entries test es, zero_+ℤ (sum_of test es))

zero_sum : (a : Decimal) → is_zero a ≡ true → a ≡ pos 0
zero_sum a h = ground arith

all_empty : (a b c : Bool) → (a && b && c) ≡ true → (a ≡ true) × (c ≡ true)
all_empty a b c h = ground arith

reported_txn :
    (t : ℕ) (all es : List LedgerEntry)
    → is_empty (unbalanced_txn_ids all es) ≡ true
    → any (of_txn t) es ≡ true
    → sum_of (of_txn t) all ≡ pos 0
unfolding unbalanced_txn_ids
reported_txn t all [] h k = cc
reported_txn t all (e ∷ es) h k = elim (Bool-cases (is_zero (sum_of (of_txn e.txn_id) all))) [
  | inr z ↦ cc (rw z at h)
  | inl z ↦ elim (Bool-cases (e.txn_id == t)) [
    | inl same ↦
        subst (λ x. sum_of (of_txn x) all ≡ pos 0) ((==_iff e.txn_id t).0 same) (zero_sum _ z)
    | inr other ↦ reported_txn t all es (rw z at h) (rw other at k)
  ]
]

reported_account :
    (as' : List LedgerAccount) (es : List LedgerEntry)
    → is_empty (negative_user_accounts as' es) ≡ true
    → All (λ a. is_user a.ref.owner_type ≡ true → pos 0 ≤ℤ sum_account a.id es) as'
unfolding negative_user_accounts
reported_account [] es h = tt
reported_account (a ∷ as') es h = (
  λ user. elim (Bool-cases (any (of_account a.id) es)) [
    | inr none_of ↦ rw (no_entries (of_account a.id) es none_of) (omega arith)
    | inl some_of ↦ ground (arith, h, user, some_of)
  ],
  reported_account as' es (ground (arith, h)),
)

-- `verifyInvariants` reports that all is well exactly when every transaction's entries add up to
-- zero and no account of a user is below zero: it misses nothing, and it raises no false alarm.
pub verify_invariants_iff : (db : Db) → (report_ok (verify_invariants db) ≡ true) ↔ IsClean db
unfolding report_ok verify_invariants
verify_invariants_iff db = (
  λ h.
      let checked = all_empty _ _ _ h in
      record {
        balanced = λ t. elim (Bool-cases (any (of_txn t) db.entries)) [
          | inl held ↦ reported_txn t db.entries db.entries checked.0 held
          | inr held ↦ no_entries (of_txn t) db.entries held
        ];
        user_nonneg = reported_account db.accounts db.entries checked.1;
      },
  clean_ok db,
)

pub verify_invariants_ok : (db : Db) → Inv db → report_ok (verify_invariants db) ≡ true
verify_invariants_ok db inv =
    (verify_invariants_iff db).1
      (record { balanced = inv.balanced; user_nonneg = inv.accounts_inv.user_nonneg })
