-- ===== src/Ledger/Sums.antt =====
-- Sums over entries, and lookups in the tables (src/modules/ledger/ledger.service.ts).
use alke_finance_backend.Base.{
  ℕ, ◌<◌, ◌≡◌, refl, ◌⊎◌, inl, inr, pos, ◌+ℤ◌, arith, +ℤ_assoc, zero_+ℤ, Bool, true, false, none,
  some, is_some, ap, subst, List, [], ◌∷◌, ◌++◌, All, find, Bool-cases, Option-cases, same→eq,
}
use mathlib.Core.Bool.{false≢true}
use alke_finance_backend.Ledger.Types.{
  LedgerAccountRef, LedgerAccountRef-discrete, LedgerAccount, LedgerEntry, same_ref,
}
use alke_finance_backend.Ledger.Store.{find_account, sum_of, sum_account}

pub sum_of-append :
    (test : LedgerEntry → Bool) (xs ys : List LedgerEntry)
    → sum_of test (xs ++ ys) ≡ sum_of test xs +ℤ sum_of test ys
unfolding sum_of
sum_of-append test [] ys = rw zero_+ℤ
sum_of-append test (x ∷ xs) ys = rw (sum_of-append test xs ys, +ℤ_assoc)

-- An id that no entry points to yet has nothing on it.
pub sum_account_fresh :
    (id : ℕ) (es : List LedgerEntry) → All (λ e. e.account_id < id) es → sum_account id es ≡ pos 0
unfolding sum_of
sum_account_fresh id [] h = refl
sum_account_fresh id (e ∷ es) h =
    ground (arith, zero_+ℤ (sum_account id es), sum_account_fresh id es h.1)

module _ {ℓ} {A : Type ℓ} (test : A → Bool) where
  pub find-cons :
      (x : A) (xs : List A) {a : A}
      → find test (x ∷ xs) ≡ some a
      → ((test x ≡ true) × (x ≡ a)) ⊎ ((test x ≡ false) × (find test xs ≡ some a))
  find-cons x xs {a} h = ground arith

  pub find-append_some :
      (xs ys : List A) {a : A} → find test xs ≡ some a → find test (xs ++ ys) ≡ some a
  find-append_some [] ys h = cc
  find-append_some (x ∷ xs) ys {a} h = elim (find-cons x xs h) [
    | inl here ↦ rw here.0 (ap some here.1)
    | inr there ↦ rw there.0 (find-append_some xs ys there.1)
  ]

  pub is_some-find-append :
      (xs ys : List A) → is_some (find test xs) ≡ true → is_some (find test (xs ++ ys)) ≡ true
  is_some-find-append xs ys h = elim (Option-cases (find test xs)) [
    | inl e ↦ absurd (false≢true (rw e at h))
    | inr (a, e) ↦ ap is_some (find-append_some xs ys e)
  ]

  pub find-append_none :
      (xs : List A) (y : A)
      → find test xs ≡ none
      → test y ≡ true
      → find test (xs ++ y ∷ []) ≡ some y
  find-append_none [] y h t = rw t
  find-append_none (x ∷ xs) y h t = elim (Bool-cases (test x)) [
    | inl e ↦ cc (ap is_some (rw e at h))
    | inr e ↦ rw e (find-append_none xs y (rw e at h) t)
  ]

  pub find-append_neither :
      (xs : List A) (y : A) → find test xs ≡ none → test y ≡ false → find test (xs ++ y ∷ []) ≡ none
  find-append_neither [] y h t = rw t
  find-append_neither (x ∷ xs) y h t = elim (Bool-cases (test x)) [
    | inl e ↦ cc (ap is_some (rw e at h))
    | inr e ↦ rw e (find-append_neither xs y (rw e at h) t)
  ]

  pub find_sound : (xs : List A) {a : A} → find test xs ≡ some a → test a ≡ true
  find_sound [] h = cc
  find_sound (x ∷ xs) h = elim (find-cons x xs h) [
    | inl here ↦ rw (← here.1) here.0
    | inr there ↦ find_sound xs there.1
  ]

  pub All-find {κ} : (P : A → Type κ) (xs : List A) {a : A} → All P xs → find test xs ≡ some a → P a
  All-find P [] all h = absurd (false≢true (ap is_some h))
  All-find P (x ∷ xs) all h = elim (find-cons x xs h) [
    | inl here ↦ subst P here.1 all.0
    | inr there ↦ All-find P xs all.1 there.1
  ]

pub find_account-ref :
    (r : LedgerAccountRef) (xs : List LedgerAccount) {a : LedgerAccount}
    → find_account r xs ≡ some a
    → a.ref ≡ r
unfolding find_account
find_account-ref r xs {a} h =
    same→eq LedgerAccountRef-discrete a.ref r (find_sound (λ x. same_ref x.ref r) xs h)
