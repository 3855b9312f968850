-- ===== src/Reconciliation/Open.antt =====
-- The items and the intents that a run leaves in place
-- (src/modules/reconciliation/reconciliation.service.ts).
use alke_finance_backend.Base.{
  ℕ, ◌≡◌, refl, sym, subst, ◌∙◌, inl, inr, ◌==◌, Bool, true, false, ◌&&◌, Bool-cases, Option,
  Option-cases, some, List, [], ◌∷◌, ◌++◌, any, find, Text, Text-discrete, same_refl, arith,
  if◌then◌else◌,
}
use alke_finance_backend.Money.{Decimal}
use alke_finance_backend.Payments.{PaymentIntent, is_paid, update_intent, set_paid}
use alke_finance_backend.Brokerage.Csv.{eq_text}
use alke_finance_backend.Brokerage.Csv.Formats.{CshLine}
use alke_finance_backend.Reconciliation.{
  Reason, ReconciliationItem, is_opened, update_items, by_external_ref,
}
use alke_finance_backend.Reconciliation.Daily.{
  Desk, external_ref, open_item, close_matched_item, find_last,
}

module _ {A : Type 0} (p : A → Bool) where
  pub any-append : (xs ys : List A) → any p xs ≡ true → any p (xs ++ ys) ≡ true
  any-append [] ys h = cc
  any-append (x ∷ xs) ys h = ground (arith, any-append xs ys)

  any_last : (xs : List A) (y : A) → p y ≡ true → any p (xs ++ y ∷ []) ≡ true
  any_last [] y h = ground arith
  any_last (x ∷ xs) y h = ground (arith, any_last xs y h)

  pub any_found :
      (test : A → Bool) (xs : List A) (x : A) → find test xs ≡ some x → p x ≡ true → any p xs ≡ true
  any_found test [] x h k = cc
  any_found test (y ∷ xs) x h k = elim (Bool-cases (test y)) [
    | inl e ↦ ground (arith, subst (λ z. p z ≡ true) (sym (some_same (rw e at h))) k)
    | inr e ↦ ground (arith, any_found test xs x (rw e at h) k)
  ]
    where
      some_same : {a b : A} → some a ≡ some b → a ≡ b
      some_same e = cc

some_same : {A : Type 0} {a b : A} → some a ≡ some b → a ≡ b
some_same e = cc

pub found_passes :
    {A : Type 0} (test : A → Bool) (xs : List A) (x : A) → find test xs ≡ some x → test x ≡ true
found_passes test [] x h = cc
found_passes test (y ∷ xs) x h = elim (Bool-cases (test y)) [
  | inl e ↦ subst (λ z. test z ≡ true) (some_same (rw e at h)) e
  | inr e ↦ found_passes test xs x (rw e at h)
]

-- What is found last passes the test, and is in the list.
pub last_passes :
    {A : Type 0} (test p : A → Bool) (xs : List A) (x : A)
    → find_last test xs ≡ some x
    → (p x ≡ true → any p xs ≡ true) × (test x ≡ true)
unfolding find_last
last_passes test p [] x h = cc
last_passes test p (y ∷ xs) x h = elim (Option-cases (find_last test xs)) [
  | inr (z, found) ↦
      let found_x = found ∙ (rw (found, find_last) at h) in
      let (held, passes) = last_passes test p xs x found_x in (λ k. ground (arith, held k), passes)
  | inl absent ↦ elim (Bool-cases (test y)) [
    | inl e ↦
        let same_row : y ≡ x = some_same (rw (absent, e) at h) in
        (
          λ k. ground (arith, subst (λ z. p z ≡ true) (sym same_row) k),
          subst (λ z. test z ≡ true) same_row e,
        )
    | inr e ↦ cc (rw (absent, e) at h)
  ]
]

-- The item with the id, filed for the line.
abbrev pub is_item : CshLine → ℕ → ReconciliationItem → Bool
is_item line id i = (i.id == id) && eq_text i.external_ref (external_ref line)

pub update_items-any :
    (p test : ReconciliationItem → Bool) (f : ReconciliationItem → ReconciliationItem)
    → ((i : ReconciliationItem) → p i ≡ true → p (f i) ≡ true)
    → (is : List ReconciliationItem) → any p is ≡ true
    → any p (update_items test f is) ≡ true
unfolding update_items
update_items-any p test f kept [] h = cc
update_items-any p test f kept (i ∷ is) h =
    ground (arith, kept i, update_items-any p test f kept is)

-- Every item stays filed for its line.
abbrev pub Stays : List ReconciliationItem → List ReconciliationItem → Type 0
Stays is is' =
    (line : CshLine) (id : ℕ) → any (is_item line id) is ≡ true → any (is_item line id) is' ≡ true

pub eqb_refl : (n : ℕ) → (n == n) ≡ true
eqb_refl n = ground arith

text_refl : (t : Text) → eq_text t t ≡ true
text_refl t = same_refl Text-discrete t

pub both_hold : (a b : Bool) → a ≡ true → b ≡ true → (a && b) ≡ true
both_hold a b h k = ground arith

pub open_item-Filed :
    (line : CshLine) (amount : Decimal) (currency : Text) (reason : Reason)
    (intent : Option PaymentIntent) (d : Desk)
    → let r = open_item line amount currency reason intent d in
      (any (is_item line r.0) r.1.items ≡ true)
      × Stays d.items r.1.items
      × (r.1.payments ≡ d.payments)
unfolding open_item by_external_ref
open_item-Filed line amount currency reason intent d =
    elim (Option-cases (by_external_ref (external_ref line) d.items)) [
      | inl h ↦
          rw (h, open_item)
            (
              any_last (is_item line d.next_id) d.items _
                  (both_hold _ _ (eqb_refl d.next_id) (text_refl (external_ref line))),
              λ l id k. any-append (is_item l id) d.items _ k,
              refl,
            )
      | inr (item, h) ↦
          rw (h, open_item)
            (
              open_reason (is_opened item.state) line item.id (
                  any_found (is_item line item.id) _ d.items item h
                    (both_hold _ _ (eqb_refl item.id) (found_passes _ d.items item h))),
              open_reason (is_opened item.state),
              refl,
            )
    ]
  where
    open_reason :
        (b : Bool)
        → Stays d.items (
            if b
            then update_items
                (λ i. eq_text i.external_ref (external_ref line))
                (λ i. record i { reason = reason })
                d.items
            else d.items)
    open_reason true l id h =
        update_items-any (is_item l id) (λ i. eq_text i.external_ref (external_ref line))
          (λ i. record i { reason = reason }) (λ i k. k) d.items h
    open_reason false l id h = h

pub close_matched_item-Stays :
    (line : CshLine) (i : PaymentIntent) (d : Desk)
    → Stays d.items (close_matched_item line i d).items
unfolding close_matched_item
close_matched_item-Stays line i d l id h = update_items-any (is_item l id) _ _ (λ x k. k) d.items h

-- The intent with the id, paid.
abbrev pub is_paid_intent : ℕ → PaymentIntent → Bool
is_paid_intent id i = (i.id == id) && is_paid i.state

pub update_intent-any :
    (p : PaymentIntent → Bool) (id : ℕ) (f : PaymentIntent → PaymentIntent)
    → ((i : PaymentIntent) → p i ≡ true → p (f i) ≡ true)
    → (is : List PaymentIntent) → any p is ≡ true
    → any p (update_intent id f is) ≡ true
unfolding update_intent
update_intent-any p id f kept [] h = cc
update_intent-any p id f kept (i ∷ is) h = ground (arith, kept i, update_intent-any p id f kept is)

pub set_paid-any :
    (id txn : ℕ) (is : List PaymentIntent)
    → any (λ i. i.id == id) is ≡ true
    → any (is_paid_intent id) (update_intent id (set_paid txn) is) ≡ true
unfolding update_intent
set_paid-any id txn [] h = cc
set_paid-any id txn (i ∷ is) h = ground (arith, set_paid-any id txn is)
