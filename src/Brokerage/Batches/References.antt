-- ===== src/Brokerage/Batches/References.antt =====
-- What the writes of a fill keep: the references of executions and the keys of orders
-- (src/modules/brokerage/batches.service.ts).
use alke_finance_backend.Base.{
  ℕ, ℤ, ◌≡◌, refl, ap, ◌∙◌, Bool, true, false, ◌||◌, Option, is_some, List, [], ◌∷◌, ◌++◌, map,
  Text, same, Result, ok, err, Holds, Holds-bind, Holds-if, arith,
}
use alke_finance_backend.Money.{Decimal}
use alke_finance_backend.Brokerage.OrderState.{OrderStatus-discrete, executed, FillResult}
use alke_finance_backend.Brokerage.OrderLedger.{
  Order, Execution, Store, post_fill, release_remaining, set_fill, update_order,
}
use alke_finance_backend.Brokerage.Settlement.{World}
use alke_finance_backend.Brokerage.Csv.{eq_text}
use alke_finance_backend.Brokerage.Batches.{with_orders, release}
use alke_finance_backend.Brokerage.Batches.Fills.{by_ref, filled_row, booked, book_fill, close_fill}

abbrev pub has_ref : Text → List Execution → Bool
has_ref ref es = is_some (by_ref ref es)

pub has_ref-set_fill :
    (ref : Text) (id txn : ℕ) (es : List Execution)
    → has_ref ref (set_fill id txn es) ≡ has_ref ref es
unfolding by_ref set_fill
has_ref-set_fill ref id txn [] = refl
has_ref-set_fill ref id txn (e ∷ es) = ground (arith, has_ref-set_fill ref id txn es)

pub has_ref-append :
    (ref : Text) (es : List Execution) (e : Execution)
    → has_ref ref (es ++ e ∷ []) ≡ has_ref ref es || eq_text e.sdb_exec_ref ref
unfolding by_ref
has_ref-append ref [] e = ground arith
has_ref-append ref (x ∷ es) e = ground (arith, has_ref-append ref es e)

pub or_true : (b : Bool) → (b || true) ≡ true
or_true true = refl
or_true false = refl

-- The ids and batches of the orders, in their order.
abbrev pub keys : List Order → List (ℕ × Option ℕ)
keys os = map (λ o. (o.id, o.batch_id)) os

pub keys-filled_row :
    (id : ℕ) (fill : FillResult) (os : List Order)
    → keys (update_order id (filled_row fill) os) ≡ keys os
unfolding update_order
keys-filled_row id fill [] = refl
keys-filled_row id fill (o ∷ os) = ground (arith, keys-filled_row id fill os)

-- What an operation keeps: every reference, and the keys of the orders.
pub record Keeps (w w' : World) : Type 0 where
  pub refs :
      (ref : Text) → has_ref ref w.store.executions ≡ true → has_ref ref w'.store.executions ≡ true
  pub same_keys : keys w'.store.orders ≡ keys w.store.orders

pub Keeps-refl : (w : World) → Keeps w w
Keeps-refl w = record { refs = λ ref h. h; same_keys = refl }

pub Keeps-trans : {u v w : World} → Keeps u v → Keeps v w → Keeps u w
Keeps-trans f g = record {
  refs = λ ref h. g.refs ref (f.refs ref h);
  same_keys = g.same_keys ∙ f.same_keys;
}

-- The same orders and executions.
abbrev pub SameRows : Store → Store → Type 0
SameRows s s' = (s'.orders ≡ s.orders) × (s'.executions ≡ s.executions)

SameRows-Keeps : (w w' : World) → SameRows w.store w'.store → Keeps w w'
SameRows-Keeps w w' h = record { refs = λ ref k. rw (h.1, k) refl; same_keys = ap keys h.0 }

module _ (prorate : Decimal → Decimal → Decimal → Text → Decimal) where
  -- The rows behind a posting of a fill.
  abbrev Filled : ℕ → Store → ℕ × Store → Type 0
  Filled id s r = (r.1.orders ≡ s.orders) × (r.1.executions ≡ set_fill id r.0 s.executions)

  Filled-Keeps :
      (e : Execution) (w : World) (r : ℕ × Store) (w' : World)
      → Filled e.id w.store r
      → w'.store ≡ r.1
      → Keeps w w'
  Filled-Keeps e w r w' h k = record {
    refs = λ ref t. rw (k, h.1, has_ref-set_fill ref e.id r.0 w.store.executions) t;
    same_keys = rw k (ap keys h.0);
  }

  post_fill-Filled :
      (o : Order) (e : Execution) (partner : ℕ) (currency : Text) (actor : Option ℕ) (s : Store)
      → Holds (Filled e.id s) (post_fill prorate o e partner currency actor s)
  unfolding post_fill Holds
  post_fill-Filled o e partner currency actor s = ground arith

  release_remaining-SameRows :
      (o : Order) (currency : Text) (actor : Option ℕ) (s : Store)
      → Holds (SameRows s) (release_remaining prorate o currency actor s)
  unfolding release_remaining Holds
  release_remaining-SameRows o currency actor s = ground arith

  abbrev pub SameTables : World → World → Type 0
  SameTables w w' = SameRows w.store w'.store

  pub release-SameTables :
      (o : Order) (currency : Text) (actor : Option ℕ) (w : World)
      → Holds (SameTables w) (release prorate o currency actor w)
  unfolding release Holds
  release-SameTables o currency actor w =
      ground (arith, release_remaining-SameRows o currency actor w.store)

  module _ (id_text : ℕ → Text) (currency_of : ℕ → Text) (new_date : Text → Option ℕ)
      (average : ℤ → Decimal → Decimal) (to_decimal : Text → Decimal) where
    pub book_fill-Keeps :
        (o : Order) (e : Execution) (partner : ℕ) (currency : Text) (actor : Option ℕ) (w : World)
        → Holds (Keeps w) (
            book_fill id_text currency_of prorate new_date average to_decimal o e partner currency
              actor w)
    unfolding book_fill Holds
    book_fill-Keeps o e partner currency actor w =
        Holds-if (Keeps w) o.simulated _ _ (Keeps-refl w) (
          Holds-bind (Filled e.id w.store) (Keeps w) _
            (λ x. ok (booked id_text currency_of prorate new_date average to_decimal o e w x))
            (post_fill-Filled o e partner currency actor w.store)
            (λ r h.
              Filled-Keeps e w r
                (booked id_text currency_of prorate new_date average to_decimal o e w r) h refl))

    pub close_fill-Keeps :
        (o : Order) (fill : FillResult) (currency : Text) (actor : Option ℕ) (w : World)
        → Holds (Keeps w) (
            close_fill id_text currency_of prorate new_date average to_decimal o fill currency actor
              w)
    unfolding close_fill Holds
    close_fill-Keeps o fill currency actor w =
        Holds-if (Keeps w) (same OrderStatus-discrete fill.status executed) _ _ released updated
      where
        w' : World
        w' = with_orders (update_order o.id (filled_row fill) w.store.orders) w

        updated : Keeps w w'
        updated = record { refs = λ ref k. k; same_keys = keys-filled_row o.id fill w.store.orders }

        weaken : (r : Result World) → Holds (SameTables w') r → Holds (Keeps w) r
        weaken (err e) h = tt
        weaken (ok x) h = Keeps-trans updated (SameRows-Keeps w' x h)

        released : Holds (Keeps w) (release prorate (filled_row fill o) currency actor w')
        released = weaken _ (release-SameTables (filled_row fill o) currency actor w')
