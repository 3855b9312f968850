-- ===== src/Reconciliation/Tellings.antt =====
-- What may be told of the lines of a statement, and the lists that collect it.
use alke_finance_backend.Base.{ℕ, ◌≡◌, refl, ap, Bool, true, ◌&&◌, List, [], ◌∷◌, ◌++◌, map, arith}
use alke_finance_backend.Brokerage.Csv.Formats.{CshLine}

-- What becomes of a line: a match with an intent, the payment of a withdrawal, or an item.
pub data Telling : Type 0 where
  by_match by_payment by_item : ℕ → Telling

abbrev pub matches : List (CshLine × Telling) → List ℕ
matches [] = []
matches ((line, by_match id) ∷ ts) = id ∷ matches ts
matches ((line, by_payment id) ∷ ts) = matches ts
matches ((line, by_item id) ∷ ts) = matches ts

abbrev pub payments : List (CshLine × Telling) → List ℕ
payments [] = []
payments ((line, by_match id) ∷ ts) = payments ts
payments ((line, by_payment id) ∷ ts) = id ∷ payments ts
payments ((line, by_item id) ∷ ts) = payments ts

abbrev pub filings : List (CshLine × Telling) → List ℕ
filings [] = []
filings ((line, by_match id) ∷ ts) = filings ts
filings ((line, by_payment id) ∷ ts) = filings ts
filings ((line, by_item id) ∷ ts) = id ∷ filings ts

abbrev Tellings : Type 0
Tellings = List (CshLine × Telling)

pub matches-append : (ts us : Tellings) → matches (ts ++ us) ≡ matches ts ++ matches us
matches-append [] us = refl
matches-append ((line, by_match id) ∷ ts) us = ap (λ x. id ∷ x) (matches-append ts us)
matches-append ((line, by_payment id) ∷ ts) us = matches-append ts us
matches-append ((line, by_item id) ∷ ts) us = matches-append ts us

pub payments-append : (ts us : Tellings) → payments (ts ++ us) ≡ payments ts ++ payments us
payments-append [] us = refl
payments-append ((line, by_match id) ∷ ts) us = payments-append ts us
payments-append ((line, by_payment id) ∷ ts) us = ap (λ x. id ∷ x) (payments-append ts us)
payments-append ((line, by_item id) ∷ ts) us = payments-append ts us

pub filings-append : (ts us : Tellings) → filings (ts ++ us) ≡ filings ts ++ filings us
filings-append [] us = refl
filings-append ((line, by_match id) ∷ ts) us = filings-append ts us
filings-append ((line, by_payment id) ∷ ts) us = filings-append ts us
filings-append ((line, by_item id) ∷ ts) us = ap (λ x. id ∷ x) (filings-append ts us)

pub lines-append :
    (ts us : Tellings) → map (λ t. t.0) (ts ++ us) ≡ map (λ t. t.0) ts ++ map (λ t. t.0) us
lines-append [] us = refl
lines-append (t ∷ ts) us = ap (λ x. t.0 ∷ x) (lines-append ts us)

pub all_agree :
    (a b c n v : Bool)
    → a ≡ true
    → (b && (c && n)) ≡ true
    → v ≡ true
    → (a && (b && (c && v))) ≡ true
all_agree a b c n v h k l = ground arith

pub append_nil : {A : Type 0} (xs : List A) → xs ++ [] ≡ xs
append_nil [] = refl
append_nil (x ∷ xs) = ap (λ ys. x ∷ ys) (append_nil xs)

pub append_assoc :
    {A : Type 0} (xs : List A) (y : A) (ys : List A) → (xs ++ y ∷ []) ++ ys ≡ xs ++ y ∷ ys
append_assoc [] y ys = refl
append_assoc (x ∷ xs) y ys = ap (λ zs. x ∷ zs) (append_assoc xs y ys)
