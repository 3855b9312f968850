-- ===== src/Base/Outcome.antt =====
-- What a handler throws, as a value: NestJS's exceptions with their messages.
use Prim.Native.String.{String}
use mathlib.Core.Path.{◌≡◌, refl}
use mathlib.Core.Logic.{◌⊎◌, inl, inr}
use mathlib.Core.Bool.{Bool, true, false}
use alke_finance_backend.Base.Tests.{if◌then◌else◌}

pub data Error : Type 0 where
  bad_request not_found conflict forbidden unavailable too_many_requests : String → Error
  -- `Error` of the language, and a database error that is not a unique violation
  plain database : String → Error
  -- Prisma's P2002
  unique_violation : Error

pub data Result {ℓ} (A : Type ℓ) : Type ℓ where
  ok : A → Result A
  err : Error → Result A

pub ok_injective {ℓ} : {A : Type ℓ} {a b : A} → ok a ≡ ok b → a ≡ b
ok_injective h = cc

abbrev pub is_ok {ℓ} : {A : Type ℓ} → Result A → Bool
is_ok (ok a) = true
is_ok (err e) = false

-- `await` of a call that may throw.
infixl 5 ◌>>=◌ ◌>>◌
abbrev pub ◌>>=◌ {ℓ κ} : {B : Type κ} {A : Type ℓ} → Result A → (A → Result B) → Result B
err thrown >>= next = err thrown
ok value >>= next = next value

-- `if (test) throw e;`
abbrev pub throw_if : Bool → Error → Result (Unit {0})
throw_if true e = err e
throw_if false e = ok tt

abbrev pub ◌>>◌ {κ} : {B : Type κ} → Result (Unit {0}) → Result B → Result B
test >> rest = test >>= λ _. rest

pub throw_if_ok {ℓ} :
    {B : Type ℓ} (b : Bool) (e : Error) (k : Result B) {v : B}
    → (throw_if b e >> k) ≡ ok v
    → (b ≡ false) × (k ≡ ok v)
throw_if_ok true e k h = cc
throw_if_ok false e k h = (refl, h)

pub >>=-eq-ok {ℓ κ} :
    {A : Type ℓ} {B : Type κ} (first : Result A) (next : A → Result B) {b : B}
    → (first >>= next) ≡ ok b
    → (a : A) × (first ≡ ok a) × (next a ≡ ok b)
>>=-eq-ok (err e) next h = cc
>>=-eq-ok (ok a) next h = (a, refl, h)

-- What holds of a value that is returned.
unfoldable pub Holds {ℓ κ} : {A : Type ℓ} → (A → Type κ) → Result A → Type κ
Holds P (ok a) = P a
Holds P (err e) = Unit

pub Holds-bind {ℓ κ μ ν} :
    {A : Type ℓ} {B : Type κ} (Q : A → Type μ) (P : B → Type ν) (first : Result A)
    (next : A → Result B)
    → Holds Q first
    → ((a : A) → Q a → Holds P (next a))
    → Holds P (first >>= next)
unfolding Holds
Holds-bind Q P (err e) next h k = tt
Holds-bind Q P (ok a) next h k = k a h

pub Holds-next {ℓ κ ν} :
    {A : Type ℓ} {B : Type κ} (P : B → Type ν) (first : Result A) (next : A → Result B)
    → ((a : A) → Holds P (next a))
    → Holds P (first >>= next)
unfolding Holds
Holds-next P (err e) next k = tt
Holds-next P (ok a) next k = k a

pub Holds-if {ℓ κ} :
    {A : Type ℓ} (P : A → Type κ) (b : Bool) (r r' : Result A)
    → Holds P r
    → Holds P r'
    → Holds P (if b then r else r')
unfolding Holds
Holds-if P true r r' h h' = h
Holds-if P false r r' h h' = h'

pub Holds-eq-ok {ℓ κ} :
    {A : Type ℓ} (P : A → Type κ) (r : Result A) {a : A} → Holds P r → r ≡ ok a → P a
unfolding Holds
Holds-eq-ok P r h e = rw e at h

pub Holds-ok {ℓ κ} : {A : Type ℓ} (P : A → Type κ) {a : A} → P a → Holds P (ok a)
unfolding Holds
Holds-ok P h = h

pub Holds-weaken {ℓ κ μ} :
    {A : Type ℓ} (P : A → Type κ) (Q : A → Type μ) (r : Result A)
    → Holds P r
    → ((a : A) → P a → Q a)
    → Holds Q r
unfolding Holds
Holds-weaken P Q (err e) h k = tt
Holds-weaken P Q (ok a) h k = k a h

pub Holds-refl {ℓ} : {A : Type ℓ} (r : Result A) → Holds (λ a. r ≡ ok a) r
unfolding Holds
Holds-refl (err e) = tt
Holds-refl (ok a) = refl

-- A call that throws somewhere throws as a whole.
pub is_ok-bind {ℓ κ} :
    {A : Type ℓ} {B : Type κ} (first : Result A) (next : A → Result B)
    → ((a : A) → first ≡ ok a → is_ok (next a) ≡ false)
    → is_ok (first >>= next) ≡ false
is_ok-bind (err e) next h = refl
is_ok-bind (ok a) next h = h a refl

pub Result-cases {ℓ} :
    {A : Type ℓ} (r : Result A) → ((e : Error) × (r ≡ err e)) ⊎ ((a : A) × (r ≡ ok a))
Result-cases (err e) = inl (e, refl)
Result-cases (ok a) = inr (a, refl)
