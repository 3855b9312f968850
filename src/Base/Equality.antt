-- ===== src/Base/Equality.antt =====
-- `===` on values whose equality is decided, and texts as lists of code units.
use Prim.Native.Nat.{ℕ, ◌-◌}
use Prim.Native.Char.{code}
use Prim.Native.String.{String}
use mathlib.Core.Path.{◌≡◌, refl}
use mathlib.Core.Bool.{Bool, true, false, ◌&&◌}
use mathlib.Core.List.{List, [], ◌∷◌, map}
use native.Mathlib.Decide.{ℕ_discrete}
use alke_finance_backend.Base.Tests.{leb, if◌then◌else◌}

module _ {ℓ} {A : Type ℓ} where
  abbrev pub is_yes : Dec A → Bool
  is_yes (yes _) = true
  is_yes (no _) = false

-- `a === b`
abbrev pub same {ℓ} : {A : Type ℓ} → Discrete A → A → A → Bool
same d a b = is_yes (d a b)

pub same→eq {ℓ} : {A : Type ℓ} (d : Discrete A) (a b : A) → same d a b ≡ true → a ≡ b
same→eq d a b = go (d a b)
  where
    go : (x : Dec (a ≡ b)) → is_yes x ≡ true → a ≡ b
    go (yes e) h = e
    go (no n) h = cc

pub same_refl {ℓ} : {A : Type ℓ} (d : Discrete A) (a : A) → same d a a ≡ true
same_refl d a = go (d a a)
  where
    go : (x : Dec (a ≡ a)) → is_yes x ≡ true
    go (yes e) = refl
    go (no n) = absurd (n refl)

pub same_ne {ℓ} : {A : Type ℓ} (d : Discrete A) (a b : A) → ¬ (a ≡ b) → same d a b ≡ false
same_ne d a b h = go (d a b)
  where
    go : (x : Dec (a ≡ b)) → is_yes x ≡ false
    go (yes e) = absurd (h e)
    go (no n) = refl

abbrev pub Text : Type 0
Text = List ℕ

-- The code units of a literal.
abbrev pub letters : String → Text
letters String.[] = []
letters (String.◌∷◌ c s) = code c ∷ letters s

unfoldable pub Text-discrete : Discrete Text
unfolding ℕ_discrete
Text-discrete = hlevel ℕ_discrete

-- `toUpperCase()` on ASCII letters, the alphabet of currency codes.
abbrev upper_code : ℕ → ℕ
upper_code c = if leb b'a' c && leb c b'z' then c - 32 else c

unfoldable pub to_upper : Text → Text
to_upper = map upper_code
