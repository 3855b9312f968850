-- ===== src/Otp/Attempts.antt =====
-- A verified code is used up (src/modules/auth/otp.service.ts).
use alke_finance_backend.Base.{
  ℕ, ◌≡◌, refl, subst, arith, ◌==◌, ltb, any, false, not, if_both, Option, some, List, [], ◌∷◌,
  Result, ok, err, is_ok,
}
use alke_finance_backend.Otp.{
  OtpCode, Store, limit, update_codes, latest, is_triable, is_usable, attempt, consume,
  verify_found, verify,
}

consumed-unusable :
    (id : ℕ) (cs : List OtpCode)
    → any (is_usable id) (update_codes (is_usable id) consume cs) ≡ false
unfolding update_codes
consumed-unusable id [] = refl
consumed-unusable id (c ∷ cs) = ground (arith, consumed-unusable id cs)

-- After success the code is used up.
abbrev UsesUp : ℕ → Result (Unit {0}) × Store → Type 0
UsesUp id (ok u, s) = any (is_usable id) s.codes ≡ false
UsesUp id (err e, s) = Unit

abbrev Refused : Result (Unit {0}) × Store → Type 0
Refused x = is_ok x.0 ≡ false

module _ (hash_code : ℕ → ℕ → ℕ → ℕ) where
  verify_found-UsesUp :
      (before_claim before_use : List OtpCode → List OtpCode) (c : OtpCode) (max now code : ℕ)
      (s : Store)
      → UsesUp c.id (verify_found hash_code before_claim before_use c max now code s)
  unfolding verify_found
  verify_found-UsesUp before_claim before_use c max now code s =
      if_both (UsesUp c.id) (ltb c.expires_at now) _ _ tt (
        if_both (UsesUp c.id) (not (any (is_triable c.id max) (before_claim s.codes))) _ _ tt (
          if_both (UsesUp c.id) (not (c.code_hash == hash_code code c.destination c.purpose)) _ _ tt
            (if_both (UsesUp c.id) (not (any (is_usable c.id) seen)) _ _ tt
              (consumed-unusable c.id seen))))
    where
      seen : List OtpCode
      seen = before_use (update_codes (is_triable c.id max) attempt (before_claim s.codes))

  verify_found-Refused :
      (before_claim before_use : List OtpCode → List OtpCode) (c : OtpCode) (max now code : ℕ)
      (s : Store)
      → ((cs : List OtpCode) → any (is_usable c.id) (before_use cs) ≡ false)
      → Refused (verify_found hash_code before_claim before_use c max now code s)
  unfolding verify_found
  verify_found-Refused before_claim before_use c max now code s gone =
      if_both Refused (ltb c.expires_at now) _ _ refl (
        if_both Refused (not (any (is_triable c.id max) (before_claim s.codes))) _ _ refl (
          if_both Refused (not (c.code_hash == hash_code code c.destination c.purpose)) _ _ refl
            (rw (gone (update_codes (is_triable c.id max) attempt (before_claim s.codes))) refl)))

  -- A code serves once: when a call of `verify` succeeds with a row, every other call that looked up
  -- the same row, before or after and with whatever code and limits, fails, provided that it
  -- consumes after the first and that nobody makes the row unused again.
  pub verify_once :
      (before_claim before_use before_claim' before_use' : List OtpCode → List OtpCode)
      (setting setting' : Option ℕ) (now now' destination purpose code code' : ℕ)
      (s s' after : Store) (row row' : OtpCode)
      → verify hash_code before_claim before_use setting now destination purpose code s
        ≡ (ok tt, after)
      → latest destination purpose s.codes ≡ some row
      → latest destination purpose s'.codes ≡ some row'
      → row.id ≡ row'.id
      → (any (is_usable row.id) after.codes ≡ false
          → (cs : List OtpCode) → any (is_usable row.id) (before_use' cs) ≡ false)
      → is_ok
          (verify hash_code before_claim' before_use' setting' now' destination purpose code' s').0
        ≡ false
  unfolding verify
  verify_once before_claim before_use before_claim' before_use' setting setting' now now'
        destination purpose code code' s s' after row row' h found found' same_row stays =
      rw (found', verify)
        (verify_found-Refused before_claim' before_use' row' (limit setting' 5) now' code' s' (
          subst (λ id. (cs : List OtpCode) → any (is_usable id) (before_use' cs) ≡ false) same_row
            (stays used_up)))
    where
      used_up : any (is_usable row.id) after.codes ≡ false
      used_up =
          subst (UsesUp row.id) (rw (found, verify) at h)
            (verify_found-UsesUp before_claim before_use row (limit setting 5) now code s)
