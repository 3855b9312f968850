-- ===== src/Otp.antt =====
-- One-time passwords: src/modules/auth/otp.service.ts. SHA-256 and the drawn digits are parameters;
-- times are numbers of minutes, and the limits of the configuration are arguments.
pub mod Attempts
mod Tests
use alke_finance_backend.Base.{
  ℕ, suc, ◌+◌, ◌≤◌, ◌==◌, ltb, leb, any, length, keep, Bool, true, false, not, ◌&&◌, Option, none,
  some, List, [], ◌∷◌, Result, ok, err, bad_request, too_many_requests, if◌then◌else◌,
}

-- A code on record; its destination, its purpose and its hash are numbers, since they are only
-- compared.
pub record OtpCode : Type 0 where
  pub id : ℕ
  pub destination : ℕ
  pub purpose : ℕ
  pub code_hash : ℕ
  pub created_at : ℕ
  pub expires_at : ℕ
  pub attempts : ℕ
  pub consumed : Bool

-- The table, latest row first.
pub record Store : Type 0 where
  pub codes : List OtpCode
  pub next_id : ℕ

-- `VALIDITY_MINUTES`
abbrev pub validity_minutes : ℕ
validity_minutes = 10

-- `limit`: a positive number of the configuration, else the fallback.
abbrev pub limit : Option ℕ → ℕ → ℕ
limit none fallback = fallback
limit (some n) fallback = if n == 0 then fallback else n

-- `updateMany`
unfoldable pub update_codes : (OtpCode → Bool) → (OtpCode → OtpCode) → List OtpCode → List OtpCode
update_codes test f [] = []
update_codes test f (c ∷ cs) = (if test c then f c else c) ∷ update_codes test f cs

-- `{ id, attempts: { lt: max } }`
abbrev pub is_triable : ℕ → ℕ → OtpCode → Bool
is_triable id max c = (c.id == id) && ltb c.attempts max

-- `{ id, consumedAt: null }`
abbrev pub is_usable : ℕ → OtpCode → Bool
is_usable id c = (c.id == id) && not c.consumed

-- `findFirst` of the latest code that was not consumed.
unfoldable pub latest : ℕ → ℕ → List OtpCode → Option OtpCode
latest destination purpose [] = none
latest destination purpose (c ∷ cs) =
    let rest = latest destination purpose cs in
    if (c.destination == destination) && ((c.purpose == purpose) && not c.consumed)
    then some c
    else rest

abbrev pub attempt : OtpCode → OtpCode
attempt c = record c { attempts = suc c.attempts }

abbrev pub consume : OtpCode → OtpCode
consume c = record c { consumed = true }

-- `createHash('sha256')` of a code, a destination and a purpose.
module _ (hash_code : ℕ → ℕ → ℕ → ℕ) where
  -- `issue`, with the code that was drawn and the setting of requests in an hour.
  unfoldable pub issue : ℕ → Option ℕ → ℕ → ℕ → ℕ → Store → Result OtpCode × Store
  issue code setting now destination purpose s =
      let recent =
        keep (λ c. (c.destination == destination) && leb now (c.created_at + 60)) s.codes in
      let c : OtpCode = record {
        id = s.next_id;
        destination = destination;
        purpose = purpose;
        code_hash = hash_code code destination purpose;
        created_at = now;
        expires_at = now + validity_minutes;
        attempts = 0;
        consumed = false;
      } in
      if leb (limit setting 5) (length recent)
      then (err (too_many_requests "Trop de demandes de code. Réessayez dans une heure."), s)
      else (ok c, record { codes = c ∷ s.codes; next_id = suc s.next_id })

  -- What others commit before the claim of an attempt and before the consumption.
  module _ (before_claim before_use : List OtpCode → List OtpCode) where
    -- `verify` behind the lookup.
    unfoldable pub verify_found : OtpCode → ℕ → ℕ → ℕ → Store → Result (Unit {0}) × Store
    verify_found c max now code s =
        let rows = before_claim s.codes in
        let claimed = update_codes (is_triable c.id max) attempt rows in
        let seen = before_use claimed in
        if ltb c.expires_at now
        then (err (bad_request "Code expiré, veuillez en redemander un."), s)
        else if not (any (is_triable c.id max) rows)
        then (
          err (bad_request "Trop de tentatives, veuillez redemander un code."),
          record s { codes = rows },
        )
        else if not (c.code_hash == hash_code code c.destination c.purpose)
        then (err (bad_request "Code invalide."), record s { codes = claimed })
        else if not (any (is_usable c.id) seen)
        then (err (bad_request "Ce code a déjà été utilisé."), record s { codes = seen })
        else (ok tt, record s { codes = update_codes (is_usable c.id) consume seen })

    -- `verify`, with the setting of attempts.
    unfoldable pub verify : Option ℕ → ℕ → ℕ → ℕ → ℕ → Store → Result (Unit {0}) × Store
    verify setting now destination purpose code s = elim (latest destination purpose s.codes) [
      | none ↦ (err (bad_request "Aucun code en attente pour cette destination."), s)
      | some c ↦ verify_found c (limit setting 5) now code s
    ]
