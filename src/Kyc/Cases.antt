-- ===== src/Kyc/Cases.antt =====
-- The rows of identity files, and their queries: src/modules/kyc/kyc.service.ts and kyc.types.ts.
-- Dates, audit rows, events, the questionnaire and signed addresses are left out.
use alke_finance_backend.Base.{
  ℕ, ◌==◌, Bool, true, false, not, ◌&&◌, Option, none, some, List, [], ◌∷◌, map, keep, find, Text,
  Text-discrete, letters, same, to_upper, Result, ok, err, not_found, conflict, ◌>>◌, throw_if,
  if◌then◌else◌,
}
use alke_finance_backend.Money.{Decimal}
use alke_finance_backend.Policy.{
  KycStatus, is_validated, draft, submitted, auto_approved, manual_review,
}
use alke_finance_backend.Kyc.BrokerAccounts.{MarketPartner, BrokerAccount}
use alke_finance_backend.Brokerage.Csv.{trim, is_empty, push}

pub data SupportedCountry : Type 0 where
  civ sen tgo ben bfa mli cmr gab cog gnq intl : SupportedCountry

-- `COUNTRY_ISO2`
abbrev pub country_iso2 : SupportedCountry → Option Text
country_iso2 civ = some (letters "CI")
country_iso2 sen = some (letters "SN")
country_iso2 tgo = some (letters "TG")
country_iso2 ben = some (letters "BJ")
country_iso2 bfa = some (letters "BF")
country_iso2 mli = some (letters "ML")
country_iso2 cmr = some (letters "CM")
country_iso2 gab = some (letters "GA")
country_iso2 cog = some (letters "CG")
country_iso2 gnq = some (letters "GQ")
country_iso2 intl = none

-- The keys of `COUNTRY_ISO2`, with their values; that of INTL is null, so it stands for itself.
abbrev pub iso3_names : List (Text × Text)
iso3_names =
    (letters "CIV", letters "CI")
    ∷ (letters "SEN", letters "SN")
    ∷ (letters "TGO", letters "TG")
    ∷ (letters "BEN", letters "BJ")
    ∷ (letters "BFA", letters "BF")
    ∷ (letters "MLI", letters "ML")
    ∷ (letters "CMR", letters "CM")
    ∷ (letters "GAB", letters "GA")
    ∷ (letters "COG", letters "CG")
    ∷ (letters "GNQ", letters "GQ")
    ∷ []

pub record KycSubmission : Type 0 where
  pub id : ℕ
  pub user_id : ℕ
  pub status : KycStatus
  pub document_type : Option Text
  pub document_country : Option Text
  pub document_front_key : Option Text
  pub document_back_key : Option Text
  pub selfie_key : Option Text
  pub liveness_score : Option Decimal
  -- the lists on which the screening found the person
  pub hits : List Text
  pub auto_decision : Bool
  pub reviewed_by_admin_id : Option ℕ
  pub rejection_reason : Option Text

pub record User : Type 0 where
  pub id : ℕ
  pub country : SupportedCountry
  pub kyc_status : KycStatus
  pub kyc_resubmissions : ℕ
  pub is_blocked : Bool

-- The tables; cases in the order of their creation, `bvmac` the id of that market.
pub record Office : Type 0 where
  pub cases : List KycSubmission
  pub users : List User
  pub partners : List MarketPartner
  pub accounts : List BrokerAccount
  pub bvmac : ℕ
  pub next_id : ℕ

-- `REVIEWABLE_STATUSES.includes`
abbrev pub is_reviewable : KycStatus → Bool
is_reviewable submitted = true
is_reviewable manual_review = true
is_reviewable _ = false

-- `IN_PROGRESS_STATUSES.includes`
abbrev pub is_in_progress : KycStatus → Bool
is_in_progress submitted = true
is_in_progress auto_approved = true
is_in_progress manual_review = true
is_in_progress _ = false

abbrev pub is_draft : KycStatus → Bool
is_draft draft = true
is_draft _ = false

-- `getUser`
unfoldable pub get_user : ℕ → List User → Result User
get_user id us = elim (find (λ u. u.id == id) us) [
  | none ↦ err (not_found "Utilisateur introuvable.")
  | some u ↦ ok u
]

abbrev pub or_later : KycSubmission → Option KycSubmission → KycSubmission
or_later c none = c
or_later c (some later) = later

-- `latestCase`
unfoldable pub latest_case : ℕ → List KycSubmission → Option KycSubmission
latest_case user [] = none
latest_case user (c ∷ cs) =
    let rest = latest_case user cs in if c.user_id == user then some (or_later c rest) else rest

unfoldable pub update_case_row :
    ℕ → (KycSubmission → KycSubmission) → List KycSubmission → List KycSubmission
update_case_row id f [] = []
update_case_row id f (c ∷ cs) = (if c.id == id then f c else c) ∷ update_case_row id f cs

unfoldable pub update_user : ℕ → (User → User) → List User → List User
update_user id f [] = []
update_user id f (u ∷ us) = (if u.id == id then f u else u) ∷ update_user id f us

abbrev pub write_both : ℕ → (KycSubmission → KycSubmission) → ℕ → (User → User) → Office → Office
write_both case f user g o = record o {
  cases = update_case_row case f o.cases;
  users = update_user user g o.users;
}

-- `draftOrThrow`
unfoldable pub draft_or_throw : ℕ → List KycSubmission → Result KycSubmission
draft_or_throw user cs = elim (latest_case user cs) [
  | none ↦ err (conflict "Aucun dossier KYC en brouillon.")
  | some c ↦ if is_draft c.status then ok c else err (conflict "Aucun dossier KYC en brouillon.")
]

abbrev pub is_other : Option KycSubmission → ℕ → Bool
is_other none id = false
is_other (some c) id = not (c.id == id)

-- `reviewableOrThrow`
unfoldable pub reviewable_or_throw : ℕ → List KycSubmission → Result KycSubmission
reviewable_or_throw id cs = elim (find (λ c. c.id == id) cs) [
  | none ↦ err (not_found "Dossier KYC introuvable.")
  | some c ↦ do
    throw_if (not (is_reviewable c.status))
        (conflict "Ce dossier n’est plus en attente de décision.")
    throw_if (is_other (latest_case c.user_id cs) c.id)
        (conflict "Un dossier plus récent existe pour cet utilisateur.")
    ok c
]

-- `isTradingAllowed`
unfoldable pub is_trading_allowed : ℕ → List User → Bool
is_trading_allowed id us = elim (find (λ u. u.id == id) us) [
  | none ↦ false
  | some u ↦ not u.is_blocked && is_validated u.kyc_status
]

-- A configured list of countries: a list, a text with commas, or neither.
pub data RawCountries : Type 0 where
  listed : List Text → RawCountries
  joined : Text → RawCountries
  unreadable : RawCountries

-- `KYC_DEFAULTS.allowedCountries`
abbrev pub default_countries : List Text
default_countries = letters "CM" ∷ letters "GA" ∷ letters "CG" ∷ letters "GQ" ∷ []

-- `raw.split(',')`
unfoldable pub split_commas : Text → List Text
split_commas [] = [] ∷ []
split_commas (c ∷ cs) = let rest = split_commas cs in if c == b',' then [] ∷ rest else push c rest

abbrev pub raw_countries : RawCountries → List Text
raw_countries (listed ts) = ts
raw_countries (joined t) = split_commas t
raw_countries unreadable = default_countries

abbrev pub iso2_of : Text → Text
iso2_of t = elim (find (λ p. same Text-discrete p.0 t) iso3_names) [ none ↦ t | some p ↦ p.1 ]

-- `allowedCountries`
unfoldable pub allowed_countries : RawCountries → List Text
allowed_countries raw =
    map iso2_of (keep (λ c. not (is_empty c)) (map (λ c. to_upper (trim c)) (raw_countries raw)))
