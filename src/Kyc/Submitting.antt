-- ===== src/Kyc/Submitting.antt =====
-- Submitting a file: `submit` of src/modules/kyc/kyc.service.ts. What the provider answers is an
-- argument: none where its call throws.
use alke_finance_backend.Base.{
  ℕ, ltb_ℤ, Bool, true, not, ◌||◌, Option, none, some, is_some, List, [], any, Text, Text-discrete,
  same, to_upper, Result, ok, bad_request, ◌>>=◌, ◌>>◌, throw_if, if◌then◌else◌,
}
use alke_finance_backend.Money.{Decimal}
use alke_finance_backend.Policy.{submitted, auto_approved}
use alke_finance_backend.Brokerage.Csv.{is_empty}
use alke_finance_backend.Kyc.BrokerAccounts.{is_given}
use alke_finance_backend.Kyc.Cases.{
  KycSubmission, Office, RawCountries, allowed_countries, get_user, draft_or_throw, update_case_row,
  write_both,
}
use alke_finance_backend.Kyc.Deciding.{validate, to_manual_review, reason_or}

-- `KycVerificationResult`, for a score that is a finite number of at most four places.
pub record KycVerificationResult : Type 0 where
  pub document_ok : Bool
  pub liveness_score : Decimal
  pub hits : List Text

-- The configured values.
pub record KycConfig : Type 0 where
  pub countries : RawCountries
  pub min_liveness : Decimal

-- The refusals of an incomplete draft.
unfoldable pub check_complete : KycSubmission → Result (Unit {0})
check_complete c = do
  throw_if (not (is_some c.document_type)) (bad_request "Le type de document est requis.")
  throw_if (not (is_given c.document_country)) (bad_request "Le pays du document est requis.")
  throw_if (not (is_given c.document_front_key))
      (bad_request "Le recto de la pièce d’identité est requis.")
  throw_if (not (is_given c.selfie_key)) (bad_request "Le selfie est requis.")

-- `countryAllowed`
unfoldable pub country_allowed : KycConfig → KycSubmission → Bool
country_allowed config c =
    any (same Text-discrete (to_upper (reason_or c.document_country [])))
      (allowed_countries config.countries)

-- The number of `reasons` is not zero.
unfoldable pub has_reasons : KycConfig → KycSubmission → KycVerificationResult → Bool
has_reasons config c r =
    not r.document_ok
    || (not (is_empty r.hits)
        || (ltb_ℤ r.liveness_score config.min_liveness || not (country_allowed config c)))

abbrev pub screened_row : KycVerificationResult → KycSubmission → KycSubmission
screened_row r c = record c { liveness_score = some r.liveness_score; hits = r.hits }

abbrev pub approved_row : KycSubmission → KycSubmission
approved_row c = record c { status = auto_approved; auto_decision = true }

-- `submit` behind the provider's answer.
unfoldable pub settle_answer :
    KycConfig → KycSubmission → Option KycVerificationResult → Office → Office
settle_answer config c none o = to_manual_review c.id c.user_id o
settle_answer config c (some r) o =
    let screened = record o { cases = update_case_row c.id (screened_row r) o.cases } in
    let approved = record o {
      cases = update_case_row c.id approved_row (update_case_row c.id (screened_row r) o.cases);
    } in
    if has_reasons config c r
    then to_manual_review c.id c.user_id screened
    else validate c.id c.user_id none true approved

-- `submit`
unfoldable pub submit : KycConfig → Option KycVerificationResult → ℕ → Office → Result Office
submit config answer user o = do
  c ← draft_or_throw user o.cases
  u ← get_user user o.users
  check_complete c
  ok (
      settle_answer config c answer (
        write_both c.id (λ x. record x { status = submitted }) user
          (λ x. record x { kyc_status = submitted }) o))
