-- ===== src/Kyc/Tests.antt =====
-- Runs of the service: a file that is approved at once, one for a reviewer, and accounts.
use native.Mathlib.Decide.{ℕ_discrete}
use alke_finance_backend.Base.{
  ◌≡◌, refl, pos, List, [], ◌∷◌, none, some, letters, Result, ok, err, bad_request, is_ok, true,
  false, map, Text-discrete, to_upper,
}
use alke_finance_backend.Policy.{KycStatus, draft, validated, manual_review}
use alke_finance_backend.Brokerage.Csv.{trim_start, trim_end, is_space}
use alke_finance_backend.Kyc.BrokerAccounts.{
  PartnerAgreementStatus, requested, open_it, account_of, update,
}
use alke_finance_backend.Kyc.Cases.{
  KycSubmission, User, Office, cmr, joined, get_user, latest_case, update_case_row, update_user,
  draft_or_throw, allowed_countries, split_commas,
}
use alke_finance_backend.Kyc.Opening.{open_case, check_latest}
use alke_finance_backend.Kyc.Deciding.{validate, request_broker_account, to_manual_review}
use alke_finance_backend.Kyc.Submitting.{
  KycVerificationResult, KycConfig, submit, check_complete, country_allowed, has_reasons,
  settle_answer,
}
use alke_finance_backend.Kyc.Automatic.{IsClear, submit-IsClear}

abbrev user : User
user = record {
  id = 7;
  country = cmr;
  kyc_status = draft;
  kyc_resubmissions = 0;
  is_blocked = false;
}

abbrev case : KycSubmission
case = record {
  id = 1;
  user_id = 7;
  status = draft;
  document_type = some (letters "PASSPORT");
  document_country = some (letters "cm");
  document_front_key = some (letters "f.jpg");
  document_back_key = none;
  selfie_key = some (letters "s.jpg");
  liveness_score = none;
  hits = [];
  auto_decision = false;
  reviewed_by_admin_id = none;
  rejection_reason = none;
}

abbrev office : Office
office = record {
  cases = case ∷ [];
  users = user ∷ [];
  partners =
      record { id = 9; market_id = 1; agreement_status = PartnerAgreementStatus.active } ∷ [];
  accounts = [];
  bvmac = 1;
  next_id = 20;
}

abbrev config : KycConfig
config = record { countries = joined (letters "cmr, GA"); min_liveness = pos 8000 }

abbrev answer : KycVerificationResult
answer = record { document_ok = true; liveness_score = pos 9000; hits = [] }

abbrev approved : Office
approved = record office {
  cases =
      record case { status = validated; liveness_score = some (pos 9000); auto_decision = true }
      ∷ [];
  users = record user { kyc_status = validated } ∷ [];
  accounts =
      record { id = 20; user_id = 7; partner_id = 9; external_account_no = none; state = requested }
      ∷ [];
  next_id = 21;
}

approved_at_once : submit config (some answer) 7 office ≡ ok approved
unfolding submit draft_or_throw latest_case get_user check_complete settle_answer update_case_row
    update_user has_reasons country_allowed allowed_countries split_commas Text-discrete to_upper
    ℕ_discrete trim_start trim_end is_space validate request_broker_account account_of
    to_manual_review
approved_at_once = refl

submit-IsClear_example :
    (c : KycSubmission) × (draft_or_throw 7 office.cases ≡ ok c) × IsClear config c (some answer)
unfolding get_user
submit-IsClear_example =
    submit-IsClear config (some answer) 7 office approved (record user { kyc_status = validated })
      approved_at_once refl refl

-- A file with a hit waits for a reviewer, whose decision another person must confirm.
abbrev hit : KycVerificationResult
hit = record answer { hits = letters "PEP" ∷ [] }

abbrev statuses : Result Office → List KycStatus
statuses (err e) = []
statuses (ok o) = map (λ u. u.kyc_status) o.users

to_review : statuses (submit config (some hit) 7 office) ≡ manual_review ∷ []
unfolding submit draft_or_throw latest_case get_user check_complete settle_answer update_case_row
    update_user has_reasons country_allowed allowed_countries split_commas Text-discrete to_upper
    ℕ_discrete trim_start trim_end is_space validate request_broker_account account_of
    to_manual_review
to_review = refl

provider_down : statuses (submit config none 7 office) ≡ manual_review ∷ []
unfolding submit draft_or_throw latest_case get_user check_complete settle_answer update_case_row
    update_user has_reasons country_allowed allowed_countries split_commas Text-discrete to_upper
    ℕ_discrete trim_start trim_end is_space validate request_broker_account account_of
    to_manual_review
provider_down = refl

second_file : is_ok (open_case 3 7 approved) ≡ false
unfolding open_case get_user latest_case check_latest
second_file = refl

account_without_number :
    update 20 none (some open_it) approved.accounts
    ≡ err (bad_request "Le numéro de compte SDB est requis pour ouvrir le compte-titres.")
unfolding update
account_without_number = refl
