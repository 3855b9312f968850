-- ===== src/Kyc/Deciding.antt =====
-- Decisions on a file: `validate`, `reject`, `toManualReview`, `applyDecision`, `decide` and the
-- request of a broker account, of src/modules/kyc/kyc.service.ts.
use alke_finance_backend.Base.{
  ℕ, ◌+◌, ◌==◌, Bool, true, false, ◌&&◌, Option, none, some, is_some, [], ◌∷◌, ◌++◌, find, Text,
  letters, Result, ok, err, bad_request, ◌>>=◌, ◌>>◌, throw_if, if◌then◌else◌,
}
use alke_finance_backend.Approvals.{ApprovalActionType, Db, PendingApproval, request}
use alke_finance_backend.Policy.{manual_review, validated, rejected}
use alke_finance_backend.Brokerage.Csv.{trim, is_empty}
use alke_finance_backend.Kyc.BrokerAccounts.{
  MarketPartner, BrokerAccount, requested, is_active, account_of,
}
use alke_finance_backend.Kyc.Cases.{KycSubmission, Office, write_both, reviewable_or_throw}

abbrev pub serves_bvmac : ℕ → MarketPartner → Bool
serves_bvmac bvmac p = is_active p.agreement_status && (p.market_id == bvmac)

abbrev pub new_account : ℕ → ℕ → ℕ → BrokerAccount
new_account id user partner = record {
  id = id;
  user_id = user;
  partner_id = partner;
  external_account_no = none;
  state = requested;
}

-- `requestBrokerAccount`: the first active partner of the market, in the order of creation.
unfoldable pub request_broker_account : ℕ → Office → Office
request_broker_account user o = elim (find (serves_bvmac o.bvmac) o.partners) [
  | none ↦ o
  | some p ↦ if is_some (account_of user p.id o.accounts) then o else record o {
    accounts = o.accounts ++ new_account o.next_id user p.id ∷ [];
    next_id = o.next_id + 1;
  }
]

abbrev pub validated_row : Option ℕ → Bool → KycSubmission → KycSubmission
validated_row reviewer auto c = record c {
  status = validated;
  auto_decision = auto;
  reviewed_by_admin_id = reviewer;
  rejection_reason = none;
}

-- `validate`
unfoldable pub validate : ℕ → ℕ → Option ℕ → Bool → Office → Office
validate case user reviewer auto o = request_broker_account user (
    write_both case (validated_row reviewer auto) user (λ u. record u { kyc_status = validated }) o)

abbrev pub rejected_row : ℕ → Text → KycSubmission → KycSubmission
rejected_row reviewer reason c = record c {
  status = rejected;
  auto_decision = false;
  reviewed_by_admin_id = some reviewer;
  rejection_reason = some reason;
}

-- `reject`
unfoldable pub reject : KycSubmission → Text → ℕ → Office → Office
reject c reason reviewer o =
    write_both c.id (rejected_row reviewer reason) c.user_id
      (λ u. record u { kyc_status = rejected; kyc_resubmissions = u.kyc_resubmissions + 1 }) o

-- `toManualReview`
unfoldable pub to_manual_review : ℕ → ℕ → Office → Office
to_manual_review case user o =
    write_both case (λ c. record c { status = manual_review; auto_decision = false }) user
      (λ u. record u { kyc_status = manual_review }) o

pub data KycDecision : Type 0 where
  validate_it reject_it : KycDecision

abbrev pub is_reject : KycDecision → Bool
is_reject validate_it = false
is_reject reject_it = true

abbrev pub reason_or : Option Text → Text → Text
reason_or none other = other
reason_or (some t) other = t

-- `applyDecision`
unfoldable pub apply_decision : ℕ → KycDecision → Option Text → ℕ → Office → Result Office
apply_decision id decision reason reviewer o = do
  c ← reviewable_or_throw id o.cases
  ok (elim decision [
    | validate_it ↦ validate id c.user_id (some reviewer) false o
    | reject_it ↦ reject c (reason_or reason (letters "Dossier refusé")) reviewer o
  ])

abbrev pub is_blank : Option Text → Bool
is_blank none = true
is_blank (some t) = is_empty (trim t)

-- What `decide` comes to: an approval to be checked by another person, or the decision itself.
pub data Decided : Type 0 where
  waiting : PendingApproval → Decided
  applied : Decided

abbrev pub decision_reason : Option Text → Text
decision_reason reason =
    if is_blank reason
    then letters "Décision KYC sur un dossier avec alerte de criblage"
    else trim (reason_or reason [])

abbrev pub asked : Result PendingApproval × Db → Office → Result (Decided × Office × Db)
asked (err e, db) o = err e
asked (ok a, db) o = ok (waiting a, o, db)

-- `decide`
unfoldable pub decide :
    ℕ → ℕ → KycDecision → Option Text → Office → Db → Result (Decided × Office × Db)
decide admin id decision reason o db = do
  c ← reviewable_or_throw id o.cases
  throw_if (is_reject decision && is_blank reason)
      (bad_request "Un motif est requis pour un refus.")
  (if is_empty c.hits
      then apply_decision id decision reason admin o >>= (λ o'. ok (applied, o', db))
      else asked (request ApprovalActionType.compliance_decision (decision_reason reason) admin db)
          o)
