-- ===== src/Kyc/Automatic.antt =====
-- Who is validated without a reviewer (src/modules/kyc/kyc.service.ts).
use alke_finance_backend.Base.{
  ℕ, ◌≡◌, ◌≢◌, refl, ap, ◌∙◌, arith, true, false, Bool-cases, inl, inr, Option, none, some, List,
  [], ◌∷◌, Text, ltb_ℤ, ok, >>=-eq-ok, ok_injective,
}
use alke_finance_backend.Policy.{KycStatus, validated, manual_review}
use alke_finance_backend.Brokerage.Csv.{is_empty}
use alke_finance_backend.Kyc.Cases.{
  KycSubmission, User, Office, get_user, latest_case, draft_or_throw, update_user, update_case_row,
}
use alke_finance_backend.Kyc.Deciding.{to_manual_review}
use alke_finance_backend.Kyc.Submitting.{
  KycVerificationResult, KycConfig, country_allowed, has_reasons, settle_answer, check_complete,
  submit, screened_row,
}

-- What a file must be for a decision without a reviewer.
pub record IsClear (config : KycConfig) (c : KycSubmission) (answer : Option KycVerificationResult)
    : Type 0 where
  pub result : KycVerificationResult
  pub answered : answer ≡ some result
  pub document_ok : result.document_ok ≡ true
  pub no_hits : result.hits ≡ []
  pub lively : ltb_ℤ result.liveness_score config.min_liveness ≡ false
  pub covered : country_allowed config c ≡ true

latest_case_user :
    (user : ℕ) (cs : List KycSubmission) (c : KycSubmission)
    → latest_case user cs ≡ some c
    → c.user_id ≡ user
unfolding latest_case
latest_case_user user [] c h = cc
latest_case_user user (x ∷ cs) c h = ground (arith, latest_case_user user cs c)

draft_or_throw_user :
    (user : ℕ) (cs : List KycSubmission) (c : KycSubmission)
    → draft_or_throw user cs ≡ ok c
    → c.user_id ≡ user
unfolding draft_or_throw
draft_or_throw_user user cs c h = ground (arith, latest_case_user user cs c)

get_user-update_user :
    (id : ℕ) (status : KycStatus) (us : List User) (u : User)
    → get_user id (update_user id (λ x. record x { kyc_status = status }) us) ≡ ok u
    → u.kyc_status ≡ status
unfolding get_user update_user
get_user-update_user id status [] u h = cc
get_user-update_user id status (x ∷ us) u h = ground (arith, get_user-update_user id status us u)

reviewed_not_validated :
    (case user : ℕ) (o : Office) (u : User)
    → get_user user (to_manual_review case user o).users ≡ ok u
    → u.kyc_status ≢ validated
unfolding to_manual_review
reviewed_not_validated case user o u h e = cc (get_user-update_user user manual_review o.users u h)

no_items : (ts : List Text) → is_empty ts ≡ true → ts ≡ []
no_items [] h = refl
no_items (t ∷ ts) h = cc

has_reasons-IsClear :
    (config : KycConfig) (c : KycSubmission) (r : KycVerificationResult)
    → has_reasons config c r ≡ false
    → IsClear config c (some r)
unfolding has_reasons
has_reasons-IsClear config c r h = record {
  result = r;
  answered = refl;
  document_ok = ground arith;
  no_hits = no_items r.hits (ground arith);
  lively = ground arith;
  covered = ground arith;
}

settle_answer-IsClear :
    (config : KycConfig) (c : KycSubmission) (answer : Option KycVerificationResult) (o : Office)
    (u : User)
    → get_user c.user_id (settle_answer config c answer o).users ≡ ok u
    → u.kyc_status ≡ validated
    → IsClear config c answer
unfolding settle_answer
settle_answer-IsClear config c none o u h e = absurd (reviewed_not_validated c.id c.user_id o u h e)
settle_answer-IsClear config c (some r) o u h e = elim (Bool-cases (has_reasons config c r)) [
  | inl t ↦ absurd (
      reviewed_not_validated c.id c.user_id
        (record o { cases = update_case_row c.id (screened_row r) o.cases }) u (rw t at h) e)
  | inr f ↦ has_reasons-IsClear config c r f
]

answer-IsClear :
    (config : KycConfig) (c : KycSubmission) (answer : Option KycVerificationResult) (user : ℕ)
    (written o' : Office) (u : User)
    → c.user_id ≡ user
    → settle_answer config c answer written ≡ o'
    → get_user user o'.users ≡ ok u
    → u.kyc_status ≡ validated
    → IsClear config c answer
answer-IsClear config c answer user written o' u owner e found v =
    settle_answer-IsClear config c answer written u
      (ap (λ w. get_user c.user_id w.users) e ∙ ap (λ i. get_user i o'.users) owner ∙ found) v

-- After a submission, a user is VALIDATED only if the provider answered that the document is right,
-- found the person on no list and alive enough for the configured least score, and the country of
-- the draft is among those allowed.
pub submit-IsClear :
    (config : KycConfig) (answer : Option KycVerificationResult) (user : ℕ) (o o' : Office)
    (u : User)
    → submit config answer user o ≡ ok o'
    → get_user user o'.users ≡ ok u
    → u.kyc_status ≡ validated
    → (c : KycSubmission) × (draft_or_throw user o.cases ≡ ok c) × IsClear config c answer
unfolding submit
submit-IsClear config answer user o o' u h found e =
    let (c, drafted, h₁) = >>=-eq-ok (draft_or_throw user o.cases) _ h in
    let (owner, owned, h₂) = >>=-eq-ok (get_user user o.users) _ h₁ in
    let (checked, complete, h₃) = >>=-eq-ok (check_complete c) _ h₂ in
    (
      c,
      drafted,
      answer-IsClear config c answer user _ o' u (draft_or_throw_user user o.cases c drafted)
          (ok_injective h₃) found e,
    )
