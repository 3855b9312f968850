-- ===== src/Otp/Tests.antt =====
-- A code that is issued, tried wrongly once and then used.
use alke_finance_backend.Base.{
  ℕ, ◌+◌, ◌≡◌, refl, true, false, none, some, is_ok, List, [], ◌∷◌, ok, err, bad_request,
}
use alke_finance_backend.Otp.{OtpCode, Store, verify, latest, verify_found, update_codes}
use alke_finance_backend.Otp.Attempts.{verify_once}

abbrev hash_code : ℕ → ℕ → ℕ → ℕ
hash_code code destination purpose = code + 10 + destination + purpose

abbrev issued : OtpCode
issued = record {
  id = 1;
  destination = 20;
  purpose = 3;
  code_hash = 123489;
  created_at = 600;
  expires_at = 610;
  attempts = 1;
  consumed = false;
}

abbrev store : Store
store = record { codes = issued ∷ []; next_id = 2 }

abbrev used : Store
used = record { codes = record issued { attempts = 2; consumed = true } ∷ []; next_id = 2 }

abbrev same_codes : List OtpCode → List OtpCode
same_codes cs = cs

looked_up : latest 20 3 store.codes ≡ some issued
unfolding latest
looked_up = refl

verifies : verify hash_code same_codes same_codes none 605 20 3 123456 store ≡ (ok tt, used)
unfolding verify latest verify_found update_codes
verifies = refl

refused :
    verify hash_code same_codes same_codes none 605 20 3 123456 used
    ≡ (err (bad_request "Aucun code en attente pour cette destination."), used)
unfolding verify latest
refused = refl

-- A second call that looked the code up before the first consumed it.
verify_once_example :
    is_ok (verify hash_code same_codes (λ cs. used.codes) none 606 20 3 123456 store).0 ≡ false
verify_once_example =
    verify_once hash_code same_codes same_codes same_codes (λ cs. used.codes) none none 605 606 20 3
      123456 123456 store store used issued issued verifies looked_up looked_up refl (λ h cs. h)

raced :
    (verify hash_code same_codes (λ cs. used.codes) none 606 20 3 123456 store).0
    ≡ err (bad_request "Ce code a déjà été utilisé.")
unfolding verify latest verify_found update_codes
raced = refl
