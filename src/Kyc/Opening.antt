-- ===== src/Kyc/Opening.antt =====
-- The user's side of a file: `openCase`, `updateCase` and `addDocument` of
-- src/modules/kyc/kyc.service.ts.
use alke_finance_backend.Base.{
  ℕ, ◌+◌, ◌*◌, ◌==◌, leb, ltb, Bool, true, false, not, ◌&&◌, Option, none, some, List, [], ◌∷◌,
  ◌++◌, find, length, Text, Text-discrete, letters, same, to_upper, Result, ok, err, bad_request,
  conflict, forbidden, ◌>>=◌, ◌>>◌, throw_if, if◌then◌else◌,
}
use alke_finance_backend.Policy.{KycStatus, is_validated, draft, rejected, re_kyc}
use alke_finance_backend.Kyc.Cases.{
  KycSubmission, User, Office, country_iso2, is_draft, is_in_progress, get_user, latest_case,
  update_case_row, update_user, draft_or_throw,
}

abbrev pub is_rejected : KycStatus → Bool
is_rejected rejected = true
is_rejected _ = false

abbrev pub is_re_kyc : KycStatus → Bool
is_re_kyc re_kyc = true
is_re_kyc _ = false

-- The row of a new draft.
abbrev pub new_case : ℕ → User → KycSubmission
new_case id u = record {
  id = id;
  user_id = u.id;
  status = draft;
  document_type = none;
  document_country = country_iso2 u.country;
  document_front_key = none;
  document_back_key = none;
  selfie_key = none;
  liveness_score = none;
  hits = [];
  auto_decision = false;
  reviewed_by_admin_id = none;
  rejection_reason = none;
}

-- The transaction of `openCase`.
unfoldable pub create_case : User → Office → KycSubmission × Office
create_case u o = (
  new_case o.next_id u,
  record o {
    cases = o.cases ++ new_case o.next_id u ∷ [];
    users =
        if is_re_kyc u.kyc_status
        then o.users
        else update_user u.id (λ x. record x { kyc_status = draft }) o.users;
    next_id = o.next_id + 1;
  },
)

-- The refusals of `openCase` for the latest file of a user.
unfoldable pub check_latest : ℕ → User → KycSubmission → Result (Unit {0})
check_latest max_resubmissions u c = do
  throw_if (is_in_progress c.status) (conflict "Un dossier KYC est déjà en cours de traitement.")
  throw_if (is_validated c.status && not (is_re_kyc u.kyc_status))
      (conflict "Votre identité est déjà vérifiée.")
  throw_if (is_rejected c.status && leb max_resubmissions u.kyc_resubmissions)
      (forbidden "Nombre maximal de soumissions KYC atteint. Contactez le support.")

-- `openCase`; the number of submissions allowed is configured.
unfoldable pub open_case : ℕ → ℕ → Office → Result (KycSubmission × Office)
open_case max_resubmissions user o = do
  u ← get_user user o.users
  (elim (latest_case user o.cases) [
    | none ↦ ok (create_case u o)
    | some c ↦
        let opened = check_latest max_resubmissions u c >> ok (create_case u o) in
        if is_draft c.status then ok (c, o) else opened
  ])

abbrev pub or_text : Option Text → Option Text → Option Text
or_text none old = old
or_text (some t) old = some t

abbrev pub upper_or : Option Text → Option Text → Option Text
upper_or none old = old
upper_or (some t) old = some (to_upper t)

-- `updateCase`
unfoldable pub update_case : ℕ → Option Text → Option Text → Office → Result Office
update_case user kind country o = do
  c ← draft_or_throw user o.cases
  ok (record o {
    cases =
        update_case_row c.id
          (λ x. record x {
            document_type = or_text kind x.document_type;
            document_country = upper_or country x.document_country;
          })
          o.cases;
  })

pub data DocumentKind : Type 0 where
  front back selfie : DocumentKind

-- `MAX_DOCUMENT_BYTES`
abbrev pub max_document_bytes : ℕ
max_document_bytes = 5 * 1024 * 1024

-- `DOCUMENT_CONTENT_TYPES`
abbrev pub document_content_types : List (Text × Text)
document_content_types =
    (letters "image/jpeg", letters "jpg")
    ∷ (letters "image/png", letters "png")
    ∷ (letters "image/webp", letters "webp")
    ∷ (letters "application/pdf", letters "pdf")
    ∷ []

unfoldable pub extension_of : Text → Option Text
extension_of kind = elim (find (λ p. same Text-discrete p.0 kind) document_content_types) [
  | none ↦ none
  | some p ↦ some p.1
]

abbrev pub key_of : DocumentKind → KycSubmission → Option Text
key_of front c = c.document_front_key
key_of back c = c.document_back_key
key_of selfie c = c.selfie_key

abbrev pub with_key : DocumentKind → Text → KycSubmission → KycSubmission
with_key front key c = record c { document_front_key = some key }
with_key back key c = record c { document_back_key = some key }
with_key selfie key c = record c { selfie_key = some key }

abbrev pub the_extension : Option Text → Result Text
the_extension none = err (bad_request "Format accepté : JPEG, PNG, WebP ou PDF.")
the_extension (some e) = ok e

-- The decoded bytes of a document (Buffer decodes), or none where the text is no base64, and the
-- name of a new file, of a case, a kind and an extension, with its random part.
module _ (decode_base64 : Text → Option (List ℕ)) (file_name : ℕ → DocumentKind → Text → Text) where
  abbrev pub the_content : Option (List ℕ) → Result (List ℕ)
  the_content none = err (bad_request "Contenu base64 invalide.")
  the_content (some bytes) = ok bytes

  -- `addDocument`: the key to delete from the storage, if any, and the tables.
  unfoldable pub add_document :
      ℕ → DocumentKind → Text → Text → Office → Result (Option Text × Office)
  add_document user kind content_type base64 o = do
    c ← draft_or_throw user o.cases
    content ← the_content (decode_base64 base64)
    throw_if (length content == 0) (bad_request "Fichier vide.")
    throw_if (ltb max_document_bytes (length content)) (bad_request "La pièce dépasse 5 Mo.")
    ext ← the_extension (extension_of content_type)
    ok (
      key_of kind c,
      record o { cases = update_case_row c.id (with_key kind (file_name c.id kind ext)) o.cases },
    )
