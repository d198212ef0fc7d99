-- ===== src/Identity/Routes.antt =====
-- The routes of users, links and KYC (app/modules/identity/routes.py). HMAC-SHA256, `json.loads`,
-- `json.dumps`, Python's `str` and `UUID`, and the object storage, which is configured, are
-- parameters. A response is the row that it is made from.
pub mod Kyc
use ufirst_backend.Base.{
  false, ℕ, String, Option, none, some, List, [], ◌∷◌, Bool, not, ◌||◌, str_eq, append,
  if◌then◌else◌,
}
use ufirst_backend.Core.Errors.{Result, ok, err, value_error, type_error, http_error}
use ufirst_backend.Core.Auth.{CurrentUser, require_roles}
use ufirst_backend.Core.Json as json
use ufirst_backend.Core.Json.{Json, truthy, get_or}
use ufirst_backend.Db.{Context, Db, Action, pure, raise, or_raise, raise_if, ◌>>=◌, ◌>>◌}
use ufirst_backend.Identity.Models.{
  User, KycStatus, KycSubmission, CompleteProfileRequest, CreateBeneficiaryRequest,
}
use ufirst_backend.Identity.Middleware.{guarded, from_result}
use ufirst_backend.Identity.Service as service

-- The signature of a webhook.

module _ (hmac_sha256 : (secret body : String) → String) where
  -- `_verify_hmac_sha256`, with its default prefix; the status of what it raises.
  unfoldable pub verify_hmac_sha256 :
      (body : String) → (signature_header : Option String) → (secret : String) → Result (Unit {0})
  verify_hmac_sha256 body none secret = err (http_error 401)
  verify_hmac_sha256 body (some signature) secret =
      if str_eq signature ""
      then err (http_error 401)
      else if str_eq (append "sha256=" (hmac_sha256 secret body)) signature
      then ok tt
      else err (http_error 401)

  -- `_verify_kyc_signature`
  unfoldable pub verify_kyc_signature :
      (dev_mode : Bool)
      → (kyc_webhook_secret : String) → (body : String) → (signature_header : Option String)
      → Result (Unit {0})
  unfolding verify_hmac_sha256
  verify_kyc_signature dev_mode secret body signature =
      if dev_mode
      then ok tt
      else if str_eq secret ""
      then err (http_error 500)
      else verify_hmac_sha256 body signature secret

-- Users and links.

unfoldable pub complete_profile : CompleteProfileRequest → CurrentUser → Action User
complete_profile body user = service.complete_profile user.id body

-- `others` is what other requests commit meanwhile.
unfoldable pub get_me : (others : Db → Db) → CurrentUser → Action User
get_me others user = service.get_or_create_user false others user.id user.email user.role

unfoldable pub get_user : ℕ → CurrentUser → Action User
unfolding require_roles
get_user user_id = guarded ("admin" ∷ "ops_agent" ∷ []) λ user. service.get_user user_id

unfoldable pub list_beneficiaries : CurrentUser → Action (List User)
unfolding require_roles
list_beneficiaries = guarded ("sponsor" ∷ []) λ user. service.list_beneficiaries user.id

unfoldable pub create_beneficiary : Context → CreateBeneficiaryRequest → CurrentUser → Action User
unfolding require_roles
create_beneficiary ctx body =
    guarded ("sponsor" ∷ []) λ user. service.create_beneficiary ctx user.id body

unfoldable pub remove_beneficiary : ℕ → CurrentUser → Action (Unit {0})
unfolding require_roles
remove_beneficiary beneficiary_id =
    guarded ("sponsor" ∷ []) λ user. service.remove_beneficiary_link user.id beneficiary_id

-- KYC.

unfoldable pub kyc_status : CurrentUser → Action User
kyc_status user = service.get_user user.id

-- An uploaded file; the name is none where the client gave none.
pub record UploadFile : Type 0 where
  pub filename : Option String
  pub contents : String

-- `SupabaseStorageClient.upload` into the bucket, and the two functions that make texts.
pub record Storage : Type 0 where
  pub upload : (path contents filename : String) → Result String
  pub uuid_text : ℕ → String
  pub dumps : List String → String

-- `if upload is None or not upload.filename: continue`
abbrev pub given_file : Option UploadFile → Option (String × String)
given_file none = none
given_file (some file) = elim file.filename [
  | none ↦ none
  | some name ↦ if str_eq name "" then none else some (name, file.contents)
]

abbrev pub path_of : String → String → String → String
path_of user slot filename = append user (append "/" (append slot (append "/" filename)))

module _ (storage : Storage) where
  abbrev pub upload_slot : ℕ → String → Option (String × String) → Action (List String)
  upload_slot user_id slot none = pure []
  upload_slot user_id slot (some (filename, contents)) = do
    url ←
        from_result
          (storage.upload (path_of (storage.uuid_text user_id) slot filename) contents filename)
    pure (url ∷ [])

  abbrev pub refs_of : List String → Option String
  refs_of [] = none
  refs_of (ref ∷ refs) = some (storage.dumps (ref ∷ refs))

  abbrev pub both : List String → List String → List String
  both [] second = second
  both (ref ∷ refs) second = ref ∷ both refs second

  unfoldable pub submit_kyc :
      Context
      → (document_front document_back : Option UploadFile) → CurrentUser
      → Action KycSubmission
  submit_kyc ctx front back user = do
    first ← upload_slot user.id "front" (given_file front)
    second ← upload_slot user.id "back" (given_file back)
    service.submit_kyc ctx user.id (refs_of (both first second))

-- `KYCStatus(value)`, none where it raises ValueError.
unfoldable pub kyc_status_of : Json → Option KycStatus
kyc_status_of (Json.text value) =
    if str_eq value "pending"
    then some KycStatus.pending
    else if str_eq value "submitted"
    then some KycStatus.submitted
    else if str_eq value "approved"
    then some KycStatus.approved
    else if str_eq value "rejected"
    then some KycStatus.rejected
    else none
kyc_status_of _ = none

-- The settings and the library functions that the webhook of the KYC provider uses.
pub record KycWebhook : Type 0 where
  pub dev_mode : Bool
  pub kyc_webhook_secret : String
  pub hmac_sha256 : (secret body : String) → String
  pub loads : String → Option Json
  pub str : Json → String
  pub uuid_of : String → Option ℕ

-- The reference is handed on, and the service does not store it.
abbrev pub reference : Json → Option String
reference value = json.text_of value

module _ (env : KycWebhook) where
  -- From the verified payload on.
  unfoldable pub apply_kyc_result : Json → Action User
  unfolding truthy get_or kyc_status_of
  apply_kyc_result body = do
    user_id ← from_result (json.get "user_id" body)
    status ← from_result (json.get "status" body)
    raise_if (not (truthy user_id) || not (truthy status)) (http_error 422)
    new_status ← or_raise (kyc_status_of status) (http_error 422)
    id ← or_raise (env.uuid_of (env.str user_id)) value_error
    provider_ref ← from_result (json.get "provider_ref" body)
    service.update_kyc_status id new_status (reference provider_ref)

  unfoldable pub kyc_provider_webhook :
      (raw_body : String) → (x_kyc_signature : Option String) → Action User
  unfolding verify_kyc_signature
  kyc_provider_webhook raw_body signature = do
    from_result (
        verify_kyc_signature env.hmac_sha256 env.dev_mode env.kyc_webhook_secret raw_body signature)
    body ← or_raise (env.loads raw_body) value_error
    apply_kyc_result body
