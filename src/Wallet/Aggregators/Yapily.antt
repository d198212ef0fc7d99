-- ===== src/Wallet/Aggregators/Yapily.antt =====
-- `YapilyClient` (app/modules/wallet/openbanking/yapily_client.py). The network, HMAC-SHA256 and
-- Python's text functions are parameters; the header with the credentials is left out.
pub mod Payments
pub mod Consents
use ufirst_backend.Base.{
  ℕ, String, Option, none, some, List, [], ◌∷◌, Bool, ◌||◌, ◌==◌, str_eq, append, if◌then◌else◌,
}
use ufirst_backend.Core.Errors.{Result, ok, err, aggregator_error}
use ufirst_backend.Core.Json as json
use ufirst_backend.Core.Json.{
  Json, Items, Fields, get_or, truthy, or_else, lowered, entry_or, as_text, as_optional, ◌>>=◌,
}
use ufirst_backend.Wallet.Tasks.{WebhookEvent}
use ufirst_backend.Wallet.Aggregators.Http.{HttpRequest}

-- `_PAYMENT_DETAILS_STATUS_MAP`
abbrev pub payment_details_status_map : List (String × String)
payment_details_status_map =
    ("pending", "pending")
    ∷ ("completed", "executed")
    ∷ ("failed", "failed")
    ∷ ("rejected", "failed")
    ∷ ("expired", "failed")
    ∷ ("cancelled", "failed")
    ∷ ("initiated", "pending")
    ∷ ("processing", "pending")
    ∷ ("unknown", "pending")
    ∷ []

-- `_WEBHOOK_EVENT_MAP`
abbrev pub webhook_event_map : List (String × String)
webhook_event_map =
    ("application.payment.completed", "payment_executed")
    ∷ ("application.payment_request.authorised", "payment_pending")
    ∷ ("application.payment.failed", "payment_failed")
    ∷ ("application.payment.rejected", "payment_failed")
    ∷ ("application.payment.expired", "payment_failed")
    ∷ ("application.payment.cancelled", "payment_failed")
    ∷ ("application.consent.created", "payment_pending")
    ∷ ("application.consent.updated", "payment_pending")
    ∷ []

abbrev pub empty_object : Json
empty_object = Json.object Fields.end

unfoldable pub parse_webhook : (lower : String → String) → Json → Result WebhookEvent
unfolding get_or lowered as_text as_optional truthy
parse_webhook lower body = do
  field ← get_or "eventType" (Json.text "") body
  raw_type ← lowered lower field
  payload ← get_or "payload" body body
  entity ← json.get "entityId" body
  id ← json.get "id" payload
  request ← get_or "paymentRequestId" (Json.text "") payload
  status ← get_or "status" (Json.text raw_type) payload
  reason ← json.get "failureReason" payload
  error ← json.get "error" payload
  payment_id ← as_text (or_else entity (or_else id request))
  bank_status ← as_text status
  failure_reason ← as_optional (or_else reason error)
  ok (record {
    event_type = entry_or "payment_pending" raw_type webhook_event_map;
    payment_id = payment_id;
    bank_status = bank_status;
    failure_reason = failure_reason;
  })

-- What the client's methods share.

abbrev pub refused_unless : Bool → Result (Unit {0})
refused_unless fine = if fine then ok tt else err aggregator_error

abbrev pub is_success : ℕ → Bool
is_success status_code = status_code == 200 || status_code == 201

abbrev pub get_request : (path : String) → Option (String × String) → HttpRequest
get_request path extra = record {
  method = "GET";
  path = path;
  json_body = none;
  extra_header = extra;
}

abbrev pub post_request : (path : String) → Json → Option (String × String) → HttpRequest
post_request path body extra = record {
  method = "POST";
  path = path;
  json_body = some body;
  extra_header = extra;
}

-- `(object of two fields)`
abbrev pub two_fields : String → Json → String → Json → Json
two_fields k v k' v' = Json.object (Fields.field k v (Fields.field k' v' Fields.end))

-- `{"type": type, "identification": identification}`
abbrev pub identification : String → String → Json
identification type number = two_fields "type" (Json.text type) "identification" (Json.text number)

-- The account that is paid.
pub record PayeeSettings : Type 0 where
  pub name : String
  pub sort_code : String
  pub account_number : String
  pub iban : String

abbrev with_iban : PayeeSettings → Items
with_iban s =
    if str_eq s.iban "" then Items.nil else Items.item (identification "IBAN" s.iban) Items.nil

abbrev identifications : PayeeSettings → Items
identifications s =
    if str_eq s.sort_code "" || str_eq s.account_number ""
    then with_iban s
    else Items.item (identification "SORT_CODE" s.sort_code)
        (Items.item (identification "ACCOUNT_NUMBER" s.account_number) (with_iban s))

abbrev payee_of : PayeeSettings → Items → Result Json
payee_of s Items.nil = err aggregator_error
payee_of s (Items.item x xs) =
    ok
      (two_fields "name" (Json.text s.name) "accountIdentifications" (Json.array (Items.item x xs)))

-- `_build_payee`
unfoldable pub build_payee : PayeeSettings → Result Json
build_payee s = payee_of s (identifications s)

-- The header is the signature of the body; either capitalisation of its name will do.
abbrev or_none : Option String → Option String
or_none none = none
or_none (some s) = if str_eq s "" then none else some s

abbrev given_header : Option String → Option String → Option String
given_header a b = elim (or_none a) [ none ↦ or_none b | some s ↦ some s ]

unfoldable pub verify_webhook :
    (hmac_sha256 : (secret body : String) → String)
    → (webhook_secret body : String) → (lower_header upper_header : Option String)
    → Result (Unit {0})
verify_webhook hmac_sha256 secret body lower_header upper_header =
    elim (given_header lower_header upper_header) [
      | none ↦ err aggregator_error
      | some signature ↦
          refused_unless (str_eq (append "sha256=" (hmac_sha256 secret body)) signature)
    ]
