-- ===== src/Wallet/Aggregators/Stripe.antt =====
-- `StripeClient` (app/modules/wallet/openbanking/stripe_client.py). The network, HMAC-SHA256, Python's
-- `int`, `str` and `lower`, and the clock in milliseconds are parameters. A request is sent once. A
-- body is the list of its form fields. Bank connections raise NotImplementedError, and the list of
-- institutions is empty.
use ufirst_backend.Base.{
  ℕ, ◌+◌, ◌*◌, String, Option, none, some, List, [], ◌∷◌, Bool, not, ◌&&◌, ◌||◌, ◌==◌, ltb, str_eq,
  append, cut_at, if◌then◌else◌,
}
use ufirst_backend.Base.Int.{ℤ}
use ufirst_backend.Core.Errors.{Result, ok, err, aggregator_error, type_error}
use ufirst_backend.Core.Auth.{split, text_or_empty}
use ufirst_backend.Core.Json as json
use ufirst_backend.Core.Json.{
  Json, Fields, get_or, index, truthy, entry_or, as_text, as_optional, ◌>>=◌,
}
use ufirst_backend.Wallet.Initiation.{InitiationResult}
use ufirst_backend.Wallet.Tasks.{WebhookEvent}
use ufirst_backend.Wallet.Aggregators.{PaymentStatusResult}
use ufirst_backend.Wallet.Aggregators.Http.{Response}

-- `_STRIPE_EVENT_MAP`
abbrev pub stripe_event_map : List (String × String)
stripe_event_map =
    ("payment_intent.succeeded", "payment_executed")
    ∷ ("payment_intent.payment_failed", "payment_failed")
    ∷ ("payment_intent.canceled", "payment_failed")
    ∷ ("payment_intent.processing", "payment_pending")
    ∷ ("payment_intent.requires_action", "payment_pending")
    ∷ []

-- The table of `check_status`.
abbrev pub intent_status_map : List (String × String)
intent_status_map =
    ("succeeded", "executed")
    ∷ ("processing", "pending")
    ∷ ("requires_action", "pending")
    ∷ ("requires_confirmation", "pending")
    ∷ ("canceled", "failed")
    ∷ ("requires_payment_method", "failed")
    ∷ []

abbrev empty_object : Json
empty_object = Json.object Fields.end

-- `table.get(value, default)`: a list and a dict cannot be looked up, and no key is a number.
unfoldable pub keyed : String → Json → List (String × String) → Result String
keyed default (Json.text s) table = ok (entry_or default s table)
keyed default (Json.array xs) table = err type_error
keyed default (Json.object fields) table = err type_error
keyed default _ table = ok default

-- `last_error.get("message") if last_error else None`
unfoldable pub message_of : Json → Result Json
unfolding truthy get_or
message_of last_error =
    let message = json.get "message" last_error in
    if truthy last_error then message else ok Json.null

unfoldable pub parse_webhook : Json → Result WebhookEvent
unfolding get_or keyed message_of as_text as_optional
parse_webhook body = do
  raw_type ← get_or "type" (Json.text "") body
  event_type ← keyed "payment_pending" raw_type stripe_event_map
  outer ← get_or "data" empty_object body
  intent ← get_or "object" empty_object outer
  id ← get_or "id" (Json.text "") intent
  status ← get_or "status" raw_type intent
  last_error ← json.get "last_payment_error" intent
  message ← message_of last_error
  payment_id ← as_text id
  bank_status ← as_text status
  failure_reason ← as_optional message
  ok (record {
    event_type = event_type;
    payment_id = payment_id;
    bank_status = bank_status;
    failure_reason = failure_reason;
  })

abbrev refused_unless : Bool → Result (Unit {0})
refused_unless fine = if fine then ok tt else err aggregator_error

-- `dict` of the parts `key=value` of the header, where the last part of a key counts.
abbrev value_of : String → Option (String × String) → Option String
value_of key none = none
value_of key (some (k, value)) = if str_eq k key then some value else none

abbrev pub last_part : String → List String → Option String
last_part key [] = none
last_part key (p ∷ parts) = elim (last_part key parts) [
  | some value ↦ some value
  | none ↦ value_of key (cut_at "=" p)
]

-- `parts.get(key, "")`
abbrev pub part_or_empty : String → List String → String
part_or_empty key parts = text_or_empty (last_part key parts)

module _ (hmac_sha256 : (secret payload : String) → String) (int_of : String → Option ℕ)
    (now : ℕ) where
  -- Five minutes, in either direction.
  abbrev is_fresh : ℕ → Bool
  is_fresh ts = not (ltb (ts * 1_000 + 300_000) now || ltb (now + 300_000) (ts * 1_000))

  abbrev is_signed : (secret body timestamp signature : String) → Bool
  is_signed secret body timestamp signature =
      str_eq (hmac_sha256 secret (append timestamp (append "." body))) signature

  -- A header of at most 64 parts.
  unfoldable pub verify_webhook :
      (webhook_secret body : String) → (header : Option String) → Result (Unit {0})
  verify_webhook secret body none = err aggregator_error
  verify_webhook secret body (some header) =
      let parts = split 64 "," header in
      let timestamp = part_or_empty "t" parts in
      let signature = part_or_empty "v1" parts in
      if str_eq timestamp "" || str_eq signature ""
      then err aggregator_error
      else elim (int_of timestamp) [
        | none ↦ err aggregator_error
        | some ts ↦ refused_unless (is_fresh ts && is_signed secret body timestamp signature)
      ]

-- A form-encoded request and its Idempotency-Key.
pub record FormRequest : Type 0 where
  pub method : String
  pub path : String
  pub form : List (String × String)
  pub idempotency_key : Option String

abbrev is_success : ℕ → Bool
is_success status_code = status_code == 200 || status_code == 201

-- `http` answers a request, or raises the error of the transport, which is not caught.
module _ (http : FormRequest → Result Response) (lower : String → String) (str : ℤ → String) where
  unfoldable pub initiate :
      (amount : ℤ) → (currency beneficiary_name idempotency_key : String) → Result InitiationResult
  unfolding index as_text
  initiate amount currency beneficiary_name idempotency_key = do
    resp ← http (record {
      method = "POST";
      path = "/v1/payment_intents";
      form =
          ("amount", str amount)
          ∷ ("currency", lower currency)
          ∷ ("payment_method_types[]", "card")
          ∷ ("description", append "U-FirstSupport wallet funding — " beneficiary_name)
          ∷ ("metadata[idempotency_key]", idempotency_key)
          ∷ [];
      idempotency_key = some idempotency_key;
    })
    accepted ← refused_unless (is_success resp.status_code)
    id ← index "id" resp.json
    secret ← index "client_secret" resp.json
    payment_id ← as_text id
    auth_link ← as_text secret
    ok (record { payment_id = payment_id; auth_link = auth_link })

  unfoldable pub check_status : (payment_id : String) → Result PaymentStatusResult
  unfolding get_or keyed message_of as_optional
  check_status payment_id = do
    resp ← http (record {
      method = "GET";
      path = append "/v1/payment_intents/" payment_id;
      form = [];
      idempotency_key = none;
    })
    found ← refused_unless (resp.status_code == 200)
    status ← get_or "status" (Json.text "") resp.json
    normalised ← keyed "pending" status intent_status_map
    last_error ← json.get "last_payment_error" resp.json
    message ← message_of last_error
    failure_reason ← as_optional message
    ok (record { payment_id = payment_id; status = normalised; failure_reason = failure_reason })

  unfoldable pub refund :
      (payment_id : String) → (amount : ℤ) → (idempotency_key : String) → Result String
  unfolding index as_text
  refund payment_id amount idempotency_key = do
    resp ← http (record {
      method = "POST";
      path = "/v1/refunds";
      form = ("payment_intent", payment_id) ∷ ("amount", str amount) ∷ [];
      idempotency_key = some idempotency_key;
    })
    accepted ← refused_unless (is_success resp.status_code)
    id ← index "id" resp.json
    as_text id
