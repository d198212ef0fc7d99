-- ===== src/Wallet/Aggregators/TrueLayer.antt =====
-- `TrueLayerClient` and `OpenBankingMapper` (app/modules/wallet/openbanking/client.py and
-- mapper.py). The network, the token endpoint, HMAC-SHA256 and Python's text functions are
-- parameters. The access token, initiation and connections are in Tokens.
pub mod Tokens
use ufirst_backend.Base.{
  ℕ, String, Option, none, some, List, [], ◌∷◌, Bool, ◌||◌, ◌==◌, str_eq, append, if◌then◌else◌,
}
use ufirst_backend.Base.Int.{ℤ}
use ufirst_backend.Core.Errors.{Result, ok, err, aggregator_error}
use ufirst_backend.Core.Json as json
use ufirst_backend.Core.Json.{
  Json, Items, Fields, get_or, index, truthy, or_else, lowered, entry_or, as_text, as_optional,
  ◌>>=◌,
}
use ufirst_backend.Wallet.Initiation.{InitiationResult}
use ufirst_backend.Wallet.Tasks.{WebhookEvent}
use ufirst_backend.Wallet.Aggregators.{PaymentStatusResult}
use ufirst_backend.Wallet.Aggregators.Http.{HttpRequest, Response, Network, send}

-- `OpenBankingMapper.PAYMENT_STATUS_MAP`
abbrev pub payment_status_map : List (String × String)
payment_status_map =
    ("authorization_required", "pending")
    ∷ ("authorizing", "pending")
    ∷ ("authorized", "pending")
    ∷ ("executed", "executed")
    ∷ ("settled", "executed")
    ∷ ("failed", "failed")
    ∷ ("rejected", "rejected")
    ∷ []

-- `OpenBankingMapper.WEBHOOK_EVENT_MAP`
abbrev pub webhook_event_map : List (String × String)
webhook_event_map =
    ("payment_executed", "payment_executed")
    ∷ ("payment_settled", "payment_executed")
    ∷ ("payment_failed", "payment_failed")
    ∷ ("payment_rejected", "payment_failed")
    ∷ ("payment_authorized", "payment_pending")
    ∷ ("payment_authorization_required", "payment_pending")
    ∷ ("payment_authorizing", "payment_pending")
    ∷ []

abbrev pub empty_object : Json
empty_object = Json.object Fields.end

module _ (lower : String → String) where
  unfoldable pub payment_status : Json → Result String
  unfolding lowered
  payment_status raw_status = do
    status ← lowered lower raw_status
    ok (entry_or "pending" status payment_status_map)

  unfoldable pub webhook_event_type : Json → Result String
  unfolding lowered
  webhook_event_type raw_type = do
    type ← lowered lower raw_type
    ok (entry_or "payment_pending" type webhook_event_map)

  -- `webhook_event_from_payload`, and the event of `parse_webhook`.
  unfoldable pub parse_webhook : Json → Result WebhookEvent
  unfolding get_or as_text as_optional truthy
  parse_webhook body = do
    raw_type ← get_or "type" (Json.text "") body
    payload ← get_or "payment" body body
    id ← json.get "id" payload
    outer_id ← get_or "payment_id" (Json.text "") body
    status ← get_or "status" raw_type payload
    reason ← json.get "failure_reason" payload
    stage ← json.get "failure_stage" payload
    event_type ← webhook_event_type raw_type
    payment_id ← as_text (or_else id outer_id)
    bank_status ← as_text status
    failure_reason ← as_optional (or_else reason stage)
    ok (record {
      event_type = event_type;
      payment_id = payment_id;
      bank_status = bank_status;
      failure_reason = failure_reason;
    })

  -- `status_from_get_payment`
  unfoldable pub status_from_get_payment : Json → Result (String × Option String)
  unfolding get_or as_optional truthy
  status_from_get_payment body = do
    raw ← get_or "status" (Json.text "") body
    normalised ← payment_status raw
    stage ← json.get "failure_stage" body
    reason ← json.get "failure_reason" body
    failure ← as_optional (or_else stage reason)
    ok (normalised, failure)

-- `payment_from_initiate_response`
unfoldable pub payment_from_initiate_response : Json → Result InitiationResult
unfolding get_or index as_text
payment_from_initiate_response body = do
  id ← index "id" body
  payment_id ← as_text id
  flow ← get_or "authorization_flow" empty_object body
  actions ← get_or "actions" empty_object flow
  next ← get_or "next" empty_object actions
  uri ← get_or "uri" (Json.text "") next
  auth_link ← as_text uri
  ok (record { payment_id = payment_id; auth_link = auth_link })

abbrev pub refused_unless : Bool → Result (Unit {0})
refused_unless fine = if fine then ok tt else err aggregator_error

abbrev pub is_success : ℕ → Bool
is_success status_code = status_code == 200 || status_code == 201

-- The header is the signature of the body; either capitalisation of its name will do.
unfoldable pub verify_webhook :
    (hmac_sha256 : (secret body : String) → String)
    → (webhook_secret body : String) → (lower_header upper_header : Option String)
    → Result (Unit {0})
verify_webhook hmac_sha256 secret body lower_header upper_header =
    elim (given_header lower_header upper_header) [
      | none ↦ err aggregator_error
      | some signature ↦
          refused_unless (str_eq (append "sha256=" (hmac_sha256 secret body)) signature)
    ]
  where
    or_none : Option String → Option String
    or_none none = none
    or_none (some s) = if str_eq s "" then none else some s

    given_header : Option String → Option String → Option String
    given_header a b = elim (or_none a) [ none ↦ or_none b | some s ↦ some s ]

-- The client: `token` is the result of `_get_access_token`, which every request needs first.
module _ (network : Network) (token : Result String) where
  unfoldable pub authorized_send : HttpRequest → Result Response
  authorized_send request = do access_token ← token; send network request

  unfoldable pub check_status :
      (lower : String → String) → (payment_id : String) → Result PaymentStatusResult
  unfolding status_from_get_payment
  check_status lower payment_id = do
    resp ← authorized_send (record {
      method = "GET";
      path = append "/v3/payments/" payment_id;
      json_body = none;
      extra_header = none;
    })
    found ← refused_unless (resp.status_code == 200)
    status ← status_from_get_payment lower resp.json
    ok (record { payment_id = payment_id; status = status.0; failure_reason = status.1 })

  unfoldable pub refund :
      (payment_id : String) → (amount : ℤ) → (idempotency_key : String) → Result String
  unfolding index as_text
  refund payment_id amount idempotency_key = do
    resp ← authorized_send (record {
      method = "POST";
      path = append "/v3/payments/" (append payment_id "/refunds");
      json_body =
          some (Json.object (Fields.field "amount_in_minor" (Json.integer amount) Fields.end));
      extra_header =
          if str_eq idempotency_key "" then none else some ("Idempotency-Key", idempotency_key);
    })
    accepted ← refused_unless (is_success resp.status_code)
    id ← index "id" resp.json
    as_text id
