-- ===== src/Wallet/Aggregators/Yapily/Payments.antt =====
-- The payments of `YapilyClient` (app/modules/wallet/openbanking/yapily_client.py).
use ufirst_backend.Base.{
  ℕ, zero, suc, String, Option, none, some, cut_at, str_eq, append, prefix, ◌==◌, if◌then◌else◌,
}
use ufirst_backend.Base.Int.{ℤ}
use ufirst_backend.Core.Errors.{Result, ok}
use ufirst_backend.Core.Json as json
use ufirst_backend.Core.Json.{
  Json, Fields, get_or, index, truthy, or_else, lowered, entry_or, as_text, as_optional, ◌>>=◌,
}
use ufirst_backend.Wallet.Initiation.{InitiationResult}
use ufirst_backend.Wallet.Aggregators.{PaymentStatusResult}
use ufirst_backend.Wallet.Aggregators.Http.{Network, send}
use ufirst_backend.Wallet.Aggregators.Yapily.{
  PayeeSettings, build_payee, refused_unless, is_success, get_request, post_request, two_fields,
  empty_object, payment_details_status_map,
}

-- `idempotency_key.replace("-", "")[:35]`, of a key that has at most 64 dashes; the keys are ASCII.
abbrev without_dashes : (fuel : ℕ) → String → String
without_dashes zero s = s
without_dashes (suc fuel) s = elim (cut_at "-" s) [
  | none ↦ s
  | some (before, after) ↦ append before (without_dashes fuel after)
]

abbrev pub idempotency_id : String → String
idempotency_id key = prefix 35 (without_dashes 64 key)

-- `amount / 100` in the currency
abbrev pub amount_of : ℤ → String → Json
amount_of amount currency =
    two_fields "amount" (Json.hundredths amount) "currency" (Json.text currency)

-- What is asked of the bank; the names are those of `initiate` and `execute_payment`.
unfoldable pub payment_request :
    (upper : String → String)
    → (payee : Json) → (amount : ℤ) → (currency beneficiary_name idempotency_key : String) → Json
payment_request upper payee amount currency beneficiary_name idempotency_key = Json.object (
    Fields.field "type" (Json.text "DOMESTIC_PAYMENT") (
      Fields.field "paymentIdempotencyId" (Json.text (idempotency_id idempotency_key)) (
        Fields.field "amount" (amount_of amount (upper currency)) (
          Fields.field "reference" (Json.text (append "UFirst " (prefix 18 beneficiary_name)))
            (Fields.field "payee" payee Fields.end)))))

-- `if bank_account_id: payload["institutionId"] = bank_account_id`
abbrev institution_field : Option String → Fields
institution_field none = Fields.end
institution_field (some id) =
    if str_eq id "" then Fields.end else Fields.field "institutionId" (Json.text id) Fields.end

abbrev auth_request : Json → String → String → Option String → Json
auth_request payment idempotency_key redirect_uri bank_account_id = Json.object (
    Fields.field "applicationUserId" (Json.text idempotency_key) (
      Fields.field "paymentRequest" payment
        (Fields.field "callback" (Json.text redirect_uri) (institution_field bank_account_id))))

-- `{"Consent": consent_token}` if there is one.
abbrev consent_header : Option String → Option (String × String)
consent_header none = none
consent_header (some token) = if str_eq token "" then none else some ("Consent", token)

module _ (network : Network) (upper lower : String → String) (settings : PayeeSettings) where
  unfoldable pub initiate :
      (amount : ℤ)
      → (currency beneficiary_name idempotency_key redirect_uri : String)
      → (bank_account_id : Option String) → Result InitiationResult
  unfolding build_payee payment_request get_or index as_text send
  initiate amount currency beneficiary_name idempotency_key redirect_uri bank_account_id = do
    payee ← build_payee settings
    let payment = payment_request upper payee amount currency beneficiary_name idempotency_key
    resp ← send network (
        post_request "/payment-auth-requests"
          (auth_request payment idempotency_key redirect_uri bank_account_id) none)
    accepted ← refused_unless (is_success resp.status_code)
    body ← get_or "data" empty_object resp.json
    id ← index "id" body
    payment_id ← as_text id
    link ← get_or "authorisationUrl" (Json.text "") body
    auth_link ← as_text link
    ok (record { payment_id = payment_id; auth_link = auth_link })

  unfoldable pub execute_payment :
      (amount : ℤ)
      → (currency beneficiary_name idempotency_key consent_token : String)
      → Result (String × String)
  unfolding build_payee payment_request get_or index as_text send
  execute_payment amount currency beneficiary_name idempotency_key consent_token = do
    payee ← build_payee settings
    let payment = payment_request upper payee amount currency beneficiary_name idempotency_key
    resp ← send network (post_request "/payments" payment (some ("Consent", consent_token)))
    accepted ← refused_unless (is_success resp.status_code)
    body ← get_or "data" empty_object resp.json
    id ← index "id" body
    payment_id ← as_text id
    field ← get_or "status" (Json.text "PENDING") body
    status ← as_text field
    ok (payment_id, status)

  -- A payment that is not found raises the same error as another refusal.
  unfoldable pub check_status :
      (payment_id : String) → (consent_token : Option String) → Result PaymentStatusResult
  unfolding get_or lowered as_optional truthy send
  check_status payment_id consent_token = do
    resp ← send network (
        get_request (append "/payments/" (append payment_id "/details"))
          (consent_header consent_token))
    found ← refused_unless (resp.status_code == 200)
    body ← get_or "data" empty_object resp.json
    details ← get_or "statusDetails" empty_object body
    detailed ← json.get "status" details
    plain ← get_or "status" (Json.text "") body
    raw_status ← lowered lower (or_else detailed plain)
    reason ← json.get "statusReason" details
    failure ← json.get "failureReason" body
    failure_reason ← as_optional (or_else reason failure)
    ok (record {
      payment_id = payment_id;
      status = entry_or "pending" raw_status payment_details_status_map;
      failure_reason = failure_reason;
    })

  unfoldable pub refund :
      (payment_id : String) → (amount : ℤ) → (idempotency_key : String) → Result String
  unfolding get_or as_text send
  refund payment_id amount idempotency_key = do
    resp ← send network (
        post_request (append "/payments/" (append payment_id "/refunds"))
          (two_fields "paymentIdempotencyId" (Json.text idempotency_key) "amount"
            (amount_of amount "GBP"))
          none)
    accepted ← refused_unless (is_success resp.status_code)
    body ← get_or "data" empty_object resp.json
    id ← get_or "id" (Json.text "") body
    as_text id
