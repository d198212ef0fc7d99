-- ===== src/Wallet/Aggregators/TrueLayer/Tokens.antt =====
-- The access token of `TrueLayerClient`, the initiation of a payment and the connections of banks
-- (app/modules/wallet/openbanking/client.py). `http` answers a request, or raises the error of the
-- transport, which is not caught. Times are in seconds.
use ufirst_backend.Base.{
  ℕ, String, Option, none, some, Bool, false, ◌&&◌, not, ◌==◌, str_eq, append, if◌then◌else◌,
}
use ufirst_backend.Base.Int.{ℤ, pos, ◌+ℤ◌, ◌-ℤ◌, ltb_ℤ}
use ufirst_backend.Core.Errors.{
  Result, ok, err, aggregator_error, type_error, attribute_error, key_error,
}
use ufirst_backend.Core.Json as json
use ufirst_backend.Core.Json.{Json, Items, Fields, get_or, index, truthy, or_else, as_text, ◌>>=◌}
use ufirst_backend.Wallet.Initiation.{InitiationResult}
use ufirst_backend.Wallet.Connections.{BankAccountInfo}
use ufirst_backend.Wallet.Aggregators.Http.{HttpRequest, Response, Network}
use ufirst_backend.Wallet.Aggregators.TrueLayer.{
  empty_object, refused_unless, is_success, payment_from_initiate_response, authorized_send,
}

-- `_token` and `_token_expires_at`
pub record TokenCache : Type 0 where
  pub token : Option String
  pub expires_at : Option ℤ

abbrev fresh : ℕ → TokenCache → Bool
fresh now cache = elim cache.token [
  | none ↦ false
  | some token ↦ elim cache.expires_at [
    | none ↦ false
    | some expires_at ↦ not (str_eq token "") && ltb_ℤ (pos now) expires_at
  ]
]

-- The new token of an answer, with the answer.
unfoldable pub granted : Response → Result (String × Response)
unfolding index as_text
granted resp = do
  accepted ← refused_unless (resp.status_code == 200)
  field ← index "access_token" resp.json
  token ← as_text field
  ok (token, resp)

-- `int(data.get("expires_in", 3600))`; `int` is Python's.
unfoldable pub lifetime : (int : Json → Result ℤ) → Response → Result ℤ
unfolding get_or
lifetime int resp = get_or "expires_in" (Json.integer (pos 3_600)) resp.json >>= int

-- `authenticate` is the answer of the token endpoint. The token is stored before its lifetime is
-- read; it counts as expired a minute early.
module _ (int : Json → Result ℤ) (authenticate : Result Response) (now : ℕ) where
  abbrev stored : Option ℤ → String → Result ℤ → Result String × TokenCache
  stored old token (ok expires_in) = (
    ok token,
    record { token = some token; expires_at = some (pos now +ℤ (expires_in -ℤ pos 60)) },
  )
  stored old token (err e) = (err e, record { token = some token; expires_at = old })

  unfoldable pub get_access_token : TokenCache → Result String × TokenCache
  unfolding granted lifetime
  get_access_token cache =
      if fresh now cache
      then (elim cache.token [ none ↦ ok "" | some token ↦ ok token ], cache)
      else elim (authenticate >>= granted) [
        | err e ↦ (err e, cache)
        | ok (token, resp) ↦ stored cache.expires_at token (lifetime int resp)
      ]

-- The bank that is chosen before, or on the page of TrueLayer.
abbrev provider_selection : Option String → Json
provider_selection none = Json.object (Fields.field "type" (Json.text "user_selected") Fields.end)
provider_selection (some id) =
    if str_eq id ""
    then Json.object (Fields.field "type" (Json.text "user_selected") Fields.end)
    else Json.object (
        Fields.field "type" (Json.text "preselected") (
          Fields.field "provider_id" (Json.text id)
            (Fields.field "scheme_id" (Json.text "faster_payments_service") Fields.end)))

-- The merchant account that is paid.
abbrev merchant : String → String → Json
merchant merchant_account_id beneficiary_name = Json.object (
    Fields.field "type" (Json.text "merchant_account") (
      Fields.field "merchant_account_id" (Json.text merchant_account_id)
        (Fields.field "account_holder_name" (Json.text beneficiary_name) Fields.end)))

abbrev payment_method : Json → Json → Json
payment_method selection beneficiary = Json.object (
    Fields.field "type" (Json.text "bank_transfer") (
      Fields.field "provider_selection" selection
        (Fields.field "beneficiary" beneficiary Fields.end)))

module _ (network : Network) (token : Result String) (upper : String → String)
    (merchant_account_id : String) where
  unfoldable pub initiate :
      (amount : ℤ)
      → (currency beneficiary_name idempotency_key redirect_uri : String)
      → (bank_account_id : Option String) → Result InitiationResult
  unfolding authorized_send payment_from_initiate_response
  initiate amount currency beneficiary_name idempotency_key redirect_uri bank_account_id = do
    resp ← authorized_send network token (record {
      method = "POST";
      path = "/v3/payments";
      json_body = some (
          Json.object (
            Fields.field "amount_in_minor" (Json.integer amount) (
              Fields.field "currency" (Json.text (upper currency)) (
                Fields.field "payment_method"
                  (payment_method (provider_selection bank_account_id)
                    (merchant merchant_account_id beneficiary_name))
                  (Fields.field "return_uri" (Json.text redirect_uri) Fields.end)))));
      extra_header =
          if str_eq idempotency_key "" then none else some ("Idempotency-Key", idempotency_key);
    })
    accepted ← refused_unless (is_success resp.status_code)
    payment_from_initiate_response resp.json

  -- A refusal is only logged.
  unfoldable pub revoke_consent : (consent_id : String) → Result (Unit {0})
  unfolding authorized_send
  revoke_consent consent_id = do
    resp ← authorized_send network token (record {
      method = "DELETE";
      path = append "/data/v1/consents/" consent_id;
      json_body = none;
      extra_header = none;
    })
    ok tt

abbrev empty_text : Json
empty_text = Json.text ""

-- `accounts[0]`, of a list that is not empty.
abbrev first_account : Json → Result Json
first_account (Json.array (Items.item x xs)) = ok x
first_account value = if truthy value then no_first value else err aggregator_error
  where
    no_first : Json → Result Json
    no_first (Json.text s) = err attribute_error
    no_first (Json.object fields) = err key_error
    no_first _ = err type_error

-- `account_number.get("iban") or f"{sort_code}/{number}"`; `str` is Python's format of a value.
unfoldable pub identifier_of : (str : Json → String) → Json → Result String
unfolding get_or truthy as_text
identifier_of str account_number = do
  iban ← json.get "iban" account_number
  code ← get_or "sort_code" empty_text account_number
  number ← get_or "number" empty_text account_number
  if truthy iban then as_text iban else ok (append (str code) (append "/" (str number)))

-- The account as the service takes it; TrueLayer's account id stands for the consent.
abbrev account_info :
    (str : Json → String) → (consent_expires_at : String) → Json → Result BankAccountInfo
account_info str consent_expires_at acc = do
  account_number ← get_or "account_number" empty_object acc
  identifier ← identifier_of str account_number
  provider ← get_or "provider" empty_object acc
  id_field ← index "account_id" acc
  id ← as_text id_field
  name_field ← get_or "display_name" empty_text acc
  name ← as_text name_field
  provider_field ← get_or "provider_id" empty_text provider
  provider_id ← as_text provider_field
  display_field ← get_or "display_name" empty_text provider
  display_name ← as_text display_field
  currency_field ← get_or "currency" (Json.text "GBP") acc
  currency ← as_text currency_field
  ok (record {
    external_account_id = id;
    account_identifier = identifier;
    account_holder_name = name;
    provider_id = provider_id;
    provider_display_name = display_name;
    currency = currency;
    consent_id = id;
    consent_expires_at = consent_expires_at;
  })

module _ (http : HttpRequest → Result Response) where
  -- `code_exchange` is the answer of the token endpoint to the authorisation code.
  unfoldable pub complete_connection :
      (str : Json → String) → (code_exchange : Result Response) → Result BankAccountInfo
  unfolding get_or index as_text truthy identifier_of
  complete_connection str code_exchange = do
    token_resp ← code_exchange
    exchanged ← refused_unless (token_resp.status_code == 200)
    token_field ← index "access_token" token_resp.json
    ais_token ← as_text token_field
    expires_field ← get_or "expires_at" empty_text token_resp.json
    accounts_resp ← http (record {
      method = "GET";
      path = "/data/v1/accounts";
      json_body = none;
      extra_header = some ("Authorization", append "Bearer " ais_token);
    })
    found ← refused_unless (accounts_resp.status_code == 200)
    accounts ← get_or "results" (Json.array Items.nil) accounts_resp.json
    acc ← first_account accounts
    consent_expires_at ← as_text expires_field
    account_info str consent_expires_at acc

  unfoldable pub create_connection_session :
      (token : Result String) → (redirect_uri : String) → Result String
  unfolding get_or as_text
  create_connection_session token redirect_uri = do
    access_token ← token
    resp ← http (record {
      method = "POST";
      path = "/v3/auth-link";
      json_body = some (
          Json.object (
            Fields.field "redirect_uri" (Json.text redirect_uri) (
              Fields.field "scopes"
                (Json.array
                  (Items.item (Json.text "accounts") (Items.item (Json.text "balance") Items.nil)))
                Fields.end)));
      extra_header = some ("Authorization", append "Bearer " access_token);
    })
    accepted ← refused_unless (is_success resp.status_code)
    other ← get_or "auth_link" empty_text resp.json
    link ← get_or "auth_uri" other resp.json
    as_text link
