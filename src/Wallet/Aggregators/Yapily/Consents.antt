-- ===== src/Wallet/Aggregators/Yapily/Consents.antt =====
-- The bank connections of `YapilyClient` (app/modules/wallet/openbanking/yapily_client.py).
use ufirst_backend.Base.{
  String, Option, none, some, List, [], ◌∷◌, Bool, true, false, ◌||◌, ◌==◌, str_eq, append,
  if◌then◌else◌,
}
use ufirst_backend.Core.Errors.{Result, ok, err, aggregator_error, type_error}
use ufirst_backend.Core.Json as json
use ufirst_backend.Core.Json.{Json, Items, Fields, get_or, index, truthy, as_text, text_of, ◌>>=◌}
use ufirst_backend.Wallet.Connections.{BankAccountInfo}
use ufirst_backend.Wallet.Aggregators.{Institution}
use ufirst_backend.Wallet.Aggregators.Http.{Network, send}
use ufirst_backend.Wallet.Aggregators.Yapily.{
  refused_unless, is_success, get_request, post_request, empty_object,
}

abbrev empty_text : Json
empty_text = Json.text ""

abbrev no_items : Json
no_items = Json.array Items.nil

-- `for x in value`, of an array.
unfoldable pub items_of : Json → Result Items
items_of (Json.array xs) = ok xs
items_of _ = err type_error

abbrev is_text : String → Json → Bool
is_text s value = elim (text_of value) [ none ↦ false | some t ↦ str_eq t s ]

-- The `identification` of the first entry of a type, or the empty text.
unfoldable pub identification_of : (type : String) → Items → Result Json
unfolding get_or index
identification_of type Items.nil = ok empty_text
identification_of type (Items.item x xs) = do
  found ← json.get "type" x
  let rest = identification_of type xs
  if is_text type found then index "identification" x else rest

-- The name of the first holder, or the empty text.
unfoldable pub holder_name : Items → Result Json
unfolding get_or
holder_name Items.nil = ok empty_text
holder_name (Items.item x xs) = get_or "name" empty_text x

-- `f"{sort_code}/{account_number}" if sort_code else account_number`
abbrev domestic : String → String → String
domestic sort_code account_number =
    if str_eq sort_code "" then account_number else append sort_code (append "/" account_number)

unfoldable pub domestic_identifier : Items → Result String
unfolding identification_of as_text
domestic_identifier idents = do
  code ← identification_of "SORT_CODE" idents
  number ← identification_of "ACCOUNT_NUMBER" idents
  sort_code ← as_text code
  account_number ← as_text number
  ok (domestic sort_code account_number)

-- An IBAN is preferred.
unfoldable pub account_identifier : Items → Result String
unfolding identification_of as_text domestic_identifier
account_identifier idents = do
  field ← identification_of "IBAN" idents
  iban ← as_text field
  let otherwise = domestic_identifier idents
  if str_eq iban "" then otherwise else ok iban

abbrev first_account : Items → Result Json
first_account Items.nil = err aggregator_error
first_account (Items.item x xs) = ok x

module _ (network : Network) where
  unfoldable pub create_connection_session :
      (user_id redirect_uri : String) → (institution_id : Option String) → Result String
  unfolding get_or as_text
  create_connection_session user_id redirect_uri none = err aggregator_error
  create_connection_session user_id redirect_uri (some institution_id) = do
    named ← refused_unless (if str_eq institution_id "" then false else true)
    resp ← send network (
        post_request "/account-auth-requests"
          (Json.object (
            Fields.field "applicationUserId" (Json.text user_id) (
              Fields.field "institutionId" (Json.text institution_id)
                (Fields.field "callback" (Json.text redirect_uri) Fields.end))))
          none)
    accepted ← refused_unless (is_success resp.status_code)
    body ← get_or "data" empty_object resp.json
    link ← get_or "authorisationUrl" empty_text body
    as_text link

  -- `_get_consent_data`
  unfoldable pub get_consent_data : (consent_id : String) → Result Json
  unfolding get_or
  get_consent_data consent_id = do
    resp ← send network (get_request (append "/consents/" consent_id) none)
    found ← refused_unless (resp.status_code == 200)
    get_or "data" empty_object resp.json

  -- The first of the accounts that the consent opens.
  unfoldable pub fetch_account : (consent_token : String) → Result Json
  unfolding get_or items_of
  fetch_account consent_token = do
    resp ← send network (get_request "/accounts" (some ("Consent", consent_token)))
    found ← refused_unless (resp.status_code == 200)
    field ← get_or "data" no_items resp.json
    accounts ← items_of field
    first_account accounts

  abbrev account_info : (consent_id : String) → Json → Json → Result BankAccountInfo
  account_info consent_id consent acc = do
    institution ← get_or "institutionId" empty_text consent
    institution_id ← as_text institution
    expires ← get_or "expiresAt" empty_text consent
    consent_expires_at ← as_text expires
    field ← get_or "accountIdentifications" no_items acc
    idents ← items_of field
    identifier ← account_identifier idents
    names_field ← get_or "accountNames" no_items acc
    names ← items_of names_field
    holder_field ← holder_name names
    holder ← as_text holder_field
    id_field ← index "id" acc
    id ← as_text id_field
    currency_field ← get_or "currency" (Json.text "GBP") acc
    currency ← as_text currency_field
    ok (record {
      external_account_id = id;
      account_identifier = identifier;
      account_holder_name = holder;
      provider_id = institution_id;
      provider_display_name = institution_id;
      currency = currency;
      consent_id = consent_id;
      consent_expires_at = consent_expires_at;
    })

  unfoldable pub complete_connection : (code : String) → Result BankAccountInfo
  unfolding get_consent_data fetch_account get_or items_of index as_text account_identifier
      holder_name
  complete_connection code = do
    consent ← get_consent_data code
    field ← get_or "consentToken" empty_text consent
    authorized ← refused_unless (truthy field)
    consent_token ← as_text field
    acc ← fetch_account consent_token
    account_info code consent acc

  -- A status other than 200 and 204 is logged.
  unfoldable pub revoke_consent : (consent_id : String) → Result (Unit {0})
  revoke_consent consent_id = do
    resp ← send network (record {
      method = "DELETE";
      path = append "/consents/" consent_id;
      json_body = none;
      extra_header = none;
    })
    ok tt

-- The list of banks.

abbrev feature_in : List String → Items → Bool
feature_in features Items.nil = false
feature_in features (Items.item x xs) = any_of features x || feature_in features xs
  where
    any_of : List String → Json → Bool
    any_of [] value = false
    any_of (f ∷ fs) value = is_text f value || any_of fs value

abbrev pub pis_features : List String
pis_features = "INITIATE_DOMESTIC_SINGLE_PAYMENT" ∷ "INITIATE_DOMESTIC_SINGLE_INSTANT_PAYMENT" ∷ []

abbrev pub ais_features : List String
ais_features = "ACCOUNT_REQUEST" ∷ []

-- `c.get("countryCode2", "")` of each.
unfoldable pub country_codes : Items → Result (List String)
unfolding get_or as_text
country_codes Items.nil = ok []
country_codes (Items.item c cs) = do
  field ← get_or "countryCode2" empty_text c
  code ← as_text field
  rest ← country_codes cs
  ok (code ∷ rest)

-- The `source` of the first icon.
unfoldable pub icon_of : Items → Result (Option String)
unfolding get_or index as_text
icon_of Items.nil = ok none
icon_of (Items.item m media) = do
  type ← json.get "type" m
  let rest = icon_of media
  if is_text "icon" type
      then (index "source" m >>= λ field. as_text field >>= λ source. ok (some source))
      else rest

unfoldable pub institution_of : Json → Result Institution
unfolding get_or index items_of as_text country_codes icon_of
institution_of item = do
  features_field ← get_or "features" no_items item
  features ← items_of features_field
  media_field ← get_or "media" no_items item
  media ← items_of media_field
  logo_url ← icon_of media
  id_field ← index "id" item
  id ← as_text id_field
  name_field ← get_or "name" id_field item
  name ← as_text name_field
  countries_field ← get_or "countries" no_items item
  countries ← items_of countries_field
  codes ← country_codes countries
  ok (record {
    id = id;
    name = name;
    countries = codes;
    logo_url = logo_url;
    supports_payments = feature_in pis_features features;
    supports_account_info = feature_in ais_features features;
  })

unfoldable pub institutions_of : Items → Result (List Institution)
unfolding institution_of
institutions_of Items.nil = ok []
institutions_of (Items.item x xs) = do
  first ← institution_of x
  rest ← institutions_of xs
  ok (first ∷ rest)

unfoldable pub get_institutions : Network → Result (List Institution)
unfolding get_or items_of institutions_of
get_institutions network = do
  resp ← send network (get_request "/institutions" none)
  found ← refused_unless (resp.status_code == 200)
  field ← get_or "data" no_items resp.json
  items ← items_of field
  institutions_of items
