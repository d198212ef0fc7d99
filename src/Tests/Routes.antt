-- ===== src/Tests/Routes.antt =====
-- Requests to the routes of cards and transfers, and who makes them.
use ufirst_backend.Base.{
  ◌≡◌, ◌⊎◌, String, Option, none, some, [], ◌∷◌, false, refl, str_eq, if◌then◌else◌,
}
use ufirst_backend.Core.Errors.{ok}
use ufirst_backend.Core.Auth.{
  AuthSettings, Tokens, CurrentUser, verify_token, payload_to_user, get_current_user, payload,
  invalid,
}
use ufirst_backend.Core.Json.{Json, Fields}
use ufirst_backend.Db.{Db}
use ufirst_backend.Identity.Models.{User, UserRole, KycStatus}
use ufirst_backend.Identity.Service.{get_or_create_user, role_of}
use ufirst_backend.Identity.Middleware.{current_user, identify}
use ufirst_backend.Identity.Middleware.Roles.{current_user-HasRole}
use ufirst_backend.Identity.Routes.{KycWebhook, kyc_provider_webhook}
use ufirst_backend.Identity.Routes.Kyc.{IsSigned, Applied, kyc_provider_webhook-IsSigned}
use ufirst_backend.Wallet.Outcomes.{Refuses}
use ufirst_backend.Wallet.Routes.{FundingCall, handle_funding}
use ufirst_backend.Wallet.Routes.Access.{Permits as PermitsFunding, handle_funding-Permits}
use ufirst_backend.Card.Routes.{CardCall, handle_card}
use ufirst_backend.Card.Routes.Access.{Permits as PermitsCard, handle_card-Permits}
use ufirst_backend.Tests.Data.{ctx, database}
use ufirst_backend.Tests.Cards.{accepting}

abbrev operator : CurrentUser
operator = record { id = 2; role = "ops_agent"; email = "" }

handle_card-Permits_example :
    PermitsCard operator (CardCall.freeze 5) database
    ⊎ Refuses (handle_card accepting ctx (CardCall.freeze 5) operator) database
handle_card-Permits_example =
    handle_card-Permits accepting ctx operator database (CardCall.freeze 5) refl

-- The sponsor of the transfer.
abbrev sponsor : CurrentUser
sponsor = record { id = 9; role = "sponsor"; email = "" }

handle_funding-Permits_example :
    PermitsFunding sponsor (FundingCall.read 21) database
    ⊎ Refuses (handle_funding ctx (FundingCall.read 21) sponsor) database
handle_funding-Permits_example = handle_funding-Permits ctx sponsor database (FundingCall.read 21)

-- A user whose token names another role than the row.
abbrev kofi : User
kofi = record {
  id = 9;
  email = none;
  phone = none;
  full_name = none;
  role = some UserRole.sponsor;
  kyc_status = KycStatus.pending;
  country = none;
  beneficiary_relationship = none;
}

abbrev known : Db
known = record database { users = kofi ∷ [] }

abbrev production : AuthSettings
production = record { dev_mode = false; supabase_jwt_secret = "secret"; supabase_jwks_url = "" }

abbrev bearer_of : Option String → Option String
bearer_of none = none
bearer_of (some header) = if str_eq header "Bearer tok" then some "tok" else none

abbrev tokens : Tokens
tokens = record {
  decode_secret =
      λ token secret. payload (record { sub = some "9"; role = some "admin"; email = none });
  decode_jwks = λ token url. invalid;
  uuid_of = λ s. some 9;
  bearer = bearer_of;
}

admitted : current_user production tokens (λ db. db) (some "Bearer tok") known ≡ (ok sponsor, known)
unfolding current_user identify verify_token payload_to_user get_or_create_user get_current_user
    role_of
admitted = refl

current_user-HasRole_example : sponsor.role ≡ "sponsor"
current_user-HasRole_example =
    current_user-HasRole production tokens (λ db. db) "Bearer tok" known known sponsor kofi
      UserRole.sponsor refl refl refl admitted refl refl

-- A webhook of the KYC provider.
abbrev approval : Json
approval = Json.object (
    Fields.field "user_id" (Json.text "nine")
      (Fields.field "status" (Json.text "approved") Fields.end))

abbrev provider : KycWebhook
provider = record {
  dev_mode = false;
  kyc_webhook_secret = "s3";
  hmac_sha256 = λ secret body. "ab";
  loads = λ body. some approval;
  str = λ value. "nine";
  uuid_of = λ s. some 9;
}

kyc_provider_webhook-IsSigned_example :
    Refuses (kyc_provider_webhook provider "{}" (some "sha256=ab")) known
    ⊎ (IsSigned provider "{}" (some "sha256=ab") × Applied provider "{}" (some "sha256=ab") known)
kyc_provider_webhook-IsSigned_example =
    kyc_provider_webhook-IsSigned provider "{}" (some "sha256=ab") known refl
