-- ===== src/Wallet/Aggregators.antt =====
-- The aggregators of payments (app/modules/wallet/openbanking/adapter.py): what an adapter gives
-- back, the adapter for development, and the choice of an adapter. SHA-256 and Python's `upper` are
-- parameters. The cache of instances is left out.
pub mod Dev
pub mod Http
pub mod Retry
pub mod TrueLayer
pub mod Yapily
pub mod Stripe
pub mod Poll
use ufirst_backend.Base.{
  ℕ, String, Option, none, some, List, [], Bool, not, ◌&&◌, str_eq, append, if◌then◌else◌,
}
use ufirst_backend.Core.Errors.{Result, ok, err, value_error}

pub record PaymentStatusResult : Type 0 where
  pub payment_id : String
  pub status : String
  pub failure_reason : Option String

pub record Institution : Type 0 where
  pub id : String
  pub name : String
  pub countries : List String
  pub logo_url : Option String
  pub supports_payments : Bool
  pub supports_account_info : Bool

-- The settings that name the provider and hold its credentials.
pub record ProviderSettings : Type 0 where
  pub stripe_secret_key : String
  pub openbanking_provider : String
  pub yapily_application_id : String
  pub yapily_application_secret : String
  pub truelayer_client_id : String
  pub truelayer_client_secret : String

pub data Adapter : Type 0 where
  dev stripe true_layer yapily : Adapter

abbrev given : String → Bool
given s = not (str_eq s "")

module _ (upper : String → String) (settings : ProviderSettings) where
  -- `_is_configured`
  unfoldable pub is_configured : (payment_method : String) → Bool
  is_configured payment_method =
      if str_eq payment_method "card"
      then given settings.stripe_secret_key
      else if str_eq (upper settings.openbanking_provider) "YAPILY"
      then given settings.yapily_application_id && given settings.yapily_application_secret
      else given settings.truelayer_client_id && given settings.truelayer_client_secret

  unfoldable pub get_adapter : (payment_method : String) → Result Adapter
  unfolding is_configured
  get_adapter payment_method =
      if not (is_configured payment_method)
      then ok Adapter.dev
      else if str_eq payment_method "card"
      then ok Adapter.stripe
      else if str_eq (upper settings.openbanking_provider) "TRUELAYER"
      then ok Adapter.true_layer
      else if str_eq (upper settings.openbanking_provider) "YAPILY"
      then ok Adapter.yapily
      else err value_error
