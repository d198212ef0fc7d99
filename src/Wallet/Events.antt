-- ===== src/Wallet/Events.antt =====
-- The events of app/modules/wallet/events.py that the modelled operations publish.
use ufirst_backend.Base.{ℕ, String, Option}
use ufirst_backend.Base.Int.{ℤ}
use ufirst_backend.Wallet.Models.{PaymentMethod}

pub data Event : Type 0 where
  wallet_created : (wallet_id owner_id : ℕ) (currency : String) → Event
  wallet_funded : (wallet_id : ℕ) (amount : ℤ) (currency : String) (funding_transfer_id : ℕ) → Event
  wallet_debited :
      (wallet_id : ℕ) (amount : ℤ) (currency : String) (reference_type : String) (reference_id : ℕ)
      → Event
  funding_initiated :
      (funding_transfer_id sponsor_id : ℕ) (payment_method : PaymentMethod) (amount : ℤ)
      (currency : String)
      → Event
  funding_payment_received : (funding_transfer_id : ℕ) (aggregator_payment_id : String) → Event
  funding_failed : (funding_transfer_id : ℕ) (reason : Option String) → Event
  funding_authorization_expired : (funding_transfer_id : ℕ) → Event
  bank_connection_created : (connection_id sponsor_id : ℕ) (provider_display_name : String) → Event
  bank_consent_expiring :
      (connection_id sponsor_id : ℕ) (provider_display_name : String)
      (consent_expires_at : Option ℕ)
      → Event
  bank_connection_revoked : (connection_id sponsor_id : ℕ) → Event
