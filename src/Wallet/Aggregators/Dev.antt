-- ===== src/Wallet/Aggregators/Dev.antt =====
-- `DevPaymentAdapter` (app/modules/wallet/openbanking/adapter.py). Its `verify_webhook` and
-- `revoke_consent` do nothing, its list of institutions is empty, and its link to connect a bank is
-- one text.
use ufirst_backend.Base.{String, none, append}
use ufirst_backend.Core.Errors.{Result, ok}
use ufirst_backend.Core.Json.{Json, get_or, as_text, ◌>>=◌}
use ufirst_backend.Wallet.Initiation.{InitiationResult}
use ufirst_backend.Wallet.Connections.{BankAccountInfo}
use ufirst_backend.Wallet.Tasks.{WebhookEvent}
use ufirst_backend.Wallet.Aggregators.{PaymentStatusResult}

abbrev pub fake_id : (digest : String → String) → String → String
fake_id digest idempotency_key = append "dev_" (digest idempotency_key)

-- `digest` is the first 16 digits of SHA-256.
unfoldable pub initiate : (digest : String → String) → (idempotency_key : String) → InitiationResult
initiate digest idempotency_key = record {
  payment_id = fake_id digest idempotency_key;
  auth_link = append "https://dev.example.com/pay/" (fake_id digest idempotency_key);
}

unfoldable pub check_status : (payment_id : String) → PaymentStatusResult
check_status payment_id = record {
  payment_id = payment_id;
  status = "executed";
  failure_reason = none;
}

unfoldable pub parse_webhook : Json → Result WebhookEvent
unfolding get_or as_text
parse_webhook payload = do
  field ← get_or "payment_id" (Json.text "dev_unknown") payload
  payment_id ← as_text field
  ok (record {
    event_type = "payment_executed";
    payment_id = payment_id;
    bank_status = "executed";
    failure_reason = none;
  })

unfoldable pub refund : (payment_id : String) → String
refund payment_id = append "dev_refund_" payment_id

unfoldable pub complete_connection : BankAccountInfo
complete_connection = record {
  external_account_id = "dev_account";
  account_identifier = "GB29NWBK60161331926819";
  account_holder_name = "Dev Sponsor";
  provider_id = "ob-monzo";
  provider_display_name = "Monzo (Dev)";
  currency = "GBP";
  consent_id = "dev_consent";
  consent_expires_at = "";
}
