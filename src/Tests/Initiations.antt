-- ===== src/Tests/Initiations.antt =====
-- The start of payments and the revocation of a bank connection, applied.
use ufirst_backend.Base.{ℕ, ◌≡◌, refl, String, Option, none, some, [], ◌∷◌}
use ufirst_backend.Base.Table.{get}
use ufirst_backend.Base.Int.{pos}
use ufirst_backend.Core.Errors.{Result, ok, err, permission_denied, aggregator_error}
use ufirst_backend.Db.{Db}
use ufirst_backend.Wallet.Models.{
  PaymentMethod, PaymentState, SponsorBankConnection, BankConnectionStatus,
}
use ufirst_backend.Wallet.PaymentRecords.{create_open_banking_payment}
use ufirst_backend.Wallet.Funding.{advance_funding_state}
use ufirst_backend.Wallet.ConnectionRecords.{connection_key, update_bank_connection_status}
use ufirst_backend.Wallet.Connections.{revoke_connection}
use ufirst_backend.Wallet.Connections.Revocation.{revoke_connection_revokes}
use ufirst_backend.Wallet.Initiation.{
  PaymentRequest, Initiate, initiate_payment, resume_payment, start_payment, with_aggregator,
  record_payment, await_authorization,
}
use ufirst_backend.Wallet.Initiation.Access.{initiate_payment-denied}
use ufirst_backend.Wallet.Initiation.Retry.{resume_payment_again}
use ufirst_backend.Tests.Data.{ctx, later, ama, gift, database}

abbrev payment : PaymentRequest
payment = record {
  sponsor_id = 9;
  wallet_id = 1;
  payment_method = PaymentMethod.open_banking;
  source_amount = pos 100;
  source_currency = "GBP";
  dest_currency = "GHS";
  idempotency_key = "april";
  beneficiary_wallet_id = some 1;
  bank_account_id = none;
}

abbrev accepting : Initiate
accepting method amount currency key bank =
    ok (record { payment_id = "pay-9"; auth_link = "https://bank/9" })

abbrev refusing : Initiate
refusing method amount currency key bank = err aggregator_error

abbrev no_uuid : String → Option ℕ
no_uuid s = none

initiate_payment-denied_example :
    initiate_payment no_uuid "yapily" accepting ctx (λ s. s) (λ x. x) payment database
    ≡ (err permission_denied, database)
initiate_payment-denied_example =
    initiate_payment-denied no_uuid "yapily" accepting ctx (λ s. s) (λ x. x) payment 1 ama database
      refl refl refl

abbrev begun : Db
begun = record database {
  funding_transfers = record gift { payment_state = PaymentState.initiated } ∷ [];
}

abbrev after_first : Db
after_first = (resume_payment no_uuid "yapily" accepting ctx payment 21 begun).1

first_attempt :
    resume_payment no_uuid "yapily" accepting ctx payment 21 begun
    ≡ (ok (21, some "https://bank/9"), after_first)
unfolding resume_payment start_payment with_aggregator record_payment await_authorization
    create_open_banking_payment advance_funding_state
first_attempt = refl

resume_payment_again_example :
    resume_payment no_uuid "truelayer" refusing later payment 21 after_first
    ≡ (ok (21, some "https://bank/9"), after_first)
resume_payment_again_example =
    resume_payment_again no_uuid no_uuid "yapily" "truelayer" accepting refusing ctx later payment
      21 begun after_first (21, some "https://bank/9") refl first_attempt

abbrev connection : SponsorBankConnection
connection = record {
  id = 60;
  sponsor_id = 9;
  aggregator = "yapily";
  external_account_id = "acc";
  account_identifier_encrypted = "xyz";
  account_holder_name = "Kofi";
  provider_id = "monzo";
  provider_display_name = "Monzo";
  currency = "GBP";
  consent_id = "c-1";
  consent_expires_at = some 9_000;
  status = BankConnectionStatus.active;
}

abbrev linked : Db
linked = record database { bank_connections = connection ∷ [] }

abbrev unreachable : String → Result (Unit {0})
unreachable consent_id = err aggregator_error

abbrev after_revocation : Db
after_revocation = (revoke_connection unreachable 60 9 linked).1

revokes : revoke_connection unreachable 60 9 linked ≡ (ok tt, after_revocation)
unfolding revoke_connection update_bank_connection_status
revokes = refl

revoke_connection_revokes_example :
    ((c : SponsorBankConnection) × (get connection_key 60 after_revocation.bank_connections
        ≡ some c)
      × (c.sponsor_id ≡ 9)
      × (c.status ≡ BankConnectionStatus.revoked))
    × (revoke_connection unreachable 60 9 after_revocation ≡ (ok tt, after_revocation))
revoke_connection_revokes_example =
    revoke_connection_revokes unreachable 60 9 linked after_revocation revokes
