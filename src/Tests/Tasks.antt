-- ===== src/Tests/Tasks.antt =====
-- The payment tasks, applied to the payment of one transfer.
use ufirst_backend.Base.{◌≡◌, ◌≢◌, false, inr, refl, none, some, [], ◌∷◌}
use ufirst_backend.Core.Errors.{ok}
use ufirst_backend.Db.{Db}
use ufirst_backend.Wallet.Models.{FundingTransfer, PaymentState, OpenBankingPayment}
use ufirst_backend.Wallet.PaymentRecords.{is_stale}
use ufirst_backend.Wallet.Tasks.{
  WebhookEvent, Handled, handle_event, process_payment_webhook, expire_stale_authorizations,
  by_type, payment_pending, start_authorizing, expire_each,
}
use ufirst_backend.Wallet.Funding.{advance_funding_state}
use ufirst_backend.Wallet.Tasks.Webhook.{process_payment_webhook-failed}
use ufirst_backend.Wallet.Tasks.Redelivery.{process_payment_webhook_redelivered}
use ufirst_backend.Wallet.Tasks.Executed.{process_payment_webhook-executed}
use ufirst_backend.Wallet.Tasks.Expiry.{expire_stale_authorizations_leaves_none}
use ufirst_backend.Tests.Data.{ctx, later, gift, database}

abbrev bank_payment : OpenBankingPayment
bank_payment = record {
  funding_transfer_id = 21;
  aggregator = "yapily";
  aggregator_payment_id = "pay-1";
  auth_link = "https://bank";
  bank_status = some "PENDING";
  failure_reason = none;
  webhook_received_at = none;
}

abbrev executed : WebhookEvent
executed = record {
  event_type = "payment_executed";
  payment_id = "pay-1";
  bank_status = "COMPLETED";
  failure_reason = none;
}

abbrev failure : WebhookEvent
failure = record executed { event_type = "payment_failed"; bank_status = "FAILED" }

abbrev awaiting : Db
awaiting = record database { open_banking_payments = bank_payment ∷ [] }

process_payment_webhook-executed_example :
    ((process_payment_webhook ctx executed awaiting).0 ≢ ok Handled.processed)
    × ((process_payment_webhook ctx executed awaiting).1
        ≡ record awaiting { published = (handle_event ctx executed awaiting).1.published })
process_payment_webhook-executed_example =
    process_payment_webhook-executed ctx executed refl bank_payment gift awaiting refl refl
      (inr (inr (inr refl)))

process_payment_webhook-failed_example :
    ((process_payment_webhook ctx failure awaiting).0 ≢ ok Handled.processed)
    × ((process_payment_webhook ctx failure awaiting).1
        ≡ record awaiting { published = (handle_event ctx failure awaiting).1.published })
process_payment_webhook-failed_example = process_payment_webhook-failed ctx failure awaiting refl

abbrev pending : WebhookEvent
pending = record executed { event_type = "payment_pending"; bank_status = "AUTHORISED" }

abbrev waiting : Db
waiting = record database {
  funding_transfers = record gift { payment_state = PaymentState.awaiting_authorization } ∷ [];
  open_banking_payments = bank_payment ∷ [];
}

abbrev pending_run : Db
pending_run = (process_payment_webhook ctx pending waiting).1

pending_is_processed :
    process_payment_webhook ctx pending waiting ≡ (ok Handled.processed, pending_run)
unfolding process_payment_webhook handle_event by_type payment_pending start_authorizing
    advance_funding_state
pending_is_processed = refl

-- The wallet is credited by another request before the second delivery.
abbrev paid_meanwhile : Db
paid_meanwhile = record pending_run {
  funding_transfers = record gift { payment_state = PaymentState.completed } ∷ [];
}

process_payment_webhook_redelivered_example :
    process_payment_webhook later pending paid_meanwhile ≡ (ok Handled.ignored, paid_meanwhile)
process_payment_webhook_redelivered_example =
    process_payment_webhook_redelivered ctx later pending bank_payment waiting pending_run
      paid_meanwhile refl pending_is_processed refl

abbrev expired : FundingTransfer
expired = record gift { payment_state = PaymentState.expired; payment_state_changed_at = 2_000 }

expire_stale_authorizations_leaves_none_example : is_stale later expired ≡ false
unfolding expire_stale_authorizations expire_each advance_funding_state
expire_stale_authorizations_leaves_none_example =
    expire_stale_authorizations_leaves_none later waiting 21 expired refl
