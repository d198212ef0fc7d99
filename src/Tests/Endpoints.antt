-- ===== src/Tests/Endpoints.antt =====
-- Webhooks, requests to aggregators, a poll, and the wallet of a new user.
use ufirst_backend.Base.{◌≡◌, inr, ℕ, zero, suc, none, some, List, [], ◌∷◌, refl, arith}
use ufirst_backend.Core.Errors.{Result, ok, err, aggregator_error, type_error}
use ufirst_backend.Base.Int.{ℤ, pos}
use ufirst_backend.Core.Json.{Json, Fields}
use ufirst_backend.Db.{Db}
use ufirst_backend.Identity.Models.{UserRole}
use ufirst_backend.Wallet.Handlers.{HasWallet, on_user_created, on_user_created-HasWallet}
use ufirst_backend.Wallet.Webhooks.{Reception, Inbox}
use ufirst_backend.Wallet.Webhooks.Queue.{
  WebhookCall, Moment, IsAccounted, receive_all, receive_all-IsAccounted, AreAccounted,
}
use ufirst_backend.Wallet.Aggregators.{PaymentStatusResult}
use ufirst_backend.Wallet.Aggregators.Http.{HttpRequest, Attempt, run_request}
use ufirst_backend.Wallet.Aggregators.Retry.{Bounded, run_request-Bounded}
use ufirst_backend.Wallet.Aggregators.TrueLayer as true_layer
use ufirst_backend.Wallet.Aggregators.TrueLayer.Tokens.{TokenCache, get_access_token}
use ufirst_backend.Wallet.Aggregators.Yapily as yapily
use ufirst_backend.Wallet.Aggregators.Poll.{
  synthetic_payload, parse_webhook-synthetic_payload, run_tasks, poll_pending_payments,
  poll_pending_payments-ignored,
}
use ufirst_backend.Tests.Data.{ctx, later, database}

abbrev told : Json
told = Json.object (Fields.field "type" (Json.text "payment_executed") Fields.end)

abbrev env : Reception
env = record {
  verify = λ method request. ok tt;
  loads = λ body. some told;
  parse_time = λ s. none;
  now = 0;
  send_task = λ task. ok tt;
}

abbrev nothing : Inbox
nothing = record { logs = []; tasks = [] }

abbrev calls : List (Moment × WebhookCall)
calls =
    (
      record { now = 5; send_task = λ task. ok tt },
      WebhookCall.payment_status (record { raw_body = "{}"; headers = "" }),
    )
    ∷ []

nothing-IsAccounted : IsAccounted env nothing
unfolding AreAccounted
nothing-IsAccounted = tt

receive_all-IsAccounted_example : IsAccounted env (receive_all env calls nothing)
receive_all-IsAccounted_example = receive_all-IsAccounted env calls nothing nothing-IsAccounted

-- A network that fails twice, and then answers.
abbrev flaky : HttpRequest → ℕ → Attempt
flaky request zero = Attempt.transport_error
flaky request (suc zero) = Attempt.response (record { status_code = 503; json = Json.null })
flaky request _ = Attempt.response (record { status_code = 200; json = told })

abbrev asking : HttpRequest
asking = record { method = "GET"; path = "/institutions"; json_body = none; extra_header = none }

run_request-Bounded_example : Bounded flaky asking 3 0 (run_request flaky asking 3)
run_request-Bounded_example = run_request-Bounded flaky asking 3 (omega arith)

abbrev executed : PaymentStatusResult
executed = record { payment_id = "p-1"; status = "executed"; failure_reason = none }

parse_webhook-synthetic_payload_example :
    true_layer.parse_webhook (λ s. s) (synthetic_payload "p-1" executed)
    ≡ ok (record {
      event_type = "payment_executed";
      payment_id = "p-1";
      bank_status = "executed";
      failure_reason = none;
    })
parse_webhook-synthetic_payload_example =
    parse_webhook-synthetic_payload (λ s. s) "p-1" executed refl

-- The transfer awaits its settlement, and no webhook of its payment has come.
abbrev silent : Db
silent = record database {
  open_banking_payments =
      record {
        funding_transfer_id = 21;
        aggregator = "yapily";
        aggregator_payment_id = "p-1";
        auth_link = "";
        bank_status = none;
        failure_reason = none;
        webhook_received_at = none;
      }
      ∷ [];
}

poll_pending_payments-ignored_example :
    run_tasks
      (yapily.parse_webhook (λ s. s))
      later
      (poll_pending_payments (λ id. ok executed) later silent [])
      silent
    ≡ silent
poll_pending_payments-ignored_example =
    poll_pending_payments-ignored (λ s. s) later silent (λ id. ok executed) refl (refl, refl)

on_user_created-HasWallet_example :
    HasWallet
      (λ s. s)
      8
      (on_user_created (λ s. s) ctx 8 (some UserRole.beneficiary) (some "GH") database)
    × (on_user_created
          (λ s. s)
          later
          8
          (some UserRole.beneficiary)
          none
          (on_user_created (λ s. s) ctx 8 (some UserRole.beneficiary) (some "GH") database)
        ≡ on_user_created (λ s. s) ctx 8 (some UserRole.beneficiary) (some "GH") database)
on_user_created-HasWallet_example =
    on_user_created-HasWallet (λ s. s) ctx later 8 UserRole.beneficiary (some "GH") none database
      (inr refl) refl

abbrev whole : Json → Result ℤ
whole (Json.integer n) = ok n
whole _ = err type_error

abbrev token_until_20 : TokenCache
token_until_20 = record { token = some "t"; expires_at = some (pos 20) }

-- A token that is not expired needs no answer of the token endpoint, and an expired one does.
token_is_reused :
    get_access_token whole (err aggregator_error) 19 token_until_20 ≡ (ok "t", token_until_20)
unfolding get_access_token
token_is_reused = refl

token_expires :
    get_access_token whole (err aggregator_error) 20 token_until_20
    ≡ (err aggregator_error, token_until_20)
unfolding get_access_token
token_expires = refl
