-- ===== src/Wallet/Aggregators/Poll.antt =====
-- The task that asks for the status of payments without a webhook (app/modules/wallet/tasks.py,
-- `poll_pending_payments`): what it sends to `process_payment_webhook`, and what that task reads.
use ufirst_backend.Base.{
  ℕ, ◌≡◌, String, Option, none, some, List, [], ◌∷◌, false, arith, refl, inl, inr, subst, sym,
  if◌then◌else◌, Bool-cases, Option-cases, append, str_eq,
}
use ufirst_backend.Base.Table.{find}
use ufirst_backend.Core.Errors.{Result, ok, err}
use ufirst_backend.Core.Json.{Json, Fields, lowered, as_text, as_optional, truthy, entry_or}
use ufirst_backend.Db.{Db, Context}
use ufirst_backend.Wallet.PaymentRecords.{list_pending_settlement_transfers, pending_of}
use ufirst_backend.Wallet.Tasks.{WebhookEvent, Handled, process_payment_webhook, handle_event}
use ufirst_backend.Wallet.Aggregators.{PaymentStatusResult}
use ufirst_backend.Wallet.Aggregators.TrueLayer as true_layer
use ufirst_backend.Wallet.Aggregators.Yapily as yapily

abbrev optional_text : Option String → Json
optional_text none = Json.null
optional_text (some s) = Json.text s

-- `synthetic_payload`
unfoldable pub synthetic_payload : (aggregator_payment_id : String) → PaymentStatusResult → Json
synthetic_payload id result = Json.object (
    Fields.field "type" (Json.text (append "payment_" result.status)) (
      Fields.field "payment"
        (Json.object (
          Fields.field "id" (Json.text id) (
            Fields.field "status" (Json.text result.status)
              (Fields.field "failure_reason" (optional_text result.failure_reason) Fields.end))))
        Fields.end))

module _ (check_status : (payment_id : String) → Result PaymentStatusResult) where
  -- The payloads of the tasks that are sent, newest first; what a check raises is logged.
  abbrev sent : String → Result PaymentStatusResult → List Json → List Json
  sent id (err e) queue = queue
  sent id (ok result) queue = synthetic_payload id result ∷ queue

  unfoldable pub poll_each : List (ℕ × String) → List Json → List Json
  unfolding synthetic_payload
  poll_each [] queue = queue
  poll_each ((transfer_id, id) ∷ pending) queue =
      poll_each pending (sent id (check_status id) queue)

  unfoldable pub poll_pending_payments : Context → Db → List Json → List Json
  unfolding poll_each
  poll_pending_payments ctx db queue =
      let (r, after) = list_pending_settlement_transfers ctx db in
      elim r [ ok pending ↦ poll_each pending queue | err e ↦ queue ]

-- The task of a payload: its event, read by the adapter, and then processed.
abbrev processed : Context → Db → Result WebhookEvent → Result Handled × Db
processed ctx db (ok event) = process_payment_webhook ctx event db
processed ctx db (err e) = (err e, db)

abbrev pub process_payload :
    (parse : Json → Result WebhookEvent) → Context → Json → Db → Result Handled × Db
process_payload parse ctx payload db = processed ctx db (parse payload)

-- An empty text counts as none.
abbrev pub given_text : Option String → Option String
given_text none = none
given_text (some s) = if str_eq s "" then none else some s

-- TrueLayer's parser reads a payload of the poller back: the event has the payment, the status and the reason of the check, of which an empty one is read as none, and the type that the table of TrueLayer gives to the status, for a payment that has an id.
pub parse_webhook-synthetic_payload :
    (lower : String → String) (id : String) (result : PaymentStatusResult)
    → str_eq id "" ≡ false
    → true_layer.parse_webhook lower (synthetic_payload id result)
      ≡ ok (record {
        event_type =
            entry_or "payment_pending"
              (lower (append "payment_" result.status))
              true_layer.webhook_event_map;
        payment_id = id;
        bank_status = result.status;
        failure_reason = given_text result.failure_reason;
      })
unfolding true_layer.parse_webhook true_layer.webhook_event_type lowered truthy as_text as_optional
    synthetic_payload
parse_webhook-synthetic_payload lower id result given = elim (Option-cases result.failure_reason) [
  | inl unset ↦ ground (arith, given, unset)
  | inr (s, set) ↦ elim (Bool-cases (str_eq s "")) [
    | inl empty ↦ ground (arith, given, set, empty)
    | inr full ↦ ground (arith, given, set, full)
  ]
]

-- Yapily's parser finds nothing of the poller's payload: it gives an event without a payment.
parse_webhook-empty :
    (lower : String → String) (id : String) (result : PaymentStatusResult)
    → lower "" ≡ ""
    → yapily.parse_webhook lower (synthetic_payload id result)
      ≡ ok (record {
        event_type = "payment_pending";
        payment_id = "";
        bank_status = "";
        failure_reason = none;
      })
unfolding yapily.parse_webhook synthetic_payload
parse_webhook-empty lower id result empty = rw empty refl

-- No payment is without an id of its aggregator.
abbrev pub HasIds : Db → Type 0
HasIds db =
    (find (λ p. str_eq p.aggregator_payment_id "") db.open_banking_payments ≡ none)
    × (find (λ p. str_eq p.stripe_payment_intent_id "") db.card_payments ≡ none)

-- The tasks of the payloads, one after the other.
unfoldable pub run_tasks : (parse : Json → Result WebhookEvent) → Context → List Json → Db → Db
unfolding process_payment_webhook
run_tasks parse ctx [] db = db
run_tasks parse ctx (payload ∷ queue) db =
    run_tasks parse ctx queue (process_payload parse ctx payload db).1

module _ (lower : String → String) (ctx : Context) (db : Db) where
  process_empty :
      HasIds db
      → process_payment_webhook ctx
          (record {
            event_type = "payment_pending";
            payment_id = "";
            bank_status = "";
            failure_reason = none;
          })
          db
        ≡ (ok Handled.ignored, db)
  unfolding process_payment_webhook handle_event
  process_empty ids = ground (arith, ids.0, ids.1)

  process_payload-ignored :
      (id : String) (result : PaymentStatusResult)
      → lower "" ≡ ""
      → HasIds db
      → process_payload (yapily.parse_webhook lower) ctx (synthetic_payload id result) db
        ≡ (ok Handled.ignored, db)
  process_payload-ignored id result empty ids =
      subst (λ r. processed ctx db r ≡ (ok Handled.ignored, db))
        (sym (parse_webhook-empty lower id result empty)) (process_empty ids)

  module _ (check_status : (payment_id : String) → Result PaymentStatusResult) where
    sent-ignored :
        (id : String) (r : Result PaymentStatusResult) (queue : List Json)
        → lower "" ≡ ""
        → HasIds db
        → run_tasks (yapily.parse_webhook lower) ctx queue db ≡ db
        → run_tasks (yapily.parse_webhook lower) ctx (sent check_status id r queue) db ≡ db
    unfolding run_tasks
    sent-ignored id (err e) queue empty ids h = h
    sent-ignored id (ok result) queue empty ids h =
        subst (λ x. run_tasks (yapily.parse_webhook lower) ctx queue x.1 ≡ db)
          (sym (process_payload-ignored id result empty ids)) h

    poll_each-ignored :
        (pending : List (ℕ × String)) (queue : List Json)
        → lower "" ≡ ""
        → HasIds db
        → run_tasks (yapily.parse_webhook lower) ctx queue db ≡ db
        → run_tasks (yapily.parse_webhook lower) ctx (poll_each check_status pending queue) db ≡ db
    unfolding poll_each run_tasks
    poll_each-ignored [] queue empty ids h = h
    poll_each-ignored ((transfer_id, id) ∷ pending) queue empty ids h =
        poll_each-ignored pending (sent check_status id (check_status id) queue) empty ids
          (sent-ignored id (check_status id) queue empty ids h)

    -- With Yapily a poll changes nothing: whatever the status checks say, the parser finds no payment in the payloads that the poller makes, and their tasks leave the database as it is, where every payment has an id of its aggregator and lower("") is "".
    pub poll_pending_payments-ignored :
        lower "" ≡ ""
        → HasIds db
        → run_tasks
            (yapily.parse_webhook lower)
            ctx
            (poll_pending_payments check_status ctx db [])
            db
          ≡ db
    unfolding poll_pending_payments run_tasks
    poll_pending_payments-ignored empty ids =
        poll_each-ignored (pending_of ctx db.open_banking_payments db.funding_transfers) [] empty
          ids refl
