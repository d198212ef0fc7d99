-- ===== src/Wallet/Webhooks.antt =====
-- The endpoints that aggregators call (app/modules/wallet/openbanking/webhooks.py), up to the queue
-- of tasks; the bank payment callback is in Wallet/Callback. The aggregators' checks of a signature,
-- `json.loads`, the reading of a time stamp and Celery's `send_task` are parameters. Times are in
-- microseconds.
pub mod Queue
use ufirst_backend.Base.{
  ℕ, ◌+◌, ◌*◌, String, Option, none, some, List, ◌∷◌, Bool, true, false, not, ltb, if◌then◌else◌,
}
use ufirst_backend.Core.Errors.{
  Error, Result, ok, err, attribute_error, value_error, type_error, http_error,
}
use ufirst_backend.Core.Json.{Json, get_or, truthy, text_of, Fields}
use ufirst_backend.Core.Json as json
use ufirst_backend.Db.{Db, Context, in_transaction}
use ufirst_backend.Wallet.Models.{SponsorBankConnection}
use ufirst_backend.Wallet.Connections.{BankAccountInfo, complete_connection}

-- A row of `open_banking_webhooks_log`.
pub record WebhookLog : Type 0 where
  pub aggregator : String
  pub event_type : String
  pub payload : Json
  pub signature_valid : Bool

-- A task of Celery, with the arguments of its call.
pub data Task : Type 0 where
  process_payment_webhook : (payload : Json) (aggregator : String) → Task
  process_connect_callback : (payload : Json) → Task

-- The log and the queue, newest first.
pub record Inbox : Type 0 where
  pub logs : List WebhookLog
  pub tasks : List Task

pub record Incoming : Type 0 where
  pub raw_body : String
  pub headers : String

-- The settings of the endpoints: `verify` is the adapter's check of a signature, for the payment
-- method that the adapter is for.
pub record Reception : Type 0 where
  pub verify : (payment_method : String) → Incoming → Result (Unit {0})
  pub loads : String → Option Json
  pub parse_time : String → Option ℕ
  pub now : ℕ
  pub send_task : Task → Result (Unit {0})

abbrev pub Receive : Type 0 → Type 0
Receive A = Inbox → Result A × Inbox

infixl 5 ◌>>=◌ ◌>>◌
abbrev pub ◌>>=◌ : {A B : Type 0} → Receive A → (A → Receive B) → Receive B
◌>>=◌ m f inbox = let (r, after) = m inbox in elim r [ ok a ↦ f a after | err e ↦ (err e, after) ]

abbrev pub ◌>>◌ : {A B : Type 0} → Receive A → Receive B → Receive B
m >> k = m >>= λ _. k

abbrev pub lift : {A : Type 0} → Result A → Receive A
lift r inbox = (r, inbox)

abbrev pub or_raise : {A : Type 0} → Option A → Error → Result A
or_raise none e = err e
or_raise (some a) e = ok a

-- `_REPLAY_WINDOW_SECONDS`
abbrev pub replay_window : ℕ
replay_window = 300 * 1_000_000

module _ (env : Reception) where
  -- A time stamp that is not there, or that cannot be read, is not checked.
  abbrev check_age : Option ℕ → Result (Unit {0})
  check_age none = ok tt
  check_age (some ts) = if ltb (ts + replay_window) env.now then err (http_error 400) else ok tt

  abbrev check_text : Option String → Result (Unit {0})
  check_text none = err attribute_error
  check_text (some timestamp) = check_age (env.parse_time timestamp)

  unfoldable pub check_replay : Json → Result (Unit {0})
  unfolding truthy
  check_replay timestamp = if truthy timestamp then check_text (text_of timestamp) else ok tt

  -- `_log_webhook`: the column takes a text.
  unfoldable pub log_webhook :
      (aggregator : String)
      → (event_type payload : Json) → (signature_valid : Bool) → Receive (Unit {0})
  log_webhook aggregator event_type payload valid inbox = elim (text_of event_type) [
    | none ↦ (err type_error, inbox)
    | some type ↦ (
      ok tt,
      record inbox {
        logs =
            record {
              aggregator = aggregator;
              event_type = type;
              payload = payload;
              signature_valid = valid;
            }
            ∷ inbox.logs;
      },
    )
  ]

  unfoldable pub dispatch : Task → Receive (Unit {0})
  dispatch task inbox = elim (env.send_task task) [
    | err e ↦ (err e, inbox)
    | ok sent ↦ (ok tt, record inbox { tasks = task ∷ inbox.tasks })
  ]

  -- The payload that the log keeps of a request that is not signed.
  abbrev unsigned_payload : String → Option Json → Json
  unsigned_payload raw (some payload) = payload
  unsigned_payload raw none = Json.object (Fields.field "raw" (Json.text raw) Fields.end)

  -- `except AggregatorError`, with and without an entry in the log.
  abbrev pub rejected : Incoming → Result (Unit {0}) → Receive (Unit {0})
  rejected request (ok u) = lift (ok tt)
  rejected request (err Error.aggregator_error) =
      log_webhook "truelayer" (Json.text "unknown")
        (unsigned_payload request.raw_body (env.loads request.raw_body)) false
      >> lift (err (http_error 401))
  rejected request (err e) = lift (err e)

  abbrev pub rejected_unlogged : Result (Unit {0}) → Receive (Unit {0})
  rejected_unlogged (ok u) = lift (ok tt)
  rejected_unlogged (err Error.aggregator_error) = lift (err (http_error 401))
  rejected_unlogged (err e) = lift (err e)

  -- From the log on.
  unfoldable pub log_and_dispatch :
      (aggregator : String) → (event_type payload : Json) → Task → Receive (Unit {0})
  unfolding log_webhook dispatch
  log_and_dispatch aggregator event_type payload task = do
    log_webhook aggregator event_type payload true
    dispatch task

  -- From the payload on.
  unfoldable pub accept_payment : Json → Receive (Unit {0})
  unfolding check_replay get_or
  accept_payment payload = do
    timestamp ← lift (json.get "timestamp" payload)
    lift (check_replay timestamp)
    event_type ← lift (get_or "type" (Json.text "unknown") payload)
    log_and_dispatch "truelayer" event_type payload
        (Task.process_payment_webhook payload "open_banking")

  unfoldable pub accept_connection : Json → Receive (Unit {0})
  unfolding check_replay get_or
  accept_connection payload = do
    timestamp ← lift (json.get "timestamp" payload)
    lift (check_replay timestamp)
    event_type ← lift (get_or "type" (Json.text "connect") payload)
    log_and_dispatch "truelayer" event_type payload (Task.process_connect_callback payload)

  -- No time stamp is checked here.
  unfoldable pub accept_stripe : Json → Receive (Unit {0})
  unfolding get_or
  accept_stripe payload = do
    event_type ← lift (get_or "type" (Json.text "unknown") payload)
    log_and_dispatch "stripe" event_type payload (Task.process_payment_webhook payload "card")

  unfoldable pub openbanking_payment_status : Incoming → Receive (Unit {0})
  unfolding log_webhook
  openbanking_payment_status request = do
    rejected request (env.verify "open_banking" request)
    payload ← lift (or_raise (env.loads request.raw_body) value_error)
    accept_payment payload

  unfoldable pub openbanking_connect_callback : Incoming → Receive (Unit {0})
  openbanking_connect_callback request = do
    rejected_unlogged (env.verify "open_banking" request)
    payload ← lift (or_raise (env.loads request.raw_body) value_error)
    accept_connection payload

  unfoldable pub stripe_payment_status : Incoming → Receive (Unit {0})
  stripe_payment_status request = do
    rejected_unlogged (env.verify "card" request)
    payload ← lift (or_raise (env.loads request.raw_body) value_error)
    accept_stripe payload

-- The browser's redirect after a bank is connected: `status=linked` or `status=error`.
pub data ConnectRedirect : Type 0 where
  linked error : ConnectRedirect

abbrev redirect_of : Result SponsorBankConnection → ConnectRedirect
redirect_of (ok c) = ConnectRedirect.linked
redirect_of (err e) = ConnectRedirect.error

module _ (fetch : (code : String) → Result BankAccountInfo) (encrypt : String → String)
    (parse_time : String → Option ℕ) (aggregator : String) (uuid_of : String → Option ℕ)
    (ctx : Context) where
  unfoldable pub yapily_connect_callback :
      (application_user_id consentid : String) → Db → ConnectRedirect × Db
  yapily_connect_callback application_user_id consentid db = elim (uuid_of application_user_id) [
    | none ↦ (ConnectRedirect.error, db)
    | some sponsor_id ↦
        let (r, after) =
          in_transaction
            (complete_connection fetch encrypt parse_time aggregator ctx sponsor_id consentid) db in
        (redirect_of r, after)
  ]
