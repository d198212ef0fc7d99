-- ===== src/Wallet/Tasks.antt =====
-- The background tasks of app/modules/wallet/tasks.py: a payment event of an aggregator, and the
-- expiry of transfers that nobody authorizes.
pub mod Steps
pub mod Keeps
pub mod Webhook
pub mod Executed
pub mod Redelivery
pub mod Expiry
use ufirst_backend.Base.{
  ℕ, String, Option, none, some, List, [], ◌∷◌, Bool, true, false, ◌&&◌, ◌||◌, str_eq, is_some,
  if◌then◌else◌,
}
use ufirst_backend.Base.Table.{get}
use ufirst_backend.Core.Errors.{Result, ok, err, attribute_error}
use ufirst_backend.Db.{
  Db, Context, Action, pure, raise, gets, publish, in_transaction, wallet, ◌>>=◌, ◌>>◌,
}
use ufirst_backend.Wallet.Models.{
  FundingTransfer, PaymentState, state_eq, OpenBankingPayment, CardPayment,
}
use ufirst_backend.Wallet.Events.{funding_payment_received, funding_authorization_expired}
use ufirst_backend.Wallet.Repository.{transfer_key}
use ufirst_backend.Wallet.PaymentRecords.{
  get_open_banking_payment_by_aggregator_id, get_card_payment_by_intent_id,
  update_open_banking_payment, list_stale_authorization_transfer_ids,
}
use ufirst_backend.Wallet.Funding.{advance_funding_state, credit_in_session}

-- An event as the adapters parse it (app/modules/wallet/openbanking/adapter.py). The time stamp,
-- which the task does not read, is left out.
pub record WebhookEvent : Type 0 where
  pub event_type : String
  pub payment_id : String
  pub bank_status : String
  pub failure_reason : Option String

-- The task returned early, or it went on to the commit.
pub data Handled : Type 0 where
  ignored processed : Handled

abbrev pub state_among : PaymentState → List PaymentState → Bool
state_among s [] = false
state_among s (t ∷ ts) = state_eq s t || state_among s ts

-- `if transfer.payment_state in states`. The object `transfer` is the one that the session keeps
-- for its row, so that it shows the changes that the service has made meanwhile.
abbrev pub guarded : Bool → Action (Unit {0}) → Action (Unit {0})
guarded b m = if b then m else pure tt

abbrev pub state_of : ℕ → List PaymentState → Db → Bool
state_of transfer_id states db = elim (get transfer_key transfer_id db.funding_transfers) [
  | none ↦ false
  | some t ↦ state_among t.payment_state states
]

abbrev pub when_state : ℕ → List PaymentState → Action (Unit {0}) → Action (Unit {0})
when_state transfer_id states m = do b ← gets (state_of transfer_id states); guarded b m

-- The same status was processed already.
abbrev pub is_duplicate : WebhookEvent → OpenBankingPayment → Bool
is_duplicate event p = elim p.bank_status [
  | none ↦ false
  | some s ↦ str_eq s event.bank_status && is_some p.webhook_received_at
]

module _ (ctx : Context) where
  abbrev pub advance_to : ℕ → PaymentState → Action (Unit {0})
  advance_to transfer_id s = do advance_funding_state ctx transfer_id s none none; pure tt

  -- The session of the task has looked the payment up before.
  abbrev pub settle_payment : ℕ → String → Action (Unit {0})
  settle_payment transfer_id payment_id = do
    credit_in_session true ctx transfer_id
    publish (wallet (funding_payment_received transfer_id payment_id))

  -- The three conditional steps of a payment that the bank reports as executed.
  unfoldable pub start_authorizing : List PaymentState → ℕ → Action (Unit {0})
  start_authorizing states transfer_id =
      when_state transfer_id states (advance_to transfer_id PaymentState.authorizing)

  unfoldable pub await_settlement : ℕ → Action (Unit {0})
  await_settlement transfer_id =
      when_state transfer_id (PaymentState.authorizing ∷ [])
        (advance_to transfer_id PaymentState.awaiting_settlement)

  unfoldable pub settle : ℕ → String → Action (Unit {0})
  settle transfer_id payment_id =
      when_state transfer_id (PaymentState.awaiting_settlement ∷ [])
        (settle_payment transfer_id payment_id)

  unfoldable pub payment_executed : ℕ → String → Action (Unit {0})
  payment_executed transfer_id payment_id = do
    start_authorizing (PaymentState.initiated ∷ PaymentState.awaiting_authorization ∷ [])
        transfer_id
    await_settlement transfer_id
    settle transfer_id payment_id

  -- The second test names `PaymentState.INITIATING`, which is no member of the enumeration: it
  -- raises, and the lines after it are not reached.
  unfoldable pub payment_failed : ℕ → Action (Unit {0})
  payment_failed transfer_id = do
    start_authorizing (PaymentState.awaiting_authorization ∷ []) transfer_id
    raise attribute_error

  unfoldable pub payment_pending : ℕ → Action (Unit {0})
  payment_pending transfer_id =
      start_authorizing (PaymentState.awaiting_authorization ∷ []) transfer_id

  unfoldable pub by_type : WebhookEvent → ℕ → Action (Unit {0})
  by_type event transfer_id =
      if str_eq event.event_type "payment_executed"
      then payment_executed transfer_id event.payment_id
      else if str_eq event.event_type "payment_failed"
      then payment_failed transfer_id
      else if str_eq event.event_type "payment_pending"
      then payment_pending transfer_id
      else pure tt

  abbrev pub apply_found : WebhookEvent → ℕ → Option FundingTransfer → Action Handled
  apply_found event transfer_id none = pure Handled.ignored
  apply_found event transfer_id (some t) = do by_type event transfer_id; pure Handled.processed

  abbrev pub apply_event : WebhookEvent → ℕ → Action Handled
  apply_event event transfer_id = do
    transfer ← gets λ db. get transfer_key transfer_id db.funding_transfers
    apply_found event transfer_id transfer

  abbrev pub handle_card : WebhookEvent → Option CardPayment → Action Handled
  handle_card event none = pure Handled.ignored
  handle_card event (some p) = apply_event event p.funding_transfer_id

  abbrev pub handle_bank : WebhookEvent → OpenBankingPayment → Action Handled
  handle_bank event p = do
    update_open_banking_payment ctx p event.bank_status event.failure_reason
    apply_event event p.funding_transfer_id

  abbrev pub handle_found : WebhookEvent → Option OpenBankingPayment → Action Handled
  handle_found event none = do
    p ← get_card_payment_by_intent_id event.payment_id
    handle_card event p
  handle_found event (some p) =
      if is_duplicate event p then pure Handled.ignored else handle_bank event p

  unfoldable pub handle_event : WebhookEvent → Action Handled
  handle_event event = do
    p ← get_open_banking_payment_by_aggregator_id event.payment_id
    handle_found event p

  -- The session ends without a commit where the task returns early.
  abbrev pub session_end : Db → Result Handled × Db → Result Handled × Db
  session_end before (ok Handled.processed, db) = (ok Handled.processed, db)
  session_end before (ok Handled.ignored, db) =
      (ok Handled.ignored, record before { published = db.published })
  session_end before (err e, db) = (err e, record before { published = db.published })

  -- `_async_process_payment_webhook`, of a parsed event.
  unfoldable pub process_payment_webhook : WebhookEvent → Action Handled
  process_payment_webhook event db = session_end db (handle_event event db)

  -- One transfer expires in a session of its own; what is raised is logged.
  abbrev pub expire_transfer : ℕ → Action (Unit {0})
  expire_transfer transfer_id = do
    advance_funding_state ctx transfer_id PaymentState.expired none none
    publish (wallet (funding_authorization_expired transfer_id))

  unfoldable pub expire_each : List ℕ → Db → Db
  expire_each [] db = db
  expire_each (k ∷ ids) db = expire_each ids (in_transaction (expire_transfer k) db).1

  -- `_async_expire_stale_authorizations`
  unfoldable pub expire_stale_authorizations : Db → Db
  expire_stale_authorizations db =
      let (r, db') = list_stale_authorization_transfer_ids ctx db in
      elim r [ ok ids ↦ expire_each ids db' | err e ↦ db' ]
