-- ===== src/Wallet/Tasks/Keeps.antt =====
-- A payment event as a whole (app/modules/wallet/tasks.py), for what the funding machine keeps.
use ufirst_backend.Base.{ℕ, Option, none, some, List}
use ufirst_backend.Core.Errors.{Result, ok, err}
use ufirst_backend.Db.{Db, Context, Event, pure}
use ufirst_backend.Db.Keeps.{Keeps, Keeps->>=, Keeps-if}
use ufirst_backend.Wallet.Models.{PaymentState, OpenBankingPayment, CardPayment}
use ufirst_backend.Wallet.PaymentRecords.{
  update_open_banking_payment, get_card_payment_by_intent_id,
  get_open_banking_payment_by_aggregator_id,
}
use ufirst_backend.Wallet.Funding.{advance_funding_state}
use ufirst_backend.Wallet.Tasks.{
  WebhookEvent, Handled, apply_event, is_duplicate, handle_card, handle_bank, handle_found,
  handle_event, session_end, process_payment_webhook,
}
use ufirst_backend.Wallet.Tasks.Steps.{apply_event-Keeps}

module _ {ℓ} (ctx : Context) (P : Db → Type ℓ)
    (quiet : (db : Db) (events : List Event) → P db → P (record db { published = events }))
    (recorded : (db : Db) (rows : List OpenBankingPayment)
      → P db
      → P (record db { open_banking_payments = rows }))
    (advance : (k : ℕ) (s : PaymentState) → Keeps P (advance_funding_state ctx k s none none)) where
  handle_card-Keeps :
      (event : WebhookEvent) (o : Option CardPayment) → Keeps P (handle_card ctx event o)
  handle_card-Keeps event none = λ x h. h
  handle_card-Keeps event (some p) =
      apply_event-Keeps ctx P quiet advance event p.funding_transfer_id

  handle_bank-Keeps :
      (event : WebhookEvent) (p : OpenBankingPayment) → Keeps P (handle_bank ctx event p)
  handle_bank-Keeps event p =
      Keeps->>= P (update_open_banking_payment ctx p event.bank_status event.failure_reason)
        (λ u. apply_event ctx event p.funding_transfer_id) (λ db h. recorded db _ h)
        (λ u. apply_event-Keeps ctx P quiet advance event p.funding_transfer_id)

  handle_found-Keeps :
      (event : WebhookEvent) (o : Option OpenBankingPayment) → Keeps P (handle_found ctx event o)
  handle_found-Keeps event none =
      Keeps->>= P (get_card_payment_by_intent_id event.payment_id) (handle_card ctx event)
        (λ x h. h) (handle_card-Keeps event)
  handle_found-Keeps event (some p) =
      Keeps-if P (is_duplicate event p) (pure Handled.ignored) (handle_bank ctx event p) (λ x h. h)
        (handle_bank-Keeps event p)

  pub handle_event-Keeps : (event : WebhookEvent) → Keeps P (handle_event ctx event)
  unfolding handle_event
  handle_event-Keeps event =
      Keeps->>= P (get_open_banking_payment_by_aggregator_id event.payment_id)
        (handle_found ctx event) (λ x h. h) (handle_found-Keeps event)

  -- The session commits or rolls back.
  session_end-Keeps :
      (db : Db) (r : Result Handled) (db' : Db) → P db → P db' → P (session_end ctx db (r, db')).1
  session_end-Keeps db (ok Handled.processed) db' h h' = h'
  session_end-Keeps db (ok Handled.ignored) db' h h' = quiet db _ h
  session_end-Keeps db (err e) db' h h' = quiet db _ h

  pub process_payment_webhook-Keeps :
      (event : WebhookEvent) → Keeps P (process_payment_webhook ctx event)
  unfolding process_payment_webhook
  process_payment_webhook-Keeps event db h =
      session_end-Keeps db (handle_event ctx event db).0 (handle_event ctx event db).1 h
        (handle_event-Keeps event db h)
