-- ===== src/Wallet/Tasks/Webhook.antt =====
-- What the deliveries of the aggregators' events (app/modules/wallet/tasks.py) do to the payments.
use ufirst_backend.Base.{
  ℕ, ◌≡◌, ◌≢◌, inl, inr, ◌⊎◌, Option, none, some, List, [], ◌∷◌, refl, sym, ap, ◌∙◌, Bool-cases,
  Option-cases, str_eq,
}
use ufirst_backend.Base.Table.{get, find}
use ufirst_backend.Core.Errors.{Result, ok, err, Result-cases, attribute_error}
use ufirst_backend.Db.{Db, Context, Action, ◌>>=◌, raise, pure}
use ufirst_backend.Wallet.Models.{OpenBankingPayment, CardPayment, PaymentState}
use ufirst_backend.Wallet.Repository.{transfer_key}
use ufirst_backend.Wallet.PaymentRecords.{has_payment_id}
use ufirst_backend.Wallet.Tasks.{
  WebhookEvent, Handled, start_authorizing, payment_failed, by_type, apply_event, handle_card,
  handle_found, session_end, handle_event, process_payment_webhook, is_duplicate,
}

-- Events, each at the time of its task.
unfoldable pub deliver_all : List (Context × WebhookEvent) → Db → Db
deliver_all [] db = db
deliver_all ((ctx, event) ∷ rest) db = deliver_all rest (process_payment_webhook ctx event db).1

-- An action that never ends in this result.
abbrev Never : {A : Type 0} → Action A → A → Type 0
Never m a = (db : Db) → (m db).0 ≢ ok a

Never->>= :
    {A B : Type 0} (m : Action A) (f : A → Action B) (b : B)
    → ((a : A) → Never m a ⊎ Never (f a) b)
    → Never (m >>= f) b
Never->>= m f b never db e = elim (Result-cases (m db).0) [
  | inl (a, x) ↦ elim (never a) [
    | inl first ↦ first db x
    | inr second ↦ second (m db).1 (cc (e, x))
  ]
  | inr (x, y) ↦ cc (e, y)
]

module _ (ctx : Context) (event : WebhookEvent) (failed : event.event_type ≡ "payment_failed") where
  by_type-Never : (k : ℕ) → Never (by_type ctx event k) tt
  unfolding by_type payment_failed
  by_type-Never k = rw failed (
      Never->>= (start_authorizing ctx (PaymentState.awaiting_authorization ∷ []) k)
        (λ u. raise attribute_error) tt (λ u. inr (λ db e. cc e)))

  apply_event-Never : (k : ℕ) → Never (apply_event ctx event k) Handled.processed
  apply_event-Never k db = elim (Option-cases (get transfer_key k db.funding_transfers)) [
    | inl e ↦ rw e (λ x. cc x)
    | inr (t, e) ↦ rw e (
        Never->>= (by_type ctx event k) (λ u. pure Handled.processed) Handled.processed
          (λ u. inl (by_type-Never k)) db)
  ]

  handle_card-Never : (o : Option CardPayment) → Never (handle_card ctx event o) Handled.processed
  handle_card-Never none = λ db e. cc e
  handle_card-Never (some p) = apply_event-Never p.funding_transfer_id

  handle_found-Never :
      (o : Option OpenBankingPayment) → Never (handle_found ctx event o) Handled.processed
  handle_found-Never none = λ db.
      handle_card-Never
        (find (λ p. str_eq p.stripe_payment_intent_id event.payment_id) db.card_payments) db
  handle_found-Never (some p) = λ db. elim (Bool-cases (is_duplicate event p)) [
    | inl e ↦ rw e (λ x. cc x)
    | inr e ↦ rw e (apply_event-Never p.funding_transfer_id _)
  ]

  -- A failure is never processed.
  handle_event-Never : Never (handle_event ctx event) Handled.processed
  unfolding handle_event
  handle_event-Never db =
      handle_found-Never (find (has_payment_id event.payment_id) db.open_banking_payments) db

pub unprocessed :
    (ctx : Context) (before db : Db) (r : Result Handled)
    → r ≢ ok Handled.processed
    → session_end ctx before (r, db) ≡ (r, record before { published = db.published })
unprocessed ctx before db (ok Handled.processed) h = absurd (h refl)
unprocessed ctx before db (ok Handled.ignored) h = refl
unprocessed ctx before db (err e) h = refl

-- An event of the type payment_failed is never processed: its task ends without a commit, so that no table changes and the transfer does not become FAILED.
pub process_payment_webhook-failed :
    (ctx : Context) (event : WebhookEvent) (db : Db)
    → event.event_type ≡ "payment_failed"
    → ((process_payment_webhook ctx event db).0 ≢ ok Handled.processed)
      × ((process_payment_webhook ctx event db).1
          ≡ record db { published = (handle_event ctx event db).1.published })
unfolding process_payment_webhook
process_payment_webhook-failed ctx event db failed =
    let same : process_payment_webhook ctx event db ≡ (
      (handle_event ctx event db).0,
      record db { published = (handle_event ctx event db).1.published },
    ) =
      unprocessed ctx db (handle_event ctx event db).1 (handle_event ctx event db).0
        (handle_event-Never ctx event failed db) in
    (λ e. handle_event-Never ctx event failed db (sym (ap (λ x. x.0) same) ∙ e), ap (λ x. x.1) same)
