-- ===== src/Wallet/Tasks/Steps.antt =====
-- The steps of a payment event (app/modules/wallet/tasks.py), for what the funding machine keeps.
use ufirst_backend.Base.{
  ◌≡◌, arith, ℕ, String, Option, none, some, List, [], ◌∷◌, str_eq, if◌then◌else◌,
}
use ufirst_backend.Base.Table.{get}
use ufirst_backend.Core.Errors.{ok, err, active_sql_transaction, attribute_error}
use ufirst_backend.Db.{Db, Context, Action, Event, ◌>>=◌, pure, raise}
use ufirst_backend.Db.Keeps.{Keeps, Keeps->>=, Keeps-if}
use ufirst_backend.Wallet.Models.{PaymentState, FundingTransfer}
use ufirst_backend.Wallet.Repository.{transfer_key}
use ufirst_backend.Wallet.Funding.{advance_funding_state, credit_in_session}
use ufirst_backend.Wallet.Tasks.{
  WebhookEvent, Handled, when_state, advance_to, settle_payment, payment_executed, payment_failed,
  start_authorizing, await_settlement, settle, payment_pending, by_type, apply_found, apply_event,
  state_of,
}

module _ {ℓ} (ctx : Context) (P : Db → Type ℓ)
    (quiet : (db : Db) (events : List Event) → P db → P (record db { published = events }))
    (advance : (k : ℕ) (s : PaymentState) → Keeps P (advance_funding_state ctx k s none none)) where
  when_state-Keeps :
      (k : ℕ) (states : List PaymentState) (m : Action (Unit {0}))
      → Keeps P m
      → Keeps P (when_state k states m)
  when_state-Keeps k states m kept db =
      Keeps-if P (state_of k states db) m (λ x. (ok tt, x)) kept (λ x h. h) db

  advance_to-Keeps : (k : ℕ) (s : PaymentState) → Keeps P (advance_to ctx k s)
  advance_to-Keeps k s =
      Keeps->>= P (advance_funding_state ctx k s none none) (λ t x. (ok tt, x)) (advance k s)
        (λ t x h. h)

  start_authorizing-Keeps :
      (states : List PaymentState) (k : ℕ) → Keeps P (start_authorizing ctx states k)
  unfolding start_authorizing
  start_authorizing-Keeps states k =
      when_state-Keeps k states (advance_to ctx k PaymentState.authorizing)
        (advance_to-Keeps k PaymentState.authorizing)

  await_settlement-Keeps : (k : ℕ) → Keeps P (await_settlement ctx k)
  unfolding await_settlement
  await_settlement-Keeps k =
      when_state-Keeps k (PaymentState.authorizing ∷ [])
        (advance_to ctx k PaymentState.awaiting_settlement)
        (advance_to-Keeps k PaymentState.awaiting_settlement)

  -- The credit begins with a statement that raises in this session.
  settle_payment_raises :
      (k : ℕ) (payment_id : String) (db : Db)
      → settle_payment ctx k payment_id db ≡ (err active_sql_transaction, db)
  unfolding credit_in_session
  settle_payment_raises k payment_id db = ground arith

  settle-Keeps : (k : ℕ) (payment_id : String) → Keeps P (settle ctx k payment_id)
  unfolding settle
  settle-Keeps k payment_id =
      when_state-Keeps k (PaymentState.awaiting_settlement ∷ []) (settle_payment ctx k payment_id)
        (λ db h. rw (settle_payment_raises k payment_id db) h)

  payment_executed-Keeps :
      (k : ℕ) (payment_id : String) → Keeps P (payment_executed ctx k payment_id)
  unfolding payment_executed
  payment_executed-Keeps k payment_id =
      Keeps->>= P
        (start_authorizing ctx (PaymentState.initiated ∷ PaymentState.awaiting_authorization ∷ [])
          k)
        (λ u. await_settlement ctx k >>= λ v. settle ctx k payment_id)
        (start_authorizing-Keeps (PaymentState.initiated ∷ PaymentState.awaiting_authorization ∷ [])
          k)
        λ u.
          Keeps->>= P (await_settlement ctx k) (λ v. settle ctx k payment_id)
            (await_settlement-Keeps k) (λ v. settle-Keeps k payment_id)

  payment_failed-Keeps : (k : ℕ) → Keeps P (payment_failed ctx k)
  unfolding payment_failed
  payment_failed-Keeps k =
      Keeps->>= P (start_authorizing ctx (PaymentState.awaiting_authorization ∷ []) k)
        (λ u. raise attribute_error)
        (start_authorizing-Keeps (PaymentState.awaiting_authorization ∷ []) k) (λ u x h. h)

  by_type-Keeps : (event : WebhookEvent) (k : ℕ) → Keeps P (by_type ctx event k)
  unfolding by_type payment_pending
  by_type-Keeps event k =
      Keeps-if P (str_eq event.event_type "payment_executed")
        (payment_executed ctx k event.payment_id)
        (if str_eq event.event_type "payment_failed"
          then payment_failed ctx k
          else if str_eq event.event_type "payment_pending"
          then payment_pending ctx k
          else pure tt)
        (payment_executed-Keeps k event.payment_id)
        (Keeps-if P (str_eq event.event_type "payment_failed") (payment_failed ctx k)
          (if str_eq event.event_type "payment_pending" then payment_pending ctx k else pure tt)
          (payment_failed-Keeps k)
          (Keeps-if P (str_eq event.event_type "payment_pending") (payment_pending ctx k) (pure tt)
            (start_authorizing-Keeps (PaymentState.awaiting_authorization ∷ []) k) (λ x h. h)))

  apply_found-Keeps :
      (event : WebhookEvent) (k : ℕ) (o : Option FundingTransfer)
      → Keeps P (apply_found ctx event k o)
  apply_found-Keeps event k none = λ x h. h
  apply_found-Keeps event k (some t) =
      Keeps->>= P (by_type ctx event k) (λ u. pure Handled.processed) (by_type-Keeps event k)
        (λ u x h. h)

  pub apply_event-Keeps : (event : WebhookEvent) (k : ℕ) → Keeps P (apply_event ctx event k)
  apply_event-Keeps event k db =
      apply_found-Keeps event k (get transfer_key k db.funding_transfers) db
