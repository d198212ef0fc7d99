-- ===== src/Wallet/Tasks/Executed.antt =====
-- The events of executed payments (app/modules/wallet/tasks.py), which end in an error.
use ufirst_backend.Base.{
  ℕ, ◌≡◌, ◌≢◌, inl, inr, ◌⊎◌, String, none, some, true, false, arith, refl, sym, ap, subst, ◌∙◌,
  Bool-cases,
}
use ufirst_backend.Base.Table.{get, find, replace, get-replace_self, key-get, get-key}
use ufirst_backend.Core.Errors.{Error, ok, err, active_sql_transaction, invalid_state_transition}
use ufirst_backend.Db.{Db, Context, ◌>>=◌}
use ufirst_backend.Wallet.Models.{FundingTransfer, PaymentState, OpenBankingPayment}
use ufirst_backend.Wallet.Repository as repo
use ufirst_backend.Wallet.Repository.{transfer_key}
use ufirst_backend.Wallet.PaymentRecords.{has_payment_id, replace_payment, updated_payment}
use ufirst_backend.Wallet.Funding.{advance_funding_state, allowed, credit_in_session}
use ufirst_backend.Wallet.Funding.Outcomes.{moved, with_transfer}
use ufirst_backend.Wallet.Tasks.{
  WebhookEvent, Handled, advance_to, start_authorizing, await_settlement, settle, payment_executed,
  apply_event, handle_found, by_type, handle_event, process_payment_webhook, is_duplicate,
}
use ufirst_backend.Wallet.Tasks.Webhook.{unprocessed}

-- Neither final nor unknown: from here the bank's payment can still be settled.
abbrev pub IsOpen : PaymentState → Type 0
IsOpen s =
    (s ≡ PaymentState.initiated)
    ⊎ ((s ≡ PaymentState.awaiting_authorization)
        ⊎ ((s ≡ PaymentState.authorizing) ⊎ (s ≡ PaymentState.awaiting_settlement)))

module _ (ctx : Context) (k : ℕ) (payment_id : String) where
  moved-get :
      (s : PaymentState) (db : Db) (t : FundingTransfer)
      → get transfer_key k db.funding_transfers ≡ some t
      → (get transfer_key k (with_transfer (moved ctx s none none t) db).funding_transfers
          ≡ some (moved ctx s none none t))
  moved-get s db t here =
      subst
        (λ i.
          get transfer_key i (replace transfer_key (moved ctx s none none t) db.funding_transfers)
          ≡ some (moved ctx s none none t))
        (key-get transfer_key k db.funding_transfers t here)
        (get-replace_self transfer_key (moved ctx s none none t) db.funding_transfers t
          (get-key transfer_key k db.funding_transfers t here))

  advance_to_lem :
      (s : PaymentState) (db : Db) (t : FundingTransfer)
      → get transfer_key k db.funding_transfers ≡ some t
      → allowed t.payment_state s ≡ true
      → advance_to ctx k s db ≡ (ok tt, with_transfer (moved ctx s none none t) db)
  unfolding advance_funding_state repo.update_funding_transfer_state
  advance_to_lem s db t here free = ground arith

  advance_to_refused :
      (s : PaymentState) (db : Db) (t : FundingTransfer)
      → get transfer_key k db.funding_transfers ≡ some t
      → allowed t.payment_state s ≡ false
      → advance_to ctx k s db ≡ (err invalid_state_transition, db)
  unfolding advance_funding_state
  advance_to_refused s db t here forbidden = ground arith

  settle_raises :
      (db : Db) (t : FundingTransfer)
      → get transfer_key k db.funding_transfers ≡ some t
      → t.payment_state ≡ PaymentState.awaiting_settlement
      → settle ctx k payment_id db ≡ (err active_sql_transaction, db)
  unfolding settle credit_in_session
  settle_raises db t here ready = ground (arith, here, ready)

  -- The three steps from the states that an event can find, in the order of the states.
  settlement_raises :
      (db : Db) (t : FundingTransfer)
      → get transfer_key k db.funding_transfers ≡ some t
      → t.payment_state ≡ PaymentState.awaiting_settlement
      → (await_settlement ctx k >>= λ v. settle ctx k payment_id) db
        ≡ (err active_sql_transaction, db)
  unfolding await_settlement
  settlement_raises db t here ready = ground (arith, here, ready, settle_raises db t here ready)

  authorizing_raises :
      (db : Db) (t : FundingTransfer)
      → get transfer_key k db.funding_transfers ≡ some t
      → t.payment_state ≡ PaymentState.authorizing
      → ((await_settlement ctx k >>= λ v. settle ctx k payment_id) db).0
        ≡ err active_sql_transaction
  unfolding await_settlement allowed
  authorizing_raises db t here ready =
      let after = moved ctx PaymentState.awaiting_settlement none none t in
      ground (
        arith,
        here,
        ready,
        advance_to_lem PaymentState.awaiting_settlement db t here (rw ready refl),
        settle_raises (with_transfer after db) after
            (moved-get PaymentState.awaiting_settlement db t here) refl,
      )

  payment_executed_raises :
      (db : Db) (t : FundingTransfer)
      → get transfer_key k db.funding_transfers ≡ some t
      → IsOpen t.payment_state
      → (e : Error) × ((payment_executed ctx k payment_id db).0 ≡ err e)
  unfolding payment_executed start_authorizing allowed
  payment_executed_raises db t here (inl new) = (
    invalid_state_transition,
    ground (arith, here, new, advance_to_refused PaymentState.authorizing db t here (rw new refl)),
  )
  payment_executed_raises db t here (inr (inl waiting)) =
      let after = moved ctx PaymentState.authorizing none none t in
      (
        active_sql_transaction,
        ground (
          arith,
          here,
          waiting,
          advance_to_lem PaymentState.authorizing db t here (rw waiting refl),
          authorizing_raises (with_transfer after db) after
              (moved-get PaymentState.authorizing db t here) refl,
        ),
      )
  payment_executed_raises db t here (inr (inr (inl busy))) =
      (active_sql_transaction, ground (arith, here, busy, authorizing_raises db t here busy))
  payment_executed_raises db t here (inr (inr (inr ready))) =
      (active_sql_transaction, ground (arith, here, ready, settlement_raises db t here ready))

module _ (ctx : Context) (event : WebhookEvent)
    (executed : event.event_type ≡ "payment_executed") where
  apply_event_fails :
      (k : ℕ) (db : Db) (t : FundingTransfer)
      → get transfer_key k db.funding_transfers ≡ some t
      → IsOpen t.payment_state
      → (apply_event ctx event k db).0 ≢ ok Handled.processed
  unfolding by_type
  apply_event_fails k db t here open_state e =
      let (x, raised) = payment_executed_raises ctx k event.payment_id db t here open_state in
      let run : by_type ctx event k db ≡ payment_executed ctx k event.payment_id db =
        rw (by_type, executed) refl in
      let failed : (apply_event ctx event k db).0 ≡ err x = rw here (ground (arith, run, raised)) in
      cc (e, failed)

  handle_found_fails :
      (p : OpenBankingPayment) (db : Db) (t : FundingTransfer)
      → get transfer_key p.funding_transfer_id db.funding_transfers ≡ some t
      → IsOpen t.payment_state
      → (handle_found ctx event (some p) db).0 ≢ ok Handled.processed
  handle_found_fails p db t here open_state = elim (Bool-cases (is_duplicate event p)) [
    | inl repeated ↦ rw repeated (λ e. cc e)
    | inr fresh ↦ rw fresh (
        apply_event_fails p.funding_transfer_id
          (record db {
            open_banking_payments =
                replace_payment (updated_payment ctx p event.bank_status event.failure_reason)
                  db.open_banking_payments;
          })
          t here open_state)
  ]

  -- An event of the type payment_executed, for a bank payment whose transfer is INITIATED, AWAITING_AUTHORIZATION, AUTHORIZING or AWAITING_SETTLEMENT, is never processed: its task ends without a commit, so that no table changes, the wallet is not credited and the transfer does not become COMPLETED.
  pub process_payment_webhook-executed :
      (p : OpenBankingPayment) (t : FundingTransfer) (db : Db)
      → find (has_payment_id event.payment_id) db.open_banking_payments ≡ some p
      → get transfer_key p.funding_transfer_id db.funding_transfers ≡ some t
      → IsOpen t.payment_state
      → ((process_payment_webhook ctx event db).0 ≢ ok Handled.processed)
        × ((process_payment_webhook ctx event db).1
            ≡ record db { published = (handle_event ctx event db).1.published })
  unfolding process_payment_webhook handle_event
  process_payment_webhook-executed p t db known here open_state =
      let never : (handle_event ctx event db).0 ≢ ok Handled.processed =
        rw known (handle_found_fails p db t here open_state) in
      let same : process_payment_webhook ctx event db ≡ (
        (handle_event ctx event db).0,
        record db { published = (handle_event ctx event db).1.published },
      ) =
        unprocessed ctx db (handle_event ctx event db).1 (handle_event ctx event db).0 never in
      (λ e. never (sym (ap (λ x. x.0) same) ∙ e), ap (λ x. x.1) same)
