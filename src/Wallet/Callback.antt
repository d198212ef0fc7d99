-- ===== src/Wallet/Callback.antt =====
-- The bank payment callback (app/modules/wallet/openbanking/webhooks.py, yapily_payment_callback).
-- The aggregator's call is a parameter: it gives the id of the payment, or raises. Logs are left
-- out, and of a redirect only its query is kept.
use ufirst_backend.Base.{
  ℕ, ◌+◌, ◌≡◌, String, none, some, [], ◌∷◌, arith, false, refl, str_eq, if◌then◌else◌,
}
use ufirst_backend.Base.Int.{ℤ}
use ufirst_backend.Base.Table.{get, filter, get-replace_self}
use ufirst_backend.Core.Errors.{Result, ok, err, not_found}
use ufirst_backend.Db.{Db, Context, Action, or_raise, in_transaction, ◌>>=◌}
use ufirst_backend.Wallet.Models.{Wallet, FundingTransfer, PaymentState}
use ufirst_backend.Wallet.Repository.{
  wallet_key, transfer_key, update_funding_transfer_state,
  get_funding_transfer_by_idempotency_key_only,
}
use ufirst_backend.Wallet.Outcomes.{credited}
use ufirst_backend.Wallet.Funding.{credit_from_funding, credit_in_session}
use ufirst_backend.Wallet.Funding.Outcomes.{moved, with_transfer, funded}
use ufirst_backend.Wallet.Funding.Once.{payouts}

-- `status=error`, or `status=authorized` with the transfer.
pub data Redirect : Type 0 where
  error : Redirect
  authorized : (transfer_id : ℕ) (source_amount : ℤ) (source_currency : String) → Redirect

abbrev ExecutePayment : Type 0
ExecutePayment = (amount : ℤ) (currency idempotency_key consent_token : String) → Result String

module _ (execute_payment : ExecutePayment) (ctx : Context)
    (application_user_id consent_token : String) where
  -- The first session, up to its commit.
  unfoldable pub submit_payment : Action FundingTransfer
  submit_payment = do
    transfer ←
        or_raise (← get_funding_transfer_by_idempotency_key_only application_user_id) not_found
    payment_id ← λ db. (
      execute_payment transfer.source_amount transfer.source_currency transfer.idempotency_key
          consent_token,
      db,
    )
    update_funding_transfer_state ctx transfer PaymentState.awaiting_settlement (some payment_id)
        none

  -- The second session: what the credit raises is logged.
  abbrev credit_inline : Result FundingTransfer → Db → Redirect × Db
  credit_inline (err e) db = (Redirect.error, db)
  credit_inline (ok t) db = (
    Redirect.authorized t.id t.source_amount t.source_currency,
    (in_transaction (credit_from_funding ctx t.id) db).1,
  )

  unfoldable pub payment_callback : Db → Redirect × Db
  payment_callback db =
      if str_eq consent_token ""
      then (Redirect.error, db)
      else let (r, db') = in_transaction submit_payment db in credit_inline r db'

  -- The transfer after the first session.
  abbrev submitted : String → FundingTransfer → FundingTransfer
  submitted payment_id = moved ctx PaymentState.awaiting_settlement (some payment_id) none

  submit_payment_lem :
      (db : Db) (t : FundingTransfer) (payment_id : String)
      → filter (λ x. str_eq x.idempotency_key application_user_id) db.funding_transfers ≡ t ∷ []
      → execute_payment t.source_amount t.source_currency t.idempotency_key consent_token
        ≡ ok payment_id
      → in_transaction submit_payment db
        ≡ (ok (submitted payment_id t), with_transfer (submitted payment_id t) db)
  unfolding submit_payment update_funding_transfer_state
  submit_payment_lem db t payment_id one accepted = ground arith

  -- A transfer that awaits its settlement is credited.
  credit_lem :
      (db : Db) (t : FundingTransfer) (w : Wallet)
      → get transfer_key t.id db.funding_transfers ≡ some t
      → t.payment_state ≡ PaymentState.awaiting_settlement
      → get wallet_key t.wallet_id db.wallets ≡ some w
      → in_transaction (credit_from_funding ctx t.id) db
        ≡ (ok (credited t.dest_amount w), funded ctx t.id db t w)
  unfolding credit_from_funding credit_in_session
  credit_lem db t w here ready there = ground arith

  -- A callback for the only transfer of its key, whose wallet exists and whose payment the aggregator accepts, enters one more payment of the transfer in the ledger, whatever the state of the transfer: also if it is completed and paid already.
  pub payment_callback-payouts :
      (db : Db) (t : FundingTransfer) (w : Wallet) (payment_id : String)
      → str_eq consent_token "" ≡ false
      → filter (λ x. str_eq x.idempotency_key application_user_id) db.funding_transfers ≡ t ∷ []
      → get transfer_key t.id db.funding_transfers ≡ some t
      → get wallet_key t.wallet_id db.wallets ≡ some w
      → execute_payment t.source_amount t.source_currency t.idempotency_key consent_token
        ≡ ok payment_id
      → payouts t.id (payment_callback db).1.ledger_entries ≡ payouts t.id db.ledger_entries + 1
  unfolding payment_callback
  payment_callback-payouts db t w payment_id given one here there accepted =
      let again =
        credit_lem (with_transfer (submitted payment_id t) db) (submitted payment_id t) w
          (get-replace_self transfer_key (submitted payment_id t) db.funding_transfers t here) refl
          there in
      rw (given, submit_payment_lem db t payment_id one accepted, again) (ground arith)
