-- ===== src/Wallet/Funding.antt =====
-- The funding transfers of `WalletService` (app/modules/wallet/service.py): the state machine, the
-- idempotent start of a transfer, and the credit at its end.
pub mod Outcomes
pub mod Machine
pub mod Start
pub mod Once
use ufirst_backend.Base.{
  ℕ, String, Option, none, some, List, [], ◌∷◌, Bool, false, not, ◌||◌, ◌==◌, str_eq,
}
use ufirst_backend.Base.Int.{pos, leb_ℤ, eq_ℤ}
use ufirst_backend.Core.Errors.{
  Error, ok, err, validation_error, not_found, invalid_state_transition, idempotency_conflict,
  integrity_error, active_sql_transaction,
}
use ufirst_backend.Db.{
  Db, Context, Action, pure, raise, modify, or_raise, raise_if, publish, wallet, ◌>>=◌, ◌>>◌,
}
use ufirst_backend.Wallet.Models.{
  Wallet, WalletStatus, wallet_status_eq, PaymentState, state_eq, PaymentMethod, method_eq,
  FundingTransfer,
}
use ufirst_backend.Wallet.Events.{wallet_funded}
use ufirst_backend.Wallet.Repository as repo
use ufirst_backend.Wallet.Repository.{FundingRequest}

-- `_VALID_TRANSITIONS`
unfoldable pub valid_transitions : PaymentState → List PaymentState
valid_transitions PaymentState.initiated =
    PaymentState.awaiting_authorization ∷ PaymentState.cancelled ∷ PaymentState.failed ∷ []
valid_transitions PaymentState.awaiting_authorization =
    PaymentState.authorizing ∷ PaymentState.expired ∷ PaymentState.cancelled ∷ []
valid_transitions PaymentState.authorizing =
    PaymentState.awaiting_settlement ∷ PaymentState.failed ∷ []
valid_transitions PaymentState.awaiting_settlement =
    PaymentState.completed ∷ PaymentState.failed ∷ []
valid_transitions _ = []

abbrev state_in : PaymentState → List PaymentState → Bool
state_in s [] = false
state_in s (t ∷ ts) = state_eq s t || state_in s ts

unfoldable pub allowed : PaymentState → PaymentState → Bool
unfolding valid_transitions
allowed from to = state_in to (valid_transitions from)

-- The key was used before with other parameters.
abbrev pub differs : FundingTransfer → FundingRequest → Bool
differs existing r =
    not (existing.wallet_id == r.wallet_id)
    || (not (eq_ℤ existing.source_amount r.source_amount)
        || (not (str_eq existing.source_currency r.source_currency)
            || not (method_eq existing.payment_method r.payment_method)))

-- The answer where the key has a transfer: that transfer, or a conflict.
unfoldable pub replay : FundingTransfer → FundingRequest → Action FundingTransfer
replay existing r = do raise_if (differs existing r) idempotency_conflict; pure existing

-- `except IntegrityError`: another request won the race for the key. The session had written
-- nothing, so its rollback leaves the database as the winner left it.
abbrev after_race : FundingRequest → Option FundingTransfer → Action FundingTransfer
after_race r none = raise integrity_error
after_race r (some existing) = replay existing r

abbrev on_integrity_error : {A : Type 0} → Action A → Action A → Action A
on_integrity_error handler m db =
    let (r, db') = m db in
    elim r [ ok a ↦ (ok a, db') | err Error.integrity_error ↦ handler db' | err e ↦ (err e, db') ]

-- `others` is what other requests commit between the look-up of the key and the insert.
abbrev start_new : Context → (Db → Db) → FundingRequest → Action FundingTransfer
start_new ctx others r = do
  w ← or_raise (← repo.get_wallet r.wallet_id) not_found
  raise_if (not (wallet_status_eq w.status WalletStatus.active)) invalid_state_transition
  modify others
  on_integrity_error
      (do
        existing ← repo.get_funding_transfer_by_idempotency_key r.sponsor_id r.idempotency_key
        after_race r existing)
      (repo.create_funding_transfer ctx r)

abbrev start_or_replay :
    Context → (Db → Db) → FundingRequest → Option FundingTransfer → Action FundingTransfer
start_or_replay ctx others r (some existing) = replay existing r
start_or_replay ctx others r none = start_new ctx others r

unfoldable pub initiate_funding : Context → (Db → Db) → FundingRequest → Action FundingTransfer
unfolding replay
initiate_funding ctx others r = do
  raise_if (leb_ℤ r.source_amount (pos 0) || leb_ℤ r.dest_amount (pos 0)) validation_error
  existing ← repo.get_funding_transfer_by_idempotency_key r.sponsor_id r.idempotency_key
  start_or_replay ctx others r existing

unfoldable pub get_funding_transfer : ℕ → Action FundingTransfer
get_funding_transfer transfer_id = do or_raise (← repo.get_funding_transfer transfer_id) not_found

unfoldable pub advance_funding_state :
    Context → ℕ → PaymentState → Option String → Option String → Action FundingTransfer
unfolding allowed repo.update_funding_transfer_state
advance_funding_state ctx transfer_id new_state external_payment_ref failure_reason = do
  transfer ← or_raise (← repo.get_funding_transfer transfer_id) not_found
  raise_if (not (allowed transfer.payment_state new_state)) invalid_state_transition
  repo.update_funding_transfer_state ctx transfer new_state external_payment_ref failure_reason

-- `f"Funding via {transfer.payment_method.value}"`
abbrev pub funding_description : PaymentMethod → String
funding_description PaymentMethod.open_banking = "Funding via open_banking"
funding_description PaymentMethod.card = "Funding via card"
funding_description PaymentMethod.ach = "Funding via ach"
funding_description PaymentMethod.mobile_money = "Funding via mobile_money"

-- `SET TRANSACTION ISOLATION LEVEL SERIALIZABLE`: PostgreSQL refuses it in a transaction that has
-- had a query.
abbrev pub set_serializable : (queried : Bool) → Action (Unit {0})
set_serializable queried = raise_if queried active_sql_transaction

-- `credit_from_funding` in a session that has, or has not, had a query in its transaction.
unfoldable pub credit_in_session : (queried : Bool) → Context → ℕ → Action Wallet
unfolding repo.credit_wallet repo.update_funding_transfer_state
credit_in_session queried ctx transfer_id = do
  set_serializable queried
  transfer ← or_raise (← repo.get_funding_transfer transfer_id) not_found
  raise_if (not (state_eq transfer.payment_state PaymentState.awaiting_settlement))
      invalid_state_transition
  w ← or_raise (← repo.get_wallet transfer.wallet_id) not_found
  let description = funding_description transfer.payment_method
  changed ←
      repo.credit_wallet ctx w transfer.dest_amount "funding_transfer" transfer_id
        (some description)
  repo.update_funding_transfer_state ctx transfer PaymentState.completed none none
  publish (wallet (wallet_funded w.id transfer.dest_amount w.currency transfer_id))
  pure changed

-- In a fresh session, as its docstring wants it.
unfoldable pub credit_from_funding : Context → ℕ → Action Wallet
unfolding credit_in_session
credit_from_funding ctx transfer_id = credit_in_session false ctx transfer_id
