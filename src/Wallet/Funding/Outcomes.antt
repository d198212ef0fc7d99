-- ===== src/Wallet/Funding/Outcomes.antt =====
-- What the steps of a funding transfer can end in.
use ufirst_backend.Base.{
  ℕ, ◌≡◌, inl, inr, ◌⊎◌, String, Option, none, some, arith, Option-cases, Bool-cases, true,
}
use ufirst_backend.Base.Table.{get, replace}
use ufirst_backend.Core.Errors.{ok, not_found, invalid_state_transition}
use ufirst_backend.Db.{Db, Context, wallet}
use ufirst_backend.Wallet.Events.{wallet_funded}
use ufirst_backend.Wallet.Models.{Wallet, EntryType, FundingTransfer, PaymentState, state_eq}
use ufirst_backend.Wallet.Repository.{wallet_key, transfer_key, given_or}
use ufirst_backend.Wallet.Outcomes.{Refuses, told, posted, entry, credited}
use ufirst_backend.Wallet.Funding.{
  advance_funding_state, credit_from_funding, credit_in_session, funding_description, allowed,
}

-- The transfer that a step moved to a state.
abbrev pub moved :
    Context → PaymentState → Option String → Option String → FundingTransfer → FundingTransfer
moved ctx new_state ref reason t = record t {
  payment_state = new_state;
  payment_state_changed_at = ctx.now;
  external_payment_ref = given_or ref t.external_payment_ref;
  failure_reason = given_or reason t.failure_reason;
}

abbrev pub with_transfer : FundingTransfer → Db → Db
with_transfer t db = record db { funding_transfers = replace transfer_key t db.funding_transfers }

module _ (ctx : Context) (transfer_id : ℕ) (db : Db) where
  pub advance_outcome :
      (new_state : PaymentState) (ref reason : Option String)
      → Refuses (advance_funding_state ctx transfer_id new_state ref reason) db
        ⊎ ((t : FundingTransfer) × (advance_funding_state ctx transfer_id new_state ref reason db
              ≡ (
                ok (moved ctx new_state ref reason t),
                with_transfer (moved ctx new_state ref reason t) db,
              ))
            × (get transfer_key transfer_id db.funding_transfers ≡ some t)
            × (allowed t.payment_state new_state ≡ true))
  unfolding advance_funding_state
  advance_outcome new_state ref reason =
      elim (Option-cases (get transfer_key transfer_id db.funding_transfers)) [
        | inl missing ↦ inl (not_found, ground arith)
        | inr (t, e) ↦ elim (Bool-cases (allowed t.payment_state new_state)) [
          | inr forbidden ↦ inl (invalid_state_transition, ground arith)
          | inl free ↦ inr (t, ground arith, e, free)
        ]
      ]

  -- The database after the credit of a transfer to its wallet.
  abbrev pub funded : FundingTransfer → Wallet → Db
  funded t w =
      let changed = credited t.dest_amount w in
      let note = some (funding_description t.payment_method) in
      told (wallet (wallet_funded w.id t.dest_amount w.currency transfer_id)) (
        with_transfer (moved ctx PaymentState.completed none none t) (
          posted
            (entry ctx t.dest_amount "funding_transfer" transfer_id EntryType.credit changed note)
            changed db))

  pub credit_outcome :
      Refuses (credit_from_funding ctx transfer_id) db
      ⊎ ((t : FundingTransfer) × (w : Wallet) × (credit_from_funding ctx transfer_id db
            ≡ (ok (credited t.dest_amount w), funded t w))
          × (get transfer_key transfer_id db.funding_transfers ≡ some t)
          × (t.payment_state ≡ PaymentState.awaiting_settlement)
          × (get wallet_key t.wallet_id db.wallets ≡ some w))
  unfolding credit_from_funding credit_in_session
  credit_outcome = elim (Option-cases (get transfer_key transfer_id db.funding_transfers)) [
    | inl missing ↦ inl (not_found, ground arith)
    | inr (t, e) ↦ elim (Bool-cases (state_eq t.payment_state PaymentState.awaiting_settlement)) [
      | inr early ↦ inl (invalid_state_transition, ground arith)
      | inl ready ↦ elim (Option-cases (get wallet_key t.wallet_id db.wallets)) [
        | inl missing ↦ inl (not_found, ground arith)
        | inr (w, f) ↦ inr (t, w, ground arith, e, ground arith, f)
      ]
    ]
  ]
