-- ===== src/Transaction/Service/Outcomes.antt =====
-- What the operations of TransactionService can end in.
use ufirst_backend.Base.{
  ℕ, ◌≡◌, inl, inr, ◌⊎◌, Option, none, some, List, ◌∷◌, arith, if◌then◌else◌, Bool-cases,
  Option-cases, str_eq,
}
use ufirst_backend.Base.Table.{get, find, filter, replace-absent}
use ufirst_backend.Core.Errors.{Error, ok, err, integrity_error}
use ufirst_backend.Db.{Db, Context, Event, transaction}
use ufirst_backend.Card.Models.{Card}
use ufirst_backend.Wallet.Models.{Wallet}
use ufirst_backend.Wallet.Repository.{wallet_key}
use ufirst_backend.Wallet.Outcomes.{Refuses, Spends, with_wallet, told, reserved, reserve_outcome}
use ufirst_backend.Transaction.Models.{
  Authorization, AuthorizationStatus, DeclineReason, AuthorizationPayload, Verdict,
  transaction_authorized, transaction_declined,
}
use ufirst_backend.Transaction.Repository.{
  auth_key, has_ref, new_authorization, create_authorization, sum_amounts, counts_today,
}
use ufirst_backend.Transaction.Service.{nil_uuid, decline, declined, announced, refusal, authorize}

-- The reference and the id of the new authorization are free.
pub record IsNew (ctx : Context) (payload : AuthorizationPayload) (db : Db) : Type 0 where
  pub free_ref : find (has_ref payload.processor_auth_ref) db.authorizations ≡ none
  pub free_id : get auth_key ctx.new_id db.authorizations ≡ none

abbrev pub with_authorization : Authorization → Db → Db
with_authorization a db = record db { authorizations = a ∷ db.authorizations }

create_outcome :
    (ctx : Context) (card_id wallet_id : ℕ) (payload : AuthorizationPayload)
    (status : AuthorizationStatus) (reason : Option DeclineReason) (db : Db)
    → Refuses (create_authorization ctx card_id wallet_id payload status reason) db
      ⊎ ((create_authorization ctx card_id wallet_id payload status reason db ≡ (
        ok (new_authorization ctx card_id wallet_id payload status reason),
        with_authorization (new_authorization ctx card_id wallet_id payload status reason) db,
      ))
          × IsNew ctx payload db)
unfolding create_authorization
create_outcome ctx card_id wallet_id payload status reason db =
    elim (Option-cases (find (has_ref payload.processor_auth_ref) db.authorizations)) [
      | inr (a, taken) ↦ inl (integrity_error, ground arith)
      | inl free_ref ↦ elim (Option-cases (get auth_key ctx.new_id db.authorizations)) [
        | inr (a, taken) ↦ inl (integrity_error, ground arith)
        | inl free_id ↦ inr (ground arith, record { free_ref = free_ref; free_id = free_id })
      ]
    ]

-- The record of a payment whose reservation failed.
abbrev pub downgrade : Authorization → Authorization
downgrade a = record a {
  status = AuthorizationStatus.declined;
  decline_reason = some DeclineReason.reserve_failed;
}

-- What `refusal` says of a card and a payment in a database.
abbrev pub refusal_in : Context → Card → AuthorizationPayload → Db → Option DeclineReason
refusal_in ctx card payload db =
    refusal card payload (sum_amounts (filter (counts_today card.id ctx.now) db.authorizations))
      (get wallet_key card.wallet_id db.wallets)

abbrev pub carded : AuthorizationPayload → Db → Option Card
carded payload db = find (λ c. str_eq c.processor_token payload.card_token) db.cards

-- The events after a refusal.
abbrev events_after :
    (card_id wallet_id : ℕ) → AuthorizationPayload → DeclineReason → Db → List Event
events_after card_id wallet_id payload reason db =
    if announced reason
    then transaction (
        transaction_declined card_id wallet_id payload.amount payload.currency payload.merchant_name
          reason)
      ∷ db.published
    else db.published

decline_outcome :
    (ctx : Context) (card_id wallet_id : ℕ) (payload : AuthorizationPayload)
    (reason : DeclineReason) (db : Db)
    → Refuses (decline ctx card_id wallet_id payload reason) db
      ⊎ ((decline ctx card_id wallet_id payload reason db ≡ (
        ok (
            declined reason (
              new_authorization ctx card_id wallet_id payload AuthorizationStatus.declined
                (some reason))),
        record db {
          authorizations =
              new_authorization ctx card_id wallet_id payload AuthorizationStatus.declined
                (some reason)
              ∷ db.authorizations;
          published = events_after card_id wallet_id payload reason db;
        },
      ))
          × IsNew ctx payload db)
decline_outcome ctx card_id wallet_id payload reason db =
    elim (create_outcome ctx card_id wallet_id payload AuthorizationStatus.declined (some reason)
      db) [
        | inl (e, r) ↦ inl (e, ground arith)
        | inr (r, new) ↦ elim (Bool-cases (announced reason)) [
          | inl loud ↦ inr (ground arith, new)
          | inr quiet ↦ inr (ground arith, new)
        ]
      ]

module _ (ctx : Context) (payload : AuthorizationPayload) (db : Db) where
  abbrev pub hold_for : Card → Authorization
  hold_for card =
      new_authorization ctx card.id card.wallet_id payload AuthorizationStatus.authorized none

  -- The ways a decision can end.
  pub data Decided : Type 0 where
    failed : (e : Error) → authorize ctx payload db ≡ (err e, db) → Decided
    refused :
        (card_id wallet_id : ℕ) (reason : DeclineReason) (events : List Event)
        → IsNew ctx payload db
        → authorize ctx payload db ≡ (
          ok (
              declined reason (
                new_authorization ctx card_id wallet_id payload AuthorizationStatus.declined
                  (some reason))),
          record db {
            authorizations =
                new_authorization ctx card_id wallet_id payload AuthorizationStatus.declined
                  (some reason)
                ∷ db.authorizations;
            published = events;
          },
        )
        → Decided
    downgraded :
        (card : Card)
        → IsNew ctx payload db
        → authorize ctx payload db ≡ (
          ok (declined DeclineReason.reserve_failed (hold_for card)),
          with_authorization (downgrade (hold_for card)) db,
        )
        → Decided
    approved :
        (card : Card) (w : Wallet)
        → carded payload db ≡ some card
        → refusal_in ctx card payload db ≡ none
        → IsNew ctx payload db
        → Spends card.wallet_id payload.amount db w
        → authorize ctx payload db ≡ (
          ok (record {
            decision = Verdict.approved;
            reason = none;
            authorization_id = some ctx.new_id;
          }),
          told
              (transaction (
                transaction_authorized ctx.new_id card.id card.wallet_id payload.amount
                  payload.currency payload.merchant_name))
              (with_wallet (reserved payload.amount w) (with_authorization (hold_for card) db)),
        )
        → Decided

  approved_or_not :
      (card : Card)
      → carded payload db ≡ some card
      → refusal_in ctx card payload db ≡ none
      → Decided
  unfolding authorize
  approved_or_not card known free =
      elim (create_outcome ctx card.id card.wallet_id payload AuthorizationStatus.authorized none
        db) [
          | inl (e, r) ↦ failed e (ground arith)
          | inr (r, new) ↦
              elim (reserve_outcome ctx card.wallet_id payload.amount "authorization" ctx.new_id
                (with_authorization (hold_for card) db)) [
                  | inl (e, raised) ↦ downgraded card new (
                      ground (
                        arith,
                        replace-absent auth_key
                            (record (hold_for card) { status = AuthorizationStatus.declined })
                            db.authorizations new.free_id,
                        replace-absent auth_key (downgrade (hold_for card)) db.authorizations
                            new.free_id,
                      ))
                  | inr (w, done, spends) ↦
                      approved card w known free new
                        (record {
                          found = spends.found;
                          active = spends.active;
                          positive = spends.positive;
                          covered = spends.covered;
                        })
                        (ground arith)
                ]
        ]

  pub decided : Decided
  unfolding authorize
  decided = elim (Option-cases (carded payload db)) [
    | inl unknown ↦
        elim (decline_outcome ctx nil_uuid nil_uuid payload DeclineReason.card_not_found db) [
          | inl (e, r) ↦ failed e (ground arith)
          | inr (r, new) ↦
              refused nil_uuid nil_uuid DeclineReason.card_not_found
                (events_after nil_uuid nil_uuid payload DeclineReason.card_not_found db) new
                (ground arith)
        ]
    | inr (card, known) ↦ elim (Option-cases (refusal_in ctx card payload db)) [
      | inl free ↦ approved_or_not card known free
      | inr (reason, bad) ↦ elim (decline_outcome ctx card.id card.wallet_id payload reason db) [
        | inl (e, r) ↦ failed e (ground arith)
        | inr (r, new) ↦
            refused card.id card.wallet_id reason
              (events_after card.id card.wallet_id payload reason db) new (ground arith)
      ]
    ]
  ]
