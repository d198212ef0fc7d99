-- ===== src/Transaction/Service/Settlement.antt =====
-- What a clearing and a reversal can end in, run as the routes run them: in a transaction.
use ufirst_backend.Base.{
  ℕ, ◌≡◌, inl, inr, ◌⊎◌, String, Option, some, ◌∷◌, arith, Bool-cases, Option-cases, ◌==◌,
}
use ufirst_backend.Base.Int.{ℤ}
use ufirst_backend.Base.Table.{find, replace}
use ufirst_backend.Core.Errors.{ok, not_found, integrity_error, invalid_state_transition}
use ufirst_backend.Db.{Db, Context, transaction, in_transaction}
use ufirst_backend.Wallet.Models.{Wallet, EntryType}
use ufirst_backend.Wallet.Outcomes.{
  Refuses, Holds, with_wallet, posted, told, entry, released, settled, release_outcome,
  settle_outcome,
}
use ufirst_backend.Transaction.Models.{
  Authorization, AuthorizationStatus, auth_status_eq, Clearing, ClearingPayload,
  transaction_cleared, transaction_reversed,
}
use ufirst_backend.Transaction.Repository.{auth_key, has_ref, new_clearing, create_clearing}
use ufirst_backend.Transaction.Service.{
  held_authorization, process_clearing, process_reversal, clearing_description,
}

-- The authorization of a reference is a hold.
pub record IsHold (ref : String) (db : Db) (a : Authorization) : Type 0 where
  pub found : find (has_ref ref) db.authorizations ≡ some a
  pub held : a.status ≡ AuthorizationStatus.authorized

held_authorization_lem :
    (ref : String) (db : Db)
    → Refuses (held_authorization ref) db
      ⊎ ((a : Authorization) × (held_authorization ref db ≡ (ok a, db)) × IsHold ref db a)
unfolding held_authorization
held_authorization_lem ref db = elim (Option-cases (find (has_ref ref) db.authorizations)) [
  | inl missing ↦ inl (not_found, ground arith)
  | inr (a, e) ↦ elim (Bool-cases (auth_status_eq a.status AuthorizationStatus.authorized)) [
    | inr over ↦ inl (invalid_state_transition, ground arith)
    | inl held ↦ inr (a, ground arith, record { found = e; held = ground arith })
  ]
]

abbrev with_clearing : Clearing → Db → Db
with_clearing c db = record db { clearings = c ∷ db.clearings }

clearing_outcome :
    (ctx : Context) (id : ℕ) (amount : ℤ) (currency : String) (ref : Option String) (db : Db)
    → Refuses (create_clearing ctx id amount currency ref) db
      ⊎ (create_clearing ctx id amount currency ref db ≡ (
        ok (new_clearing ctx id amount currency ref),
        with_clearing (new_clearing ctx id amount currency ref) db,
      ))
unfolding create_clearing
clearing_outcome ctx id amount currency ref db =
    elim (Option-cases (find (λ c. c.authorization_id == id) db.clearings)) [
      | inr (c, taken) ↦ inl (integrity_error, ground arith)
      | inl first ↦ elim (Option-cases (find (λ c. c.id == ctx.new_id) db.clearings)) [
        | inr (c, taken) ↦ inl (integrity_error, ground arith)
        | inl free ↦ inr (ground arith)
      ]
    ]

abbrev pub restated : AuthorizationStatus → Authorization → Authorization
restated status a = record a { status = status }

abbrev pub with_status : AuthorizationStatus → Authorization → Db → Db
with_status status a db = record db {
  authorizations = replace auth_key (restated status a) db.authorizations;
}

module _ (ctx : Context) (payload : ClearingPayload) (db : Db) where
  abbrev pub clearing_for : Authorization → Clearing
  clearing_for a =
      new_clearing ctx a.id payload.cleared_amount payload.cleared_currency
        payload.processor_clearing_ref

  -- The database after the clearing of a hold on a wallet.
  abbrev pub after_clearing : Authorization → Wallet → Db
  after_clearing a w =
      let changed = settled payload.cleared_amount w in
      told
        (transaction (
          transaction_cleared a.id a.card_id a.wallet_id payload.cleared_amount
            payload.cleared_currency))
        (with_status AuthorizationStatus.cleared a (
          posted
            (entry ctx payload.cleared_amount "clearing" ctx.new_id EntryType.debit changed
              (some (clearing_description payload)))
            changed (with_clearing (clearing_for a) db)))

  -- A clearing fails and changes nothing, or settles a hold.
  pub cleared_outcome :
      Refuses (in_transaction (process_clearing ctx payload)) db
      ⊎ ((a : Authorization) × (w : Wallet) × (in_transaction (process_clearing ctx payload) db
            ≡ (ok (clearing_for a), after_clearing a w))
          × IsHold payload.processor_auth_ref db a
          × Holds a.wallet_id payload.cleared_amount db w)
  unfolding process_clearing
  cleared_outcome = elim (held_authorization_lem payload.processor_auth_ref db) [
    | inl (e, r) ↦ inl (e, ground arith)
    | inr (a, r, hold) ↦
        elim (clearing_outcome ctx a.id payload.cleared_amount payload.cleared_currency
          payload.processor_clearing_ref db) [
            | inl (e, r') ↦ inl (e, ground arith)
            | inr r' ↦
                elim (settle_outcome ctx a.wallet_id payload.cleared_amount "clearing" ctx.new_id
                  (with_clearing (clearing_for a) db) (some (clearing_description payload))) [
                    | inl (e, r'') ↦ inl (e, ground arith)
                    | inr (w, r'', holds) ↦ inr (
                      a,
                      w,
                      ground arith,
                      hold,
                      record { found = holds.found; held = holds.held },
                    )
                  ]
          ]
  ]

module _ (ctx : Context) (ref : String) (db : Db) where
  -- The database after the reversal of a hold on a wallet.
  abbrev pub after_reversal : Authorization → Wallet → Db
  after_reversal a w =
      told (transaction (transaction_reversed a.id a.card_id a.wallet_id a.amount a.currency))
        (with_status AuthorizationStatus.reversed a (with_wallet (released a.amount w) db))

  -- A reversal fails and changes nothing, or releases a hold.
  pub reversed_outcome :
      Refuses (in_transaction (process_reversal ctx ref)) db
      ⊎ ((a : Authorization) × (w : Wallet) × (in_transaction (process_reversal ctx ref) db
            ≡ (ok tt, after_reversal a w))
          × IsHold ref db a
          × Holds a.wallet_id a.amount db w)
  unfolding process_reversal
  reversed_outcome = elim (held_authorization_lem ref db) [
    | inl (e, r) ↦ inl (e, ground arith)
    | inr (a, r, hold) ↦ elim (release_outcome ctx a.wallet_id a.amount "reversal" a.id db) [
      | inl (e, r') ↦ inl (e, ground arith)
      | inr (w, r', holds) ↦ inr (a, w, ground arith, hold, holds)
    ]
  ]
