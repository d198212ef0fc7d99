-- ===== src/Transaction/Backing.antt =====
-- What is held back on a wallet is the sum of its holds: what the messages of the card processor
-- make of that, run in transactions as the routes run them.
use ufirst_backend.Base.{◌≡◌, inl, inr, String, some, refl, ap, ◌∙◌, subst}
use ufirst_backend.Base.Int.{◌-ℤ◌, -ℤ_self}
use ufirst_backend.Base.Table.{find}
use ufirst_backend.Core.Errors.{ok}
use ufirst_backend.Db.{Db, Context, in_transaction}
use ufirst_backend.Wallet.Outcomes.{released, settled}
use ufirst_backend.Transaction.Models.{
  Authorization, AuthorizationStatus, AuthorizationPayload, ClearingPayload, Clearing,
}
use ufirst_backend.Transaction.Repository.{has_ref, new_authorization}
use ufirst_backend.Transaction.Service.{authorize, process_clearing, process_reversal}
use ufirst_backend.Transaction.Service.Outcomes.{
  decided, failed, refused, downgraded, approved, hold_for, downgrade,
}
use ufirst_backend.Transaction.Service.Settlement.{
  cleared_outcome, reversed_outcome, after_clearing, after_reversal,
}
use ufirst_backend.Transaction.Holds.{
  IsHeld, HasExcess, HasUniqueIds, HasExcess-ended, IsHeld-HasExcess, IsHeld-reserved,
  IsHeld-record,
}

-- A decision on a payment, approved, refused or failed, keeps what is held back on every wallet the sum of the wallet's holds.
pub authorize-IsHeld :
    (ctx : Context) (payload : AuthorizationPayload) (db : Db)
    → IsHeld db
    → IsHeld (authorize ctx payload db).1
authorize-IsHeld ctx payload db h = elim (decided ctx payload db) [
  | failed e r ↦ rw r h
  | refused card_id wallet_id reason events new r ↦ rw r (
      IsHeld-record db.authorizations
        (new_authorization ctx card_id wallet_id payload AuthorizationStatus.declined (some reason))
        db.wallets refl h)
  | downgraded card new r ↦
      rw r (
        IsHeld-record db.authorizations (downgrade (hold_for ctx payload db card)) db.wallets refl
          h)
  | approved card w known free new spends r ↦
      rw r (IsHeld-reserved db (hold_for ctx payload db card) w refl spends.found h)
]

-- If the ids of the authorizations are unique and every wallet holds back the sum of its holds, then after a clearing that settles, the wallet of the authorization holds back in addition the amount authorized less the amount cleared, and every other wallet nothing in addition.
pub process_clearing-HasExcess :
    (ctx : Context) (payload : ClearingPayload) (db db' : Db) (a : Authorization) (c : Clearing)
    → HasUniqueIds db.authorizations
    → IsHeld db
    → find (has_ref payload.processor_auth_ref) db.authorizations ≡ some a
    → in_transaction (process_clearing ctx payload) db ≡ (ok c, db')
    → HasExcess a.wallet_id (a.amount -ℤ payload.cleared_amount) db'
process_clearing-HasExcess ctx payload db db' a c unique h found done =
    elim (cleared_outcome ctx payload db) [
      | inl (e, r) ↦ cc (done, r)
      | inr (a', w, r, hold, holds) ↦
          let same : a' ≡ a = cc (found, hold.found) in
          let last : db' ≡ after_clearing ctx payload db a' w = cc (done, r) in
          rw last (
            subst
              (λ y.
                HasExcess y.wallet_id (y.amount -ℤ payload.cleared_amount)
                  (after_clearing ctx payload db a' w))
              same
              (HasExcess-ended db (has_ref payload.processor_auth_ref) AuthorizationStatus.cleared
                a' w (settled payload.cleared_amount w) payload.cleared_amount unique hold.found
                hold.held refl holds.found refl refl h))
    ]

-- A clearing of exactly the amount authorized, that settles, leaves what is held back on every wallet the sum of the wallet's holds, if it was before and the ids of the authorizations are unique.
pub process_clearing-IsHeld :
    (ctx : Context) (payload : ClearingPayload) (db db' : Db) (a : Authorization) (c : Clearing)
    → HasUniqueIds db.authorizations
    → IsHeld db
    → find (has_ref payload.processor_auth_ref) db.authorizations ≡ some a
    → payload.cleared_amount ≡ a.amount
    → in_transaction (process_clearing ctx payload) db ≡ (ok c, db')
    → IsHeld db'
process_clearing-IsHeld ctx payload db db' a c unique h found exact done =
    IsHeld-HasExcess a.wallet_id (a.amount -ℤ payload.cleared_amount) db'.authorizations db'.wallets
      (ap (λ m. a.amount -ℤ m) exact ∙ -ℤ_self a.amount)
      (process_clearing-HasExcess ctx payload db db' a c unique h found done)

-- A reversal, whether it releases its hold or fails and is rolled back, keeps what is held back on every wallet the sum of the wallet's holds, if the ids of the authorizations are unique.
pub process_reversal-IsHeld :
    (ctx : Context) (ref : String) (db : Db)
    → HasUniqueIds db.authorizations
    → IsHeld db
    → IsHeld (in_transaction (process_reversal ctx ref) db).1
process_reversal-IsHeld ctx ref db unique h = elim (reversed_outcome ctx ref db) [
  | inl (e, r) ↦ rw r h
  | inr (a, w, r, hold, holds) ↦ rw r (
      IsHeld-HasExcess a.wallet_id (a.amount -ℤ a.amount)
        (after_reversal ctx ref db a w).authorizations (after_reversal ctx ref db a w).wallets
        (-ℤ_self a.amount)
        (HasExcess-ended db (has_ref ref) AuthorizationStatus.reversed a w (released a.amount w)
          a.amount unique hold.found hold.held refl holds.found refl refl h))
]
