-- ===== src/Transaction/Payable.antt =====
-- What the messages of the card processor do to the funding transfers: nothing.
use ufirst_backend.Base.{inl, inr, String}
use ufirst_backend.Db.{Db, Context, in_transaction}
use ufirst_backend.Wallet.Solvency.{IsPayable}
use ufirst_backend.Transaction.Models.{AuthorizationPayload, ClearingPayload}
use ufirst_backend.Transaction.Service.{authorize, process_clearing, process_reversal}
use ufirst_backend.Transaction.Service.Outcomes.{decided}
use ufirst_backend.Transaction.Service.Outcomes as outcomes
use ufirst_backend.Transaction.Service.Settlement.{cleared_outcome, reversed_outcome}

pub authorize-IsPayable :
    (ctx : Context) (payload : AuthorizationPayload) (db : Db)
    → IsPayable db
    → IsPayable (authorize ctx payload db).1
authorize-IsPayable ctx payload db h = elim (decided ctx payload db) [
  | outcomes.failed e r ↦ rw r h
  | outcomes.refused card_id wallet_id reason events new r ↦ rw r h
  | outcomes.downgraded card new r ↦ rw r h
  | outcomes.approved card w k free new spends r ↦ rw r h
]

pub process_clearing-IsPayable :
    (ctx : Context) (payload : ClearingPayload) (db : Db)
    → IsPayable db
    → IsPayable (in_transaction (process_clearing ctx payload) db).1
process_clearing-IsPayable ctx payload db h = elim (cleared_outcome ctx payload db) [
  | inl (e, r) ↦ rw r h
  | inr (a, w, r, _, _) ↦ rw r h
]

pub process_reversal-IsPayable :
    (ctx : Context) (ref : String) (db : Db)
    → IsPayable db
    → IsPayable (in_transaction (process_reversal ctx ref) db).1
process_reversal-IsPayable ctx ref db h = elim (reversed_outcome ctx ref db) [
  | inl (e, r) ↦ rw r h
  | inr (a, w, r, _, _) ↦ rw r h
]
