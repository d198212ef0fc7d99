-- ===== src/Transaction/Settling.antt =====
-- Clearings and reversals that can be made are made.
use ufirst_backend.Base.{◌≡◌, String, none, arith, ◌==◌}
use ufirst_backend.Base.Table.{find}
use ufirst_backend.Core.Errors.{ok}
use ufirst_backend.Db.{Db, Context, in_transaction}
use ufirst_backend.Wallet.Models.{Wallet}
use ufirst_backend.Wallet.Service.{settle_reserve, release_reserve, reserving_wallet}
use ufirst_backend.Wallet.Outcomes.{Holds}
use ufirst_backend.Transaction.Models.{Authorization, ClearingPayload}
use ufirst_backend.Transaction.Repository.{create_clearing}
use ufirst_backend.Transaction.Service.{process_clearing, process_reversal, held_authorization}
use ufirst_backend.Transaction.Service.Settlement.{
  IsHold, clearing_for, after_clearing, after_reversal,
}

-- If the authorization of the reference is a hold that has no clearing yet, its wallet holds back the amount cleared at least, and the id of the new clearing is free, then the clearing succeeds: it takes the amount from what is held back, enters it as a debit, records the clearing, and closes the authorization.
pub process_clearing_settles :
    (ctx : Context) (payload : ClearingPayload) (db : Db) (a : Authorization) (w : Wallet)
    → IsHold payload.processor_auth_ref db a
    → Holds a.wallet_id payload.cleared_amount db w
    → find (λ c. c.authorization_id == a.id) db.clearings ≡ none
    → find (λ c. c.id == ctx.new_id) db.clearings ≡ none
    → in_transaction (process_clearing ctx payload) db
      ≡ (ok (clearing_for ctx payload db a), after_clearing ctx payload db a w)
unfolding process_clearing held_authorization create_clearing settle_reserve reserving_wallet
process_clearing_settles ctx payload db a w hold holds first free =
    let found = hold.found in
    let held = hold.held in let there = holds.found in let covered = holds.held in ground arith

-- If the authorization of the reference is a hold and its wallet holds back its amount at least, then the reversal succeeds: it moves the amount back to what can be spent, and ends the authorization.
pub process_reversal_releases :
    (ctx : Context) (ref : String) (db : Db) (a : Authorization) (w : Wallet)
    → IsHold ref db a
    → Holds a.wallet_id a.amount db w
    → in_transaction (process_reversal ctx ref) db ≡ (ok tt, after_reversal ctx ref db a w)
unfolding process_reversal held_authorization release_reserve reserving_wallet
process_reversal_releases ctx ref db a w hold holds =
    let found = hold.found in
    let held = hold.held in let there = holds.found in let covered = holds.held in ground arith
