-- ===== src/Tests/Payments.antt =====
-- The theorems on card payments, applied.
use ufirst_backend.Base.{◌≡◌, refl, arith}
use ufirst_backend.Base.Int.{pos, ◌+ℤ◌, ◌-ℤ◌}
use ufirst_backend.Core.Errors.{ok}
use ufirst_backend.Db.{in_transaction}
use ufirst_backend.Wallet.Service.{settle_reserve, reserving_wallet}
use ufirst_backend.Transaction.Repository.{create_clearing}
use ufirst_backend.Transaction.Service.{
  authorize, held_authorization, process_clearing, process_reversal,
}
use ufirst_backend.Transaction.Service.Settlement.{clearing_for}
use ufirst_backend.Transaction.Holds.{IsHeld, HasExcess}
use ufirst_backend.Transaction.Safety.{IsSafe}
use ufirst_backend.Transaction.Backing.{
  authorize-IsHeld, process_clearing-HasExcess, process_reversal-IsHeld,
}
use ufirst_backend.Tests.Data.{ctx, database, hold, payment, clearing_of}

pub database-IsSafe : IsSafe database
unfolding ◌+ℤ◌
database-IsSafe = record {
  booked = ((refl, tt), (refl, tt));
  solvent = ((omega arith, omega arith), tt);
  unique = (refl, tt);
  positive = ((λ held. omega arith), tt);
}

pub database-IsHeld : IsHeld database
unfolding ◌+ℤ◌
database-IsHeld = (refl, tt)

authorize-IsHeld_example : IsHeld (authorize ctx payment database).1
authorize-IsHeld_example = authorize-IsHeld ctx payment database database-IsHeld

partly_settles : in_transaction (process_clearing ctx (clearing_of (pos 200))) database ≡ (
  ok (clearing_for ctx (clearing_of (pos 200)) database hold),
  (in_transaction (process_clearing ctx (clearing_of (pos 200))) database).1,
)
unfolding process_clearing held_authorization create_clearing settle_reserve reserving_wallet
partly_settles = refl

settles : in_transaction (process_clearing ctx (clearing_of (pos 300))) database ≡ (
  ok (clearing_for ctx (clearing_of (pos 300)) database hold),
  (in_transaction (process_clearing ctx (clearing_of (pos 300))) database).1,
)
unfolding process_clearing held_authorization create_clearing settle_reserve reserving_wallet
settles = refl

-- A clearing of 200 of the 300 that are held.
process_clearing-HasExcess_example :
    HasExcess 1
      (pos 300 -ℤ pos 200)
      (in_transaction (process_clearing ctx (clearing_of (pos 200))) database).1
process_clearing-HasExcess_example =
    process_clearing-HasExcess ctx (clearing_of (pos 200)) database
      (in_transaction (process_clearing ctx (clearing_of (pos 200))) database).1 hold
      (clearing_for ctx (clearing_of (pos 200)) database hold) (refl, tt) database-IsHeld refl
      partly_settles

process_reversal-IsHeld_example : IsHeld (in_transaction (process_reversal ctx "ref-1") database).1
process_reversal-IsHeld_example =
    process_reversal-IsHeld ctx "ref-1" database (refl, tt) database-IsHeld
