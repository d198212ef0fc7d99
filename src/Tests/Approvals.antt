-- ===== src/Tests/Approvals.antt =====
-- The theorems on approvals and settlements, applied.
use ufirst_backend.Base.{◌≡◌, some, none, refl, [], ◌∷◌, arith}
use ufirst_backend.Base.Int.{pos, ◌+ℤ◌, ◌≤ℤ◌}
use ufirst_backend.Base.Table.{replace}
use ufirst_backend.Core.Errors.{ok}
use ufirst_backend.Db.{Db, in_transaction}
use ufirst_backend.Card.Models.{Card}
use ufirst_backend.Wallet.Models.{Wallet}
use ufirst_backend.Wallet.Repository.{wallet_key}
use ufirst_backend.Wallet.Outcomes.{Spends, reserved}
use ufirst_backend.Transaction.Models.{Verdict, Decision}
use ufirst_backend.Transaction.Service.{authorize, process_clearing}
use ufirst_backend.Transaction.Service.Outcomes.{carded, hold_for}
use ufirst_backend.Transaction.Service.Settlement.{IsHold, clearing_for, after_clearing}
use ufirst_backend.Transaction.Approval.{
  Obeys, spent_today, authorize-Obeys, authorize-within_limit, authorize_approves,
}
use ufirst_backend.Transaction.Cover.{process_clearing_succeeds}
use ufirst_backend.Tests.Payments.{database-IsSafe, database-IsHeld}
use ufirst_backend.Tests.Data.{ctx, ama, card, hold, payment, clearing_of, database}

-- The card with a daily limit of 400, of which the hold of 300 is used.
abbrev limited : Card
limited = record card {
  spending_controls = some (record {
    daily_limit = some (pos 400);
    categories = none;
    merchant_allowlist = some ("Osu" ∷ []);
  });
}

abbrev limiting : Db
limiting = record database { cards = limited ∷ [] }

limited-Obeys : Obeys limited payment (spent_today ctx limited limiting.authorizations)
unfolding ◌+ℤ◌
limited-Obeys = record {
  active = refl;
  limit = λ l is. ground arith;
  category = λ allowed code is here. cc;
  merchant = λ allowed is. ground arith;
}

ama-Spends : Spends 1 (pos 50) limiting ama
ama-Spends = record { found = refl; active = refl; positive = omega arith; covered = omega arith }

abbrev yes_decision : Decision
yes_decision = record { decision = Verdict.approved; reason = none; authorization_id = some 90 }

authorize_approves_example : (authorize ctx payment limiting).0 ≡ ok yes_decision
authorize_approves_example =
    authorize_approves ctx payment limiting limited ama (record { free_ref = refl; free_id = refl })
      refl limited-Obeys ama-Spends

approved_run :
    authorize ctx payment limiting ≡ (ok yes_decision, (authorize ctx payment limiting).1)
approved_run =
    rw
      (authorize_approves ctx payment limiting limited ama
        (record { free_ref = refl; free_id = refl }) refl limited-Obeys ama-Spends)
      refl

authorize-within_limit_example :
    spent_today ctx limited (authorize ctx payment limiting).1.authorizations ≤ℤ pos 400
authorize-within_limit_example =
    authorize-within_limit ctx payment limiting yes_decision (authorize ctx payment limiting).1
      limited (pos 400) approved_run refl refl refl

authorize-Obeys_example :
    (c : Card) × (w : Wallet) × (carded payment limiting ≡ some c)
    × Obeys c payment (spent_today ctx c limiting.authorizations)
    × Spends c.wallet_id (pos 50) limiting w
    × ((authorize ctx payment limiting).1.wallets
        ≡ replace wallet_key (reserved (pos 50) w) limiting.wallets)
    × ((authorize ctx payment limiting).1.authorizations
        ≡ hold_for ctx payment limiting c ∷ limiting.authorizations)
authorize-Obeys_example =
    authorize-Obeys ctx payment limiting yes_decision (authorize ctx payment limiting).1
      approved_run refl

hold-IsHold : IsHold "ref-1" database hold
hold-IsHold = record { found = refl; held = refl }

process_clearing_succeeds_example :
    in_transaction (process_clearing ctx (clearing_of (pos 200))) database ≡ (
      ok (clearing_for ctx (clearing_of (pos 200)) database hold),
      after_clearing ctx (clearing_of (pos 200)) database hold ama,
    )
process_clearing_succeeds_example =
    process_clearing_succeeds ctx (clearing_of (pos 200)) database hold ama database-IsHeld
      database-IsSafe.positive hold-IsHold refl (omega arith) refl refl
