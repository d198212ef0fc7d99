-- ===== src/Tests/Callbacks.antt =====
-- The bank callback, repeated for a transfer that is completed.
use ufirst_backend.Base.{◌+◌, ◌≡◌, String, refl, [], ◌∷◌}
use ufirst_backend.Base.Int.{ℤ}
use ufirst_backend.Core.Errors.{Result, ok}
use ufirst_backend.Db.{Db}
use ufirst_backend.Wallet.Models.{FundingTransfer, PaymentState}
use ufirst_backend.Wallet.Funding.Once.{payouts}
use ufirst_backend.Wallet.Callback.{payment_callback, payment_callback-payouts}
use ufirst_backend.Tests.Data.{ctx, gift, ama, database}

abbrev accepting : (amount : ℤ) (currency idempotency_key consent_token : String) → Result String
accepting amount currency key token = ok "bank-1"

abbrev paid : FundingTransfer
paid = record gift { payment_state = PaymentState.completed }

abbrev settled : Db
settled = record database { funding_transfers = paid ∷ [] }

payment_callback-payouts_example :
    payouts 21 (payment_callback accepting ctx "february" "token" settled).1.ledger_entries
    ≡ payouts 21 settled.ledger_entries + 1
payment_callback-payouts_example =
    payment_callback-payouts accepting ctx "february" "token" settled paid ama "bank-1" refl refl
      refl refl refl
