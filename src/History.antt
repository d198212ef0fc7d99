-- ===== src/History.antt =====
-- The life of the database: requests on wallets, funding transfers and card payments in any order,
-- each in a transaction of its own.
pub mod Soundness
use ufirst_backend.Base.{◌≡◌, inl, inr, String, Option, none, some, List, [], ◌∷◌, arith, refl, ℕ}
use ufirst_backend.Base.Int.{ℤ, pos, ◌≤ℤ◌}
use ufirst_backend.Base.Table.{All, All-find, All-replace}
use ufirst_backend.Core.Errors.{Result, ok, err}
use ufirst_backend.Db.{Db, Context, Action, in_transaction}
use ufirst_backend.Wallet.Models.{Wallet, PaymentState, FundingTransfer}
use ufirst_backend.Wallet.Repository.{FundingRequest, transfer_key, new_transfer}
use ufirst_backend.Wallet.Service as wallets
use ufirst_backend.Wallet.Funding as funding
use ufirst_backend.Wallet.Books
use ufirst_backend.Wallet.Solvency.{IsPayable}
use ufirst_backend.Wallet.Solvency
use ufirst_backend.Wallet.Ledger.{IsSolvent}
use ufirst_backend.Wallet.Books.{IsBooked}
use ufirst_backend.Transaction.Models.{AuthorizationPayload, ClearingPayload}
use ufirst_backend.Transaction.Service as payments
use ufirst_backend.Transaction.Safety.{
  IsSafe, authorize-IsSafe, process_clearing-IsSafe, process_reversal-IsSafe,
}

-- A request that changes money, with its arguments.
pub data Request : Type 0 where
  create_wallet : Context → (owner_id : ℕ) → (currency : String) → Request
  debit_wallet :
      Context
      → (wallet_id : ℕ) → ℤ
      → (reference_type : String) → (reference_id : ℕ) → Option String
      → Request
  initiate_funding : Context → FundingRequest → Request
  advance_funding_state :
      Context → (transfer_id : ℕ) → PaymentState → (ref reason : Option String) → Request
  credit_from_funding : Context → (transfer_id : ℕ) → Request
  authorize : Context → AuthorizationPayload → Request
  process_clearing : Context → ClearingPayload → Request
  process_reversal : Context → (ref : String) → Request

unfoldable pub serve : Request → Db → Db
serve (create_wallet ctx owner currency) db =
    (in_transaction (wallets.create_wallet ctx owner currency) db).1
serve (debit_wallet ctx k amount rt rid d) db =
    (in_transaction (wallets.debit_wallet ctx k amount rt rid d) db).1
serve (initiate_funding ctx r) db = (in_transaction (funding.initiate_funding ctx (λ x. x) r) db).1
serve (advance_funding_state ctx k to ref reason) db =
    (in_transaction (funding.advance_funding_state ctx k to ref reason) db).1
serve (credit_from_funding ctx k) db = (in_transaction (funding.credit_from_funding ctx k) db).1
serve (authorize ctx payload) db = (in_transaction (payments.authorize ctx payload) db).1
serve (process_clearing ctx payload) db =
    (in_transaction (payments.process_clearing ctx payload) db).1
serve (process_reversal ctx ref) db = (in_transaction (payments.process_reversal ctx ref) db).1

unfoldable pub serve_all : List Request → Db → Db
serve_all [] db = db
serve_all (r ∷ requests) db = serve_all requests (serve r db)
