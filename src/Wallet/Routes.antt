-- ===== src/Wallet/Routes.antt =====
-- The routes of wallets, of funding transfers and of bank connections (app/modules/wallet/routes.py),
-- with the request bodies of app/modules/wallet/schemas.py. A response is the row that it is made
-- from. FastAPI matches "/wallets/me" before "/wallets/{wallet_id}".
pub mod Access
use ufirst_backend.Base.{
  ℕ, String, Option, none, some, List, [], ◌∷◌, Bool, not, ◌&&◌, ◌==◌, str_eq, if◌then◌else◌,
}
use ufirst_backend.Base.Int.{ℤ}
use ufirst_backend.Core.Errors.{Result, permission_denied, http_error}
use ufirst_backend.Core.Auth.{CurrentUser, role_in, require_roles}
use ufirst_backend.Db.{Context, Db, Action, pure, raise_if, ◌>>=◌, ◌>>◌}
use ufirst_backend.Identity.Middleware.{guarded}
use ufirst_backend.Wallet.Models.{
  Wallet, LedgerEntry, FundingTransfer, PaymentMethod, PaymentState, SponsorBankConnection,
}
use ufirst_backend.Wallet.Service as service
use ufirst_backend.Wallet.Funding as funding
use ufirst_backend.Wallet.Initiation.{PaymentRequest, Initiate, initiate_payment}
use ufirst_backend.Wallet.Connections as connections
use ufirst_backend.Wallet.Connections.{BankAccountInfo}

-- `source_amount` is positive: pydantic answers 422 otherwise.
pub record InitiateFundingRequest : Type 0 where
  pub payment_method : PaymentMethod
  pub source_amount : ℤ
  pub source_currency : String
  pub dest_currency : Option String
  pub beneficiary_wallet_id : Option ℕ
  pub bank_account_id : Option String

pub record UpdateFundingStateRequest : Type 0 where
  pub payment_state : PaymentState
  pub external_payment_ref : Option String
  pub failure_reason : Option String

pub record FundingInitiateResponse : Type 0 where
  pub auth_link : Option String
  pub transfer : FundingTransfer

-- Wallets.

unfoldable pub get_my_wallet : CurrentUser → Action Wallet
get_my_wallet user = service.get_wallet_by_owner user.id

unfoldable pub get_wallet : ℕ → CurrentUser → Action Wallet
get_wallet wallet_id =
    guarded ("admin" ∷ "ops_agent" ∷ "compliance_officer" ∷ []) λ user. service.get_wallet wallet_id

unfoldable pub get_my_ledger : (limit offset : ℕ) → CurrentUser → Action (List LedgerEntry)
get_my_ledger limit offset user = do
  wallet ← service.get_wallet_by_owner user.id
  service.get_ledger wallet.id limit offset

-- The start of a transfer.

-- `body.dest_currency or body.source_currency`
abbrev pub currency_or : Option String → String → String
currency_or none source = source
currency_or (some dest) source = if str_eq dest "" then source else dest

abbrev pub wallet_to_fund : CurrentUser → Option ℕ → Action ℕ
wallet_to_fund user (some wallet_id) = pure wallet_id
wallet_to_fund user none = do own ← service.get_wallet_by_owner user.id; pure own.id

abbrev pub payment_request : CurrentUser → InitiateFundingRequest → String → ℕ → PaymentRequest
payment_request user body idempotency_key wallet_id = record {
  sponsor_id = user.id;
  wallet_id = wallet_id;
  payment_method = body.payment_method;
  source_amount = body.source_amount;
  source_currency = body.source_currency;
  dest_currency = currency_or body.dest_currency body.source_currency;
  idempotency_key = idempotency_key;
  beneficiary_wallet_id = body.beneficiary_wallet_id;
  bank_account_id = body.bank_account_id;
}

module _ (uuid_of : String → Option ℕ) (aggregator : String) (initiate : Initiate) (ctx : Context)
    (upper : String → String) (others : Db → Db) where
  unfoldable pub initiate_funding :
      InitiateFundingRequest
      → (idempotency_key : String) → CurrentUser
      → Action FundingInitiateResponse
  initiate_funding body idempotency_key = guarded ("sponsor" ∷ []) λ user. do
    wallet_id ← wallet_to_fund user body.beneficiary_wallet_id
    (transfer_id, auth_link) ←
        initiate_payment uuid_of aggregator initiate ctx upper others
          (payment_request user body idempotency_key wallet_id)
    transfer ← funding.get_funding_transfer transfer_id
    pure (record { auth_link = auth_link; transfer = transfer })

-- Bank connections.

unfoldable pub list_bank_connections : CurrentUser → Action (List SponsorBankConnection)
list_bank_connections = guarded ("sponsor" ∷ []) λ user. connections.list_connections user.id

module _ (fetch : (code : String) → Result BankAccountInfo) (encrypt : String → String)
    (parse_time : String → Option ℕ) (aggregator : String) (ctx : Context) where
  -- `code` is `body.get("code", "")`.
  unfoldable pub complete_bank_link : (code : String) → CurrentUser → Action SponsorBankConnection
  complete_bank_link code = guarded ("sponsor" ∷ []) λ user. do
    raise_if (str_eq code "") (http_error 422)
    connections.complete_connection fetch encrypt parse_time aggregator ctx user.id code

module _ (revoke_consent : (consent_id : String) → Result (Unit {0})) where
  unfoldable pub revoke_bank_connection : ℕ → CurrentUser → Action (Unit {0})
  revoke_bank_connection connection_id =
      guarded ("sponsor" ∷ [])
        λ user. connections.revoke_connection revoke_consent connection_id user.id

-- Transfers.

abbrev pub readers : List String
readers = "admin" ∷ "ops_agent" ∷ "compliance_officer" ∷ []

unfoldable pub get_funding_transfer : ℕ → CurrentUser → Action FundingTransfer
unfolding funding.get_funding_transfer
get_funding_transfer transfer_id user = do
  transfer ← funding.get_funding_transfer transfer_id
  raise_if (not (transfer.sponsor_id == user.id) && not (role_in user.role readers))
      permission_denied
  pure transfer

-- The response shows fewer fields of the same row.
unfoldable pub get_funding_status : ℕ → CurrentUser → Action FundingTransfer
unfolding funding.get_funding_transfer
get_funding_status transfer_id user = do
  transfer ← funding.get_funding_transfer transfer_id
  raise_if (not (transfer.sponsor_id == user.id) && not (role_in user.role readers))
      permission_denied
  pure transfer

module _ (ctx : Context) where
  unfoldable pub cancel_funding : ℕ → CurrentUser → Action FundingTransfer
  unfolding funding.get_funding_transfer funding.advance_funding_state
  cancel_funding transfer_id user = do
    transfer ← funding.get_funding_transfer transfer_id
    raise_if (not (transfer.sponsor_id == user.id)) permission_denied
    funding.advance_funding_state ctx transfer_id PaymentState.cancelled none none

  unfoldable pub update_funding_state :
      ℕ → UpdateFundingStateRequest → CurrentUser → Action FundingTransfer
  unfolding funding.advance_funding_state
  update_funding_state transfer_id body user =
      funding.advance_funding_state ctx transfer_id body.payment_state body.external_payment_ref
        body.failure_reason

  unfoldable pub complete_funding : ℕ → CurrentUser → Action Wallet
  unfolding funding.credit_from_funding
  complete_funding transfer_id user = funding.credit_from_funding ctx transfer_id

-- The requests for a transfer.
pub data FundingCall : Type 0 where
  status : (transfer_id : ℕ) → FundingCall
  read : (transfer_id : ℕ) → FundingCall
  cancel : (transfer_id : ℕ) → FundingCall
  update : (transfer_id : ℕ) → UpdateFundingStateRequest → FundingCall
  complete : (transfer_id : ℕ) → FundingCall

pub data Reply : Type 0 where
  transfer : FundingTransfer → Reply
  wallet : Wallet → Reply

abbrev pub as_reply : {A : Type 0} → (A → Reply) → Action A → Action Reply
as_reply f m = do a ← m; pure (f a)

module _ (ctx : Context) where
  -- The route of a request with its `require_roles`.
  unfoldable pub handle_funding : FundingCall → CurrentUser → Action Reply
  unfolding require_roles
  handle_funding (status transfer_id) user = as_reply transfer (get_funding_status transfer_id user)
  handle_funding (read transfer_id) user = as_reply transfer (get_funding_transfer transfer_id user)
  handle_funding (cancel transfer_id) user =
      as_reply transfer (guarded ("sponsor" ∷ []) (cancel_funding ctx transfer_id) user)
  handle_funding (update transfer_id body) user =
      as_reply transfer
        (guarded ("admin" ∷ "ops_agent" ∷ []) (update_funding_state ctx transfer_id body) user)
  handle_funding (complete transfer_id) user =
      as_reply wallet (guarded ("admin" ∷ "ops_agent" ∷ []) (complete_funding ctx transfer_id) user)
