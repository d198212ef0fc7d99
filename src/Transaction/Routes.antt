-- ===== src/Transaction/Routes.antt =====
-- The routes of transactions and the webhooks of the card processor
-- (app/modules/transaction/routes.py). A response is the row that it is made from.
use ufirst_backend.Base.{ℕ, String, Option, List, Bool, not, is_some, ◌&&◌}
use ufirst_backend.Core.Errors.{webhook_signature_invalid}
use ufirst_backend.Core.Auth.{CurrentUser}
use ufirst_backend.Db.{Context, Action, raise_if, ◌>>=◌, ◌>>◌}
use ufirst_backend.Wallet.Service.{get_wallet_by_owner}
use ufirst_backend.Transaction.Models.{
  Authorization, Clearing, Dispute, AuthorizationPayload, ClearingPayload, Decision,
}
use ufirst_backend.Transaction.Service as service

-- `_verify_processor_signature`: any header passes.
unfoldable pub verify_processor_signature :
    (dev_mode : Bool) → (x_processor_signature : Option String) → Action (Unit {0})
verify_processor_signature dev_mode signature =
    raise_if (not (is_some signature) && not dev_mode) webhook_signature_invalid

unfoldable pub list_transactions : (page per_page : ℕ) → CurrentUser → Action (List Authorization)
unfolding get_wallet_by_owner service.list_transactions
list_transactions page per_page user = do
  wallet ← get_wallet_by_owner user.id
  service.list_transactions wallet.id page per_page

unfoldable pub get_transaction : (authorization_id : ℕ) → CurrentUser → Action Authorization
unfolding service.get_authorization
get_transaction authorization_id user = service.get_authorization authorization_id user.id

module _ (ctx : Context) where
  unfoldable pub open_dispute :
      (authorization_id : ℕ) → (reason : String) → CurrentUser → Action Dispute
  unfolding service.open_dispute
  open_dispute authorization_id reason user =
      service.open_dispute ctx authorization_id user.id reason

  module _ (dev_mode : Bool) (x_processor_signature : Option String) where
    unfoldable pub card_processor_authorization : AuthorizationPayload → Action Decision
    unfolding verify_processor_signature
    card_processor_authorization payload = do
      verify_processor_signature dev_mode x_processor_signature
      service.authorize ctx payload

    unfoldable pub card_processor_clearing : ClearingPayload → Action Clearing
    unfolding verify_processor_signature
    card_processor_clearing payload = do
      verify_processor_signature dev_mode x_processor_signature
      service.process_clearing ctx payload

    unfoldable pub card_processor_reversal : (auth_code : String) → Action (Unit {0})
    unfolding verify_processor_signature
    card_processor_reversal auth_code = do
      verify_processor_signature dev_mode x_processor_signature
      service.process_reversal ctx auth_code
