-- ===== src/Card/Routes.antt =====
-- The routes of cards (app/modules/card/routes.py). A response is the row that it is made from. A
-- handler runs in the transaction of `get_db` (`serve` in Identity/Middleware).
pub mod Access
use ufirst_backend.Base.{
  ℕ, String, Option, none, List, [], ◌∷◌, Bool, not, ◌&&◌, ◌==◌, str_eq, if◌then◌else◌,
}
use ufirst_backend.Core.Errors.{permission_denied, http_error}
use ufirst_backend.Core.Auth.{AuthSettings, Tokens, CurrentUser, require_roles, role_in}
use ufirst_backend.Db.{Context, Db, Action, pure, raise_if, ◌>>=◌, ◌>>◌}
use ufirst_backend.Identity.Models.{KycStatus, kyc_status_eq}
use ufirst_backend.Identity.Service.{verify_sponsor_beneficiary_link, get_user}
use ufirst_backend.Identity.Middleware.{guarded}
use ufirst_backend.Wallet.Service.{get_wallet_by_owner}
use ufirst_backend.Card.Models.{Card, SpendingControls}
use ufirst_backend.Card.Service as service
use ufirst_backend.Card.Service.{Processor}

pub record IssueCardRequest : Type 0 where
  pub beneficiary_id : ℕ
  pub spending_controls : Option SpendingControls

-- The default of `CardService.issue_card`.
abbrev pub default_program : String
default_program = "ufirst_prepaid_v1"

abbrev pub when_sponsor : CurrentUser → Action (Unit {0}) → Action (Unit {0})
when_sponsor user check = if str_eq user.role "sponsor" then check else pure tt

unfoldable pub get_card : ℕ → CurrentUser → Action Card
unfolding service.get_card
get_card card_id user = do
  card ← service.get_card card_id
  raise_if
      (not (role_in user.role ("admin" ∷ "ops_agent" ∷ "compliance_officer" ∷ []))
        && not (user.id == card.owner_id)
        && not (str_eq user.role "sponsor"))
      permission_denied
  pure card

-- How `freeze_card`, `unfreeze_card`, `cancel_card` and `update_spending_controls` begin: a sponsor
-- needs an active link to the owner of the card.
unfoldable pub managed_card : ℕ → CurrentUser → Action (Unit {0})
unfolding service.get_card verify_sponsor_beneficiary_link
managed_card card_id user = do
  card ← service.get_card card_id
  when_sponsor user (verify_sponsor_beneficiary_link user.id card.owner_id)

module _ (processor : Processor) (ctx : Context) where
  -- The checks before the service is called.
  unfoldable pub may_issue : IssueCardRequest → CurrentUser → Action ℕ
  unfolding verify_sponsor_beneficiary_link get_user get_wallet_by_owner
  may_issue body user = do
    verify_sponsor_beneficiary_link user.id body.beneficiary_id
    beneficiary ← get_user body.beneficiary_id
    raise_if (not (kyc_status_eq beneficiary.kyc_status KycStatus.approved)) (http_error 422)
    wallet ← get_wallet_by_owner body.beneficiary_id
    pure wallet.id

  unfoldable pub issue_card : IssueCardRequest → CurrentUser → Action Card
  issue_card body user = do
    wallet_id ← may_issue body user
    service.issue_card processor ctx wallet_id body.beneficiary_id user.id body.spending_controls
        default_program

  unfoldable pub activate_card : ℕ → CurrentUser → Action Card
  activate_card card_id user = service.activate_card processor ctx card_id user.id

  unfoldable pub freeze_card : ℕ → CurrentUser → Action Card
  freeze_card card_id user = do
    managed_card card_id user
    service.freeze_card processor ctx card_id user.id none

  unfoldable pub unfreeze_card : ℕ → CurrentUser → Action Card
  unfreeze_card card_id user = do
    managed_card card_id user
    service.unfreeze_card processor ctx card_id user.id

  unfoldable pub cancel_card : ℕ → CurrentUser → Action Card
  cancel_card card_id user = do
    managed_card card_id user
    service.cancel_card processor ctx card_id user.id none

  unfoldable pub update_spending_controls : ℕ → SpendingControls → CurrentUser → Action Card
  update_spending_controls card_id controls user = do
    managed_card card_id user
    service.update_spending_controls processor ctx card_id user.id controls

-- The requests, each with its path and body.
pub data CardCall : Type 0 where
  issue : IssueCardRequest → CardCall
  read : (card_id : ℕ) → CardCall
  activate : (card_id : ℕ) → CardCall
  freeze : (card_id : ℕ) → CardCall
  unfreeze : (card_id : ℕ) → CardCall
  cancel : (card_id : ℕ) → CardCall
  update : (card_id : ℕ) → SpendingControls → CardCall

abbrev pub managers : List String
managers = "sponsor" ∷ "admin" ∷ "ops_agent" ∷ []

module _ (processor : Processor) (ctx : Context) where
  -- The route of a request with its `require_roles`.
  unfoldable pub handle_card : CardCall → CurrentUser → Action Card
  unfolding require_roles
  handle_card (issue body) = guarded ("sponsor" ∷ []) (issue_card processor ctx body)
  handle_card (read card_id) = get_card card_id
  handle_card (activate card_id) =
      guarded ("admin" ∷ "ops_agent" ∷ []) (activate_card processor ctx card_id)
  handle_card (freeze card_id) = guarded managers (freeze_card processor ctx card_id)
  handle_card (unfreeze card_id) = guarded managers (unfreeze_card processor ctx card_id)
  handle_card (cancel card_id) = guarded managers (cancel_card processor ctx card_id)
  handle_card (update card_id controls) =
      guarded managers (update_spending_controls processor ctx card_id controls)
