-- ===== src/Transaction/Models.antt =====
-- The enumerations and rows of app/modules/transaction/models.py, the payloads and responses of
-- app/modules/transaction/schemas.py, and the events of app/modules/transaction/events.py. Ids are
-- numbers, times are numbers of seconds; `created_at` and `updated_at` are left out.
use ufirst_backend.Base.{ℕ, String, Option, Bool, ◌==◌}
use ufirst_backend.Base.Int.{ℤ}

pub data AuthorizationStatus : Type 0 where
  authorized declined reversed cleared : AuthorizationStatus

-- The place of a member in its enumeration; two members are equal if their places are.
abbrev pub auth_status_index : AuthorizationStatus → ℕ
auth_status_index AuthorizationStatus.authorized = 0
auth_status_index AuthorizationStatus.declined = 1
auth_status_index AuthorizationStatus.reversed = 2
auth_status_index AuthorizationStatus.cleared = 3

abbrev pub auth_status_eq : AuthorizationStatus → AuthorizationStatus → Bool
auth_status_eq a b = auth_status_index a == auth_status_index b

-- The strings that `authorize` puts into `decline_reason` and into its response.
pub data DeclineReason : Type 0 where
  card_not_found : DeclineReason
  card_inactive : DeclineReason
  daily_limit_exceeded : DeclineReason
  category_not_allowed : DeclineReason
  merchant_not_allowed : DeclineReason
  wallet_not_found : DeclineReason
  insufficient_balance : DeclineReason
  reserve_failed : DeclineReason

pub data DisputeStatus : Type 0 where
  open_dispute investigating resolved : DisputeStatus

pub record Authorization : Type 0 where
  pub id : ℕ
  pub card_id : ℕ
  pub wallet_id : ℕ
  pub merchant_name : String
  pub merchant_category_code : Option String
  pub amount : ℤ
  pub currency : String
  pub status : AuthorizationStatus
  pub processor_auth_ref : String
  pub decline_reason : Option DeclineReason
  pub authorized_at : ℕ

pub record Clearing : Type 0 where
  pub id : ℕ
  pub authorization_id : ℕ
  pub cleared_amount : ℤ
  pub cleared_currency : String
  pub processor_clearing_ref : Option String
  pub cleared_at : ℕ

pub record Dispute : Type 0 where
  pub id : ℕ
  pub authorization_id : ℕ
  pub reason : String
  pub status : DisputeStatus
  pub opened_at : ℕ
  pub resolved_at : Option ℕ
  pub resolution : Option String

pub record AuthorizationPayload : Type 0 where
  pub processor_auth_ref : String
  pub card_token : String
  pub merchant_name : String
  pub merchant_category_code : Option String
  pub amount : ℤ
  pub currency : String

pub record ClearingPayload : Type 0 where
  pub processor_auth_ref : String
  pub processor_clearing_ref : Option String
  pub cleared_amount : ℤ
  pub cleared_currency : String

-- The strings "APPROVED" and "DECLINED" of the response.
pub data Verdict : Type 0 where
  approved refused : Verdict

pub record Decision : Type 0 where
  pub decision : Verdict
  pub reason : Option DeclineReason
  pub authorization_id : Option ℕ

pub data Event : Type 0 where
  transaction_authorized :
      (authorization_id card_id wallet_id : ℕ) (amount : ℤ) (currency merchant_name : String)
      → Event
  transaction_declined :
      (card_id wallet_id : ℕ) (amount : ℤ) (currency merchant_name : String)
      (reason : DeclineReason)
      → Event
  transaction_cleared :
      (authorization_id card_id wallet_id : ℕ) (cleared_amount : ℤ) (currency : String) → Event
  transaction_reversed :
      (authorization_id card_id wallet_id : ℕ) (amount : ℤ) (currency : String) → Event
