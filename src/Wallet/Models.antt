-- ===== src/Wallet/Models.antt =====
-- The enumerations and rows of app/modules/wallet/models.py. An id (a UUID) is a number, a time is
-- a number of seconds, and a rate is a number of millionths. The columns that no modelled
-- operation reads are left out: the ids of ledger entries, bank payments and card payments, and
-- `updated_at`.
use ufirst_backend.Base.{ℕ, String, Option, Bool, ◌==◌}
use ufirst_backend.Base.Int.{ℤ}

pub data WalletStatus : Type 0 where
  active frozen closed : WalletStatus

pub data EntryType : Type 0 where
  credit debit : EntryType

pub data PaymentMethod : Type 0 where
  open_banking card ach mobile_money : PaymentMethod

pub data PaymentState : Type 0 where
  initiated : PaymentState
  awaiting_authorization : PaymentState
  authorizing : PaymentState
  awaiting_settlement : PaymentState
  completed : PaymentState
  failed : PaymentState
  expired : PaymentState
  cancelled : PaymentState

-- The place of a member in its enumeration; two members are equal if their places are.
abbrev pub method_index : PaymentMethod → ℕ
method_index PaymentMethod.open_banking = 0
method_index PaymentMethod.card = 1
method_index PaymentMethod.ach = 2
method_index PaymentMethod.mobile_money = 3

abbrev pub state_index : PaymentState → ℕ
state_index PaymentState.initiated = 0
state_index PaymentState.awaiting_authorization = 1
state_index PaymentState.authorizing = 2
state_index PaymentState.awaiting_settlement = 3
state_index PaymentState.completed = 4
state_index PaymentState.failed = 5
state_index PaymentState.expired = 6
state_index PaymentState.cancelled = 7

abbrev pub method_eq : PaymentMethod → PaymentMethod → Bool
method_eq a b = method_index a == method_index b

abbrev pub state_eq : PaymentState → PaymentState → Bool
state_eq a b = state_index a == state_index b

abbrev pub wallet_status_index : WalletStatus → ℕ
wallet_status_index WalletStatus.active = 0
wallet_status_index WalletStatus.frozen = 1
wallet_status_index WalletStatus.closed = 2

abbrev pub wallet_status_eq : WalletStatus → WalletStatus → Bool
wallet_status_eq a b = wallet_status_index a == wallet_status_index b

pub record Wallet : Type 0 where
  pub id : ℕ
  pub owner_id : ℕ
  pub currency : String
  pub available_balance : ℤ
  pub reserved_balance : ℤ
  pub status : WalletStatus

pub record LedgerEntry : Type 0 where
  pub wallet_id : ℕ
  pub entry_type : EntryType
  pub amount : ℤ
  pub currency : String
  pub balance_after : ℤ
  pub reference_type : String
  pub reference_id : ℕ
  pub description : Option String
  pub created_at : ℕ

pub record FundingTransfer : Type 0 where
  pub id : ℕ
  pub sponsor_id : ℕ
  pub wallet_id : ℕ
  pub payment_method : PaymentMethod
  pub payment_state : PaymentState
  pub payment_state_changed_at : ℕ
  pub source_amount : ℤ
  pub source_currency : String
  pub fx_rate : ℕ
  pub fx_rate_locked_until : Option ℕ
  pub dest_amount : ℤ
  pub dest_currency : String
  pub fee_amount : ℤ
  pub idempotency_key : String
  pub external_payment_ref : Option String
  pub failure_reason : Option String
  pub created_at : ℕ

pub record OpenBankingPayment : Type 0 where
  pub funding_transfer_id : ℕ
  pub aggregator : String
  pub aggregator_payment_id : String
  pub auth_link : String
  pub bank_status : Option String
  pub failure_reason : Option String
  pub webhook_received_at : Option ℕ

pub record CardPayment : Type 0 where
  pub funding_transfer_id : ℕ
  pub stripe_payment_intent_id : String
  pub auth_link : String
  pub card_last4 : Option String
  pub card_brand : Option String
  pub fee_amount : ℤ

pub data BankConnectionStatus : Type 0 where
  active revoked expired : BankConnectionStatus

abbrev pub connection_status_index : BankConnectionStatus → ℕ
connection_status_index BankConnectionStatus.active = 0
connection_status_index BankConnectionStatus.revoked = 1
connection_status_index BankConnectionStatus.expired = 2

abbrev pub connection_status_eq : BankConnectionStatus → BankConnectionStatus → Bool
connection_status_eq a b = connection_status_index a == connection_status_index b

-- The account identifier is encrypted bytes, here a text.
pub record SponsorBankConnection : Type 0 where
  pub id : ℕ
  pub sponsor_id : ℕ
  pub aggregator : String
  pub external_account_id : String
  pub account_identifier_encrypted : String
  pub account_holder_name : String
  pub provider_id : String
  pub provider_display_name : String
  pub currency : String
  pub consent_id : String
  pub consent_expires_at : Option ℕ
  pub status : BankConnectionStatus
