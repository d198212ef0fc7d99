-- ===== src/Tests/Data.antt =====
-- A small database: a wallet with a card, a hold on it, and a transfer that awaits its settlement.
use ufirst_backend.Base.{none, some, [], ◌∷◌}
use ufirst_backend.Base.Int.{ℤ, pos}
use ufirst_backend.Db.{Db, Context}
use ufirst_backend.Card.Models.{Card, CardStatus}
use ufirst_backend.Wallet.Models.{
  Wallet, WalletStatus, EntryType, LedgerEntry, FundingTransfer, PaymentMethod, PaymentState,
}
use ufirst_backend.Wallet.Repository.{FundingRequest}
use ufirst_backend.Transaction.Models.{
  Authorization, AuthorizationStatus, AuthorizationPayload, ClearingPayload,
}

abbrev pub ctx : Context
ctx = record { now = 1_000; new_id = 90 }

abbrev pub later : Context
later = record { now = 2_000; new_id = 91 }

abbrev pub ama : Wallet
ama = record {
  id = 1;
  owner_id = 7;
  currency = "GHS";
  available_balance = pos 700;
  reserved_balance = pos 300;
  status = WalletStatus.active;
}

abbrev opening : LedgerEntry
opening = record {
  wallet_id = 1;
  entry_type = EntryType.credit;
  amount = pos 1_000;
  currency = "GHS";
  balance_after = pos 1_000;
  reference_type = "funding_transfer";
  reference_id = 20;
  description = none;
  created_at = 500;
}

abbrev pub request : FundingRequest
request = record {
  wallet_id = 1;
  sponsor_id = 9;
  payment_method = PaymentMethod.card;
  source_amount = pos 100;
  source_currency = "GBP";
  dest_amount = pos 500;
  dest_currency = "GHS";
  fx_rate = 15_000_000;
  fx_rate_locked_until = none;
  fee_amount = pos 2;
  idempotency_key = "march";
}

abbrev pub gift : FundingTransfer
gift = record {
  id = 21;
  sponsor_id = 9;
  wallet_id = 1;
  payment_method = PaymentMethod.open_banking;
  payment_state = PaymentState.awaiting_settlement;
  payment_state_changed_at = 600;
  source_amount = pos 100;
  source_currency = "GBP";
  fx_rate = 15_000_000;
  fx_rate_locked_until = none;
  dest_amount = pos 500;
  dest_currency = "GHS";
  fee_amount = pos 2;
  idempotency_key = "february";
  external_payment_ref = none;
  failure_reason = none;
  created_at = 550;
}

abbrev pub card : Card
card = record {
  id = 5;
  wallet_id = 1;
  owner_id = 7;
  processor_token = "tok";
  card_program_id = "ufirst_prepaid_v1";
  status = CardStatus.active;
  spending_controls = none;
  issued_at = some 400;
  expires_at = some 9_000;
  created_at = 400;
}

abbrev pub hold : Authorization
hold = record {
  id = 31;
  card_id = 5;
  wallet_id = 1;
  merchant_name = "Makola";
  merchant_category_code = none;
  amount = pos 300;
  currency = "GHS";
  status = AuthorizationStatus.authorized;
  processor_auth_ref = "ref-1";
  decline_reason = none;
  authorized_at = 800;
}

abbrev pub database : Db
database = record {
  wallets = ama ∷ [];
  ledger_entries = opening ∷ [];
  funding_transfers = gift ∷ [];
  open_banking_payments = [];
  card_payments = [];
  bank_connections = [];
  cards = card ∷ [];
  card_events = [];
  authorizations = hold ∷ [];
  clearings = [];
  disputes = [];
  users = [];
  kyc_submissions = [];
  links = [];
  published = [];
}

abbrev pub payment : AuthorizationPayload
payment = record {
  processor_auth_ref = "ref-2";
  card_token = "tok";
  merchant_name = "Osu";
  merchant_category_code = none;
  amount = pos 50;
  currency = "GHS";
}

abbrev pub clearing_of : ℤ → ClearingPayload
clearing_of amount = record {
  processor_auth_ref = "ref-1";
  processor_clearing_ref = none;
  cleared_amount = amount;
  cleared_currency = "GHS";
}
