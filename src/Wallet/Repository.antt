-- ===== src/Wallet/Repository.antt =====
-- The queries and updates of app/modules/wallet/repository.py. The session hands out one object
-- for a row, and `flush` writes it: so an update returns the changed object, and replaces the row
-- of its id. An insert raises what the unique constraints of the table make PostgreSQL raise.
use ufirst_backend.Base.{
  if◌then◌else◌, [], leb, ℕ, String, Option, none, some, List, ◌∷◌, Bool, ◌&&◌, ◌||◌, ◌==◌, str_eq,
  is_some,
}
use ufirst_backend.Base.Int.{ℤ, pos, ◌+ℤ◌, ◌-ℤ◌}
use ufirst_backend.Base.Table.{get, find, filter, replace, take, drop}
use ufirst_backend.Core.Errors.{integrity_error, multiple_results_found}
use ufirst_backend.Db.{Context, Action, pure, raise, gets, modify, raise_if, ◌>>=◌, ◌>>◌}
use ufirst_backend.Wallet.Models.{
  Wallet, WalletStatus, EntryType, LedgerEntry, FundingTransfer, PaymentMethod, PaymentState,
}

abbrev pub wallet_key : Wallet → ℕ
wallet_key w = w.id

abbrev pub transfer_key : FundingTransfer → ℕ
transfer_key t = t.id

-- Wallets.

abbrev pub get_wallet : ℕ → Action (Option Wallet)
get_wallet wallet_id = gets λ db. get wallet_key wallet_id db.wallets

abbrev pub get_wallet_by_owner : ℕ → Action (Option Wallet)
get_wallet_by_owner owner_id = gets λ db. find (λ w. w.owner_id == owner_id) db.wallets

-- `flush` after a change of a wallet
abbrev pub flush_wallet : Wallet → Action (Unit {0})
flush_wallet w = modify λ db. record db { wallets = replace wallet_key w db.wallets }

abbrev pub append_entry : LedgerEntry → Action (Unit {0})
append_entry e = modify λ db. record db { ledger_entries = e ∷ db.ledger_entries }

abbrev pub create_wallet : Context → ℕ → String → Action Wallet
create_wallet ctx owner_id currency = do
  same_owner ← get_wallet_by_owner owner_id
  same_id ← get_wallet ctx.new_id
  raise_if (is_some same_owner || is_some same_id) integrity_error
  let wallet : Wallet = record {
    id = ctx.new_id;
    owner_id = owner_id;
    currency = currency;
    available_balance = pos 0;
    reserved_balance = pos 0;
    status = WalletStatus.active;
  }
  modify λ db. record db { wallets = wallet ∷ db.wallets }
  pure wallet

module _ (ctx : Context) (wallet : Wallet) (amount : ℤ) (reference_type : String)
    (reference_id : ℕ) where
  abbrev ledger_entry : EntryType → Wallet → Option String → LedgerEntry
  ledger_entry entry_type changed description = record {
    wallet_id = changed.id;
    entry_type = entry_type;
    amount = amount;
    currency = changed.currency;
    balance_after = changed.available_balance;
    reference_type = reference_type;
    reference_id = reference_id;
    description = description;
    created_at = ctx.now;
  }

  unfoldable pub credit_wallet : Option String → Action Wallet
  credit_wallet description = do
    let changed : Wallet = record wallet { available_balance = wallet.available_balance +ℤ amount }
    append_entry (ledger_entry EntryType.credit changed description)
    flush_wallet changed
    pure changed

  unfoldable pub debit_wallet : Option String → Action Wallet
  debit_wallet description = do
    let changed : Wallet = record wallet { available_balance = wallet.available_balance -ℤ amount }
    append_entry (ledger_entry EntryType.debit changed description)
    flush_wallet changed
    pure changed

  -- The hold is not in the ledger.
  unfoldable pub reserve_balance : Action Wallet
  reserve_balance = do
    let changed : Wallet = record wallet {
      available_balance = wallet.available_balance -ℤ amount;
      reserved_balance = wallet.reserved_balance +ℤ amount;
    }
    flush_wallet changed
    pure changed

  unfoldable pub release_reserve : Action Wallet
  release_reserve = do
    let changed : Wallet = record wallet {
      reserved_balance = wallet.reserved_balance -ℤ amount;
      available_balance = wallet.available_balance +ℤ amount;
    }
    flush_wallet changed
    pure changed

  unfoldable pub settle_reserve : Option String → Action Wallet
  settle_reserve description = do
    let changed : Wallet = record wallet { reserved_balance = wallet.reserved_balance -ℤ amount }
    append_entry (ledger_entry EntryType.debit changed description)
    flush_wallet changed
    pure changed

-- `order_by(created_at.desc())`; of entries with one time stamp the one that was inserted last
-- comes first.
abbrev insert_by_time : LedgerEntry → List LedgerEntry → List LedgerEntry
insert_by_time e [] = e ∷ []
insert_by_time e (x ∷ xs) =
    let rest = insert_by_time e xs in if leb x.created_at e.created_at then e ∷ x ∷ xs else x ∷ rest

abbrev newest_first : List LedgerEntry → List LedgerEntry
newest_first [] = []
newest_first (e ∷ es) = insert_by_time e (newest_first es)

-- With `limit(limit).offset(offset)`.
abbrev pub list_ledger_entries : ℕ → ℕ → ℕ → Action (List LedgerEntry)
list_ledger_entries wallet_id limit offset = gets λ db.
    take limit
      (drop offset (newest_first (filter (λ e. e.wallet_id == wallet_id) db.ledger_entries)))

-- Funding transfers.

abbrev pub get_funding_transfer : ℕ → Action (Option FundingTransfer)
get_funding_transfer transfer_id = gets λ db. get transfer_key transfer_id db.funding_transfers

abbrev pub has_key : ℕ → String → FundingTransfer → Bool
has_key sponsor_id idempotency_key t =
    t.sponsor_id == sponsor_id && str_eq t.idempotency_key idempotency_key

abbrev pub get_funding_transfer_by_idempotency_key : ℕ → String → Action (Option FundingTransfer)
get_funding_transfer_by_idempotency_key sponsor_id idempotency_key =
    gets λ db. find (has_key sponsor_id idempotency_key) db.funding_transfers

-- `scalar_one_or_none` raises when there are two rows or more.
abbrev pub scalar_one_or_none : {R : Type 0} → List R → Action (Option R)
scalar_one_or_none List.[] = pure none
scalar_one_or_none (r ∷ List.[]) = pure (some r)
scalar_one_or_none (r ∷ s ∷ rows) = raise multiple_results_found

-- Two sponsors may use the same key.
abbrev pub get_funding_transfer_by_idempotency_key_only : String → Action (Option FundingTransfer)
get_funding_transfer_by_idempotency_key_only idempotency_key db =
    scalar_one_or_none (filter (λ t. str_eq t.idempotency_key idempotency_key) db.funding_transfers)
      db

-- The arguments of `initiate_funding`, which `create_funding_transfer` takes too.
pub record FundingRequest : Type 0 where
  pub wallet_id : ℕ
  pub sponsor_id : ℕ
  pub payment_method : PaymentMethod
  pub source_amount : ℤ
  pub source_currency : String
  pub dest_amount : ℤ
  pub dest_currency : String
  pub fx_rate : ℕ
  pub fx_rate_locked_until : Option ℕ
  pub fee_amount : ℤ
  pub idempotency_key : String

abbrev pub new_transfer : Context → FundingRequest → FundingTransfer
new_transfer ctx r = record {
  id = ctx.new_id;
  sponsor_id = r.sponsor_id;
  wallet_id = r.wallet_id;
  payment_method = r.payment_method;
  payment_state = PaymentState.initiated;
  payment_state_changed_at = ctx.now;
  source_amount = r.source_amount;
  source_currency = r.source_currency;
  fx_rate = r.fx_rate;
  fx_rate_locked_until = r.fx_rate_locked_until;
  dest_amount = r.dest_amount;
  dest_currency = r.dest_currency;
  fee_amount = r.fee_amount;
  idempotency_key = r.idempotency_key;
  external_payment_ref = none;
  failure_reason = none;
  created_at = ctx.now;
}

abbrev pub create_funding_transfer : Context → FundingRequest → Action FundingTransfer
create_funding_transfer ctx r = do
  same_key ← get_funding_transfer_by_idempotency_key r.sponsor_id r.idempotency_key
  same_id ← get_funding_transfer ctx.new_id
  raise_if (is_some same_key || is_some same_id) integrity_error
  modify λ db. record db { funding_transfers = new_transfer ctx r ∷ db.funding_transfers }
  pure (new_transfer ctx r)

-- `if value is not None: field = value`
abbrev pub given_or {ℓ} : {A : Type ℓ} → Option A → Option A → Option A
given_or none old = old
given_or (some value) old = some value

unfoldable pub update_funding_transfer_state :
    Context
    → FundingTransfer
    → PaymentState
    → Option String
    → Option String
    → Action FundingTransfer
update_funding_transfer_state ctx transfer new_state external_payment_ref failure_reason = do
  let changed : FundingTransfer = record transfer {
    payment_state = new_state;
    payment_state_changed_at = ctx.now;
    external_payment_ref = given_or external_payment_ref transfer.external_payment_ref;
    failure_reason = given_or failure_reason transfer.failure_reason;
  }
  modify λ db. record db { funding_transfers = replace transfer_key changed db.funding_transfers }
  pure changed
