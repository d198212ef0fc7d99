-- ===== src/Wallet/Service.antt =====
-- The operations of `WalletService` on balances (app/modules/wallet/service.py). A response is the
-- row that it is made from. The transfers are in Wallet/Funding.
use ufirst_backend.Base.{ℕ, String, Option, none, some, List, not}
use ufirst_backend.Base.Int.{ℤ, pos, ltb_ℤ, leb_ℤ}
use ufirst_backend.Core.Errors.{
  validation_error, not_found, invalid_state_transition, insufficient_balance,
}
use ufirst_backend.Db.{Context, Action, pure, or_raise, raise_if, publish, wallet, ◌>>=◌, ◌>>◌}
use ufirst_backend.Wallet.Models.{Wallet, WalletStatus, LedgerEntry, wallet_status_eq}
use ufirst_backend.Wallet.Events.{wallet_created, wallet_debited}
use ufirst_backend.Wallet.Repository as repo

unfoldable pub get_wallet : ℕ → Action Wallet
get_wallet wallet_id = do or_raise (← repo.get_wallet wallet_id) not_found

unfoldable pub get_wallet_by_owner : ℕ → Action Wallet
get_wallet_by_owner owner_id = do or_raise (← repo.get_wallet_by_owner owner_id) not_found

abbrev create_if_absent : Context → ℕ → String → Option Wallet → Action Wallet
create_if_absent ctx owner_id currency (some existing) = pure existing
create_if_absent ctx owner_id currency none = do
  w ← repo.create_wallet ctx owner_id currency
  publish (wallet (wallet_created w.id owner_id currency))
  pure w

unfoldable pub create_wallet : Context → ℕ → String → Action Wallet
create_wallet ctx owner_id currency = do
  existing ← repo.get_wallet_by_owner owner_id
  create_if_absent ctx owner_id currency existing

unfoldable pub get_ledger : ℕ → ℕ → ℕ → Action (List LedgerEntry)
get_ledger wallet_id limit offset = do
  or_raise (← repo.get_wallet wallet_id) not_found
  repo.list_ledger_entries wallet_id limit offset

-- The checks that `debit_wallet` and `reserve_balance` begin with.
unfoldable pub spendable_wallet : ℕ → ℤ → Action Wallet
spendable_wallet wallet_id amount = do
  raise_if (leb_ℤ amount (pos 0)) validation_error
  w ← or_raise (← repo.get_wallet wallet_id) not_found
  raise_if (not (wallet_status_eq w.status WalletStatus.active)) invalid_state_transition
  raise_if (ltb_ℤ w.available_balance amount) insufficient_balance
  pure w

-- The checks that `release_reserve` and `settle_reserve` begin with.
unfoldable pub reserving_wallet : ℕ → ℤ → Action Wallet
reserving_wallet wallet_id amount = do
  w ← or_raise (← repo.get_wallet wallet_id) not_found
  raise_if (ltb_ℤ w.reserved_balance amount) validation_error
  pure w

module _ (ctx : Context) (wallet_id : ℕ) (amount : ℤ) (reference_type : String)
    (reference_id : ℕ) where
  unfoldable pub debit_wallet : Option String → Action Wallet
  unfolding repo.debit_wallet
  debit_wallet description = do
    w ← spendable_wallet wallet_id amount
    changed ← repo.debit_wallet ctx w amount reference_type reference_id description
    publish (wallet (wallet_debited wallet_id amount w.currency reference_type reference_id))
    pure changed

  unfoldable pub reserve_balance : Action Wallet
  unfolding repo.reserve_balance
  reserve_balance = do
    w ← spendable_wallet wallet_id amount
    repo.reserve_balance ctx w amount reference_type reference_id

  unfoldable pub release_reserve : Action Wallet
  unfolding repo.release_reserve
  release_reserve = do
    w ← reserving_wallet wallet_id amount
    repo.release_reserve ctx w amount reference_type reference_id

  unfoldable pub settle_reserve : Option String → Action Wallet
  unfolding repo.settle_reserve
  settle_reserve description = do
    w ← reserving_wallet wallet_id amount
    repo.settle_reserve ctx w amount reference_type reference_id description
