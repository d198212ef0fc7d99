-- ===== src/Wallet/Solvency.antt =====
-- No operation makes a balance negative, if the amounts of transfers, and of the holds that are
-- released, are not negative. `release_reserve` itself does not check the sign of its amount.
use ufirst_backend.Base.{ℕ, ◌≡◌, inl, inr, String, Option, some, arith}
use ufirst_backend.Base.Int.{ℤ, pos, ◌≤ℤ◌, int_laws}
use ufirst_backend.Base.Table.{get, All, All-find}
use ufirst_backend.Db.{Db, Context}
use ufirst_backend.Wallet.Models.{Wallet}
use ufirst_backend.Wallet.Repository.{wallet_key}
use ufirst_backend.Wallet.Ledger.{IsSolvent, IsSolvent-replace}
use ufirst_backend.Wallet.Outcomes.{
  create_outcome, reserve_outcome, release_outcome, settle_outcome, debit_outcome, reserved,
  released, settled, debited, credited,
}
use ufirst_backend.Wallet.Service.{
  create_wallet, debit_wallet, reserve_balance, release_reserve, settle_reserve,
}
use ufirst_backend.Wallet.Funding.{credit_from_funding}
use ufirst_backend.Wallet.Funding.Outcomes.{credit_outcome}

-- The amounts that transfers pay out are not negative.
abbrev pub IsPayable : Db → Type 0
IsPayable db = All (λ t. pos 0 ≤ℤ t.dest_amount) db.funding_transfers

row-IsSolvent :
    (db : Db) (k : ℕ) (w : Wallet)
    → IsSolvent db
    → get wallet_key k db.wallets ≡ some w
    → (pos 0 ≤ℤ w.available_balance) × (pos 0 ≤ℤ w.reserved_balance)
row-IsSolvent db k w h found = All-find _ _ db.wallets w h found

pub create_wallet-IsSolvent :
    (ctx : Context) (owner_id : ℕ) (currency : String) (db : Db)
    → IsSolvent db
    → IsSolvent (create_wallet ctx owner_id currency db).1
create_wallet-IsSolvent ctx owner_id currency db h =
    elim (create_outcome ctx owner_id currency db) [
      | inl (e, r) ↦ rw r h
      | inr (inl (w, r, _)) ↦ rw r h
      | inr (inr (r, absent, free)) ↦ rw r ((omega arith, omega arith), h)
    ]

module _ (ctx : Context) (wallet_id : ℕ) (amount : ℤ) (rt : String) (rid : ℕ) (db : Db) where
  -- No reservation, of whatever amount, makes a balance negative, if none is.
  pub reserve_balance-IsSolvent :
      IsSolvent db → IsSolvent (reserve_balance ctx wallet_id amount rt rid db).1
  reserve_balance-IsSolvent h = elim (reserve_outcome ctx wallet_id amount rt rid db) [
    | inl (e, r) ↦ rw r h
    | inr (w, r, f) ↦
        let old = row-IsSolvent db wallet_id w h f.found in
        rw r (IsSolvent-replace db (reserved amount w) (omega int_laws) (omega int_laws) h)
  ]

  -- No release of an amount that is not negative makes a balance negative, if none is.
  pub release_reserve-IsSolvent :
      pos 0 ≤ℤ amount → IsSolvent db → IsSolvent (release_reserve ctx wallet_id amount rt rid db).1
  release_reserve-IsSolvent sign h = elim (release_outcome ctx wallet_id amount rt rid db) [
    | inl (e, r) ↦ rw r h
    | inr (w, r, f) ↦
        let old = row-IsSolvent db wallet_id w h f.found in
        rw r (IsSolvent-replace db (released amount w) (omega int_laws) (omega int_laws) h)
  ]

  -- No settlement, of whatever amount, makes a balance negative, if none is.
  pub settle_reserve-IsSolvent :
      (d : Option String)
      → IsSolvent db
      → IsSolvent (settle_reserve ctx wallet_id amount rt rid d db).1
  settle_reserve-IsSolvent d h = elim (settle_outcome ctx wallet_id amount rt rid db d) [
    | inl (e, r) ↦ rw r h
    | inr (w, r, f) ↦
        let old = row-IsSolvent db wallet_id w h f.found in
        rw r (IsSolvent-replace db (settled amount w) old.0 (omega int_laws) h)
  ]

  -- No debit, of whatever amount, makes a balance negative, if none is.
  pub debit_wallet-IsSolvent :
      (d : Option String)
      → IsSolvent db
      → IsSolvent (debit_wallet ctx wallet_id amount rt rid d db).1
  debit_wallet-IsSolvent d h = elim (debit_outcome ctx wallet_id amount rt rid db d) [
    | inl (e, r) ↦ rw r h
    | inr (w, r, f) ↦
        let old = row-IsSolvent db wallet_id w h f.found in
        rw r (IsSolvent-replace db (debited amount w) (omega int_laws) old.1 h)
  ]

-- No credit of a transfer makes a balance negative, if none is and no transfer pays out a negative amount.
pub credit_from_funding-IsSolvent :
    (ctx : Context) (transfer_id : ℕ) (db : Db)
    → IsPayable db
    → IsSolvent db
    → IsSolvent (credit_from_funding ctx transfer_id db).1
credit_from_funding-IsSolvent ctx transfer_id db p h = elim (credit_outcome ctx transfer_id db) [
  | inl (e, r) ↦ rw r h
  | inr (t, w, r, here, _, found) ↦
      let old = row-IsSolvent db t.wallet_id w h found in
      let paid : pos 0 ≤ℤ t.dest_amount = All-find _ _ db.funding_transfers t p here in
      rw r (IsSolvent-replace db (credited t.dest_amount w) (omega int_laws) old.1 h)
]
