-- ===== src/Wallet/Outcomes.antt =====
-- What the operations of WalletService can end in: each raises and changes nothing, or leaves one
-- known database. A proof about an operation goes through its rule here.
use ufirst_backend.Base.{
  ℕ, ◌≡◌, inl, inr, ◌⊎◌, String, Option, none, some, ◌∷◌, ◌==◌, arith, Option-cases, Bool-cases,
  Bool,
}
use ufirst_backend.Base.Int.{ℤ, pos, ◌+ℤ◌, ◌-ℤ◌, ◌≤ℤ◌, ◌<ℤ◌, leb_ℤ, ltb_ℤ}
use ufirst_backend.Base.Table.{get, find, replace}
use ufirst_backend.Core.Errors.{
  Error, ok, err, validation_error, not_found, invalid_state_transition, insufficient_balance,
  integrity_error,
}
use ufirst_backend.Db.{Db, Context, Action, Event, wallet}
use ufirst_backend.Wallet.Events.{wallet_created, wallet_debited}
use ufirst_backend.Wallet.Models.{Wallet, WalletStatus, LedgerEntry, EntryType, wallet_status_eq}
use ufirst_backend.Wallet.Repository.{wallet_key}
use ufirst_backend.Wallet.Service.{
  create_wallet, debit_wallet, reserve_balance, release_reserve, settle_reserve, spendable_wallet,
  reserving_wallet,
}

-- A call of `m` on `db` raises and leaves the database alone.
abbrev pub Refuses : {A : Type 0} → Action A → Db → Type 0
Refuses {A} m db = (e : Error) × (m db ≡ (err e, db))

-- The wallet that `debit_wallet` and `reserve_balance` work on.
pub record Spends (wallet_id : ℕ) (amount : ℤ) (db : Db) (w : Wallet) : Type 0 where
  pub found : get wallet_key wallet_id db.wallets ≡ some w
  pub active : w.status ≡ WalletStatus.active
  pub positive : pos 0 <ℤ amount
  pub covered : amount ≤ℤ w.available_balance

-- The wallet that `release_reserve` and `settle_reserve` work on.
pub record Holds (wallet_id : ℕ) (amount : ℤ) (db : Db) (w : Wallet) : Type 0 where
  pub found : get wallet_key wallet_id db.wallets ≡ some w
  pub held : amount ≤ℤ w.reserved_balance

spendable_outcome :
    (wallet_id : ℕ) (amount : ℤ) (db : Db)
    → Refuses (spendable_wallet wallet_id amount) db
      ⊎ ((w : Wallet) × (spendable_wallet wallet_id amount db ≡ (ok w, db))
          × Spends wallet_id amount db w)
unfolding spendable_wallet
spendable_outcome wallet_id amount db = elim (Bool-cases (leb_ℤ amount (pos 0))) [
  | inl bad ↦ inl (validation_error, ground arith)
  | inr good ↦ elim (Option-cases (get wallet_key wallet_id db.wallets)) [
    | inl missing ↦ inl (not_found, ground arith)
    | inr (w, e) ↦ elim (Bool-cases (wallet_status_eq w.status WalletStatus.active)) [
      | inr inactive ↦ inl (invalid_state_transition, ground arith)
      | inl active ↦ elim (Bool-cases (ltb_ℤ w.available_balance amount)) [
        | inl short ↦ inl (insufficient_balance, ground arith)
        | inr covered ↦ inr (w, ground arith, ground arith)
      ]
    ]
  ]
]

reserving_outcome :
    (wallet_id : ℕ) (amount : ℤ) (db : Db)
    → Refuses (reserving_wallet wallet_id amount) db
      ⊎ ((w : Wallet) × (reserving_wallet wallet_id amount db ≡ (ok w, db))
          × Holds wallet_id amount db w)
unfolding reserving_wallet
reserving_outcome wallet_id amount db = elim (Option-cases (get wallet_key wallet_id db.wallets)) [
  | inl missing ↦ inl (not_found, ground arith)
  | inr (w, e) ↦ elim (Bool-cases (ltb_ℤ w.reserved_balance amount)) [
    | inl short ↦ inl (validation_error, ground arith)
    | inr held ↦ inr (w, ground arith, ground arith)
  ]
]

-- The database with one wallet changed.
abbrev pub with_wallet : Wallet → Db → Db
with_wallet w db = record db { wallets = replace wallet_key w db.wallets }

-- The database with one wallet changed and one entry more.
abbrev pub posted : LedgerEntry → Wallet → Db → Db
posted e w db = record db {
  ledger_entries = e ∷ db.ledger_entries;
  wallets = replace wallet_key w db.wallets;
}

abbrev pub told : Event → Db → Db
told e db = record db { published = e ∷ db.published }

abbrev pub reserved : ℤ → Wallet → Wallet
reserved amount w = record w {
  available_balance = w.available_balance -ℤ amount;
  reserved_balance = w.reserved_balance +ℤ amount;
}

abbrev pub released : ℤ → Wallet → Wallet
released amount w = record w {
  available_balance = w.available_balance +ℤ amount;
  reserved_balance = w.reserved_balance -ℤ amount;
}

abbrev pub settled : ℤ → Wallet → Wallet
settled amount w = record w { reserved_balance = w.reserved_balance -ℤ amount }

abbrev pub debited : ℤ → Wallet → Wallet
debited amount w = record w { available_balance = w.available_balance -ℤ amount }

abbrev pub credited : ℤ → Wallet → Wallet
credited amount w = record w { available_balance = w.available_balance +ℤ amount }

-- The entry for a wallet as the operation leaves it.
abbrev pub entry : Context → ℤ → String → ℕ → EntryType → Wallet → Option String → LedgerEntry
entry ctx amount rt rid entry_type changed description = record {
  wallet_id = changed.id;
  entry_type = entry_type;
  amount = amount;
  currency = changed.currency;
  balance_after = changed.available_balance;
  reference_type = rt;
  reference_id = rid;
  description = description;
  created_at = ctx.now;
}

module _ (ctx : Context) (wallet_id : ℕ) (amount : ℤ) (rt : String) (rid : ℕ) (db : Db) where
  pub reserve_outcome :
      Refuses (reserve_balance ctx wallet_id amount rt rid) db
      ⊎ ((w : Wallet) × (reserve_balance ctx wallet_id amount rt rid db
            ≡ (ok (reserved amount w), with_wallet (reserved amount w) db))
          × Spends wallet_id amount db w)
  unfolding reserve_balance
  reserve_outcome = elim (spendable_outcome wallet_id amount db) [
    | inl (e, raised) ↦ inl (e, ground arith)
    | inr (w, found, facts) ↦ inr (w, ground arith, facts)
  ]

  pub release_outcome :
      Refuses (release_reserve ctx wallet_id amount rt rid) db
      ⊎ ((w : Wallet) × (release_reserve ctx wallet_id amount rt rid db
            ≡ (ok (released amount w), with_wallet (released amount w) db))
          × Holds wallet_id amount db w)
  unfolding release_reserve
  release_outcome = elim (reserving_outcome wallet_id amount db) [
    | inl (e, raised) ↦ inl (e, ground arith)
    | inr (w, found, facts) ↦ inr (w, ground arith, facts)
  ]

  pub settle_outcome :
      (d : Option String)
      → Refuses (settle_reserve ctx wallet_id amount rt rid d) db
        ⊎ ((w : Wallet) × (settle_reserve ctx wallet_id amount rt rid d db ≡ (
          ok (settled amount w),
          posted
              (entry ctx amount rt rid EntryType.debit (settled amount w) d)
              (settled amount w)
              db,
        ))
            × Holds wallet_id amount db w)
  unfolding settle_reserve
  settle_outcome d = elim (reserving_outcome wallet_id amount db) [
    | inl (e, raised) ↦ inl (e, ground arith)
    | inr (w, found, facts) ↦ inr (w, ground arith, facts)
  ]

  pub debit_outcome :
      (d : Option String)
      → Refuses (debit_wallet ctx wallet_id amount rt rid d) db
        ⊎ ((w : Wallet) × (debit_wallet ctx wallet_id amount rt rid d db ≡ (
          ok (debited amount w),
          told (wallet (wallet_debited wallet_id amount w.currency rt rid)) (
              posted
                (entry ctx amount rt rid EntryType.debit (debited amount w) d)
                (debited amount w)
                db),
        ))
            × Spends wallet_id amount db w)
  unfolding debit_wallet
  debit_outcome d = elim (spendable_outcome wallet_id amount db) [
    | inl (e, raised) ↦ inl (e, ground arith)
    | inr (w, found, facts) ↦ inr (w, ground arith, facts)
  ]

abbrev pub opened : Context → ℕ → String → Wallet
opened ctx owner_id currency = record {
  id = ctx.new_id;
  owner_id = owner_id;
  currency = currency;
  available_balance = pos 0;
  reserved_balance = pos 0;
  status = WalletStatus.active;
}

abbrev pub owned_by : ℕ → Wallet → Bool
owned_by owner_id w = w.owner_id == owner_id

-- A call of `create_wallet` raises, finds the wallet of the owner, or opens an empty one.
pub create_outcome :
    (ctx : Context) (owner_id : ℕ) (currency : String) (db : Db)
    → Refuses (create_wallet ctx owner_id currency) db
      ⊎ ((w : Wallet) × (create_wallet ctx owner_id currency db ≡ (ok w, db))
          × (find (owned_by owner_id) db.wallets ≡ some w))
      ⊎ ((create_wallet ctx owner_id currency db ≡ (
        ok (opened ctx owner_id currency),
        told
            (wallet (wallet_created ctx.new_id owner_id currency))
            (record db { wallets = opened ctx owner_id currency ∷ db.wallets }),
      ))
          × (find (owned_by owner_id) db.wallets ≡ none)
          × (get wallet_key ctx.new_id db.wallets ≡ none))
unfolding create_wallet
create_outcome ctx owner_id currency db =
    elim (Option-cases (find (owned_by owner_id) db.wallets)) [
      | inr (w, e) ↦ inr (inl (w, ground arith, e))
      | inl absent ↦ elim (Option-cases (get wallet_key ctx.new_id db.wallets)) [
        | inr (w, taken) ↦ inl (integrity_error, ground arith)
        | inl free ↦ inr (inr (ground arith, absent, free))
      ]
    ]
