-- ===== src/Wallet/Books.antt =====
-- Every operation on a wallet keeps the books: after it, for every wallet, what can be spent and
-- what is held back are still what the ledger says.
use ufirst_backend.Base.{ℕ, ◌≡◌, inl, inr, String, Option, none, some, ◌∷◌, refl, ap, ◌∙◌}
use ufirst_backend.Base.Int.{ℤ, pos, ◌+ℤ◌, int_laws}
use ufirst_backend.Base.Table.{get, replace, get-key}
use ufirst_backend.Db.{Db, Context}
use ufirst_backend.Wallet.Models.{Wallet, LedgerEntry, EntryType, PaymentState}
use ufirst_backend.Wallet.Repository.{wallet_key}
use ufirst_backend.Wallet.Ledger.{
  IsReconciled, IsReconciled-move, IsReconciled-post, IsReferenced, IsReferenced-move,
  IsReferenced-post, ledger_balance-unknown, signed_amount, entries-insert,
}
use ufirst_backend.Wallet.Outcomes.{
  create_outcome, reserve_outcome, release_outcome, settle_outcome, debit_outcome, entry, reserved,
  released, settled, debited, credited,
}
use ufirst_backend.Wallet.Service.{
  create_wallet, debit_wallet, reserve_balance, release_reserve, settle_reserve,
}
use ufirst_backend.Wallet.Funding.{credit_from_funding, advance_funding_state, funding_description}
use ufirst_backend.Wallet.Funding.Outcomes.{credit_outcome, advance_outcome}

-- The balances agree with the ledger, and the ledger with the table of wallets.
abbrev pub IsBooked : Db → Type 0
IsBooked db = IsReconciled db × IsReferenced db

module _ (db : Db) (w changed : Wallet) (found : get wallet_key w.id db.wallets ≡ some w) where
  pub IsBooked-move :
      changed.id ≡ w.id
      → changed.available_balance +ℤ changed.reserved_balance
        ≡ w.available_balance +ℤ w.reserved_balance
      → IsBooked db
      → IsBooked (record db { wallets = replace wallet_key changed db.wallets })
  IsBooked-move same kept h = (
    IsReconciled-move db w changed (ap (λ i. get wallet_key i db.wallets) same ∙ found) kept h.0,
    IsReferenced-move db changed h.1,
  )

  pub IsBooked-post :
      (e : LedgerEntry)
      → changed.id ≡ w.id
      → e.wallet_id ≡ changed.id
      → changed.available_balance +ℤ changed.reserved_balance
        ≡ w.available_balance +ℤ w.reserved_balance +ℤ signed_amount e.entry_type e.amount
      → IsBooked db
      → IsBooked (record db {
        ledger_entries = e ∷ db.ledger_entries;
        wallets = replace wallet_key changed db.wallets;
      })
  IsBooked-post e same own moved h =
      let found' = ap (λ i. get wallet_key i db.wallets) same ∙ found in
      (
        IsReconciled-post db w changed found' e own moved h.0,
        IsReferenced-post db w changed e found' own h.1,
      )

-- A wallet without money and without entries is reconciled.
IsBooked-open :
    (db : Db) (w : Wallet)
    → w.available_balance ≡ pos 0
    → w.reserved_balance ≡ pos 0
    → get wallet_key w.id db.wallets ≡ none
    → IsBooked db
    → IsBooked (record db { wallets = w ∷ db.wallets })
IsBooked-open db w a r free h = (
  (
    rw (a, r, ledger_balance-unknown w.id db.wallets db.ledger_entries free h.1) (omega int_laws),
    h.0,
  ),
  entries-insert w db.wallets db.ledger_entries h.1,
)

pub create_wallet-IsBooked :
    (ctx : Context) (owner_id : ℕ) (currency : String) (db : Db)
    → IsBooked db
    → IsBooked (create_wallet ctx owner_id currency db).1
create_wallet-IsBooked ctx owner_id currency db h = elim (create_outcome ctx owner_id currency db) [
  | inl (e, r) ↦ rw r h
  | inr (inl (w, r, _)) ↦ rw r h
  | inr (inr (r, absent, free)) ↦ rw r (IsBooked-open db _ refl refl free h)
]

module _ (ctx : Context) (wallet_id : ℕ) (amount : ℤ) (rt : String) (rid : ℕ) (db : Db) where
  -- A reservation, made or refused, keeps the books: on every wallet, what can be spent and what is held back make up its credits less its debits, and every entry is of a wallet of the table.
  pub reserve_balance-IsBooked :
      IsBooked db → IsBooked (reserve_balance ctx wallet_id amount rt rid db).1
  reserve_balance-IsBooked h = elim (reserve_outcome ctx wallet_id amount rt rid db) [
    | inl (e, r) ↦ rw r h
    | inr (w, r, facts) ↦ rw r (
        IsBooked-move db w (reserved amount w)
          (get-key wallet_key wallet_id db.wallets w facts.found) refl (omega int_laws) h)
  ]

  -- A release, made or refused, keeps the books: on every wallet, what can be spent and what is held back make up its credits less its debits, and every entry is of a wallet of the table.
  pub release_reserve-IsBooked :
      IsBooked db → IsBooked (release_reserve ctx wallet_id amount rt rid db).1
  release_reserve-IsBooked h = elim (release_outcome ctx wallet_id amount rt rid db) [
    | inl (e, r) ↦ rw r h
    | inr (w, r, facts) ↦ rw r (
        IsBooked-move db w (released amount w)
          (get-key wallet_key wallet_id db.wallets w facts.found) refl (omega int_laws) h)
  ]

  -- A settlement, made or refused, keeps the books: what it takes from the reserve is the debit that it enters.
  pub settle_reserve-IsBooked :
      (d : Option String)
      → IsBooked db
      → IsBooked (settle_reserve ctx wallet_id amount rt rid d db).1
  settle_reserve-IsBooked d h = elim (settle_outcome ctx wallet_id amount rt rid db d) [
    | inl (e, r) ↦ rw r h
    | inr (w, r, facts) ↦ rw r (
        IsBooked-post db w (settled amount w)
          (get-key wallet_key wallet_id db.wallets w facts.found)
          (entry ctx amount rt rid EntryType.debit (settled amount w) d) refl refl (omega int_laws)
          h)
  ]

  -- A debit, made or refused, keeps the books: what it takes from the money that can be spent is the debit that it enters.
  pub debit_wallet-IsBooked :
      (d : Option String) → IsBooked db → IsBooked (debit_wallet ctx wallet_id amount rt rid d db).1
  debit_wallet-IsBooked d h = elim (debit_outcome ctx wallet_id amount rt rid db d) [
    | inl (e, r) ↦ rw r h
    | inr (w, r, facts) ↦ rw r (
        IsBooked-post db w (debited amount w)
          (get-key wallet_key wallet_id db.wallets w facts.found)
          (entry ctx amount rt rid EntryType.debit (debited amount w) d) refl refl (omega int_laws)
          h)
  ]

module _ (ctx : Context) (transfer_id : ℕ) (db : Db) where
  -- The credit of a transfer, made or refused, keeps the books: what it adds to the wallet is the credit that it enters.
  pub credit_from_funding-IsBooked :
      IsBooked db → IsBooked (credit_from_funding ctx transfer_id db).1
  credit_from_funding-IsBooked h = elim (credit_outcome ctx transfer_id db) [
    | inl (e, r) ↦ rw r h
    | inr (t, w, r, _, _, found) ↦ rw r (
        IsBooked-post db w (credited t.dest_amount w)
          (get-key wallet_key t.wallet_id db.wallets w found)
          (entry ctx t.dest_amount "funding_transfer" transfer_id EntryType.credit
            (credited t.dest_amount w) (some (funding_description t.payment_method)))
          refl refl (omega int_laws) h)
  ]

  pub advance_funding_state-IsBooked :
      (new_state : PaymentState) (ref reason : Option String)
      → IsBooked db
      → IsBooked (advance_funding_state ctx transfer_id new_state ref reason db).1
  advance_funding_state-IsBooked new_state ref reason h =
      elim (advance_outcome ctx transfer_id db new_state ref reason) [
        | inl (e, r) ↦ rw r h
        | inr (t, r, _, _) ↦ rw r h
      ]
