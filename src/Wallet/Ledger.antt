-- ===== src/Wallet/Ledger.antt =====
-- The books: what the ledger says that a wallet holds, against its two balances. The operations
-- are those of Wallet/Service and Wallet/Funding.
use ufirst_backend.Base.{
  ℕ, ◌≡◌, refl, true, is_some, none, ==_iff, some, List, [], ◌∷◌, ◌==◌, if◌then◌else◌, arith, ap,
  ◌∙◌,
}
use ufirst_backend.Base.Int.{ℤ, pos, ◌+ℤ◌, ◌-ℤ◌, ◌≤ℤ◌}
use ufirst_backend.Base.Table.{get, replace, All, All-replace, All-find, key-get}
use ufirst_backend.Db.{Db}
use ufirst_backend.Wallet.Models.{Wallet, LedgerEntry, EntryType}
use ufirst_backend.Wallet.Repository.{wallet_key}

-- What an entry adds to the wallet's money.
abbrev pub signed_amount : EntryType → ℤ → ℤ
signed_amount EntryType.credit amount = amount
signed_amount EntryType.debit amount = pos 0 -ℤ amount

-- The money of a wallet by the ledger: its credits less its debits.
abbrev pub ledger_balance : ℕ → List LedgerEntry → ℤ
ledger_balance wallet_id [] = pos 0
ledger_balance wallet_id (e ∷ entries) =
    if e.wallet_id == wallet_id
    then ledger_balance wallet_id entries +ℤ signed_amount e.entry_type e.amount
    else ledger_balance wallet_id entries

-- What can be spent and what is held back make up what the ledger says.
abbrev pub IsReconciled : Db → Type 0
IsReconciled db =
    All (λ w. w.available_balance +ℤ w.reserved_balance ≡ ledger_balance w.id db.ledger_entries)
      db.wallets

-- An entry belongs to a wallet of the table: the foreign key of `ledger_entries.wallet_id`.
abbrev pub IsReferenced : Db → Type 0
IsReferenced db =
    All (λ e. is_some (get wallet_key e.wallet_id db.wallets) ≡ true) db.ledger_entries

-- No balance is negative.
abbrev pub IsSolvent : Db → Type 0
IsSolvent db = All (λ w. (pos 0 ≤ℤ w.available_balance) × (pos 0 ≤ℤ w.reserved_balance)) db.wallets

module _ (db : Db) (w changed : Wallet)
    (found : get wallet_key changed.id db.wallets ≡ some w) where
  -- The row that is replaced was reconciled.
  booked :
      IsReconciled db
      → w.available_balance +ℤ w.reserved_balance ≡ ledger_balance changed.id db.ledger_entries
  booked h =
      All-find _ _ db.wallets w h found
      ∙ ap (λ i. ledger_balance i db.ledger_entries)
          (key-get wallet_key changed.id db.wallets w found)

  pub IsReconciled-move :
      changed.available_balance +ℤ changed.reserved_balance
        ≡ w.available_balance +ℤ w.reserved_balance
      → IsReconciled db
      → IsReconciled (record db { wallets = replace wallet_key changed db.wallets })
  IsReconciled-move moved h =
      All-replace _ _ wallet_key changed db.wallets (moved ∙ booked h) (λ x ne old. old) h

  pub IsReconciled-post :
      (e : LedgerEntry)
      → e.wallet_id ≡ changed.id
      → changed.available_balance +ℤ changed.reserved_balance
        ≡ w.available_balance +ℤ w.reserved_balance +ℤ signed_amount e.entry_type e.amount
      → IsReconciled db
      → IsReconciled (record db {
        ledger_entries = e ∷ db.ledger_entries;
        wallets = replace wallet_key changed db.wallets;
      })
  IsReconciled-post e own posted h =
      All-replace _ _ wallet_key changed db.wallets (ground (arith, booked h))
        (λ x ne old. ground arith) h

pub IsSolvent-replace :
    (db : Db) (changed : Wallet)
    → pos 0 ≤ℤ changed.available_balance
    → pos 0 ≤ℤ changed.reserved_balance
    → IsSolvent db
    → IsSolvent (record db { wallets = replace wallet_key changed db.wallets })
IsSolvent-replace db changed a r h =
    All-replace _ _ wallet_key changed db.wallets (a, r) (λ x ne old. old) h

-- A change of a row keeps the keys of the table.
is_some-replace :
    (k : ℕ) (w : Wallet) (ws : List Wallet)
    → is_some (get wallet_key k (replace wallet_key w ws)) ≡ is_some (get wallet_key k ws)
is_some-replace k w [] = refl
is_some-replace k w (x ∷ ws) = ground (arith, is_some-replace k w ws)

entries-replace :
    (w : Wallet) (ws : List Wallet) (es : List LedgerEntry)
    → All (λ e. is_some (get wallet_key e.wallet_id ws) ≡ true) es
    → All (λ e. is_some (get wallet_key e.wallet_id (replace wallet_key w ws)) ≡ true) es
entries-replace w ws [] h = tt
entries-replace w ws (e ∷ es) h =
    (is_some-replace e.wallet_id w ws ∙ h.0, entries-replace w ws es h.1)

pub IsReferenced-move :
    (db : Db) (changed : Wallet)
    → IsReferenced db
    → IsReferenced (record db { wallets = replace wallet_key changed db.wallets })
IsReferenced-move db changed h = entries-replace changed db.wallets db.ledger_entries h

pub IsReferenced-post :
    (db : Db) (w changed : Wallet) (e : LedgerEntry)
    → get wallet_key changed.id db.wallets ≡ some w
    → e.wallet_id ≡ changed.id
    → IsReferenced db
    → IsReferenced (record db {
      ledger_entries = e ∷ db.ledger_entries;
      wallets = replace wallet_key changed db.wallets;
    })
IsReferenced-post db w changed e found own h = (
  is_some-replace e.wallet_id changed db.wallets
      ∙ ap (λ i. is_some (get wallet_key i db.wallets)) own
      ∙ ap is_some found,
  entries-replace changed db.wallets db.ledger_entries h,
)

-- A wallet that is not in the table has no entries.
pub ledger_balance-unknown :
    (k : ℕ) (ws : List Wallet) (es : List LedgerEntry)
    → get wallet_key k ws ≡ none
    → All (λ e. is_some (get wallet_key e.wallet_id ws) ≡ true) es
    → ledger_balance k es ≡ pos 0
ledger_balance-unknown k ws [] absent h = refl
ledger_balance-unknown k ws (e ∷ es) absent h = ground (
  arith,
  ==_iff e.wallet_id k,
  ap (λ i. is_some (get wallet_key i ws)) {x = e.wallet_id} {y = k},
  ledger_balance-unknown k ws es absent h.1,
)

pub entries-insert :
    (w : Wallet) (ws : List Wallet) (es : List LedgerEntry)
    → All (λ e. is_some (get wallet_key e.wallet_id ws) ≡ true) es
    → All (λ e. is_some (get wallet_key e.wallet_id (w ∷ ws)) ≡ true) es
entries-insert w ws [] h = tt
entries-insert w ws (e ∷ es) h = (ground arith, entries-insert w ws es h.1)
