-- ===== src/Wallet/Operations.antt =====
-- Sequences of the operations that move money between the balances of wallets.
use ufirst_backend.Base.{ℕ, inl, inr, String, Option, none, List, [], ◌∷◌}
use ufirst_backend.Base.Int.{ℤ, pos, ◌≤ℤ◌}
use ufirst_backend.Base.Table.{All, All-find, All-replace}
use ufirst_backend.Db.{Db, Context}
use ufirst_backend.Wallet.Models.{PaymentState}
use ufirst_backend.Wallet.Repository.{transfer_key}
use ufirst_backend.Wallet.Service.{
  create_wallet, reserve_balance, release_reserve, settle_reserve, debit_wallet,
}
use ufirst_backend.Wallet.Outcomes.{
  create_outcome, reserve_outcome, release_outcome, settle_outcome, debit_outcome,
}
use ufirst_backend.Wallet.Funding.{credit_from_funding}
use ufirst_backend.Wallet.Funding.Outcomes.{credit_outcome, moved}
use ufirst_backend.Wallet.Ledger.{IsSolvent}
use ufirst_backend.Wallet.Books.{
  IsBooked, create_wallet-IsBooked, reserve_balance-IsBooked, release_reserve-IsBooked,
  settle_reserve-IsBooked, debit_wallet-IsBooked, credit_from_funding-IsBooked,
}
use ufirst_backend.Wallet.Solvency.{
  IsPayable, create_wallet-IsSolvent, reserve_balance-IsSolvent, release_reserve-IsSolvent,
  settle_reserve-IsSolvent, debit_wallet-IsSolvent, credit_from_funding-IsSolvent,
}

-- A call of an operation; what it refers to is the type and the id of another row.
pub data Movement : Type 0 where
  create : Context → (owner_id : ℕ) (currency : String) → Movement
  reserve release : Context → (wallet_id : ℕ) (amount : ℤ) (rt : String) (rid : ℕ) → Movement
  settle debit :
      Context → (wallet_id : ℕ) (amount : ℤ) (rt : String) (rid : ℕ) → Option String → Movement
  credit : Context → (transfer_id : ℕ) → Movement

unfoldable pub move : Movement → Db → Db
move (Movement.create ctx owner currency) db = (create_wallet ctx owner currency db).1
move (Movement.reserve ctx k amount rt rid) db = (reserve_balance ctx k amount rt rid db).1
move (Movement.release ctx k amount rt rid) db = (release_reserve ctx k amount rt rid db).1
move (Movement.settle ctx k amount rt rid d) db = (settle_reserve ctx k amount rt rid d db).1
move (Movement.debit ctx k amount rt rid d) db = (debit_wallet ctx k amount rt rid d db).1
move (Movement.credit ctx k) db = (credit_from_funding ctx k db).1

unfoldable pub move_all : List Movement → Db → Db
move_all [] db = db
move_all (m ∷ movements) db = move_all movements (move m db)

move-IsBooked : (m : Movement) (db : Db) → IsBooked db → IsBooked (move m db)
unfolding move
move-IsBooked (Movement.create ctx owner currency) db = create_wallet-IsBooked ctx owner currency db
move-IsBooked (Movement.reserve ctx k amount rt rid) db =
    reserve_balance-IsBooked ctx k amount rt rid db
move-IsBooked (Movement.release ctx k amount rt rid) db =
    release_reserve-IsBooked ctx k amount rt rid db
move-IsBooked (Movement.settle ctx k amount rt rid d) db =
    settle_reserve-IsBooked ctx k amount rt rid db d
move-IsBooked (Movement.debit ctx k amount rt rid d) db =
    debit_wallet-IsBooked ctx k amount rt rid db d
move-IsBooked (Movement.credit ctx k) db = credit_from_funding-IsBooked ctx k db

-- Whatever operations run, in any order, made or refused, they keep the books: on every wallet, what can be spent and what is held back make up its credits less its debits, and every entry is of a wallet of the table.
pub move_all-IsBooked :
    (movements : List Movement) (db : Db) → IsBooked db → IsBooked (move_all movements db)
unfolding move_all
move_all-IsBooked [] db h = h
move_all-IsBooked (m ∷ movements) db h =
    move_all-IsBooked movements (move m db) (move-IsBooked m db h)

-- A release gives back no negative amount.
abbrev pub NotNegative : Movement → Type 0
NotNegative (Movement.release ctx k amount rt rid) = pos 0 ≤ℤ amount
NotNegative _ = Unit

move-IsPayable : (m : Movement) (db : Db) → IsPayable db → IsPayable (move m db)
unfolding move
move-IsPayable (Movement.create ctx owner currency) db h =
    elim (create_outcome ctx owner currency db) [
      | inl (e, r) ↦ rw (move, r) h
      | inr (inl (w, r, _)) ↦ rw (move, r) h
      | inr (inr (r, _, _)) ↦ rw (move, r) h
    ]
move-IsPayable (Movement.reserve ctx k amount rt rid) db h =
    elim (reserve_outcome ctx k amount rt rid db) [
      | inl (e, r) ↦ rw (move, r) h
      | inr (w, r, _) ↦ rw (move, r) h
    ]
move-IsPayable (Movement.release ctx k amount rt rid) db h =
    elim (release_outcome ctx k amount rt rid db) [
      | inl (e, r) ↦ rw (move, r) h
      | inr (w, r, _) ↦ rw (move, r) h
    ]
move-IsPayable (Movement.settle ctx k amount rt rid d) db h =
    elim (settle_outcome ctx k amount rt rid db d) [
      | inl (e, r) ↦ rw (move, r) h
      | inr (w, r, _) ↦ rw (move, r) h
    ]
move-IsPayable (Movement.debit ctx k amount rt rid d) db h =
    elim (debit_outcome ctx k amount rt rid db d) [
      | inl (e, r) ↦ rw (move, r) h
      | inr (w, r, _) ↦ rw (move, r) h
    ]
move-IsPayable (Movement.credit ctx k) db h = elim (credit_outcome ctx k db) [
  | inl (e, r) ↦ rw (move, r) h
  | inr (t, w, r, there, _, _) ↦
      rw (move, r)
        (All-replace _ _ transfer_key (moved ctx PaymentState.completed none none t)
          db.funding_transfers (All-find _ _ db.funding_transfers t h there) (λ x ne old. old) h)
]

move-IsSolvent :
    (m : Movement) (db : Db) → NotNegative m → IsPayable db → IsSolvent db → IsSolvent (move m db)
unfolding move
move-IsSolvent (Movement.create ctx owner currency) db n p =
    create_wallet-IsSolvent ctx owner currency db
move-IsSolvent (Movement.reserve ctx k amount rt rid) db n p =
    reserve_balance-IsSolvent ctx k amount rt rid db
move-IsSolvent (Movement.release ctx k amount rt rid) db n p =
    release_reserve-IsSolvent ctx k amount rt rid db n
move-IsSolvent (Movement.settle ctx k amount rt rid d) db n p =
    settle_reserve-IsSolvent ctx k amount rt rid db d
move-IsSolvent (Movement.debit ctx k amount rt rid d) db n p =
    debit_wallet-IsSolvent ctx k amount rt rid db d
move-IsSolvent (Movement.credit ctx k) db n p = credit_from_funding-IsSolvent ctx k db p

-- If no release is of a negative amount and no transfer pays out a negative one, then whatever operations run, in any order and of whatever other amounts, no balance becomes negative.
pub move_all-IsSolvent :
    (movements : List Movement) (db : Db)
    → All NotNegative movements
    → IsPayable db
    → IsSolvent db
    → IsSolvent (move_all movements db)
unfolding move_all
move_all-IsSolvent [] db n p h = h
move_all-IsSolvent (m ∷ movements) db n p h =
    move_all-IsSolvent movements (move m db) n.1 (move-IsPayable m db p)
      (move-IsSolvent m db n.0 p h)
