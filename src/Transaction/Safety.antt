-- ===== src/Transaction/Safety.antt =====
-- The messages of the card processor, run as the routes run them: none of them
-- breaks the books, makes a balance or a hold negative, or gives two authorizations one id.
use ufirst_backend.Base.{ℕ, ◌≡◌, ◌≢◌, inl, inr, String, some, List, refl}
use ufirst_backend.Base.Int.{pos, ◌+ℤ◌, ◌≤ℤ◌, ◌<ℤ◌, int_laws}
use ufirst_backend.Base.Table.{get, replace, All, All-find, All-replace, get-key}
use ufirst_backend.Db.{Db, Context, in_transaction}
use ufirst_backend.Wallet.Models.{Wallet, EntryType}
use ufirst_backend.Wallet.Repository.{wallet_key}
use ufirst_backend.Wallet.Ledger.{IsSolvent, IsSolvent-replace}
use ufirst_backend.Wallet.Books.{IsBooked, IsBooked-move, IsBooked-post}
use ufirst_backend.Wallet.Outcomes.{reserved, released, settled, entry}
use ufirst_backend.Transaction.Models.{
  Authorization, AuthorizationStatus, AuthorizationPayload, ClearingPayload,
}
use ufirst_backend.Transaction.Repository.{auth_key}
use ufirst_backend.Transaction.Service.{
  authorize, process_clearing, process_reversal, clearing_description,
}
use ufirst_backend.Transaction.Service.Outcomes.{decided, failed, refused, downgraded, approved}
use ufirst_backend.Transaction.Service.Settlement.{cleared_outcome, reversed_outcome, restated}
use ufirst_backend.Transaction.Holds.{HasUniqueIds, HasUniqueIds-replace}

-- Holds are of positive amounts.
abbrev pub HasPositiveHolds : List Authorization → Type 0
HasPositiveHolds = All (λ a. a.status ≡ AuthorizationStatus.authorized → pos 0 <ℤ a.amount)

-- What the processor's messages rely on and keep.
pub record IsSafe (db : Db) : Type 0 where
  pub booked : IsBooked db
  pub solvent : IsSolvent db
  pub unique : HasUniqueIds db.authorizations
  pub positive : HasPositiveHolds db.authorizations

-- Money moves between the two balances of a wallet.
move-keeps :
    (db : Db) (k : ℕ) (w changed : Wallet)
    → get wallet_key k db.wallets ≡ some w
    → changed.id ≡ w.id
    → changed.available_balance +ℤ changed.reserved_balance
      ≡ w.available_balance +ℤ w.reserved_balance
    → (pos 0 ≤ℤ changed.available_balance) × (pos 0 ≤ℤ changed.reserved_balance)
    → IsSafe db
    → let db' : Db = record db { wallets = replace wallet_key changed db.wallets } in
      IsBooked db' × IsSolvent db'
move-keeps db k w changed found same kept signs s = (
  IsBooked-move db w changed (get-key wallet_key k db.wallets w found) same kept s.booked,
  IsSolvent-replace db changed signs.0 signs.1 s.solvent,
)

-- A decision on a payment, approved, refused or failed, keeps the books, the signs of the balances and of the holds, and the ids of the authorizations unique.
pub authorize-IsSafe :
    (ctx : Context) (payload : AuthorizationPayload) (db : Db)
    → IsSafe db
    → IsSafe (authorize ctx payload db).1
authorize-IsSafe ctx payload db s = elim (decided ctx payload db) [
  | failed e r ↦ rw r s
  | refused card_id wallet_id reason events new r ↦ rw r (record {
    booked = s.booked;
    solvent = s.solvent;
    unique = (new.free_id, s.unique);
    positive = ((λ held. cc), s.positive);
  })
  | downgraded card new r ↦ rw r (record {
    booked = s.booked;
    solvent = s.solvent;
    unique = (new.free_id, s.unique);
    positive = ((λ held. cc), s.positive);
  })
  | approved card w known free new spends r ↦
      let old = All-find _ _ db.wallets w s.solvent spends.found in
      let kept =
        move-keeps db card.wallet_id w (reserved payload.amount w) spends.found refl
          (omega int_laws) (omega (int_laws, spends.covered), omega (int_laws, spends.positive))
          s in
      rw r (record {
        booked = kept.0;
        solvent = kept.1;
        unique = (new.free_id, s.unique);
        positive = ((λ held. spends.positive), s.positive);
      })
]

-- A hold that ends: what the updates of its row keep.
ended :
    (st : AuthorizationStatus) (a : Authorization) (db : Db)
    → st ≢ AuthorizationStatus.authorized
    → IsSafe db
    → HasUniqueIds (replace auth_key (restated st a) db.authorizations)
      × HasPositiveHolds (replace auth_key (restated st a) db.authorizations)
ended st a db over s = (
  HasUniqueIds-replace (restated st a) db.authorizations s.unique,
  All-replace _ _ auth_key (restated st a) db.authorizations (λ held. absurd (over held))
      (λ x ne old. old) s.positive,
)

-- A clearing, whether it settles or fails and is rolled back, keeps the books, the signs of the balances and of the holds, and the ids of the authorizations unique.
pub process_clearing-IsSafe :
    (ctx : Context) (payload : ClearingPayload) (db : Db)
    → IsSafe db
    → IsSafe (in_transaction (process_clearing ctx payload) db).1
process_clearing-IsSafe ctx payload db s = elim (cleared_outcome ctx payload db) [
  | inl (e, r) ↦ rw r s
  | inr (a, w, r, hold, holds) ↦
      let changed = settled payload.cleared_amount w in
      let old = All-find _ _ db.wallets w s.solvent holds.found in
      let kept = ended AuthorizationStatus.cleared a db (λ e. cc) s in
      rw r (record {
        booked =
            IsBooked-post db w changed (get-key wallet_key a.wallet_id db.wallets w holds.found)
              (entry ctx payload.cleared_amount "clearing" ctx.new_id EntryType.debit changed
                (some (clearing_description payload)))
              refl refl (omega int_laws) s.booked;
        solvent =
            IsSolvent-replace db changed old.0 (let covered = holds.held in omega int_laws)
              s.solvent;
        unique = kept.0;
        positive = kept.1;
      })
]

-- A reversal, whether it releases its hold or fails and is rolled back, keeps the books, the signs of the balances and of the holds, and the ids of the authorizations unique.
pub process_reversal-IsSafe :
    (ctx : Context) (ref : String) (db : Db)
    → IsSafe db
    → IsSafe (in_transaction (process_reversal ctx ref) db).1
process_reversal-IsSafe ctx ref db s = elim (reversed_outcome ctx ref db) [
  | inl (e, r) ↦ rw r s
  | inr (a, w, r, hold, holds) ↦
      let old = All-find _ _ db.wallets w s.solvent holds.found in
      let positive = All-find _ _ db.authorizations a s.positive hold.found hold.held in
      let kept = ended AuthorizationStatus.reversed a db (λ e. cc) s in
      let covered = holds.held in
      let available = old.0 in
      let moved =
        move-keeps db a.wallet_id w (released a.amount w) holds.found refl (omega int_laws)
          (omega int_laws, omega int_laws) s in
      rw r (record { booked = moved.0; solvent = moved.1; unique = kept.0; positive = kept.1 })
]
