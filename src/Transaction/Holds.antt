-- ===== src/Transaction/Holds.antt =====
-- What is held back on a wallet against the authorizations that hold it.
use ufirst_backend.Base.{
  ℕ, ◌≡◌, inl, inr, none, some, List, [], ◌∷◌, arith, true, false, refl, sym, ap, ◌∙◌, subst, Bool,
  Bool-cases, ◌&&◌, ◌==◌, if◌then◌else◌, is_some, ==_iff, ==_refl,
}
use ufirst_backend.Base.Int.{ℤ, pos, ◌+ℤ◌, ◌-ℤ◌, +ℤ_zero, +ℤ_swap, +ℤ_-ℤ_assoc}
use ufirst_backend.Base.Table.{
  get, find, replace, replace-absent, All, All-find, All-replace, key-get,
}
use ufirst_backend.Db.{Db}
use ufirst_backend.Wallet.Models.{Wallet}
use ufirst_backend.Wallet.Repository.{wallet_key}
use ufirst_backend.Wallet.Outcomes.{reserved}
use ufirst_backend.Transaction.Models.{Authorization, AuthorizationStatus, auth_status_eq}
use ufirst_backend.Transaction.Repository.{auth_key}
use ufirst_backend.Transaction.Service.Settlement.{restated}

-- The authorization holds money of this wallet.
abbrev pub holds_on : ℕ → Authorization → Bool
holds_on wallet_id a =
    auth_status_eq a.status AuthorizationStatus.authorized && a.wallet_id == wallet_id

-- The sum of the holds on a wallet.
abbrev pub held_total : ℕ → List Authorization → ℤ
held_total wallet_id [] = pos 0
held_total wallet_id (a ∷ rows) =
    if holds_on wallet_id a
    then held_total wallet_id rows +ℤ a.amount
    else held_total wallet_id rows

-- On every wallet, what is held back is the sum of its holds, and on one wallet an excess besides.
abbrev pub HasExcess : ℕ → ℤ → Db → Type 0
HasExcess wallet_id excess db =
    All
      (λ w.
        w.reserved_balance
        ≡ held_total w.id db.authorizations +ℤ (if w.id == wallet_id then excess else pos 0))
      db.wallets

-- On every wallet, what is held back is the sum of its holds.
abbrev pub IsHeld : Db → Type 0
IsHeld db = All (λ w. w.reserved_balance ≡ held_total w.id db.authorizations) db.wallets

-- The primary key of the authorizations.
abbrev pub HasUniqueIds : List Authorization → Type 0
HasUniqueIds [] = Unit
HasUniqueIds (a ∷ rows) = (get auth_key a.id rows ≡ none) × HasUniqueIds rows

-- A row that a query finds is in the table under its id.
found-id :
    (p : Authorization → Bool) (rows : List Authorization) (a : Authorization)
    → find p rows ≡ some a
    → is_some (get auth_key a.id rows) ≡ true
found-id p [] a h = cc
found-id p (x ∷ rows) a h = ground (arith, found-id p rows a)

-- The same where the hold stands first, and its id nowhere else.
held_total-first :
    (s : AuthorizationStatus) (k : ℕ) (rows : List Authorization) (a : Authorization)
    → get auth_key a.id rows ≡ none
    → a.status ≡ AuthorizationStatus.authorized
    → auth_status_eq s AuthorizationStatus.authorized ≡ false
    → held_total k (replace auth_key (restated s a) (a ∷ rows))
        +ℤ (if a.wallet_id == k then a.amount else pos 0)
      ≡ held_total k (a ∷ rows)
held_total-first s k rows a free held over = ground (
  arith,
  replace-absent auth_key (restated s a) rows free,
  ==_refl a.id,
  +ℤ_zero (held_total k rows),
)

-- A hold that ends frees its amount on its wallet, and nothing elsewhere.
pub held_total-restated :
    (p : Authorization → Bool) (s : AuthorizationStatus) (k : ℕ) (rows : List Authorization)
    (a : Authorization)
    → HasUniqueIds rows
    → find p rows ≡ some a
    → a.status ≡ AuthorizationStatus.authorized
    → auth_status_eq s AuthorizationStatus.authorized ≡ false
    → held_total k (replace auth_key (restated s a) rows)
        +ℤ (if a.wallet_id == k then a.amount else pos 0)
      ≡ held_total k rows
held_total-restated p s k [] a u h held over = cc
held_total-restated p s k (x ∷ rows) a u h held over = elim (Bool-cases (p x)) [
  | inl hit ↦
      let same : x ≡ a = ground arith in
      subst
        (λ y.
          held_total k (replace auth_key (restated s a) (y ∷ rows))
            +ℤ (if a.wallet_id == k then a.amount else pos 0)
          ≡ held_total k (y ∷ rows))
        (sym same)
        (held_total-first s k rows a (subst (λ y. get auth_key y.id rows ≡ none) same u.0) held
          over)
  | inr miss ↦
      let here : find p rows ≡ some a = ground arith in
      let other : (x.id == a.id) ≡ false = ground (arith, found-id p rows a here, u.0) in
      let rest = held_total-restated p s k rows a u.1 here held over in
      elim (Bool-cases (holds_on k x)) [
        | inl counts ↦ rw (other, counts) (+ℤ_swap _ x.amount _ ∙ ap (λ t. t +ℤ x.amount) rest)
        | inr not_here ↦ rw (other, not_here) rest
      ]
]

leftover : (c r h h' amount m : ℤ) → c ≡ r -ℤ m → r ≡ h → h' +ℤ amount ≡ h → c ≡ h' +ℤ (amount -ℤ m)
leftover c r h h' amount m less was rest =
    less ∙ ap (λ t. t -ℤ m) (was ∙ sym rest) ∙ +ℤ_-ℤ_assoc h' amount m

-- A hold ends while its wallet gives up `m` of what is held back: the rest of the hold stays, as an excess.
pub HasExcess-ended :
    (db : Db) (p : Authorization → Bool) (s : AuthorizationStatus) (a : Authorization)
    (w changed : Wallet) (m : ℤ)
    → HasUniqueIds db.authorizations
    → find p db.authorizations ≡ some a
    → a.status ≡ AuthorizationStatus.authorized
    → auth_status_eq s AuthorizationStatus.authorized ≡ false
    → get wallet_key a.wallet_id db.wallets ≡ some w
    → changed.id ≡ w.id
    → changed.reserved_balance ≡ w.reserved_balance -ℤ m
    → IsHeld db
    → HasExcess a.wallet_id (a.amount -ℤ m) (record db {
      authorizations = replace auth_key (restated s a) db.authorizations;
      wallets = replace wallet_key changed db.wallets;
    })
HasExcess-ended db p s a w changed m unique found held over here same less h =
    let rows = replace auth_key (restated s a) db.authorizations in
    let own : changed.id ≡ a.wallet_id = same ∙ key-get wallet_key a.wallet_id db.wallets w here in
    let rest = λ (k : ℕ). held_total-restated p s k db.authorizations a unique found held over in
    let was : w.reserved_balance ≡ held_total changed.id db.authorizations =
      All-find _ _ db.wallets w h here ∙ ap (λ i. held_total i db.authorizations) (sym same) in
    All-replace _ _ wallet_key changed db.wallets
      (rw ((==_iff changed.id a.wallet_id).1 own) (
        leftover _ _ _ _ _ _ less was
          (rw ((==_iff a.wallet_id changed.id).1 (sym own)) at (rest changed.id))))
      (λ x ne old. ground (arith, own, rest x.id, +ℤ_zero (held_total x.id rows))) h

-- An excess of nothing is none.
pub IsHeld-HasExcess :
    (k : ℕ) (e : ℤ) (auths : List Authorization) (ws : List Wallet)
    → e ≡ pos 0
    → All (λ w. w.reserved_balance ≡ held_total w.id auths +ℤ (if w.id == k then e else pos 0)) ws
    → All (λ w. w.reserved_balance ≡ held_total w.id auths) ws
IsHeld-HasExcess k e auths [] zero_excess h = tt
IsHeld-HasExcess k e auths (w ∷ ws) zero_excess h = (
  ground (arith, h.0, +ℤ_zero (held_total w.id auths)),
  IsHeld-HasExcess k e auths ws zero_excess h.1,
)

get-replace-none :
    (k : ℕ) (a : Authorization) (rows : List Authorization)
    → get auth_key k rows ≡ none
    → get auth_key k (replace auth_key a rows) ≡ none
get-replace-none k a [] h = refl
get-replace-none k a (x ∷ rows) h = ground (arith, get-replace-none k a rows)

-- An update keeps the ids unique.
pub HasUniqueIds-replace :
    (a : Authorization) (rows : List Authorization)
    → HasUniqueIds rows
    → HasUniqueIds (replace auth_key a rows)
HasUniqueIds-replace a [] u = tt
HasUniqueIds-replace a (x ∷ rows) u = elim (Bool-cases (x.id == a.id)) [
  | inl hit ↦ rw hit (
    get-replace-none a.id a rows
        (subst (λ i. get auth_key i rows ≡ none) ((==_iff x.id a.id).0 hit) u.0),
    HasUniqueIds-replace a rows u.1,
  )
  | inr miss ↦ rw miss (get-replace-none x.id a rows u.0, HasUniqueIds-replace a rows u.1)
]

-- A new hold and the reservation for it.
pub IsHeld-reserved :
    (db : Db) (a : Authorization) (w : Wallet)
    → a.status ≡ AuthorizationStatus.authorized
    → get wallet_key a.wallet_id db.wallets ≡ some w
    → IsHeld db
    → IsHeld (record db {
      authorizations = a ∷ db.authorizations;
      wallets = replace wallet_key (reserved a.amount w) db.wallets;
    })
IsHeld-reserved db a w held here h =
    let own = key-get wallet_key a.wallet_id db.wallets w here in
    All-replace _ _ wallet_key (reserved a.amount w) db.wallets
      (ground (arith, own, All-find _ _ db.wallets w h here)) (λ x ne old. ground (arith, own)) h

-- A record that holds nothing.
pub IsHeld-record :
    (auths : List Authorization) (a : Authorization) (ws : List Wallet)
    → auth_status_eq a.status AuthorizationStatus.authorized ≡ false
    → All (λ w. w.reserved_balance ≡ held_total w.id auths) ws
    → All (λ w. w.reserved_balance ≡ held_total w.id (a ∷ auths)) ws
IsHeld-record auths a [] over h = tt
IsHeld-record auths a (w ∷ ws) over h = (ground arith, IsHeld-record auths a ws over h.1)
