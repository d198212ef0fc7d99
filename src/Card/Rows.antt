-- ===== src/Card/Rows.antt =====
-- The table of cards: one live card for a wallet, one row for an id, and what a change of a row
-- keeps of that.
use ufirst_backend.Base.{
  ℕ, ◌≡◌, inl, inr, some, none, List, [], ◌∷◌, arith, true, ◌==◌, Bool-cases, ==_iff, refl, sym,
  subst,
}
use ufirst_backend.Base.Table.{get, find, replace, All}
use ufirst_backend.Card.Models.{Card}
use ufirst_backend.Card.Repository.{card_key, live_on}

-- A wallet has at most one card that is not cancelled.
abbrev pub HasOneLive : List Card → Type 0
HasOneLive [] = Unit
HasOneLive (c ∷ cards) =
    ((k : ℕ) → live_on k c ≡ true → find (live_on k) cards ≡ none) × HasOneLive cards

abbrev pub HasUniqueCards : List Card → Type 0
HasUniqueCards [] = Unit
HasUniqueCards (c ∷ cards) = (get card_key c.id cards ≡ none) × HasUniqueCards cards

absent_rows :
    (P : Card → Type 0) (k : ℕ) (cards : List Card)
    → get card_key k cards ≡ none
    → All (λ x. x.id ≡ k → P x) cards
absent_rows P k [] h = tt
absent_rows P k (x ∷ cards) h =
    ((λ e. absurd (ground (arith, ==_iff x.id k))), absent_rows P k cards (ground arith))

-- A row is the only one under its id.
pub rows_of :
    (P : Card → Type 0) (old : Card) (k : ℕ) (cards : List Card)
    → HasUniqueCards cards
    → get card_key k cards ≡ some old
    → P old
    → All (λ x. x.id ≡ k → P x) cards
rows_of P old k [] u here p = tt
rows_of P old k (x ∷ cards) u here p = elim (Bool-cases (x.id == k)) [
  | inl hit ↦
      let same : x ≡ old = ground arith in
      (
        (λ e. subst P (sym same) p),
        absent_rows P k cards
            (subst (λ i. get card_key i cards ≡ none) ((==_iff x.id k).0 hit) u.0),
      )
  | inr miss ↦
      ((λ e. absurd (ground (arith, ==_iff x.id k))), rows_of P old k cards u.1 (ground arith) p)
]

-- The new row is live only where the old one was.
abbrev pub Kin : Card → Card → Type 0
Kin new x = (k : ℕ) → live_on k new ≡ true → live_on k x ≡ true

find-replace :
    (new : Card) (cards : List Card) (k : ℕ)
    → All (λ x. x.id ≡ new.id → Kin new x) cards
    → find (live_on k) cards ≡ none
    → find (live_on k) (replace card_key new cards) ≡ none
find-replace new [] k kin h = refl
find-replace new (x ∷ cards) k kin h =
    let rest = find-replace new cards k kin.1 in
    elim (Bool-cases (x.id == new.id)) [
      | inl hit ↦ let own = kin.0 ((==_iff x.id new.id).0 hit) k in ground arith
      | inr miss ↦ ground arith
    ]

pub HasOneLive-replace :
    (new : Card) (cards : List Card)
    → All (λ x. x.id ≡ new.id → Kin new x) cards
    → HasOneLive cards
    → HasOneLive (replace card_key new cards)
HasOneLive-replace new [] kin h = tt
HasOneLive-replace new (x ∷ cards) kin h = elim (Bool-cases (x.id == new.id)) [
  | inl hit ↦ rw hit (
    (λ k live. find-replace new cards k kin.1 (h.0 k (kin.0 ((==_iff x.id new.id).0 hit) k live))),
    HasOneLive-replace new cards kin.1 h.1,
  )
  | inr miss ↦ rw miss (
    (λ k live. find-replace new cards k kin.1 (h.0 k live)),
    HasOneLive-replace new cards kin.1 h.1,
  )
]

get-replace-absent :
    (k : ℕ) (c : Card) (cards : List Card)
    → get card_key k cards ≡ none
    → get card_key k (replace card_key c cards) ≡ none
get-replace-absent k c [] h = refl
get-replace-absent k c (x ∷ cards) h = ground (arith, get-replace-absent k c cards)

pub HasUniqueCards-replace :
    (c : Card) (cards : List Card)
    → HasUniqueCards cards
    → HasUniqueCards (replace card_key c cards)
HasUniqueCards-replace c [] u = tt
HasUniqueCards-replace c (x ∷ cards) u = elim (Bool-cases (x.id == c.id)) [
  | inl hit ↦ rw hit (
    get-replace-absent c.id c cards
        (subst (λ i. get card_key i cards ≡ none) ((==_iff x.id c.id).0 hit) u.0),
    HasUniqueCards-replace c cards u.1,
  )
  | inr miss ↦ rw miss (get-replace-absent x.id c cards u.0, HasUniqueCards-replace c cards u.1)
]
