-- ===== src/Wallet/Funding/Machine.antt =====
-- The state machine of a funding transfer: no step goes back, and a final state is never left.
use ufirst_backend.Base.{
  ℕ, ◌≤◌, ◌<◌, ◌≡◌, inl, inr, ◌⊎◌, String, Option, some, none, List, [], ◌∷◌, arith, true, false,
  ◌==◌, Bool-cases, refl, ap, ◌∙◌, subst, ==_iff,
}
use ufirst_backend.Base.Table.{get, replace, get-replace_ne, get-replace_self, get-key}
use ufirst_backend.Db.{Db, Context}
use ufirst_backend.Wallet.Models.{FundingTransfer, PaymentState, state_index}
use ufirst_backend.Wallet.Repository.{transfer_key}
use ufirst_backend.Wallet.Funding.{advance_funding_state, credit_from_funding, allowed}
use ufirst_backend.Wallet.Funding.Outcomes.{advance_outcome, credit_outcome, moved, with_transfer}

-- Every allowed transition goes forward in the order of the enumeration.
allowed-lt : (from to : PaymentState) → allowed from to ≡ true → state_index from < state_index to
unfolding allowed
allowed-lt PaymentState.initiated to h = ground arith
allowed-lt PaymentState.awaiting_authorization to h = ground arith
allowed-lt PaymentState.authorizing to h = ground arith
allowed-lt PaymentState.awaiting_settlement to h = ground arith
allowed-lt _ to h = cc

-- The four states that end a transfer.
abbrev pub IsFinal : PaymentState → Type 0
IsFinal s = 4 ≤ state_index s

final-stuck : (from to : PaymentState) → IsFinal from → allowed from to ≡ false
unfolding allowed
final-stuck PaymentState.completed to h = refl
final-stuck PaymentState.failed to h = refl
final-stuck PaymentState.expired to h = refl
final-stuck PaymentState.cancelled to h = refl
final-stuck _ to h = absurd (omega arith)

-- A step of a transfer's life, as the routes, the tasks and the payment service call it.
pub data FundingStep : Type 0 where
  advance : Context → (transfer_id : ℕ) → PaymentState → (ref reason : Option String) → FundingStep
  credit : Context → (transfer_id : ℕ) → FundingStep

unfoldable pub perform : FundingStep → Db → Db
perform (advance ctx k s ref reason) db = (advance_funding_state ctx k s ref reason db).1
perform (credit ctx k) db = (credit_from_funding ctx k db).1

unfoldable pub perform_all : List FundingStep → Db → Db
perform_all [] db = db
perform_all (s ∷ steps) db = perform_all steps (perform s db)

-- The transfer of a key, before and after: the same row, or one that moved on from no final state.
abbrev pub Follows : FundingTransfer → FundingTransfer → Type 0
Follows t u =
    (u ≡ t)
    ⊎ ((state_index t.payment_state < state_index u.payment_state) × ¬ IsFinal t.payment_state)

abbrev HasFollower : ℕ → FundingTransfer → Db → Type 0
HasFollower k t db =
    (u : FundingTransfer) × (get transfer_key k db.funding_transfers ≡ some u) × Follows t u

-- A change of one row, seen at a key.
replaced :
    (db : Db) (k : ℕ) (t old new : FundingTransfer)
    → get transfer_key k db.funding_transfers ≡ some t
    → get transfer_key new.id db.funding_transfers ≡ some old
    → Follows old new
    → HasFollower k t (with_transfer new db)
replaced db k t old new here there forward = elim (Bool-cases (new.id == k)) [
  | inl e ↦
      let same : new.id ≡ k = (==_iff new.id k).0 e in
      (
        new,
        subst (λ i. get transfer_key i (replace transfer_key new db.funding_transfers) ≡ some new)
            same (get-replace_self transfer_key new db.funding_transfers old there),
        subst (λ o. Follows o new) (cc) forward,
      )
  | inr ne ↦
      (t, get-replace_ne transfer_key k new db.funding_transfers (ground arith) ∙ here, inl refl)
]

-- A step leaves a transfer's row alone, or moves it forward from a state that is not final.
pub perform-Follows :
    (s : FundingStep) (db : Db) (k : ℕ) (t : FundingTransfer)
    → get transfer_key k db.funding_transfers ≡ some t
    → HasFollower k t (perform s db)
unfolding perform
perform-Follows (advance ctx id to ref reason) db k t here =
    elim (advance_outcome ctx id db to ref reason) [
      | inl (e, r) ↦ rw (r, perform) (t, here, inl refl)
      | inr (old, r, there, free) ↦
          rw (r, perform)
            (replaced db k t old (moved ctx to ref reason old) here
              (get-key transfer_key id db.funding_transfers old there)
              (inr (
                allowed-lt old.payment_state to free,
                λ final. cc (free, final-stuck old.payment_state to final),
              )))
    ]
perform-Follows (credit ctx id) db k t here = elim (credit_outcome ctx id db) [
  | inl (e, r) ↦ rw (r, perform) (t, here, inl refl)
  | inr (old, w, r, there, ready, _) ↦
      rw (r, perform)
        (replaced db k t old (moved ctx PaymentState.completed none none old) here
          (get-key transfer_key id db.funding_transfers old there)
          (inr
            (ground (arith, ap state_index ready), λ final. ground (arith, ap state_index ready))))
]

-- Over any sequence of advances and credits, of this transfer and of others, a transfer's state only moves forward in the order of its enumeration, and a completed, failed, expired or cancelled transfer keeps its row as it is.
pub perform_all-Follows :
    (steps : List FundingStep) (db : Db) (k : ℕ) (t : FundingTransfer)
    → get transfer_key k db.funding_transfers ≡ some t
    → (u : FundingTransfer) × (get transfer_key k (perform_all steps db).funding_transfers ≡ some u)
      × (state_index t.payment_state ≤ state_index u.payment_state)
      × (IsFinal t.payment_state → u ≡ t)
unfolding perform_all
perform_all-Follows [] db k t here = (t, here, omega arith, λ final. refl)
perform_all-Follows (s ∷ steps) db k t here =
    let (u, there, first) = perform-Follows s db k t here in
    let (v, last, up, stuck) = perform_all-Follows steps (perform s db) k u there in
    onward u v last up stuck first
  where
    onward :
        (u v : FundingTransfer)
        → get transfer_key k (perform_all steps (perform s db)).funding_transfers ≡ some v
        → state_index u.payment_state ≤ state_index v.payment_state
        → (IsFinal u.payment_state → v ≡ u)
        → Follows t u
        → (v : FundingTransfer) × (get transfer_key k
              (perform_all steps (perform s db)).funding_transfers
            ≡ some v)
          × (state_index t.payment_state ≤ state_index v.payment_state)
          × (IsFinal t.payment_state → v ≡ t)
    onward u v last up stuck (inl same) =
        (v, last, rw (← same) up, λ final. stuck (rw same final) ∙ same)
    onward u v last up stuck (inr (lt, live)) = (v, last, omega arith, λ final. absurd (live final))
