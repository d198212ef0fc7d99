-- ===== src/Card/Lifecycle.antt =====
-- The life of the cards: the operations of the card service in any order, and what is final.
use ufirst_backend.Base.{
  ℕ, ◌≡◌, inl, inr, String, Option, some, none, List, [], ◌∷◌, arith, true, false, ◌==◌, Bool-cases,
  ==_iff, refl, ◌∙◌, subst,
}
use ufirst_backend.Base.Table.{get, replace, get-replace_ne, key-get}
use ufirst_backend.Core.Errors.{Result, ok}
use ufirst_backend.Db.{Db, Context}
use ufirst_backend.Card.Models.{
  Card, CardStatus, card_status_eq, CardEventType, SpendingControls, Event,
}
use ufirst_backend.Card.Repository.{card_key, new_card}
use ufirst_backend.Card.Service.{
  Processor, allowed, change_status, issue_card, activate_card, freeze_card, unfreeze_card,
  cancel_card, update_spending_controls,
}
use ufirst_backend.Card.Service.Outcomes.{
  change_status_lem, issue_card_lem, update_spending_controls_lem, restatus, recontrol,
}

-- An operation on cards, with its arguments.
pub data CardStep : Type 0 where
  issue :
      Context → (wallet_id owner by : ℕ) → Option SpendingControls → (program : String) → CardStep
  activate : Context → (card_id actor : ℕ) → CardStep
  freeze : Context → (card_id actor : ℕ) → Option String → CardStep
  unfreeze : Context → (card_id actor : ℕ) → CardStep
  cancel : Context → (card_id actor : ℕ) → Option String → CardStep
  control : Context → (card_id actor : ℕ) → SpendingControls → CardStep

module _ (processor : Processor) where
  unfoldable pub take_step : CardStep → Db → Db
  take_step (issue ctx wallet_id owner by controls program) db =
      (issue_card processor ctx wallet_id owner by controls program db).1
  take_step (activate ctx k actor) db = (activate_card processor ctx k actor db).1
  take_step (freeze ctx k actor reason) db = (freeze_card processor ctx k actor reason db).1
  take_step (unfreeze ctx k actor) db = (unfreeze_card processor ctx k actor db).1
  take_step (cancel ctx k actor reason) db = (cancel_card processor ctx k actor reason db).1
  take_step (control ctx k actor controls) db =
      (update_spending_controls processor ctx k actor controls db).1

  unfoldable pub take_steps : List CardStep → Db → Db
  take_steps [] db = db
  take_steps (s ∷ steps) db = take_steps steps (take_step s db)

-- Only a card that is not cancelled can change its status.
pub allowed-live :
    (from to : CardStatus)
    → allowed from to ≡ true
    → card_status_eq from CardStatus.cancelled ≡ false
unfolding allowed
allowed-live CardStatus.cancelled to h = cc
allowed-live _ to h = refl

-- A card that is cancelled, in a table.
abbrev IsCancelled : ℕ → Card → Db → Type 0
IsCancelled k c db =
    (get card_key k db.cards ≡ some c) × (card_status_eq c.status CardStatus.cancelled ≡ true)

-- A change of a card that is not cancelled is one of another card.
elsewhere :
    (k id : ℕ) (c old new : Card) (db : Db)
    → IsCancelled k c db
    → get card_key id db.cards ≡ some old
    → card_status_eq old.status CardStatus.cancelled ≡ false
    → new.id ≡ old.id
    → get card_key k (replace card_key new db.cards) ≡ some c
elsewhere k id c old new db h there live same = elim (Bool-cases (id == k)) [
  | inl e ↦
      let hit : id ≡ k = (==_iff id k).0 e in
      let one : c ≡ old = cc (h.0, subst (λ i. get card_key i db.cards ≡ some old) hit there) in
      absurd (cc (h.1, live, one))
  | inr e ↦
      let own = key-get card_key id db.cards old there in
      get-replace_ne card_key k new db.cards (ground arith) ∙ h.0
]

-- A new card does not hide another one.
get-insert :
    (new : Card) (k : ℕ) (c : Card) (cards : List Card)
    → get card_key k cards ≡ some c
    → get card_key new.id cards ≡ none
    → get card_key k (new ∷ cards) ≡ some c
get-insert new k c cards here free = ground arith

change_status-final :
    (ctx : Context) (id : ℕ) (s : CardStatus) (call : Card → Result (Unit {0}))
    (event_type : CardEventType) (actor : ℕ) (reason : Option String) (announce : Card → Event)
    (k : ℕ) (c : Card) (db : Db)
    → IsCancelled k c db
    → get card_key k (change_status ctx id s call event_type actor reason announce db).1.cards
      ≡ some c
change_status-final ctx id s call event_type actor reason announce k c db h =
    elim (change_status_lem ctx id s call event_type actor reason announce db) [
      | inl (e, r) ↦ rw r h.0
      | inr (old, r, there, free) ↦
          rw r
            (elsewhere k id c old (restatus s old) db h there (allowed-live old.status s free) refl)
    ]

module _ (processor : Processor) where
  take_step-final :
      (s : CardStep) (k : ℕ) (c : Card) (db : Db)
      → IsCancelled k c db
      → get card_key k (take_step processor s db).cards ≡ some c
  unfolding take_step
  take_step-final (issue ctx wallet_id owner by controls program) k c db h =
      elim (issue_card_lem processor ctx wallet_id owner by controls program db) [
        | inl (e, r) ↦ rw (r, take_step) h.0
        | inr (result, r, _, free) ↦
            rw (r, take_step)
              (get-insert (new_card ctx wallet_id owner result controls) k c db.cards h.0 free)
      ]
  take_step-final (activate ctx id actor) k c db h =
      change_status-final ctx id _ _ _ actor _ _ k c db h
  take_step-final (freeze ctx id actor reason) k c db h =
      change_status-final ctx id _ _ _ actor reason _ k c db h
  take_step-final (unfreeze ctx id actor) k c db h =
      change_status-final ctx id _ _ _ actor _ _ k c db h
  take_step-final (cancel ctx id actor reason) k c db h =
      change_status-final ctx id _ _ _ actor reason _ k c db h
  take_step-final (control ctx id actor controls) k c db h =
      elim (update_spending_controls_lem processor ctx id actor controls db) [
        | inl (e, r) ↦ rw (r, take_step) h.0
        | inr (old, r, there, live) ↦
            rw (r, take_step) (elsewhere k id c old (recontrol controls old) db h there live refl)
      ]

  -- Whatever operations on cards follow, on this card and on others, and whatever the processor answers, a cancelled card keeps its row as it is.
  pub take_steps-final :
      (steps : List CardStep) (k : ℕ) (c : Card) (db : Db)
      → get card_key k db.cards ≡ some c
      → c.status ≡ CardStatus.cancelled
      → get card_key k (take_steps processor steps db).cards ≡ some c
  unfolding take_steps
  take_steps-final [] k c db here over = here
  take_steps-final (s ∷ steps) k c db here over =
      take_steps-final steps k c (take_step processor s db)
        (take_step-final s k c db (here, rw over refl)) over

  -- A card that is still pending, not activated, becomes active when `unfreeze_card` is called on it and the processor accepts the update.
  pub unfreeze_card-activates :
      (ctx : Context) (k actor : ℕ) (c : Card) (db : Db)
      → get card_key k db.cards ≡ some c
      → c.status ≡ CardStatus.pending
      → processor.update_card_status c.processor_token "active" ≡ ok tt
      → (unfreeze_card processor ctx k actor db).0 ≡ ok (restatus CardStatus.active c)
  unfolding change_status allowed
  unfreeze_card-activates ctx k actor c db here new accepts = ground arith
