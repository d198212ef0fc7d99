-- ===== src/Card/Service.antt =====
-- `CardService` (app/modules/card/service.py): the life of a card. The processor's client is a
-- parameter; a call of it returns, or raises what the method then raises.
pub mod Outcomes
use ufirst_backend.Base.{
  ℕ, String, Option, none, some, List, [], ◌∷◌, Bool, false, not, ◌||◌, is_some,
}
use ufirst_backend.Core.Errors.{
  Result, ok, err, validation_error, not_found, invalid_state_transition,
}
use ufirst_backend.Db.{
  Context, Action, pure, or_raise, raise_if, publish, card as card_event, ◌>>=◌, ◌>>◌,
}
use ufirst_backend.Card.Models.{
  Card, CardStatus, card_status_eq, CardEventType, SpendingControls, Event, card_issued,
  card_activated, card_frozen, card_unfrozen, card_cancelled, card_spending_controls_updated,
}
use ufirst_backend.Card.Repository as repo
use ufirst_backend.Card.Repository.{ProcessorToken}

-- The calls of `CardProcessorClient` that the service makes.
pub record Processor : Type 0 where
  pub issue_card : (beneficiary_id wallet_id : ℕ) (card_program_id : String) → Result ProcessorToken
  pub activate_card : (processor_token : String) → Result (Unit {0})
  pub update_card_status : (processor_token status : String) → Result (Unit {0})
  pub update_spending_controls : (processor_token : String) → SpendingControls → Result (Unit {0})

-- `_VALID_TRANSITIONS`
unfoldable pub valid_transitions : CardStatus → List CardStatus
valid_transitions CardStatus.pending = CardStatus.active ∷ CardStatus.cancelled ∷ []
valid_transitions CardStatus.active = CardStatus.frozen ∷ CardStatus.cancelled ∷ []
valid_transitions CardStatus.frozen = CardStatus.active ∷ CardStatus.cancelled ∷ []
valid_transitions CardStatus.cancelled = []

abbrev status_in : CardStatus → List CardStatus → Bool
status_in s [] = false
status_in s (t ∷ ts) = card_status_eq s t || status_in s ts

unfoldable pub allowed : CardStatus → CardStatus → Bool
unfolding valid_transitions
allowed from to = status_in to (valid_transitions from)

-- A call of the processor.
abbrev called : {A : Type 0} → Result A → Action A
called r db = (r, db)

-- What the four changes of a status have in common.
unfoldable pub change_status :
    Context
    → (card_id : ℕ) → CardStatus
    → (call : Card → Result (Unit {0})) → CardEventType
    → (actor_id : ℕ) → (reason : Option String) → (announce : Card → Event) → Action Card
unfolding allowed
change_status ctx card_id new_status call event_type actor_id reason announce = do
  card ← or_raise (← repo.get_card card_id) not_found
  raise_if (not (allowed card.status new_status)) invalid_state_transition
  called (call card)
  changed ← repo.update_card_status card new_status
  repo.create_card_event ctx card_id event_type actor_id reason none
  publish (card_event (announce changed))
  pure changed

module _ (processor : Processor) (ctx : Context) where
  unfoldable pub issue_card :
      (wallet_id beneficiary_id issued_by : ℕ) → Option SpendingControls → String → Action Card
  issue_card wallet_id beneficiary_id issued_by controls card_program_id = do
    existing ← repo.get_card_for_wallet wallet_id
    raise_if (is_some existing) validation_error
    result ← called (processor.issue_card beneficiary_id wallet_id card_program_id)
    card ← repo.create_card ctx wallet_id beneficiary_id result controls
    repo.create_card_event ctx card.id CardEventType.issued issued_by none none
    publish (card_event (card_issued card.id wallet_id beneficiary_id))
    pure card

  abbrev pub activate_card : (card_id actor_id : ℕ) → Action Card
  activate_card card_id actor_id =
      change_status ctx card_id CardStatus.active (λ c. processor.activate_card c.processor_token)
        CardEventType.activated actor_id none (λ c. card_activated card_id c.owner_id)

  abbrev pub freeze_card : (card_id actor_id : ℕ) → Option String → Action Card
  freeze_card card_id actor_id reason =
      change_status ctx card_id CardStatus.frozen
        (λ c. processor.update_card_status c.processor_token "frozen") CardEventType.frozen actor_id
        reason (λ c. card_frozen card_id c.owner_id reason)

  abbrev pub unfreeze_card : (card_id actor_id : ℕ) → Action Card
  unfreeze_card card_id actor_id =
      change_status ctx card_id CardStatus.active
        (λ c. processor.update_card_status c.processor_token "active") CardEventType.unfrozen
        actor_id none (λ c. card_unfrozen card_id c.owner_id)

  abbrev pub cancel_card : (card_id actor_id : ℕ) → Option String → Action Card
  cancel_card card_id actor_id reason =
      change_status ctx card_id CardStatus.cancelled
        (λ c. processor.update_card_status c.processor_token "cancelled") CardEventType.cancelled
        actor_id reason (λ c. card_cancelled card_id c.owner_id reason)

  unfoldable pub update_spending_controls : (card_id actor_id : ℕ) → SpendingControls → Action Card
  update_spending_controls card_id actor_id controls = do
    card ← or_raise (← repo.get_card card_id) not_found
    raise_if (card_status_eq card.status CardStatus.cancelled) invalid_state_transition
    called (processor.update_spending_controls card.processor_token controls)
    changed ← repo.update_card_spending_controls card controls
    repo.create_card_event ctx card_id CardEventType.controls_updated actor_id none (some controls)
    publish (card_event (card_spending_controls_updated card_id changed.owner_id))
    pure changed

unfoldable pub get_card : ℕ → Action Card
get_card card_id = do or_raise (← repo.get_card card_id) not_found

unfoldable pub get_card_for_wallet : ℕ → Action (Option Card)
get_card_for_wallet wallet_id = repo.get_card_for_wallet wallet_id
