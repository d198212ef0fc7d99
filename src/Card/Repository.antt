-- ===== src/Card/Repository.antt =====
-- The queries and updates of app/modules/card/repository.py.
use ufirst_backend.Base.{ℕ, String, Option, some, ◌∷◌, Bool, not, ◌&&◌, ◌||◌, ◌==◌, str_eq, is_some}
use ufirst_backend.Base.Table.{get, find, replace}
use ufirst_backend.Core.Errors.{integrity_error}
use ufirst_backend.Db.{Context, Action, pure, gets, modify, raise_if, ◌>>=◌, ◌>>◌}
use ufirst_backend.Card.Models.{Card, CardStatus, card_status_eq, CardEventType, SpendingControls}

abbrev pub card_key : Card → ℕ
card_key c = c.id

abbrev pub get_card : ℕ → Action (Option Card)
get_card card_id = gets λ db. get card_key card_id db.cards

-- A card of the wallet that is not cancelled.
abbrev pub live_on : ℕ → Card → Bool
live_on wallet_id c = c.wallet_id == wallet_id && not (card_status_eq c.status CardStatus.cancelled)

-- The newest one.
abbrev pub get_card_for_wallet : ℕ → Action (Option Card)
get_card_for_wallet wallet_id = gets λ db. find (live_on wallet_id) db.cards

-- What the processor gives for a new card (app/modules/card/processor/client.py).
pub record ProcessorToken : Type 0 where
  pub token : String
  pub card_program_id : String
  pub issued_at : ℕ
  pub expires_at : ℕ

abbrev pub new_card :
    Context → (wallet_id owner_id : ℕ) → ProcessorToken → Option SpendingControls → Card
new_card ctx wallet_id owner_id result controls = record {
  id = ctx.new_id;
  wallet_id = wallet_id;
  owner_id = owner_id;
  processor_token = result.token;
  card_program_id = result.card_program_id;
  status = CardStatus.pending;
  spending_controls = controls;
  issued_at = some result.issued_at;
  expires_at = some result.expires_at;
  created_at = ctx.now;
}

-- The processor's token and the id are unique.
unfoldable pub create_card :
    Context → (wallet_id owner_id : ℕ) → ProcessorToken → Option SpendingControls → Action Card
create_card ctx wallet_id owner_id result controls = do
  same_token ← gets λ db. find (λ c. str_eq c.processor_token result.token) db.cards
  same_id ← get_card ctx.new_id
  raise_if (is_some same_token || is_some same_id) integrity_error
  let card = new_card ctx wallet_id owner_id result controls
  modify λ db. record db { cards = card ∷ db.cards }
  pure card

abbrev flush_card : Card → Action (Unit {0})
flush_card c = modify λ db. record db { cards = replace card_key c db.cards }

abbrev pub update_card_status : Card → CardStatus → Action Card
update_card_status card new_status = do
  let changed : Card = record card { status = new_status }
  flush_card changed
  pure changed

abbrev pub update_card_spending_controls : Card → SpendingControls → Action Card
update_card_spending_controls card controls = do
  let changed : Card = record card { spending_controls = some controls }
  flush_card changed
  pure changed

abbrev pub create_card_event :
    Context
    → (card_id : ℕ) → CardEventType
    → (actor_id : ℕ) → (reason : Option String) → Option SpendingControls
    → Action (Unit {0})
create_card_event ctx card_id event_type actor_id reason metadata = modify λ db. record db {
  card_events =
      record {
        card_id = card_id;
        event_type = event_type;
        actor_id = some actor_id;
        reason = reason;
        event_metadata = metadata;
        created_at = ctx.now;
      }
      ∷ db.card_events;
}
