-- ===== src/Card/Models.antt =====
-- The enumerations and rows of app/modules/card/models.py, the spending controls of
-- app/modules/card/schemas.py, and the events of app/modules/card/events.py. Ids are numbers,
-- times are numbers of seconds. The column `updated_at` and the ids of card events, which no
-- modelled operation reads, are left out.
use ufirst_backend.Base.{ℕ, String, Option, List, Bool, ◌==◌}
use ufirst_backend.Base.Int.{ℤ}

pub data CardStatus : Type 0 where
  pending active frozen cancelled : CardStatus

-- The place of a member in its enumeration; two members are equal if their places are.
abbrev pub card_status_index : CardStatus → ℕ
card_status_index CardStatus.pending = 0
card_status_index CardStatus.active = 1
card_status_index CardStatus.frozen = 2
card_status_index CardStatus.cancelled = 3

abbrev pub card_status_eq : CardStatus → CardStatus → Bool
card_status_eq a b = card_status_index a == card_status_index b

pub data CardEventType : Type 0 where
  issued activated frozen unfrozen cancelled controls_updated : CardEventType

-- The dict that `model_dump(exclude_none=True)` gives: a key is there if its field is not `none`.
pub record SpendingControls : Type 0 where
  pub daily_limit : Option ℤ
  pub categories : Option (List String)
  pub merchant_allowlist : Option (List String)

pub record Card : Type 0 where
  pub id : ℕ
  pub wallet_id : ℕ
  pub owner_id : ℕ
  pub processor_token : String
  pub card_program_id : String
  pub status : CardStatus
  pub spending_controls : Option SpendingControls
  pub issued_at : Option ℕ
  pub expires_at : Option ℕ
  pub created_at : ℕ

-- A row of the append-only audit log.
pub record CardEvent : Type 0 where
  pub card_id : ℕ
  pub event_type : CardEventType
  pub actor_id : Option ℕ
  pub reason : Option String
  pub event_metadata : Option SpendingControls
  pub created_at : ℕ

pub data Event : Type 0 where
  card_issued : (card_id wallet_id owner_id : ℕ) → Event
  card_activated : (card_id owner_id : ℕ) → Event
  card_frozen : (card_id owner_id : ℕ) (reason : Option String) → Event
  card_unfrozen : (card_id owner_id : ℕ) → Event
  card_cancelled : (card_id owner_id : ℕ) (reason : Option String) → Event
  card_spending_controls_updated : (card_id owner_id : ℕ) → Event
