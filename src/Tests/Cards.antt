-- ===== src/Tests/Cards.antt =====
-- The theorems on cards, applied.
use ufirst_backend.Base.{◌≡◌, some, none, refl, List, [], ◌∷◌}
use ufirst_backend.Base.Table.{get}
use ufirst_backend.Core.Errors.{ok}
use ufirst_backend.Db.{Db}
use ufirst_backend.Card.Models.{Card, CardStatus, CardEvent, CardEventType}
use ufirst_backend.Card.Repository.{card_key, ProcessorToken}
use ufirst_backend.Card.Service.{Processor}
use ufirst_backend.Card.Service.Outcomes.{restatus}
use ufirst_backend.Card.Lifecycle.{CardStep, take_steps, take_steps-final}
use ufirst_backend.Card.Audit.{IsOrderly, take_steps-IsOrderly}
use ufirst_backend.Tests.Data.{ctx, later, card, database}

abbrev new_token : ProcessorToken
new_token = record {
  token = "tok-2";
  card_program_id = "ufirst_prepaid_v1";
  issued_at = 1_000;
  expires_at = 9_000;
}

abbrev pub accepting : Processor
accepting = record {
  issue_card = λ beneficiary wallet program. ok new_token;
  activate_card = λ token. ok tt;
  update_card_status = λ token status. ok tt;
  update_spending_controls = λ token controls. ok tt;
}

abbrev activation : CardEvent
activation = record {
  card_id = 5;
  event_type = CardEventType.activated;
  actor_id = some 7;
  reason = none;
  event_metadata = none;
  created_at = 400;
}

abbrev logged : Db
logged = record database { card_events = activation ∷ [] }

abbrev steps : List CardStep
steps =
    CardStep.freeze ctx 5 9 (some "lost")
    ∷ CardStep.issue ctx 1 7 9 none "ufirst_prepaid_v1"
    ∷ CardStep.cancel later 5 9 none
    ∷ CardStep.issue later 1 7 9 none "ufirst_prepaid_v1"
    ∷ CardStep.unfreeze later 5 9
    ∷ CardStep.activate later 91 9
    ∷ []

logged-IsOrderly : IsOrderly logged
logged-IsOrderly = record {
  single = ((λ k live. refl), tt);
  unique = (refl, tt);
  logged = (refl, tt);
}

take_steps-IsOrderly_example : IsOrderly (take_steps accepting steps logged)
take_steps-IsOrderly_example = take_steps-IsOrderly accepting steps logged logged-IsOrderly

abbrev dead : Card
dead = restatus CardStatus.cancelled card

abbrev buried : Db
buried = record database { cards = dead ∷ [] }

take_steps-final_example : get card_key 5 (take_steps accepting steps buried).cards ≡ some dead
take_steps-final_example = take_steps-final accepting steps 5 dead buried refl refl

abbrev ordered : Card
ordered = restatus CardStatus.pending card

abbrev mailed : Db
mailed = record database { cards = ordered ∷ [] }
