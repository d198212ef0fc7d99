-- ===== src/Card/Service/Outcomes.antt =====
-- What the operations on cards can end in.
use ufirst_backend.Base.{
  ℕ, ◌≡◌, inl, inr, ◌⊎◌, String, Option, none, some, ◌∷◌, arith, true, false, Bool-cases,
  Option-cases, str_eq,
}
use ufirst_backend.Base.Table.{get, find, replace}
use ufirst_backend.Core.Errors.{
  Result, Result-cases, ok, not_found, integrity_error, invalid_state_transition, validation_error,
}
use ufirst_backend.Db.{Db, Context, card}
use ufirst_backend.Wallet.Outcomes.{Refuses}
use ufirst_backend.Card.Models.{
  Card, CardStatus, card_status_eq, CardEvent, CardEventType, SpendingControls, Event, card_issued,
  card_spending_controls_updated,
}
use ufirst_backend.Card.Repository.{card_key, live_on, ProcessorToken, new_card, create_card}
use ufirst_backend.Card.Service.{
  Processor, allowed, change_status, issue_card, update_spending_controls,
}

abbrev pub event :
    Context → ℕ → CardEventType → ℕ → Option String → Option SpendingControls → CardEvent
event ctx card_id event_type actor_id reason metadata = record {
  card_id = card_id;
  event_type = event_type;
  actor_id = some actor_id;
  reason = reason;
  event_metadata = metadata;
  created_at = ctx.now;
}

-- The database with one card changed, an entry in the log, and an event published.
abbrev pub with_change : Card → CardEvent → Event → Db → Db
with_change c e announced db = record db {
  cards = replace card_key c db.cards;
  card_events = e ∷ db.card_events;
  published = card announced ∷ db.published;
}

abbrev pub with_card : Card → CardEvent → Event → Db → Db
with_card c e announced db = record db {
  cards = c ∷ db.cards;
  card_events = e ∷ db.card_events;
  published = card announced ∷ db.published;
}

abbrev pub restatus : CardStatus → Card → Card
restatus s c = record c { status = s }

pub change_status_lem :
    (ctx : Context) (card_id : ℕ) (s : CardStatus) (call : Card → Result (Unit {0}))
    (event_type : CardEventType) (actor : ℕ) (reason : Option String) (announce : Card → Event)
    (db : Db)
    → Refuses (change_status ctx card_id s call event_type actor reason announce) db
      ⊎ ((c : Card) × (change_status ctx card_id s call event_type actor reason announce db ≡ (
        ok (restatus s c),
        with_change
            (restatus s c)
            (event ctx card_id event_type actor reason none)
            (announce (restatus s c))
            db,
      ))
          × (get card_key card_id db.cards ≡ some c)
          × (allowed c.status s ≡ true))
unfolding change_status
change_status_lem ctx card_id s call event_type actor reason announce db =
    elim (Option-cases (get card_key card_id db.cards)) [
      | inl missing ↦ inl (not_found, ground arith)
      | inr (c, here) ↦ elim (Bool-cases (allowed c.status s)) [
        | inr forbidden ↦ inl (invalid_state_transition, ground arith)
        | inl free ↦ elim (Result-cases (call c)) [
          | inr (e, failed) ↦ inl (e, ground arith)
          | inl (u, fine) ↦ inr (c, ground arith, here, free)
        ]
      ]
    ]

abbrev pub recontrol : SpendingControls → Card → Card
recontrol controls c = record c { spending_controls = some controls }

module _ (processor : Processor) (ctx : Context) where
  pub update_spending_controls_lem :
      (card_id actor : ℕ) (controls : SpendingControls) (db : Db)
      → Refuses (update_spending_controls processor ctx card_id actor controls) db
        ⊎ ((c : Card) × (update_spending_controls processor ctx card_id actor controls db ≡ (
          ok (recontrol controls c),
          with_change
              (recontrol controls c)
              (event ctx card_id CardEventType.controls_updated actor none (some controls))
              (card_spending_controls_updated card_id c.owner_id)
              db,
        ))
            × (get card_key card_id db.cards ≡ some c)
            × (card_status_eq c.status CardStatus.cancelled ≡ false))
  unfolding update_spending_controls
  update_spending_controls_lem card_id actor controls db =
      elim (Option-cases (get card_key card_id db.cards)) [
        | inl missing ↦ inl (not_found, ground arith)
        | inr (c, here) ↦ elim (Bool-cases (card_status_eq c.status CardStatus.cancelled)) [
          | inl over ↦ inl (invalid_state_transition, ground arith)
          | inr live ↦
              elim (Result-cases (processor.update_spending_controls c.processor_token controls)) [
                | inr (e, failed) ↦ inl (e, ground arith)
                | inl (u, fine) ↦ inr (c, ground arith, here, live)
              ]
        ]
      ]

  pub issue_card_lem :
      (wallet_id owner by : ℕ) (controls : Option SpendingControls) (program : String) (db : Db)
      → Refuses (issue_card processor ctx wallet_id owner by controls program) db
        ⊎ ((result : ProcessorToken) × (issue_card processor ctx wallet_id owner by controls program
                db
              ≡ (
                ok (new_card ctx wallet_id owner result controls),
                with_card
                    (new_card ctx wallet_id owner result controls)
                    (event ctx ctx.new_id CardEventType.issued by none none)
                    (card_issued ctx.new_id wallet_id owner)
                    db,
              ))
            × (find (live_on wallet_id) db.cards ≡ none)
            × (get card_key ctx.new_id db.cards ≡ none))
  unfolding issue_card create_card
  issue_card_lem wallet_id owner by controls program db =
      elim (Option-cases (find (live_on wallet_id) db.cards)) [
        | inr (c, there) ↦ inl (validation_error, ground arith)
        | inl none_live ↦ elim (Result-cases (processor.issue_card owner wallet_id program)) [
          | inr (e, failed) ↦ inl (e, ground arith)
          | inl (result, fine) ↦
              elim (Option-cases (find (λ c. str_eq c.processor_token result.token) db.cards)) [
                | inr (c, taken) ↦ inl (integrity_error, ground arith)
                | inl free_token ↦ elim (Option-cases (get card_key ctx.new_id db.cards)) [
                  | inr (c, taken) ↦ inl (integrity_error, ground arith)
                  | inl free ↦ inr (result, ground arith, none_live, free)
                ]
              ]
        ]
      ]
