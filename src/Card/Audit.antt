-- ===== src/Card/Audit.antt =====
-- What every operation on cards keeps: a wallet has one live card at most, ids are unique, and the
-- append-only log of card events tells the status of every card.
use ufirst_backend.Base.{
  ℕ, ◌≡◌, inl, inr, String, Option, some, none, List, [], ◌∷◌, arith, true, ◌==◌, refl, sym, ◌∙◌,
  subst, if◌then◌else◌,
}
use ufirst_backend.Base.Table.{get, find, All, All-find, All-replace, key-get}
use ufirst_backend.Core.Errors.{Result}
use ufirst_backend.Db.{Db, Context}
use ufirst_backend.Card.Models.{
  Card, CardStatus, CardEvent, CardEventType, Event, card_issued, card_spending_controls_updated,
}
use ufirst_backend.Card.Repository.{card_key, live_on, new_card}
use ufirst_backend.Card.Service.{Processor, allowed, change_status}
use ufirst_backend.Card.Service.Outcomes.{
  change_status_lem, issue_card_lem, update_spending_controls_lem, restatus, recontrol, with_change,
  with_card, event,
}
use ufirst_backend.Card.Rows.{
  HasOneLive, HasUniqueCards, Kin, rows_of, HasOneLive-replace, HasUniqueCards-replace,
}
use ufirst_backend.Card.Lifecycle.{
  CardStep, issue, activate, freeze, unfreeze, cancel, control, take_step, take_steps, allowed-live,
}

-- The status that an event gives to its card.
abbrev pub status_after : CardEventType → Option CardStatus
status_after CardEventType.issued = some CardStatus.pending
status_after CardEventType.activated = some CardStatus.active
status_after CardEventType.frozen = some CardStatus.frozen
status_after CardEventType.unfrozen = some CardStatus.active
status_after CardEventType.cancelled = some CardStatus.cancelled
status_after CardEventType.controls_updated = none

abbrev pub or_else : Option CardStatus → Option CardStatus → Option CardStatus
or_else none old = old
or_else (some s) old = some s

-- The status of a card by the log alone: what its newest event with a status gives.
abbrev pub status_by_log : ℕ → List CardEvent → Option CardStatus
status_by_log k [] = none
status_by_log k (e ∷ log) =
    if e.card_id == k
    then or_else (status_after e.event_type) (status_by_log k log)
    else status_by_log k log

pub record IsOrderly (db : Db) : Type 0 where
  pub single : HasOneLive db.cards
  pub unique : HasUniqueCards db.cards
  pub logged : All (λ c. status_by_log c.id db.card_events ≡ some c.status) db.cards

-- A change of one card and the event that tells of it.
IsOrderly-change :
    (db : Db) (k : ℕ) (old new : Card) (e : CardEvent) (announced : Event)
    → get card_key k db.cards ≡ some old
    → new.id ≡ old.id
    → Kin new old
    → e.card_id ≡ k
    → or_else (status_after e.event_type) (some old.status) ≡ some new.status
    → IsOrderly db
    → IsOrderly (with_change new e announced db)
IsOrderly-change db k old new e announced here same kin own tells o =
    let id : new.id ≡ k = same ∙ key-get card_key k db.cards old here in
    let was = All-find _ _ db.cards old o.logged here in
    record {
      single =
          HasOneLive-replace new db.cards
            (subst (λ i. All (λ x. x.id ≡ i → Kin new x) db.cards) (sym id)
              (rows_of (Kin new) old k db.cards o.unique here kin))
            o.single;
      unique = HasUniqueCards-replace new db.cards o.unique;
      logged =
          All-replace _ _ card_key new db.cards (ground (arith, own, id, was, tells, same))
            (λ x ne before. ground (arith, own, id)) o.logged;
    }

-- Where a card may take a status, the card is live before, and the change keeps its wallet.
restatus-Kin : (s : CardStatus) (c : Card) → allowed c.status s ≡ true → Kin (restatus s c) c
restatus-Kin s c free k live = ground (arith, allowed-live c.status s free)

change_status-IsOrderly :
    (ctx : Context) (id : ℕ) (s : CardStatus) (call : Card → Result (Unit {0}))
    (event_type : CardEventType) (actor : ℕ) (reason : Option String) (announce : Card → Event)
    (db : Db)
    → status_after event_type ≡ some s
    → IsOrderly db
    → IsOrderly (change_status ctx id s call event_type actor reason announce db).1
change_status-IsOrderly ctx id s call event_type actor reason announce db tells o =
    elim (change_status_lem ctx id s call event_type actor reason announce db) [
      | inl (e, r) ↦ rw r o
      | inr (old, r, here, free) ↦ rw r (
          IsOrderly-change db id old (restatus s old) (event ctx id event_type actor reason none)
            (announce (restatus s old)) here refl (restatus-Kin s old free) refl (ground arith) o)
    ]

-- A new card, and the event that tells of it.
IsOrderly-insert :
    (db : Db) (c : Card) (e : CardEvent) (announced : Event)
    → find (live_on c.wallet_id) db.cards ≡ none
    → get card_key c.id db.cards ≡ none
    → e.card_id ≡ c.id
    → status_after e.event_type ≡ some c.status
    → IsOrderly db
    → IsOrderly (with_card c e announced db)
IsOrderly-insert db c e announced none_live free own tells o = record {
  single = ((λ k live. ground (arith, none_live)), o.single);
  unique = (free, o.unique);
  logged = (ground (arith, own, tells), others db.cards free o.logged);
}
  where
    others :
        (cards : List Card)
        → get card_key c.id cards ≡ none
        → All (λ x. status_by_log x.id db.card_events ≡ some x.status) cards
        → All (λ x. status_by_log x.id (e ∷ db.card_events) ≡ some x.status) cards
    others [] f h = tt
    others (x ∷ cards) f h = (ground (arith, own), others cards (ground arith) h.1)

module _ (processor : Processor) where
  take_step-IsOrderly :
      (s : CardStep) (db : Db) → IsOrderly db → IsOrderly (take_step processor s db)
  unfolding take_step
  take_step-IsOrderly (issue ctx wallet_id owner by controls program) db o =
      elim (issue_card_lem processor ctx wallet_id owner by controls program db) [
        | inl (e, r) ↦ rw (r, take_step) o
        | inr (result, r, none_live, free) ↦
            rw (r, take_step)
              (IsOrderly-insert db (new_card ctx wallet_id owner result controls)
                (event ctx ctx.new_id CardEventType.issued by none none)
                (card_issued ctx.new_id wallet_id owner) none_live free refl refl o)
      ]
  take_step-IsOrderly (activate ctx k actor) db o =
      change_status-IsOrderly ctx k CardStatus.active _ _ actor _ _ db refl o
  take_step-IsOrderly (freeze ctx k actor reason) db o =
      change_status-IsOrderly ctx k CardStatus.frozen _ _ actor reason _ db refl o
  take_step-IsOrderly (unfreeze ctx k actor) db o =
      change_status-IsOrderly ctx k CardStatus.active _ _ actor _ _ db refl o
  take_step-IsOrderly (cancel ctx k actor reason) db o =
      change_status-IsOrderly ctx k CardStatus.cancelled _ _ actor reason _ db refl o
  take_step-IsOrderly (control ctx k actor controls) db o =
      elim (update_spending_controls_lem processor ctx k actor controls db) [
        | inl (e, r) ↦ rw (r, take_step) o
        | inr (old, r, here, live) ↦
            rw (r, take_step)
              (IsOrderly-change db k old (recontrol controls old)
                (event ctx k CardEventType.controls_updated actor none (some controls))
                (card_spending_controls_updated k old.owner_id) here refl (λ j on. on) refl refl o)
      ]

  -- Whatever operations on cards are made, in any order, and whatever the processor answers, if before them a wallet has at most one card that is not cancelled, ids are unique and the log of card events gives every card the status that it has, then so it is after them.
  pub take_steps-IsOrderly :
      (steps : List CardStep) (db : Db) → IsOrderly db → IsOrderly (take_steps processor steps db)
  unfolding take_steps
  take_steps-IsOrderly [] db o = o
  take_steps-IsOrderly (s ∷ steps) db o =
      take_steps-IsOrderly steps (take_step processor s db) (take_step-IsOrderly s db o)
