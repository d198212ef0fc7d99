-- ===== src/Transaction/Service.antt =====
-- `TransactionService` (app/modules/transaction/service.py): the decision on a card payment, its
-- clearing and its reversal, disputes and the reading of transactions.
pub mod Outcomes
pub mod Settlement
use Prim.Native.String.{◌++◌ as str_append}
use Prim.Native.String.{String}
use ufirst_backend.Base.{
  ℕ, zero, suc, ◌-◌, ◌*◌, Option, none, some, List, [], ◌∷◌, Bool, true, false, not, ◌||◌, ◌==◌,
  str_eq, if◌then◌else◌,
}
use ufirst_backend.Base.Int.{ℤ, ◌+ℤ◌, ltb_ℤ}
use ufirst_backend.Core.Errors.{
  Error, Result, ok, err, not_found, permission_denied, invalid_state_transition,
}
use ufirst_backend.Db.{Context, Action, pure, or_raise, raise_if, publish, transaction, ◌>>=◌, ◌>>◌}
use ufirst_backend.Card.Models.{Card, CardStatus, card_status_eq, SpendingControls}
use ufirst_backend.Wallet.Models.{Wallet}
use ufirst_backend.Wallet.Service.{
  get_wallet_by_owner, reserve_balance, release_reserve, settle_reserve,
}
use ufirst_backend.Transaction.Models.{
  Authorization, AuthorizationStatus, auth_status_eq, DeclineReason, Clearing, Dispute,
  AuthorizationPayload, ClearingPayload, Decision, Verdict, transaction_authorized,
  transaction_declined, transaction_cleared, transaction_reversed,
}
use ufirst_backend.Transaction.Repository as repo
use ufirst_backend.Wallet.Repository

-- `_nil_uuid`
abbrev pub nil_uuid : ℕ
nil_uuid = 0

abbrev pub contains : String → List String → Bool
contains s [] = false
contains s (t ∷ ts) = str_eq s t || contains s ts

abbrev no_controls : SpendingControls
no_controls = record { daily_limit = none; categories = none; merchant_allowlist = none }

-- `card.spending_controls or {}`
abbrev pub controls_of : Card → SpendingControls
controls_of card = elim card.spending_controls [ none ↦ no_controls | some c ↦ c ]

-- 3a. Today's holds of the card and this payment pass the daily limit.
abbrev pub over_limit : Option ℤ → ℤ → ℤ → Bool
over_limit none daily_total amount = false
over_limit (some daily_limit) daily_total amount = ltb_ℤ daily_limit (daily_total +ℤ amount)

-- 3b. There is an allowlist of categories, and the merchant's is not on it.
abbrev pub category_refused : Option (List String) → Option String → Bool
category_refused (some allowed) (some code) = not (contains code allowed)
category_refused _ _ = false

-- 3c. There is an allowlist of merchants, and this one is not on it.
abbrev pub merchant_refused : Option (List String) → String → Bool
merchant_refused none name = false
merchant_refused (some allowed) name = not (contains name allowed)

-- Whether a `TransactionDeclined` goes with the refusal.
abbrev pub announced : DeclineReason → Bool
announced DeclineReason.card_not_found = false
announced DeclineReason.wallet_not_found = false
announced DeclineReason.reserve_failed = false
announced _ = true

abbrev refusal_by_balance : AuthorizationPayload → Option Wallet → Option DeclineReason
refusal_by_balance payload none = some DeclineReason.wallet_not_found
refusal_by_balance payload (some w) =
    if ltb_ℤ w.available_balance payload.amount
    then some DeclineReason.insufficient_balance
    else none

-- The checks 2 to 4, in their order: the first that fails gives the reason.
unfoldable pub refusal : Card → AuthorizationPayload → ℤ → Option Wallet → Option DeclineReason
refusal card payload daily_total w =
    if not (card_status_eq card.status CardStatus.active)
    then some DeclineReason.card_inactive
    else if over_limit (controls_of card).daily_limit daily_total payload.amount
    then some DeclineReason.daily_limit_exceeded
    else if category_refused (controls_of card).categories payload.merchant_category_code
    then some DeclineReason.category_not_allowed
    else if merchant_refused (controls_of card).merchant_allowlist payload.merchant_name
    then some DeclineReason.merchant_not_allowed
    else refusal_by_balance payload w

abbrev pub declined : DeclineReason → Authorization → Decision
declined reason auth = record {
  decision = Verdict.refused;
  reason = some reason;
  authorization_id = some auth.id;
}

abbrev pub announce :
    (card_id wallet_id : ℕ) → AuthorizationPayload → DeclineReason → Action (Unit {0})
announce card_id wallet_id payload reason =
    if announced reason
    then publish (
        transaction (
          transaction_declined card_id wallet_id payload.amount payload.currency
            payload.merchant_name reason))
    else pure tt

-- A refused payment leaves a DECLINED record.
abbrev pub decline :
    Context → (card_id wallet_id : ℕ) → AuthorizationPayload → DeclineReason → Action Decision
decline ctx card_id wallet_id payload reason = do
  auth ←
      repo.create_authorization ctx card_id wallet_id payload AuthorizationStatus.declined
        (some reason)
  announce card_id wallet_id payload reason
  pure (declined reason auth)

-- `try`: what the action raises is a value.
abbrev pub attempt : {A : Type 0} → Action A → Action (Result A)
attempt m db = let (r, db') = m db in (ok r, db')

-- 5. After the reservation: an error downgrades the record, else the payment is approved.
abbrev pub conclude : Card → AuthorizationPayload → Authorization → Result Wallet → Action Decision
conclude card payload auth (err e) = do
  downgraded ← repo.update_authorization_status auth AuthorizationStatus.declined
  repo.flush_authorization
      (record downgraded { decline_reason = some DeclineReason.reserve_failed })
  pure (declined DeclineReason.reserve_failed auth)
conclude card payload auth (ok w) = do
  publish (
      transaction (
        transaction_authorized auth.id card.id card.wallet_id payload.amount payload.currency
          payload.merchant_name))
  pure (record { decision = Verdict.approved; reason = none; authorization_id = some auth.id })

abbrev pub approve : Context → Card → AuthorizationPayload → Action Decision
approve ctx card payload = do
  auth ←
      repo.create_authorization ctx card.id card.wallet_id payload AuthorizationStatus.authorized
        none
  held ← attempt (reserve_balance ctx card.wallet_id payload.amount "authorization" auth.id)
  conclude card payload auth held

abbrev pub decide : Context → Card → AuthorizationPayload → Option DeclineReason → Action Decision
decide ctx card payload (some reason) = decline ctx card.id card.wallet_id payload reason
decide ctx card payload none = approve ctx card payload

abbrev pub authorize_card : Context → AuthorizationPayload → Option Card → Action Decision
authorize_card ctx payload none = decline ctx nil_uuid nil_uuid payload DeclineReason.card_not_found
authorize_card ctx payload (some card) = do
  daily_total ← repo.get_daily_authorized_total ctx card.id
  w ← Repository.get_wallet card.wallet_id
  decide ctx card payload (refusal card payload daily_total w)

unfoldable pub authorize : Context → AuthorizationPayload → Action Decision
authorize ctx payload = do
  card ← repo.get_card_by_processor_token payload.card_token
  authorize_card ctx payload card

-- `s[:n]`
take_chars : ℕ → String → String
take_chars zero s = ""
take_chars (suc n) String.[] = ""
take_chars (suc n) (String.◌∷◌ c s) = String.◌∷◌ c (take_chars n s)

-- `f"Card clearing {payload.processor_auth_ref[:20]}"`
unfoldable pub clearing_description : ClearingPayload → String
unfolding take_chars
clearing_description payload =
    str_append "Card clearing " (take_chars 20 payload.processor_auth_ref)

-- The authorization of a reference, while it is still a hold.
unfoldable pub held_authorization : String → Action Authorization
held_authorization ref = do
  auth ← or_raise (← repo.get_authorization_by_processor_ref ref) not_found
  raise_if (not (auth_status_eq auth.status AuthorizationStatus.authorized))
      invalid_state_transition
  pure auth

unfoldable pub process_clearing : Context → ClearingPayload → Action Clearing
process_clearing ctx payload = do
  auth ← held_authorization payload.processor_auth_ref
  clearing ←
      repo.create_clearing ctx auth.id payload.cleared_amount payload.cleared_currency
        payload.processor_clearing_ref
  settle_reserve ctx auth.wallet_id payload.cleared_amount "clearing" clearing.id
      (some (clearing_description payload))
  cleared ← repo.update_authorization_status auth AuthorizationStatus.cleared
  publish (
      transaction (
        transaction_cleared cleared.id cleared.card_id cleared.wallet_id payload.cleared_amount
          payload.cleared_currency))
  pure clearing

unfoldable pub process_reversal : Context → String → Action (Unit {0})
process_reversal ctx processor_auth_ref = do
  auth ← held_authorization processor_auth_ref
  release_reserve ctx auth.wallet_id auth.amount "reversal" auth.id
  reversed ← repo.update_authorization_status auth AuthorizationStatus.reversed
  publish (
      transaction (
        transaction_reversed reversed.id reversed.card_id reversed.wallet_id reversed.amount
          reversed.currency))

-- `except NotFound: raise PermissionDenied`
abbrev denied_if_not_found : {A : Type 0} → Action A → Action A
denied_if_not_found m db =
    let (r, db') = m db in
    elim r [
      | ok a ↦ (ok a, db')
      | err Error.not_found ↦ (err permission_denied, db')
      | err e ↦ (err e, db')
    ]

-- The authorization, if the user owns the wallet that it was made on.
abbrev owned_authorization : ℕ → ℕ → Action Authorization
owned_authorization authorization_id user_id = do
  auth ← or_raise (← repo.get_authorization authorization_id) not_found
  user_wallet ← denied_if_not_found (get_wallet_by_owner user_id)
  raise_if (not (auth.wallet_id == user_wallet.id)) permission_denied
  pure auth

unfoldable pub open_dispute : Context → (authorization_id user_id : ℕ) → String → Action Dispute
unfolding get_wallet_by_owner
open_dispute ctx authorization_id user_id reason = do
  owned_authorization authorization_id user_id
  repo.create_dispute ctx authorization_id reason

-- The routes give a page of 1 or more.
unfoldable pub list_transactions : (wallet_id page per_page : ℕ) → Action (List Authorization)
list_transactions wallet_id page per_page =
    repo.list_authorizations_for_wallet wallet_id per_page ((page - 1) * per_page)

unfoldable pub get_authorization : (authorization_id user_id : ℕ) → Action Authorization
unfolding get_wallet_by_owner
get_authorization authorization_id user_id = owned_authorization authorization_id user_id
