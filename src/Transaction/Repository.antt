-- ===== src/Transaction/Repository.antt =====
-- The queries and updates of app/modules/transaction/repository.py, and the look-up of a card by
-- its token (app/modules/card/repository.py).
use ufirst_backend.Base.{
  ℕ, ◌-◌, ◌%◌, String, Option, none, List, [], ◌∷◌, Bool, ◌&&◌, ◌||◌, ◌==◌, leb, str_eq, is_some,
}
use ufirst_backend.Base.Int.{ℤ, pos, ◌+ℤ◌}
use ufirst_backend.Base.Table.{get, find, filter, replace, take, drop}
use ufirst_backend.Core.Errors.{integrity_error}
use ufirst_backend.Db.{Context, Action, pure, gets, modify, raise_if, ◌>>=◌, ◌>>◌}
use ufirst_backend.Card.Models.{Card}
use ufirst_backend.Transaction.Models.{
  Authorization, AuthorizationStatus, auth_status_eq, DeclineReason, Clearing, Dispute,
  DisputeStatus, AuthorizationPayload,
}

abbrev pub auth_key : Authorization → ℕ
auth_key a = a.id

abbrev pub get_card_by_processor_token : String → Action (Option Card)
get_card_by_processor_token token = gets λ db. find (λ c. str_eq c.processor_token token) db.cards

abbrev pub get_authorization : ℕ → Action (Option Authorization)
get_authorization authorization_id = gets λ db. get auth_key authorization_id db.authorizations

abbrev pub has_ref : String → Authorization → Bool
has_ref ref a = str_eq a.processor_auth_ref ref

abbrev pub get_authorization_by_processor_ref : String → Action (Option Authorization)
get_authorization_by_processor_ref ref = gets λ db. find (has_ref ref) db.authorizations

abbrev pub new_authorization :
    Context
    → (card_id wallet_id : ℕ) → AuthorizationPayload
    → AuthorizationStatus
    → Option DeclineReason
    → Authorization
new_authorization ctx card_id wallet_id payload status decline_reason = record {
  id = ctx.new_id;
  card_id = card_id;
  wallet_id = wallet_id;
  merchant_name = payload.merchant_name;
  merchant_category_code = payload.merchant_category_code;
  amount = payload.amount;
  currency = payload.currency;
  status = status;
  processor_auth_ref = payload.processor_auth_ref;
  decline_reason = decline_reason;
  authorized_at = ctx.now;
}

-- The reference of the processor and the id are unique.
unfoldable pub create_authorization :
    Context
    → (card_id wallet_id : ℕ) → AuthorizationPayload
    → AuthorizationStatus
    → Option DeclineReason
    → Action Authorization
create_authorization ctx card_id wallet_id payload status decline_reason = do
  same_ref ← get_authorization_by_processor_ref payload.processor_auth_ref
  same_id ← get_authorization ctx.new_id
  raise_if (is_some same_ref || is_some same_id) integrity_error
  let auth = new_authorization ctx card_id wallet_id payload status decline_reason
  modify λ db. record db { authorizations = auth ∷ db.authorizations }
  pure auth

-- `flush` after a change of an authorization
abbrev pub flush_authorization : Authorization → Action (Unit {0})
flush_authorization a =
    modify λ db. record db { authorizations = replace auth_key a db.authorizations }

abbrev pub update_authorization_status : Authorization → AuthorizationStatus → Action Authorization
update_authorization_status auth new_status = do
  let changed : Authorization = record auth { status = new_status }
  flush_authorization changed
  pure changed

abbrev pub new_clearing : Context → ℕ → ℤ → String → Option String → Clearing
new_clearing ctx authorization_id cleared_amount cleared_currency ref = record {
  id = ctx.new_id;
  authorization_id = authorization_id;
  cleared_amount = cleared_amount;
  cleared_currency = cleared_currency;
  processor_clearing_ref = ref;
  cleared_at = ctx.now;
}

-- An authorization has one clearing.
unfoldable pub create_clearing : Context → ℕ → ℤ → String → Option String → Action Clearing
create_clearing ctx authorization_id cleared_amount cleared_currency ref = do
  same_auth ← gets λ db. find (λ c. c.authorization_id == authorization_id) db.clearings
  same_id ← gets λ db. find (λ c. c.id == ctx.new_id) db.clearings
  raise_if (is_some same_auth || is_some same_id) integrity_error
  let clearing = new_clearing ctx authorization_id cleared_amount cleared_currency ref
  modify λ db. record db { clearings = clearing ∷ db.clearings }
  pure clearing

-- Midnight of the day of a time, in UTC.
abbrev pub today_start : ℕ → ℕ
today_start now = now - now % 86_400

abbrev pub counts_today : ℕ → ℕ → Authorization → Bool
counts_today card_id now a =
    a.card_id == card_id
    && (auth_status_eq a.status AuthorizationStatus.authorized
        && leb (today_start now) a.authorized_at)

abbrev pub sum_amounts : List Authorization → ℤ
sum_amounts [] = pos 0
sum_amounts (a ∷ rows) = sum_amounts rows +ℤ a.amount

abbrev pub get_daily_authorized_total : Context → ℕ → Action ℤ
get_daily_authorized_total ctx card_id =
    gets λ db. sum_amounts (filter (counts_today card_id ctx.now) db.authorizations)

abbrev pub create_dispute : Context → ℕ → String → Action Dispute
create_dispute ctx authorization_id reason = do
  let dispute : Dispute = record {
    id = ctx.new_id;
    authorization_id = authorization_id;
    reason = reason;
    status = DisputeStatus.open_dispute;
    opened_at = ctx.now;
    resolved_at = none;
    resolution = none;
  }
  modify λ db. record db { disputes = dispute ∷ db.disputes }
  pure dispute

-- The newest first, as the table is kept.
abbrev pub list_authorizations_for_wallet : ℕ → ℕ → ℕ → Action (List Authorization)
list_authorizations_for_wallet wallet_id limit offset =
    gets λ db. take limit (drop offset (filter (λ a. a.wallet_id == wallet_id) db.authorizations))
