-- ===== src/Wallet/PaymentRecords.antt =====
-- The records of payments at the aggregators: the queries and updates of
-- app/modules/wallet/repository.py on bank payments and card payments, and the look-ups of the
-- periodic tasks.
use ufirst_backend.Base.{
  ℕ, ◌+◌, String, Option, none, some, List, [], ◌∷◌, ◌++◌, Bool, not, ◌&&◌, ◌||◌, ◌==◌, ltb, str_eq,
  is_some, if◌then◌else◌,
}
use ufirst_backend.Base.Int.{pos}
use ufirst_backend.Base.Table.{find, filter}
use ufirst_backend.Core.Errors.{integrity_error}
use ufirst_backend.Db.{Context, Action, pure, gets, modify, raise_if, ◌>>=◌, ◌>>◌}
use ufirst_backend.Wallet.Models.{
  FundingTransfer, PaymentState, state_eq, OpenBankingPayment, CardPayment,
}

-- Bank payments.

abbrev pub of_transfer : ℕ → OpenBankingPayment → Bool
of_transfer transfer_id p = p.funding_transfer_id == transfer_id

abbrev pub has_payment_id : String → OpenBankingPayment → Bool
has_payment_id payment_id p = str_eq p.aggregator_payment_id payment_id

abbrev pub get_open_banking_payment_by_transfer_id : ℕ → Action (Option OpenBankingPayment)
get_open_banking_payment_by_transfer_id transfer_id =
    gets λ db. find (of_transfer transfer_id) db.open_banking_payments

abbrev pub get_open_banking_payment_by_aggregator_id : String → Action (Option OpenBankingPayment)
get_open_banking_payment_by_aggregator_id payment_id =
    gets λ db. find (has_payment_id payment_id) db.open_banking_payments

-- A transfer has one bank payment, and a payment id of the aggregator is used once.
unfoldable pub create_open_banking_payment :
    ℕ → (aggregator aggregator_payment_id auth_link : String) → Action OpenBankingPayment
create_open_banking_payment transfer_id aggregator payment_id auth_link = do
  same_transfer ← get_open_banking_payment_by_transfer_id transfer_id
  same_id ← get_open_banking_payment_by_aggregator_id payment_id
  raise_if (is_some same_transfer || is_some same_id) integrity_error
  let payment : OpenBankingPayment = record {
    funding_transfer_id = transfer_id;
    aggregator = aggregator;
    aggregator_payment_id = payment_id;
    auth_link = auth_link;
    bank_status = none;
    failure_reason = none;
    webhook_received_at = none;
  }
  modify λ db. record db { open_banking_payments = payment ∷ db.open_banking_payments }
  pure payment

-- The row of a payment is the one with its unique payment id.
abbrev pub replace_payment : OpenBankingPayment → List OpenBankingPayment → List OpenBankingPayment
replace_payment p [] = []
replace_payment p (x ∷ rows) =
    (if has_payment_id p.aggregator_payment_id x then p else x) ∷ replace_payment p rows

-- `if value is not None: field = value`
abbrev kept_or : Option String → Option String → Option String
kept_or none old = old
kept_or (some value) old = some value

abbrev pub updated_payment :
    Context → OpenBankingPayment → String → Option String → OpenBankingPayment
updated_payment ctx p bank_status failure_reason = record p {
  bank_status = some bank_status;
  webhook_received_at = some ctx.now;
  failure_reason = kept_or failure_reason p.failure_reason;
}

-- With the time of the call as `webhook_received_at`.
abbrev pub update_open_banking_payment :
    Context → OpenBankingPayment → String → Option String → Action OpenBankingPayment
update_open_banking_payment ctx p bank_status failure_reason = do
  let changed = updated_payment ctx p bank_status failure_reason
  modify
      λ db. record db { open_banking_payments = replace_payment changed db.open_banking_payments }
  pure changed

-- Card payments.

abbrev pub get_card_payment_by_transfer_id : ℕ → Action (Option CardPayment)
get_card_payment_by_transfer_id transfer_id =
    gets λ db. find (λ p. p.funding_transfer_id == transfer_id) db.card_payments

abbrev pub get_card_payment_by_intent_id : String → Action (Option CardPayment)
get_card_payment_by_intent_id intent_id =
    gets λ db. find (λ p. str_eq p.stripe_payment_intent_id intent_id) db.card_payments

unfoldable pub create_card_payment : ℕ → (intent_id auth_link : String) → Action CardPayment
create_card_payment transfer_id intent_id auth_link = do
  same_transfer ← get_card_payment_by_transfer_id transfer_id
  same_id ← get_card_payment_by_intent_id intent_id
  raise_if (is_some same_transfer || is_some same_id) integrity_error
  let payment : CardPayment = record {
    funding_transfer_id = transfer_id;
    stripe_payment_intent_id = intent_id;
    auth_link = auth_link;
    card_last4 = none;
    card_brand = none;
    fee_amount = pos 0;
  }
  modify λ db. record db { card_payments = payment ∷ db.card_payments }
  pure payment

-- The look-ups of the tasks.

-- No step of its authorization for more than 15 minutes.
abbrev pub is_stale : Context → FundingTransfer → Bool
is_stale ctx t =
    state_eq t.payment_state PaymentState.awaiting_authorization
    && ltb (t.payment_state_changed_at + 900) ctx.now

abbrev pub ids_of : List FundingTransfer → List ℕ
ids_of [] = []
ids_of (t ∷ rows) = t.id ∷ ids_of rows

abbrev pub list_stale_authorization_transfer_ids : Context → Action (List ℕ)
list_stale_authorization_transfer_ids ctx =
    gets λ db. ids_of (filter (is_stale ctx) db.funding_transfers)

-- Settlement is awaited, and the transfer is more than 5 minutes old.
abbrev pub is_pending : Context → FundingTransfer → Bool
is_pending ctx t =
    state_eq t.payment_state PaymentState.awaiting_settlement && ltb (t.created_at + 300) ctx.now

-- The pairs that the join gives for one transfer: its bank payments without a webhook.
abbrev silent_payments : ℕ → List OpenBankingPayment → List (ℕ × String)
silent_payments transfer_id [] = []
silent_payments transfer_id (p ∷ rows) =
    if of_transfer transfer_id p && not (is_some p.webhook_received_at)
    then (transfer_id, p.aggregator_payment_id) ∷ silent_payments transfer_id rows
    else silent_payments transfer_id rows

abbrev pub pending_of : Context → List OpenBankingPayment → List FundingTransfer → List (ℕ × String)
pending_of ctx payments [] = []
pending_of ctx payments (t ∷ rows) =
    if is_pending ctx t
    then silent_payments t.id payments ++ pending_of ctx payments rows
    else pending_of ctx payments rows

abbrev pub list_pending_settlement_transfers : Context → Action (List (ℕ × String))
list_pending_settlement_transfers ctx =
    gets λ db. pending_of ctx db.open_banking_payments db.funding_transfers
