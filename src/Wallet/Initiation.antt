-- ===== src/Wallet/Initiation.antt =====
-- `PaymentInitiationService` (app/modules/wallet/openbanking/payments.py). The aggregators, Python's
-- `upper` and the reading of a UUID are parameters. A rate is in millionths, as the column
-- `fx_rate` keeps it. The compliance screen is empty in the source.
pub mod Access
pub mod Retry
use ufirst_backend.Base.{
  ℕ, ◌+◌, ◌*◌, ◌/◌, ◌%◌, String, Option, none, some, Bool, true, false, not, ◌&&◌, ◌||◌, ◌==◌, ltb,
  str_eq, is_some, if◌then◌else◌,
}
use ufirst_backend.Base.Int.{ℤ, pos, negsuc, sub_ℕ}
use ufirst_backend.Base.Table.{find}
use ufirst_backend.Core.Errors.{Result, ok, err}
use ufirst_backend.Db.{Context, Db, Action, pure, raise, gets, publish, wallet, ◌>>=◌, ◌>>◌}
use ufirst_backend.Identity.Service.{verify_sponsor_beneficiary_link}
use ufirst_backend.Wallet.Models.{
  FundingTransfer, PaymentMethod, method_eq, PaymentState, OpenBankingPayment, CardPayment,
  SponsorBankConnection,
}
use ufirst_backend.Wallet.Events.{funding_initiated}
use ufirst_backend.Wallet.Repository.{FundingRequest}
use ufirst_backend.Wallet.PaymentRecords.{
  of_transfer, create_open_banking_payment, create_card_payment,
}
use ufirst_backend.Wallet.ConnectionRecords.{get_bank_connection}
use ufirst_backend.Wallet.Rates.{get_fx_rate, converted}
use ufirst_backend.Wallet.Service.{get_wallet}
use ufirst_backend.Wallet.Funding.{initiate_funding, advance_funding_state}

-- The seconds for which a rate is locked.
abbrev pub fx_lock_seconds : ℕ
fx_lock_seconds = 120

-- The arguments of `initiate_payment`.
pub record PaymentRequest : Type 0 where
  pub sponsor_id : ℕ
  pub wallet_id : ℕ
  pub payment_method : PaymentMethod
  pub source_amount : ℤ
  pub source_currency : String
  pub dest_currency : String
  pub idempotency_key : String
  pub beneficiary_wallet_id : Option ℕ
  pub bank_account_id : Option String

pub record InitiationResult : Type 0 where
  pub payment_id : String
  pub auth_link : String

module _ (upper : String → String) where
  -- What the service asks of `WalletService.initiate_funding`.
  unfoldable pub funding_request : Context → PaymentRequest → ℕ → FundingRequest
  unfolding get_fx_rate
  funding_request ctx p wallet_id =
      let rate = get_fx_rate upper p.source_currency p.dest_currency in
      record {
        wallet_id = wallet_id;
        sponsor_id = p.sponsor_id;
        payment_method = p.payment_method;
        source_amount = p.source_amount;
        source_currency = p.source_currency;
        dest_amount = converted p.source_amount rate;
        dest_currency = p.dest_currency;
        fx_rate = rate;
        fx_rate_locked_until = some (ctx.now + fx_lock_seconds);
        fee_amount = pos 0;
        idempotency_key = p.idempotency_key;
      }

-- The wallet that is funded; a beneficiary's wallet needs an active link to its owner.
unfoldable pub funded_wallet : PaymentRequest → Option ℕ → Action ℕ
unfolding get_wallet verify_sponsor_beneficiary_link
funded_wallet p none = pure p.wallet_id
funded_wallet p (some beneficiary_wallet_id) = do
  bene_wallet ← get_wallet beneficiary_wallet_id
  verify_sponsor_beneficiary_link p.sponsor_id bene_wallet.owner_id
  pure beneficiary_wallet_id

abbrev pub is_card : PaymentMethod → Bool
is_card method = method_eq method PaymentMethod.card

abbrev ob_link : Option OpenBankingPayment → Option String
ob_link none = none
ob_link (some p) = some p.auth_link

abbrev card_link : Option CardPayment → Option String
card_link none = none
card_link (some p) = some p.auth_link

-- The link of an earlier attempt.
abbrev pub existing_link : ℕ → PaymentMethod → Db → Option String
existing_link transfer_id method db =
    if is_card method
    then card_link (find (λ p. p.funding_transfer_id == transfer_id) db.card_payments)
    else ob_link (find (of_transfer transfer_id) db.open_banking_payments)

abbrev pub get_existing_auth_link : ℕ → PaymentMethod → Action (Option String)
get_existing_auth_link transfer_id method = gets (existing_link transfer_id method)

abbrev pub provider_or : String → Option SponsorBankConnection → String
provider_or id none = id
provider_or id (some c) = c.provider_id

abbrev pub has_aggregator : PaymentMethod → Bool
has_aggregator method = method_eq method PaymentMethod.open_banking || is_card method

abbrev pub tell_initiated : ℕ → PaymentRequest → Action (Unit {0})
tell_initiated transfer_id p = publish (
    wallet (
      funding_initiated transfer_id p.sponsor_id p.payment_method p.source_amount
        p.source_currency))

-- `initiate` is the aggregator of the method, `bank_id` its bank; it gives a payment or raises.
abbrev pub Initiate : Type 0
Initiate =
    PaymentMethod
    → (amount : ℤ) → (currency idempotency_key : String) → (bank_id : Option String)
    → Result InitiationResult

module _ (uuid_of : String → Option ℕ) (aggregator : String) (initiate : Initiate)
    (ctx : Context) where
  abbrev connection_of : String → Option ℕ → Action (Option SponsorBankConnection)
  connection_of id none = pure none
  connection_of id (some uuid) = get_bank_connection uuid

  -- The bank as the aggregator names it: of a connection its provider, else the text itself.
  abbrev pub aggregator_bank_id : PaymentMethod → Option String → Action (Option String)
  aggregator_bank_id method none = pure none
  aggregator_bank_id method (some id) =
      if method_eq method PaymentMethod.open_banking && not (str_eq id "")
      then (do c ← connection_of id (uuid_of id); pure (some (provider_or id c)))
      else pure (some id)

  abbrev pub call_aggregator : PaymentRequest → Option String → Action InitiationResult
  call_aggregator p bank_id db =
      (initiate p.payment_method p.source_amount p.source_currency p.idempotency_key bank_id, db)

  abbrev pub persist : PaymentMethod → ℕ → InitiationResult → Action (Unit {0})
  persist method transfer_id result =
      if is_card method
      then (do create_card_payment transfer_id result.payment_id result.auth_link; pure tt)
      else (do
        create_open_banking_payment transfer_id aggregator result.payment_id result.auth_link
        pure tt)

  -- No aggregator takes these methods.
  unfoldable pub without_aggregator : PaymentRequest → ℕ → Action (ℕ × Option String)
  unfolding advance_funding_state
  without_aggregator p transfer_id = do
    advance_funding_state ctx transfer_id PaymentState.awaiting_authorization none none
    tell_initiated transfer_id p
    pure (transfer_id, none)

  -- Steps 7 to 9 of the flow.
  unfoldable pub await_authorization :
      PaymentRequest → ℕ → InitiationResult → Action (ℕ × Option String)
  unfolding advance_funding_state
  await_authorization p transfer_id result = do
    advance_funding_state ctx transfer_id PaymentState.awaiting_authorization
        (some result.payment_id) none
    tell_initiated transfer_id p
    pure (transfer_id, some result.auth_link)

  -- Step 6.
  unfoldable pub record_payment : PaymentRequest → ℕ → InitiationResult → Action (ℕ × Option String)
  unfolding create_open_banking_payment create_card_payment
  record_payment p transfer_id result = do
    persist p.payment_method transfer_id result
    await_authorization p transfer_id result

  -- Step 5.
  abbrev pub call_bank : PaymentRequest → ℕ → Option String → Action (ℕ × Option String)
  call_bank p transfer_id bank_id = call_aggregator p bank_id >>= record_payment p transfer_id

  unfoldable pub with_aggregator : PaymentRequest → ℕ → Action (ℕ × Option String)
  with_aggregator p transfer_id =
      aggregator_bank_id p.payment_method p.bank_account_id >>= call_bank p transfer_id

  unfoldable pub start_payment : PaymentRequest → ℕ → Option String → Action (ℕ × Option String)
  start_payment p transfer_id (some link) = pure (transfer_id, some link)
  start_payment p transfer_id none =
      if has_aggregator p.payment_method
      then with_aggregator p transfer_id
      else without_aggregator p transfer_id

  -- From the look-up of an earlier attempt on.
  unfoldable pub resume_payment : PaymentRequest → ℕ → Action (ℕ × Option String)
  resume_payment p transfer_id = do
    cached_link ← get_existing_auth_link transfer_id p.payment_method
    start_payment p transfer_id cached_link

  -- `others` is what other requests commit before the insert of the transfer.
  unfoldable pub initiate_payment :
      (upper : String → String) → (others : Db → Db) → PaymentRequest → Action (ℕ × Option String)
  unfolding funding_request initiate_funding
  initiate_payment upper others p = do
    wallet_id ← funded_wallet p p.beneficiary_wallet_id
    transfer ← initiate_funding ctx others (funding_request upper ctx p wallet_id)
    resume_payment p transfer.id
