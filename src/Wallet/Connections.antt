-- ===== src/Wallet/Connections.antt =====
-- `BankConnectionService` (app/modules/wallet/openbanking/connections.py), and the daily warning of
-- app/modules/wallet/tasks.py. The aggregator, the encryption and the reading of time stamps are
-- parameters.
pub mod Revocation
use ufirst_backend.Base.{
  ℕ, ◌+◌, ◌*◌, String, Option, none, some, List, [], ◌∷◌, Bool, not, ◌==◌, if◌then◌else◌,
}
use ufirst_backend.Core.Errors.{Result, ok, err, not_found, permission_denied}
use ufirst_backend.Db.{Context, Db, Action, pure, raise, raise_if, publish, wallet, ◌>>=◌, ◌>>◌}
use ufirst_backend.Wallet.Models.{SponsorBankConnection, BankConnectionStatus, connection_status_eq}
use ufirst_backend.Wallet.Events.{
  bank_connection_created, bank_connection_revoked, bank_consent_expiring,
}
use ufirst_backend.Wallet.ConnectionRecords.{NewConnection}
use ufirst_backend.Wallet.ConnectionRecords as repo

-- What the aggregator tells of a linked account (app/modules/wallet/openbanking/adapter.py).
pub record BankAccountInfo : Type 0 where
  pub external_account_id : String
  pub account_identifier : String
  pub account_holder_name : String
  pub provider_id : String
  pub provider_display_name : String
  pub currency : String
  pub consent_id : String
  pub consent_expires_at : String

-- The time of the text, or 90 days from now where it names none.
abbrev expiry_or_default : Context → Option ℕ → ℕ
expiry_or_default ctx none = ctx.now + 90 * 86_400
expiry_or_default ctx (some t) = t

abbrev from_result : {A : Type 0} → Result A → Action A
from_result (ok a) = pure a
from_result (err e) = raise e

-- `fetch` is the aggregator's answer to the code, `parse_time` reads a time stamp and is none for
-- an empty or unreadable text, and `aggregator` is the name of the client.
module _ (fetch : (code : String) → Result BankAccountInfo) (encrypt : String → String)
    (parse_time : String → Option ℕ) (aggregator : String) where
  unfoldable pub complete_connection : Context → ℕ → String → Action SponsorBankConnection
  unfolding repo.create_bank_connection
  complete_connection ctx sponsor_id code = do
    info ← from_result (fetch code)
    connection ← repo.create_bank_connection ctx (record {
      sponsor_id = sponsor_id;
      aggregator = aggregator;
      external_account_id = info.external_account_id;
      account_identifier_encrypted = encrypt info.account_identifier;
      account_holder_name = info.account_holder_name;
      provider_id = info.provider_id;
      provider_display_name = info.provider_display_name;
      currency = info.currency;
      consent_id = info.consent_id;
      consent_expires_at = some (expiry_or_default ctx (parse_time info.consent_expires_at));
    })
    publish
        (wallet (bank_connection_created connection.id sponsor_id connection.provider_display_name))
    pure connection

unfoldable pub list_connections : ℕ → Action (List SponsorBankConnection)
list_connections sponsor_id = repo.list_bank_connections sponsor_id

-- `connection is None or connection.sponsor_id != sponsor_id`
abbrev owned_by : ℕ → Option SponsorBankConnection → Action SponsorBankConnection
owned_by sponsor_id none = raise not_found
owned_by sponsor_id (some c) = do raise_if (not (c.sponsor_id == sponsor_id)) not_found; pure c

-- What the aggregator's call raises is logged.
abbrev best_effort : Result (Unit {0}) → Action (Unit {0})
best_effort r = pure tt

module _ (revoke_consent : (consent_id : String) → Result (Unit {0})) where
  abbrev pub revoke_active : ℕ → ℕ → SponsorBankConnection → Action (Unit {0})
  revoke_active connection_id sponsor_id c = do
    raise_if (not (connection_status_eq c.status BankConnectionStatus.active)) permission_denied
    best_effort (revoke_consent c.consent_id)
    repo.update_bank_connection_status connection_id BankConnectionStatus.revoked
    publish (wallet (bank_connection_revoked connection_id sponsor_id))

  abbrev unless_revoked : ℕ → ℕ → SponsorBankConnection → Action (Unit {0})
  unless_revoked connection_id sponsor_id c =
      if connection_status_eq c.status BankConnectionStatus.revoked
      then pure tt
      else revoke_active connection_id sponsor_id c

  unfoldable pub revoke_connection : ℕ → ℕ → Action (Unit {0})
  unfolding repo.update_bank_connection_status
  revoke_connection connection_id sponsor_id = do
    found ← repo.get_bank_connection connection_id
    c ← owned_by sponsor_id found
    unless_revoked connection_id sponsor_id c

-- The warnings, one for each connection on the list.
unfoldable pub warn_each : List SponsorBankConnection → Action (Unit {0})
warn_each [] = pure tt
warn_each (c ∷ connections) = do
  publish (
      wallet (bank_consent_expiring c.id c.sponsor_id c.provider_display_name c.consent_expires_at))
  warn_each connections

unfoldable pub warn_expiring_bank_consent : Context → Action (Unit {0})
warn_expiring_bank_consent ctx = do
  expiring ← repo.list_expiring_connections ctx 7
  warn_each expiring
