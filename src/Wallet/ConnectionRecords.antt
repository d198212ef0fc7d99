-- ===== src/Wallet/ConnectionRecords.antt =====
-- The bank accounts that sponsors linked: the queries and updates of
-- app/modules/wallet/repository.py on bank connections.
use ufirst_backend.Base.{
  ℕ, ◌+◌, ◌*◌, String, Option, none, some, List, ◌∷◌, Bool, ◌&&◌, false, leb, is_some, ◌==◌,
}
use ufirst_backend.Base.Table.{get, filter, replace}
use ufirst_backend.Core.Errors.{integrity_error}
use ufirst_backend.Db.{Context, Action, pure, gets, modify, raise_if, ◌>>=◌, ◌>>◌}
use ufirst_backend.Wallet.Models.{SponsorBankConnection, BankConnectionStatus, connection_status_eq}

abbrev pub connection_key : SponsorBankConnection → ℕ
connection_key c = c.id

abbrev pub get_bank_connection : ℕ → Action (Option SponsorBankConnection)
get_bank_connection connection_id = gets λ db. get connection_key connection_id db.bank_connections

abbrev is_active : SponsorBankConnection → Bool
is_active c = connection_status_eq c.status BankConnectionStatus.active

-- The active connections of a sponsor.
abbrev pub list_bank_connections : ℕ → Action (List SponsorBankConnection)
list_bank_connections sponsor_id =
    gets λ db. filter (λ c. c.sponsor_id == sponsor_id && is_active c) db.bank_connections

-- What `create_bank_connection` takes, its id and its status aside.
pub record NewConnection : Type 0 where
  pub sponsor_id : ℕ
  pub aggregator : String
  pub external_account_id : String
  pub account_identifier_encrypted : String
  pub account_holder_name : String
  pub provider_id : String
  pub provider_display_name : String
  pub currency : String
  pub consent_id : String
  pub consent_expires_at : Option ℕ

abbrev pub new_connection : Context → NewConnection → SponsorBankConnection
new_connection ctx n = record {
  id = ctx.new_id;
  sponsor_id = n.sponsor_id;
  aggregator = n.aggregator;
  external_account_id = n.external_account_id;
  account_identifier_encrypted = n.account_identifier_encrypted;
  account_holder_name = n.account_holder_name;
  provider_id = n.provider_id;
  provider_display_name = n.provider_display_name;
  currency = n.currency;
  consent_id = n.consent_id;
  consent_expires_at = n.consent_expires_at;
  status = BankConnectionStatus.active;
}

unfoldable pub create_bank_connection : Context → NewConnection → Action SponsorBankConnection
create_bank_connection ctx n = do
  same_id ← get_bank_connection ctx.new_id
  raise_if (is_some same_id) integrity_error
  modify λ db. record db { bank_connections = new_connection ctx n ∷ db.bank_connections }
  pure (new_connection ctx n)

abbrev pub with_status : BankConnectionStatus → SponsorBankConnection → SponsorBankConnection
with_status status c = record c { status = status }

abbrev update_found :
    BankConnectionStatus → Option SponsorBankConnection → Action (Option SponsorBankConnection)
update_found status none = pure none
update_found status (some c) = do
  modify λ db. record db {
    bank_connections = replace connection_key (with_status status c) db.bank_connections;
  }
  pure (some (with_status status c))

unfoldable pub update_bank_connection_status :
    ℕ → BankConnectionStatus → Action (Option SponsorBankConnection)
update_bank_connection_status connection_id status = do
  connection ← get_bank_connection connection_id
  update_found status connection

-- The consent ends within so many days, of 86400 seconds each.
abbrev pub is_expiring : Context → ℕ → SponsorBankConnection → Bool
is_expiring ctx days_ahead c =
    is_active c
    && elim c.consent_expires_at [ none ↦ false | some t ↦ leb t (ctx.now + days_ahead * 86_400) ]

abbrev pub list_expiring_connections : Context → ℕ → Action (List SponsorBankConnection)
list_expiring_connections ctx days_ahead =
    gets λ db. filter (is_expiring ctx days_ahead) db.bank_connections
