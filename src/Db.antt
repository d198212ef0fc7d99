-- ===== src/Db.antt =====
-- The database that a request works on, with the events published so far, and the way a service
-- method runs: it changes the database, and returns a value or raises. What a method wrote before
-- it raised is still there; `in_transaction` is what undoes it (app/core/database.py, `get_db`).
pub mod Keeps
use ufirst_backend.Base.{inl, inr, ℕ, List, ◌∷◌, Option, none, some, Bool, if◌then◌else◌}
use ufirst_backend.Core.Errors.{Error, Result, ok, err, Result-cases}
use ufirst_backend.Wallet.Models.{
  Wallet, LedgerEntry, FundingTransfer, OpenBankingPayment, CardPayment, SponsorBankConnection,
}
use ufirst_backend.Wallet.Events.{Event as WalletEvent}
use ufirst_backend.Card.Models.{Card, CardEvent, Event as CardModuleEvent}
use ufirst_backend.Identity.Models.{
  User, KycSubmission, SponsorBeneficiaryLink, Event as IdentityEvent,
}
use ufirst_backend.Transaction.Models.{Authorization, Clearing, Dispute, Event as TransactionEvent}

-- An event of one of the modules, as `events.publish` takes it.
pub data Event : Type 0 where
  wallet : WalletEvent → Event
  card : CardModuleEvent → Event
  transaction : TransactionEvent → Event
  identity : IdentityEvent → Event

-- The tables, newest row first, and the published events, newest first.
pub record Db : Type 0 where
  pub wallets : List Wallet
  pub ledger_entries : List LedgerEntry
  pub funding_transfers : List FundingTransfer
  pub open_banking_payments : List OpenBankingPayment
  pub card_payments : List CardPayment
  pub bank_connections : List SponsorBankConnection
  pub cards : List Card
  pub card_events : List CardEvent
  pub authorizations : List Authorization
  pub clearings : List Clearing
  pub disputes : List Dispute
  pub users : List User
  pub kyc_submissions : List KycSubmission
  pub links : List SponsorBeneficiaryLink
  pub published : List Event

-- What a request takes from outside: the time, and the id that `gen_random_uuid` gives to the row
-- that it creates.
pub record Context : Type 0 where
  pub now : ℕ
  pub new_id : ℕ

abbrev pub Action : Type 0 → Type 0
Action A = Db → Result A × Db

module _ {A : Type 0} where
  abbrev pub pure : A → Action A
  pure a db = (ok a, db)

  abbrev pub raise : Error → Action A
  raise e db = (err e, db)

  abbrev pub gets : (Db → A) → Action A
  gets f db = (ok (f db), db)

  -- `if x is None: raise e`
  abbrev pub or_raise : Option A → Error → Action A
  or_raise none e = raise e
  or_raise (some a) e = pure a

infixl 5 ◌>>=◌ ◌>>◌
abbrev pub ◌>>=◌ : {A B : Type 0} → Action A → (A → Action B) → Action B
◌>>=◌ m f db = let (r, db') = m db in elim r [ ok a ↦ f a db' | err e ↦ (err e, db') ]

abbrev pub ◌>>◌ : {A B : Type 0} → Action A → Action B → Action B
m >> k = m >>= λ _. k

abbrev pub raise_if : Bool → Error → Action (Unit {0})
raise_if b e db = (if b then err e else ok tt, db)

abbrev pub modify : (Db → Db) → Action (Unit {0})
modify f db = (ok tt, f db)

-- The handlers run in sessions of their own, and what they raise is caught and logged.
abbrev pub publish : Event → Action (Unit {0})
publish e = modify λ db. record db { published = e ∷ db.published }

-- `get_db`: the session commits what a method did, or rolls it back if the method raises. Events
-- that were published stay published.
abbrev pub in_transaction : {A : Type 0} → Action A → Action A
in_transaction m db =
    let (r, db') = m db in
    elim r [ ok a ↦ (ok a, db') | err e ↦ (err e, record db { published = db'.published }) ]

-- What holds of the database before a method and after it, and does not look at the events, holds
-- after the transaction.
pub in_transaction-keeps {ℓ} :
    {A : Type 0} (P : Db → Type ℓ) (m : Action A) (db : Db)
    → ((db' : Db) → P (record db { published = db'.published }))
    → P (m db).1
    → P (in_transaction m db).1
in_transaction-keeps P m db before after = elim (Result-cases (m db).0) [
  | inl (a, e) ↦ rw (in_transaction, e) after
  | inr (e, f) ↦ rw (in_transaction, f) (before (m db).1)
]
