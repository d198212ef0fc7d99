-- ===== src/Lib.antt =====
-- The backend of U-FirstSupport: sponsors abroad fund the wallets of beneficiaries, who spend with
-- prepaid cards. Amounts are integers in minor units.
--
-- The program's parts. app/modules/wallet keeps wallets, each with an available and a reserved
-- balance, an append-only ledger, and funding transfers with a state machine. app/modules/card
-- keeps the cards. app/modules/transaction decides on card payments: an authorization reserves
-- money of the wallet through the wallet service, a clearing settles the reserved money as a debit
-- of the ledger, and a reversal releases it. The services work on one session of the database for a
-- request (app/core/database.py) and publish events (app/core/events.py).
--
-- The files:
--   Base, Base/Tests, Base/Int, Base/Table, Base/Text: shared names, tests on numbers, Python's
--     integers, tables as lists of rows, and the cutting of texts.
--   Core/Errors: app/core/exceptions.py, as results that are a value or an error.
--   Core/Auth: app/core/auth.py. Core/Json: what the code does with decoded JSON.
--   Core/Middleware: the idempotency middleware of app/core/middleware.py, with its children Steps
--     and Once, on interleaved requests, and Replay. Core/Pagination, Core/Money: the files of
--     app/core of these names.
--   Db: the tables and the published events as one record, and the actions of a service: they take
--     the database and give a result and the database; what was written before an error stays,
--     until `in_transaction` (get_db) rolls it back. Db/Keeps: what composed actions keep.
--   Identity/Models, Repository, Service: the files of app/modules/identity of these names, with
--     the requests of its schemas and its events. Identity/Links: the links as a relation.
--     Identity/Accounts: the provisioning of users. Identity/Roles: what onboarding leaves.
--   Identity/Middleware: app/modules/identity/middleware.py, and how a request comes to its handler.
--     Roles: whose role a request has; Guards: the check of the role. Identity/Routes: routes.py of
--     app/modules/identity; Kyc: the webhook of the KYC provider.
--   Wallet/Routes, Card/Routes, Transaction/Routes: the files routes.py. Routes/Access: who may do
--     what. Wallet/Handlers: app/modules/wallet/handlers.py.
--   Wallet/Models, Wallet/Events, Wallet/Repository: the files of app/modules/wallet of the same
--     names. Wallet/Service: the balances of WalletService. Wallet/Funding: its transfers.
--   Wallet/Outcomes, Wallet/Funding/Outcomes: what each operation can end in.
--   Wallet/Ledger, Wallet/Books, Wallet/Solvency: the ledger against the balances, and their signs.
--   Wallet/Funding/Start, Machine, Once: the idempotent start, the state machine, the one payment.
--   Wallet/Operations: sequences of the operations on balances.
--   Wallet/PaymentRecords, Wallet/ConnectionRecords: the rest of app/modules/wallet/repository.py.
--   Wallet/Tasks: app/modules/wallet/tasks.py. Its children Steps and Keeps: what an event keeps;
--     Webhook, Executed, Redelivery: what deliveries do; Expiry: the transfers that nobody authorizes.
--   Wallet/Connections, Wallet/Connections/Revocation: connections.py of
--     app/modules/wallet/openbanking, and the daily warning of the tasks.
--   Wallet/Rates, Wallet/Initiation: payments.py of app/modules/wallet/openbanking. Access: who
--     may start a payment; Retry: the second attempt.
--   Wallet/Callback: the payment callback of app/modules/wallet/openbanking/webhooks.py.
--     Wallet/Webhooks: its other endpoints; Queue: what they put into the queue of tasks.
--   Wallet/Aggregators: adapter.py of app/modules/wallet/openbanking, with Dev, its adapter for
--     development. TrueLayer, with Tokens: mapper.py and client.py. Yapily, with Payments and
--     Consents: yapily_client.py. Stripe: stripe_client.py. Http: the loop of retries of the
--     clients; Retry: its bounds. Poll: the poller of app/modules/wallet/tasks.py.
--   Card/Models, Repository, Service: the files of app/modules/card of these names, with its
--     spending controls and events. Card/Service/Outcomes: what the operations can end in.
--     Card/Lifecycle: sequences of operations. Card/Rows, Card/Audit: the table and its log.
--   Transaction/Models, Repository, Service: the files of app/modules/transaction of these names,
--     with the payloads of its schemas and its events. Service/Outcomes, Service/Settlement: what
--     the operations can end in. Holds, Backing, Safety, Payable: what authorizations hold of
--     the wallets, and what the messages keep. Approval: which payments are approved. Settling,
--     Cover: which clearings and reversals succeed.
--   History, History/Soundness: requests of all these parts, one transaction after the other.
--   Tests: the theorems applied to a small database.
--
-- The model. An id is a natural number, a time a number of seconds, an amount an unbounded integer:
-- the columns' 32 and 64 bits are not modelled. A request takes the time and the id of the row
-- that it creates from a `Context`; an insert whose id or unique column is taken raises
-- IntegrityError. A table is a list of its rows, the newest first. Definitions are structural
-- recursion on lists; no fuel is needed. A method runs without interruption, but for
-- `initiate_funding`, `initiate_payment` and `get_or_create_user`, which take what other requests
-- commit between a look-up and an insert as a parameter, and for the idempotency middleware, whose
-- handlers overlap. The handlers of events run in sessions of their own and are not part of a
-- transaction.
--
-- Of PostgreSQL the model takes the unique columns and the refusal of SET TRANSACTION after a query
-- in the same transaction: `credit_in_session` is told whether there was one. Of SQLAlchemy it takes
-- that no query follows a rollback inside `session.begin()`, where the middleware provisions users.
--
-- History and Wallet/Funding/Once leave the payment callback out, which does not go through the
-- state machine. The card processor and the aggregator's payment call are parameters that give a
-- value or raise; nothing is assumed of them.
--
-- Also parameters: the network of the aggregators, which may answer each attempt differently, the
-- decoding of a JWT, the header that FastAPI reads the token from, HMAC-SHA256, `json.loads`, the
-- queue of tasks, the object storage, the hash of the idempotency middleware, Python's `upper` and
-- `lower`, the reading of UUIDs, numbers and time stamps, and the encryption of account numbers. The
-- calls of Redis of one request are steps of their own, between which other requests come and
-- entries expire.
--
-- The services count time in seconds, the webhooks in microseconds, and the clients of aggregators
-- in milliseconds. A request to an aggregator is a recursion on the attempts that are left. A text
-- is cut into at most as many parts as its fuel, 4 for a token of development, 64 for a header of
-- Stripe and for the dashes of a key, which is more than these have.
--
-- Not modelled: the client of the card processor; the cache of the signing keys; response schemas;
-- logs; encryption, storage, configuration, start-up and migrations. They are calls of outside
-- libraries or settings.
pub mod Base
pub mod Core
pub mod Wallet
pub mod Card
pub mod Transaction
pub mod Db
pub mod History
pub mod Tests
pub mod Identity
