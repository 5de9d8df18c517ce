-- ===== src/Lib.antt =====
-- Morai: a dashboard that follows option calendars. A user connects a brokerage account; a sync reads its
-- transactions, extracts fills, stores them encrypted under a key of the user, and derives position events
-- from them. Accounts, one-time tokens and login sessions decide who sees what, and the database's row-level
-- policies confine each request to its user.
--
-- Prelude holds the names, lists, dicts, orders, integers, times and errors that the parts share, and Outside
-- what the program takes from libraries and the machine, as parameters: hashes, random values, Argon2, the
-- cipher, and decimal texts.
--
-- The parts, with the files of the repository that they model:
--   Money: src/morai/money/units.py, over `decimal.Decimal` with the default context of 28 digits.
--   Db: the rows of src/morai/db/models.py. Db.Session: a session with its transaction, the settings of
--     src/morai/identity/rls.py and the policies of alembic/versions. A handler is a function from a session
--     to a result and a session (`Action`); what it wrote before an error stays uncommitted.
--   Ledger: Records are those of src/morai/ledger/fills.py and events.py; Pairing, Resolve and Occ are
--     src/morai/ledger/pairing.py (derive_events, RESOLVE_FILL_POSITIONS_SQL, parse_occ_symbol and
--     detect_roll), and Syncing its sync_events; Keys and Fills are fills.py, Events is events.py, Columns their
--     encrypted columns, and Reading the loop of their reads.
--   Crypto: src/morai/crypto/envelope.py and rotation.py.
--   Validation, Settings: src/morai/settings.py. A RuntimeError carries its message as text there, and what
--     pydantic finds in the environment is an argument (`Validated`).
--   Telemetry: src/morai/telemetry.py. A process keeps what `lru_cache` holds, what was sent and logged, and the
--     request id of the context; an exception is a record, with its message, traceback and errors.
--   Identity: Tokens (tokens.py, setup_tokens.py), Sessions (sessions.py), Account (audit.py, account.py), Rls
--     (rls.py) and Passwords (passwords.py) of src/morai/identity, and Routes (src/morai/api/routes_identity.py;
--     the route `setup` is `set_up`).
--   Vendor: Health and Connections are src/morai/vendor/connections.py; Client is what the program asks of the
--     brokerage (src/morai/vendor/protocol.py), a parameter; Adapter is schwab_adapter.py over schwab-py, which is
--     a parameter there.
--   Ingest: Extract, Windows and UserSync are src/morai/ingest/schwab_sync.py; BrokerTransactions and Runs are
--     broker_transactions.py and sync_runs.py of src/morai/ingest; Worker is sync_user_task and
--     the fan-out of src/morai/worker/app.py, with the job of src/morai/api/job_queue.py.
--   Api: Connections is src/morai/api/routes_connections.py, Errors is errors.py (on the process of Telemetry) and
--     App is app.py, up to the start.
--   Tools: CreateAdmin and RotateKek are tools/create_admin.py and tools/rotate_kek.py.
--   Fixtures: tables for the tests.
--
-- Bounds: instants are microseconds since the first year, with no upper end; a subtraction below the first
-- year is an OverflowError. A request sees one time. `windows_from` has as many passes of fuel as there are
-- microseconds up to now, and each pass of a positive range moves the cursor by one at least. `insert_chunks`,
-- `insert_event_chunks` and `insert_transaction_chunks` have a pass for each row, and each pass takes one row at
-- least. Decimal signs of zero, NaN, infinities and exponent limits are left out; so are digits beyond ASCII in
-- option symbols, the foreign keys of fills and broker transactions to their users, and the primary key of
-- events. A SELECT without ORDER BY gives its rows in the order in which they were inserted, as PostgreSQL does not promise.
--
-- Not modelled: the parsing of a UUID, of which a task takes the outcome, schwab-py, the job queue and its schedule, the dispatch of the web framework,
-- request validation, HTTP responses beyond their status, and concurrent requests: advisory locks wait for other
-- sessions only, and there is one. A random token that repeats an older one, and a policy read under a blank setting, are not distinguished as errors.
pub mod Prelude
pub mod Validation
pub mod Settings
pub mod Telemetry
pub mod Money
pub mod Ledger
pub mod Outside
pub mod Db
pub mod Crypto
pub mod Identity
pub mod Vendor
pub mod Ingest
pub mod Api
pub mod Tools
pub mod Fixtures
