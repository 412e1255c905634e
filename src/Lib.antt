-- ===== src/Lib.antt =====
-- The MyOTA platform: durable work, its messages, and the rules on activations, awards and content.
--
-- The platform's services share nothing but messages. A service commits a change together with a row of
-- its table `outbox_event`; a relay (services/outbox_worker.py) claims the rows in order, builds an
-- envelope by the registry (services/event_registry.json, services/outbox_routing.py) and publishes it
-- to NATS JetStream; a consumer such as the Activity worker (services/activity_worker.py) checks the
-- message and works off the job that it names, under a lease of the table `activity_job`
-- (services/activity_repository.py).
--
-- Files and what they model:
--   Base       shared helpers: Boolean tests, lists, tables as lists of rows under a key (Rows), Python's
--              exceptions as values (Raise), handlers that change a state and may raise (Effect), ORDER BY
--              (Sort, Order) and str methods (Text).
--   Json       JSON values and dictionaries.
--   Jobs       services/activity_repository.py: the tables (Tables), one function per transaction (Leases,
--              Commands), any sequence of them (History), and what holds of such sequences (Refinement,
--              Leasing, Fencing, Invariant, Dispatch, Redrive).
--   Outbox     services/event_registry.json (Registry), services/outbox_routing.py (Uuid, Routing, Command,
--              Envelope), services/outbox_worker.py and services/outbox_admin.py (Relay, Publish), and what
--              holds of them (Accounting, NoLoss, Claiming, Backoff).
--   Worker     services/activity_worker.py: the contract check (Contract) and handle_message (Handle), and
--              what holds of them (Delivery, Acknowledgement, Completion).
--   Builtins   what the domain rules and the award handlers take from Python.
--   Domain     services/activity_domain.py: the words of a text (Words), normal forms (Normalise), the start
--              of an activation (Activation), its rules (Evaluation), and what holds of them (Validity).
--   Awards     services/awards.py: evaluate_condition (Condition), _print_spec and _validate_elements (Design),
--              the handlers from save_award to patch_award (Lifecycle, Saving) over the rows that
--              services/activity_repository.py keeps, and what holds of them (Depth, Termination, Progress, Table,
--              Moves, Drafts, Handlers, Saves, History, Spellings).
--   Programmes services/programmes.py: the content handlers (Content), any sequence of them (Publication), and
--              what holds of it (Finality, Course).
--   Common     services/common.py: page_result (Paging), Store.once (Once) and what _dispatch makes of its
--              response (Dispatch), sign_token and verify_token (Token), hash_secret and verify_secret
--              (Secret), and what holds of them (Pages, Runs, Signed).
--   Identity   services/identity.py: the state (Store), role definitions and scopes (Definitions, Roles), _auth
--              (Auth), cleanup_expired (Cleanup), _mint_tokens (Sessions), login, refresh and logout (Login,
--              RateLimit), recovery (Passwords), callsigns (Callsigns), accounts (Accounts) with their roles
--              (Assignments, Replacement), role definitions, roles and service tokens (RoleCode,
--              Administration), any sequence of requests (Requests, Primary), and what holds of it
--              (ActivePrimary, Retired, Primitives, Preserved, PreservedElsewhere, PreservedRoles, Kept,
--              Lasting, Grants, Permissions, GlobalRoles, AccountIds, LastGlobal, Revocation, DeadSessions,
--              SingleUse, PasswordReset, LockOut, FifthFailure).
--   Notifications  services/event_consumer.py: _safe_diagnostic (Redaction), what consume_forever does with a
--              message (Inbox), and what holds of it (Diagnostics, Deliveries, HandledOnce).
--   Retention  services/import_retention.py: source_object (Source), and what holds of it (Containment).
--   Tests      the theorems at concrete data.
--
-- How state and operations correspond to the code: a table is a list of records with the columns of the
-- SQL schema; an UPDATE is a guarded change of the rows that its WHERE clause selects; a transaction is a
-- function of the tables that returns its result and the new tables, or the exception, on which nothing is
-- committed. Functions keep the names of the code. `now()` is an argument in microseconds, `new_id()` an
-- argument, and concurrency a sequence of transactions: PostgreSQL's row locks make each of them atomic.
-- A row that another relay has locked (SKIP LOCKED) is given by a test on identifiers.
--
-- handle_message runs against a schedule: for each round of its claiming loop, each heartbeat and the end
-- of the handler, what other clients commit before it, the clock, and whether the database answers. A loop
-- is recursion on its schedule, so that no fuel is chosen; where the schedule ends first, the message is
-- still unsettled.
--
-- A handler of the identity service is a function of the state that returns its response or the exception and
-- the state after it: the service keeps its state in memory, so that a handler that raises keeps the changes
-- made before. The replay of a request under its Idempotency-Key is Store.once, around the handler.
--
-- evaluate_condition recurses on fuel, one more than the nesting of the condition, which is enough: its
-- recursion goes into the lists and dictionaries that the condition holds.
--
-- Parameters stand for code that is not in the repository: `uuid` is str(UUID(str(v))) or none where it
-- raises, `isoformat` the text of a time, `size` the bytes of an envelope as JSON, `message` the text of a
-- contract error. A record Builtins stands for Python's floating-point numbers, str(), int(), upper() and
-- times in the domain rules and the award handlers, with the laws that a theorem needs among its hypotheses.
--
-- A record Crypto stands for the JSON, Base64, HMAC and SHA-256 modules under the tokens, and a record
-- Platform for the settings of the identity service and its text methods.
--
-- The awards stand in rows under the canonical text of their uuid, each with the award as JSON. A record
-- Database gives how PostgreSQL reads a text as a uuid, and whether it takes an award beside the rows it has
-- (unique codes, a lost connection). A handler is one step, so that requests come one after the other.
--
-- Store.once records the response object itself: the one change of it that is modelled is the status that
-- _dispatch pops. Other changes of a recorded response, through objects that it shares with the state, are not.
--
-- The consumer of notifications gets with each message whether its transaction, its acknowledgement, its dead
-- letter, the count after it, nak and term go through; its handler is a function of a state of its own, which the
-- transaction commits; a record Formats stands for UUIDs, int() and text methods.
--
-- Not modelled: in handle_message, a raise of ack, nak or term, or of record_work_dead_letter; the in-memory
-- mode of the awards, which is for tests; two award handlers at once; the NATS client, its streams and
-- consumers; logging, metrics and tracing; HTTP; the geodata service and the rest of identity (lists, OIDC,
-- bootstrap), programmes and awards, which use the same outbox; floating-point jitter is an argument in
-- thousandths.
pub mod Base
pub mod Json
pub mod Common
pub mod Jobs
pub mod Outbox
pub mod Worker
pub mod Builtins
pub mod Domain
pub mod Awards
pub mod Identity
pub mod Notifications
pub mod Programmes
pub mod Retention
pub mod Tests
