-- ===== src/Lib.antt =====
-- A model of the trading core of a platform that copies trading signals to exchange accounts, with
-- the theorems about it. All paths below are under backend/app/.
--
-- The program: a signal is executed once on each account by the order engine. The engine asks the
-- emergency stop whether new orders are allowed, finds the side and the quantity (its own or the
-- way from the position to a target), adds an execution row, moves that row through the order
-- state machine with one numbered log row for each move, asks the risk engine, sends the order to
-- the mock exchange, and applies the fill to the position. Orders on test networks pass further
-- gates: readiness, admission, an approval of an order window by an administrator that is kept as
-- an audit row, and rate limits. Reports compare the positions of the exchange, the database and
-- the target, and repair plans propose orders for the differences.
--
-- The files:
--   Prelude: shared names, tests on numbers, integers, texts, and calls that read and write a state
--     and may raise (Exec). What was written before a raise stays written.
--   Decimal: Python's Decimal. A quantity or price is a whole number of units of 10^-10, the scale
--     of the columns; products are in units of 10^-20. Results are rounded to 28 digits, half to
--     even. The unit of the rounding is looked for with fuel 60, enough for coefficients of up to
--     88 digits, while a product of two columns has at most 56. Where a theorem needs exact
--     results, it says that they have at most 28 digits (Fits).
--   Json, Domain, Database: JSON values, the enumerations and rows of db/models/, and the tables as
--     lists. A row's id is the 128-bit number of its UUID; ids that new_uuid returns and times of
--     the database are arguments. A query takes the first row that fits.
--   OrderState: services/order_state_machine.py. `flushed` are the rows of the table, `added` those
--     of the session's `db.new`. Graph is about the table of moves, Branches about single calls,
--     History, Runs, Gates and Bounded about the log that any sequence of calls leaves.
--   Risk: services/risk_engine.py; Check is about the check of an order, Settings about the rest.
--   Position: services/position_engine.py, with Fills about the quantities.
--   Emergency: services/emergency_stop.py, with Stop about the switch.
--   Engine: services/order_engine.py and exchanges/mock.py. `place` is the life of the execution
--     row, `finish` the end of the call, `execute_new` the part behind the flush of the row,
--     `execute_owned` the part behind the look-ups. Placement, Outcome, Filled, Replay, Collides
--     and Target are about these parts.
--   Gate: services/testnet_order_gate.py, testnet_order_window.py, testnet_order_admission.py and
--     the readiness test of exchanges/testnet_config.py.
--   Approval: services/testnet_order_window_approval.py; Window says what the two tests mean, Grant
--     what a recorded approval authorizes.
--   RateLimit: services/rate_limit_service.py and exchanges/rate_limit.py. The service takes any
--     store; the store in memory is modelled. Times are in microseconds.
--   Reconcile: services/position_reconciliation.py and reconciliation_repair.py.
--   Response: of services/testnet_order_persistence.py the sanitizing of an exchange's answer, what
--     is read from it, and the calls that record an answer or a failure. Python's `str` of a value
--     that is no text is the parameter `show`. Clean is about the sanitizing, Submission about the
--     calls.
--   Orders: the table of executions with its transition log, and what keeps it: Kept says that the
--     log tells the story of every row and no two rows have one id, Careful is about calls on one
--     row, Known about rows with a given client order id.
--   Lifecycle: services/testnet_order_lifecycle.py. Normalize reads the events; `apply_row` is
--     `apply` on the row that was found. Branches, Kept and Again are about `apply`, Moves about
--     streams of events: the abstract view of the table is the list of ids and statuses. Python's
--     `str`, `bool` and `Decimal` of values that the model does not compute are the parameter
--     `Python`.
--   HttpClient: the prepared requests of exchanges/http_client.py, with HMAC, `urlencode`,
--     `json.dumps` and the printing of a Decimal as the parameter `Library`; clock readings are
--     texts.
--   Submit: the submission of an order to a test network. Request is
--     services/testnet_order_request.py, Row the creation of the execution in
--     services/testnet_order_persistence.py, Handler `submit_testnet_order` of api/v1/orders.py with
--     services/testnet_order_api.py and testnet_order_execution.py: one function for each stage,
--     on the tables, the rate limits and the list of requests that were put on the wire. The
--     exchange's answer, the store of rate limits and the decryption of keys are in `Env`. Placed,
--     Kept, Covered, Sending, Once and Stranded are about these stages.
--   Pending: services/testnet_order_reconciliation.py; Kept and Counts are about its look-ups, one
--     for each pending execution, in their order, Simulated about the requests to OKX, Asked about
--     the ids in the requests.
--   AccountSync: services/testnet_account_state_sync.py. The parent reads the updates of an event,
--     Upsert writes them, Synced says what is in the tables then. `Decimal` of a text and `isalnum`
--     are in the parameter `Reader`.
--   Stream: services/testnet_user_stream_consumer.py, with the event types of
--     testnet_user_stream_runtime.py and the dispatch of testnet_user_stream_event_handler.py. The
--     two loops run on fuel, and Ends is about how much is enough: two turns for each message and
--     each attempt to connect, and two more. Kept is about the tables, Raises about two messages.
--   Mfa: services/mfa.py on the rows of one session; Once is about codes that are used again.
--   Samples, Sandbox: rows for the tests. Each component's Tests module runs the definitions on them.
--
-- Reasons and error messages are constructors in place of texts. Case folding is that of ASCII
-- letters. Not modelled: sockets and the transport of the HTTP client, the routing and validation of
-- the HTTP API, the exchange adapters, the Redis store, the cryptography, users, notifications, the
-- read-only checks of accounts, market data, backups. The tables are those of one session:
-- locks, roll-backs at the end of a failed request and concurrent sessions are not modelled. Nor are
-- the columns of the risk settings that the check does not read, the TypeErrors for a list or an
-- object as the event name of a Binance message and for a second-factor code with digits outside
-- ASCII, and an answer to a look-up of a pending order that is JSON but no object. Clocks are taken
-- to be monotonic, and of two approvals recorded at one time the query gets the later one.
pub mod Prelude
pub mod Json
pub mod Decimal
pub mod Domain
pub mod Samples
pub mod Sandbox
pub mod OrderState
pub mod Database
pub mod Risk
pub mod Position
pub mod Emergency
pub mod Engine
pub mod Gate
pub mod Approval
pub mod RateLimit
pub mod Reconcile
pub mod Response
pub mod Orders
pub mod Lifecycle
pub mod Mfa
pub mod HttpClient
pub mod Submit
pub mod Pending
pub mod AccountSync
pub mod Stream
