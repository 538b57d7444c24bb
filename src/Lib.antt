-- ===== src/Lib.antt =====
-- Verification of the paper-trading execution core: what the order contracts, the fill ledger,
-- the consumer of broker trade updates, the execution engine, the paper broker, the control
-- plane and the reconciler promise.
--
-- The program places limit orders with a paper broker. An order intent
-- (src/seven_lens/execution/orders.py) moves through a closed lifecycle; what the broker reports
-- is kept in a mirror of the broker's order and in append-only fills. The trade update consumer
-- (src/seven_lens/execution/trade_updates.py) writes both through a unit of work, and pauses new
-- entries when an observation cannot be reconciled. The ledger
-- (src/seven_lens/execution/ledger.py) replays the fills into cash and FIFO lots.
--
-- Orders models orders.py: Orders/Status the intent statuses and their map, Orders/BrokerStatus
-- the broker's, Orders/Money quantities and two-decimal amounts, Orders/Collar the price band,
-- Orders/Mirror BrokerOrder and Fill, Orders/Intent OrderIntent and transition_to. A validated
-- amount keeps what its cents property computes from its value, an instant its number of microseconds, ids and symbols are
-- texts, and a Python int is an integer without bound. The type tests of the source hold by
-- typing.
--
-- Ledger models ledger.py: project_ledger is the replay of the sorted fills, apply_fill the body
-- of its loop, and sell_lots the loop over the lots. Ledger/Consume, Accounts, Totals,
-- Conservation and Canonical prove what the projection keeps, and Ledger/Valuation is about the
-- two valuations, whose loops over the lots are market_value and equity_value.
--
-- Store models the unit of work: the tables and guards of tests/fakes/orders.py and
-- tests/fakes/control.py, and the transactions of src/seven_lens/infrastructure/postgres.py. A
-- world holds the tables as the connection sees them, the committed ones, and a list of faults:
-- the next fault says whether a call works, fails without an effect, or fails after its effect,
-- which only a commit and the safety pause do. The recorded reconciliation runs are part of the
-- tables, oldest first. A call past the end of the list works. The exceptions are
-- TradeUpdateError and all others. The uuid5 of the audit row is the text that it hashes.
--
-- TradeUpdates models trade_updates.py: apply dispatches to apply_fill and apply_status, whose
-- try blocks are derive_fill and accept_status, and TradeUpdates/Conflict is
-- _persist_conflict_marker and _persist_conflict_pause. Logging is left out.
--
-- Engine models src/seven_lens/application/execution_service.py: Engine/Pause, Refresh, Submit
-- and Sweep are its methods under their names, in a monad over the world of Store, a broker and
-- a record of the submissions made, which the program does not keep and the theorems speak
-- about. The broker is a parameter, Port (PaperBrokerPort of
-- src/seven_lens/application/ports/broker.py and the clock): a state of any type, whose
-- operations may answer or raise anything. The Port also says whether the unit of work has a
-- control repository. If it has one, its submission_guard ends in a commit or a rollback, and
-- has_control says whether the engine was built with a control source, which is that one. If it
-- has none, the engine has none either: nothing guards a submission and nothing is paused.
--
-- PaperBroker models src/seven_lens/execution/fake_broker.py, the broker that the engine is
-- tested with: PaperBroker/State is FakePaperBroker as a record, Fills, Submission and Requests
-- its methods, and Requests.fake_port is it as a Port. Its clock is a function of the number of
-- past reads. A state that the source mutates in place stands under its order's id, so that a
-- change of it is a change of that entry; after is the effect of one method, whether or not it
-- raised.
--
-- Control models the pause and the resumption of new entries and the cancellation of live orders
-- (Control/Cancel) in src/seven_lens/application/control_service.py; the class name of an
-- exception in an audit text is an argument. The fresh uuid4 of the audit row is an argument.
--
-- Reconciliation models reconciliation.py: the result of one run, its validation, and when it is
-- safe to resume on. A run id is a number, the nil UUID is 0, and the fresh one of uuid4 is an
-- argument.
--
-- Reconciler models src/seven_lens/application/reconciliation_service.py. What one run reads of
-- the broker, the baselines and the mark prices are functions (Reconciler/Answers), so a query
-- that is asked again within a run is answered as before; any of them may raise. Orders, History
-- and Account are the comparisons of collect, Collect puts them together in their order, with
-- the handlers of run, and Run is run over the tables: the snapshot, which refuses a unit of
-- work with uncommitted writes (an argument) and restarts the transaction, the recorded run, the
-- pause on a mismatch and the commit. The instants that the clock shows and the fresh ids are arguments, and a
-- trading date is a number of days. Parts inverts a run that found nothing; Sound, Holdings,
-- Cash and Balances say what it shows of the orders, the positions and the account; Effects and
-- Resumption say what a run leaves behind, also for an attempt to resume entries after it.
--
-- All recursion is structural. Only the decimal numerals of Prelude/Decimal count rounds, and n
-- + width of them are enough for a number n and its least width.
--
-- Not modelled: the validation of OrderIntent and ClientOrderId and their patterns; the account
-- and position views of fake_broker.py; an engine with a control source of its own over a unit
-- of work without a control repository; the flatten command of the control service; the SQL of
-- the migrations, the HTTP and keychain adapters, configuration, the command line, the analysis
-- pipeline and its evaluations, market data, screening, securities and memory.
--
-- Examples holds concrete runs.
pub mod Prelude
pub mod Orders
pub mod Ledger
pub mod Store
pub mod TradeUpdates
pub mod Engine
pub mod PaperBroker
pub mod Reconciliation
pub mod Control
pub mod Reconciler
pub mod Examples
