-- ===== src/Store.antt =====
-- The unit of work that the execution code writes through: the order and control tables as
-- tests/fakes/orders.py and tests/fakes/control.py keep them, with the transactions of
-- src/seven_lens/infrastructure/postgres.py (PostgresUnitOfWork). Every call may fail: a list of faults,
-- one for each call, says how.
pub mod Monad
pub mod Repository
pub mod Keeps
