-- ===== src/Examples.antt =====
-- Concrete runs of the modelled code, and instances of its theorems.
mod LedgerRuns
mod ValuationRuns
mod OrderRuns
mod UpdateRuns
mod ReconciliationRuns
mod EngineRuns
mod BrokerRuns
mod ControlRuns
mod ReconcilerRuns
