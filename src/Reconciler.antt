-- ===== src/Reconciler.antt =====
-- src/seven_lens/application/reconciliation_service.py: the comparison of the local tables with the
-- broker. Answers is what one run reads, Orders, History and Account compare it, Collect puts the
-- comparisons together, and Run records the result; the other children prove what a run without a
-- mismatch shows and what a run leaves behind.
pub mod Answers
pub mod Orders
pub mod History
pub mod Account
pub mod Collect
pub mod Nothing
pub mod Parts
pub mod Sound
pub mod Holdings
pub mod Cash
pub mod Balances
pub mod Run
pub mod Effects
pub mod Resumption
