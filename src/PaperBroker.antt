-- ===== src/PaperBroker.antt =====
-- src/seven_lens/execution/fake_broker.py: the deterministic paper broker, a broker of the engine's
-- port. State is what it stores, Fills an execution and an accepted order, Submission and Requests its
-- public methods; the other children prove what it keeps.
pub mod State
pub mod Fills
pub mod Submission
pub mod Requests
pub mod Consistent
pub mod Keeps
pub mod Operations
pub mod Repeats
