-- ===== src/Engine.antt =====
-- src/seven_lens/application/execution_service.py: the execution engine, which moves intents through
-- a broker. Port is the broker that it calls, Monad the actions on the store and the broker; Pause,
-- Refresh, Submit and Sweep hold the engine's methods, and the other children prove what they keep.
pub mod Port
pub mod Monad
pub mod Pause
pub mod Refresh
pub mod Submit
pub mod Sweep
pub mod Keeps
pub mod Steps
pub mod Methods
pub mod Run
pub mod Safety
pub mod Fires
pub mod Reservation
pub mod Unresolved
pub mod Retry
