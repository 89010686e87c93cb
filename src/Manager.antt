-- ===== src/Manager.antt =====
-- crates/lib/src/swap/manager.rs: the background manager that drives each swap through its lifecycle.
-- Each handler runs under its swap's lock, so it is one action; Service/Commands puts them in sequence.
pub mod Status
pub mod Receipt
pub mod Retry
pub mod Events
pub mod Poll
pub mod Tracking
pub mod Rules
pub mod Finalized
pub mod Recovery
pub mod Resume
pub mod Moves
pub mod Delivery
pub mod Polled
