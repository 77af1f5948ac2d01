-- ===== src/Wireless.antt =====
-- core/internal/wireless: changes of the router's wireless configuration that can be undone.
pub mod Journal
pub mod Machine
pub mod Check
pub mod Transaction
pub mod Rollback
pub mod Invariant
pub mod Atomic
