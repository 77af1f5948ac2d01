-- ===== src/Application.antt =====
-- core/internal/application: the coordinator, the single writer of the action index and the queue.
pub mod Action
pub mod Fingerprint
pub mod Coordinator
pub mod Schedule
pub mod Invariant
pub mod Loop
