-- ===== src/Policy.antt =====
-- core/internal/policy: the scheduling decisions.
pub mod Priority
pub mod Pause
pub mod Backoff
pub mod Managed
pub mod Quiet
