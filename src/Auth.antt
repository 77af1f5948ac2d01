-- ===== src/Auth.antt =====
-- core/internal/auth: what one request to the gateway says, and whose session it speaks of.
pub mod Identity
pub mod Answer
pub mod Accounts
