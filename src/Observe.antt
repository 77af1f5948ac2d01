-- ===== src/Observe.antt =====
-- core/internal/observe: the projection of the latest observation per account.
pub mod View
pub mod Store
