-- ===== src/Configuration.antt =====
-- core/internal/config: what is resolved from a configuration, and the changes that a user makes to it.
pub mod Defaults
