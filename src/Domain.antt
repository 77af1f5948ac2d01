-- ===== src/Domain.antt =====
-- core/internal/domain: the words of the program.
pub mod Errors
pub mod Binding
pub mod Enums
pub mod Config
pub mod QuietWindow
