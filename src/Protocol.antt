-- ===== src/Protocol.antt =====
-- core/internal/protocol/srun: the byte layer of the SRun protocol.
pub mod Base64
pub mod Xxtea
pub mod Login
