-- ===== src/Domain/Errors.antt =====
-- core/internal/domain/errors.go. A `Failure` is what a caller reads of an `error`: the code of the
-- first domain error in its chain (`CodeOf`), or none, and the message that a user is shown.
use smart_srun.Prelude.{Option, Bytes}

pub data ErrorCode : Type 0 where
  invalid_argument invalid_config conflict busy not_found service_stopped cancelled : ErrorCode
  deadline_exceeded binding_unavailable binding_changed dns_failure : ErrorCode
  transport_failure tls_failure portal_html_response protocol_invalid auth_rejected : ErrorCode
  online_identity_mismatch recovery_required unsupported_capability : ErrorCode
  checksum_mismatch package_incompatible install_failed internal : ErrorCode

pub record Failure : Type 0 where
  pub code : Option ErrorCode
  pub message : Bytes
