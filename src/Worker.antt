-- ===== src/Worker.antt =====
-- core/internal/application/authworker.go, terminal.go, connectivity.go, switch.go, quiet_switch.go,
-- hotspot_connectivity.go and manual_logout.go: the worker that performs the actions, and
-- core/internal/auth/transaction.go and gateway.go, with which it talks to the gateway.
pub mod World
pub mod Gateway
pub mod Transaction
pub mod Line
pub mod Attempt
pub mod Prepare
pub mod Radio
pub mod Confirm
pub mod Terminal
pub mod Session
pub mod Switch
pub mod Run
pub mod Rules
pub mod Trace
pub mod Evidence
pub mod Actions
