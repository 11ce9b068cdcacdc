-- ===== src/Socket/Server.antt =====
-- pkg/socket/server.go. `State` has the data and the metrics, `Requests` the life of the requests to
-- /ws as an interleaving, `Relay` the passing on of messages, `Lifecycle` the start and the end.
pub mod State
pub mod Requests
pub mod Relay
pub mod Lifecycle
pub mod Accounting
pub mod Overflow
pub mod HostSlot
pub mod Delivery
pub mod Broadcast
pub mod Upstream
pub mod Shutdown
mod Tests
