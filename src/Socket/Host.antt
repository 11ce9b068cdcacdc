-- ===== src/Socket/Host.antt =====
-- pkg/socket/host.go, the host that sends to a WebSocket server. `State` has the data and the sends,
-- `Threads` the goroutine of Connect next to a call of Close, `Shutdown` when Close returns.
pub mod State
pub mod Threads
pub mod Shutdown
mod Tests
