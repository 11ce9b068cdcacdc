-- ===== src/Rtsp/Host.antt =====
-- pkg/rtsp/new_host.go, the host that publishes a stream to an RTSP server. `State` has the data and
-- the constructor, `Write` the packet path, `Manager` the connection loop as a state machine.
pub mod State
pub mod Write
pub mod Manager
pub mod Delivery
pub mod Stats
pub mod Invariant
pub mod Backoff
pub mod Recovery
mod Tests
