-- ===== src/WebrtcJs.antt =====
-- pkg/webrtc_js/host.go, the host that restreams to WebRTC viewers. `State` has the data, the metrics
-- and the recent errors, `Sessions` the life of a session, `Requests` the HTTP handlers, `Broadcast`
-- the packet path, `Upkeep` the expiry of sessions and the shutdown, `Trace` the histories of all
-- these.
pub mod State
pub mod Sessions
pub mod Requests
pub mod Broadcast
pub mod Upkeep
pub mod Errors
pub mod Fanout
pub mod Stamping
pub mod AnyOrder
pub mod Counting
pub mod Expiry
pub mod Shutdown
pub mod Ssrc
pub mod Trace
pub mod Invariant
pub mod Preservation
pub mod SessionValidity
pub mod Validity
pub mod Unmetered
pub mod Totals
mod Tests
