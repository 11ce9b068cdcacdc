-- ===== src/Rtsp/Server.antt =====
-- pkg/rtsp/new_server.go. `State` has the data, `Handlers` the callbacks that gortsplib calls,
-- `Upkeep` the background cleanup and the shutdown, `Trace` the histories of calls.
pub mod State
pub mod Handlers
pub mod Upkeep
pub mod Trace
pub mod Sweep
pub mod Soundness
pub mod Invariant
pub mod Ownership
pub mod Cleanup
pub mod Registry
pub mod Refinement
pub mod Quiet
pub mod Abandoned
pub mod Admission
pub mod Shutdown
pub mod Routines
pub mod Joining
mod Tests
