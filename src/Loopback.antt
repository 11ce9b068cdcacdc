-- ===== src/Loopback.antt =====
-- pkg/loopback, the host that sends to a local UDP port. `State` has LoopBack with its options and
-- its writes, `Threads` the goroutines that Connect starts, with Close, `Rates` the rates in the
-- metrics.
pub mod State
pub mod Threads
pub mod Options
pub mod Rates
pub mod Shutdown
pub mod Crash
mod Tests
