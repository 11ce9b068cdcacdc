-- ===== src/Rtsp/SingleServer.antt =====
-- pkg/rtsp/server.go, the older server, which has one stream. `State` has the server with its
-- callbacks, `History` what holds after any sequence of them.
pub mod State
pub mod History
mod Tests
