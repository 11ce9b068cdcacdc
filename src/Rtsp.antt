-- ===== src/Rtsp.antt =====
-- pkg/rtsp: the RTSP server that relays published streams, and the host that publishes to one.
pub mod Server
pub mod Host
pub mod Options
pub mod SingleServer
