-- ===== src/Sinks.antt =====
-- The top of pkg: the table of sinks in sinks.go, sinks with their streams in sink.go and stream.go,
-- the interface of a host in host.go, and internal/rtp_pool.go. `Table` has the table, `Forward` the
-- loop of a sink, `Stream` the loop that feeds a host, `Pool` the pool of packets, `RtspStream` a
-- stream whose host is the RTSP host, `Options` the options of a stream, `Starting` which streams
-- start, `Pipeline` a started sink with its buffer, `WebrtcStream` one whose host is the WebRTC host,
-- `LoopbackStream` one whose host is the UDP loopback.
pub mod Host
pub mod Table
pub mod Stream
pub mod Pipeline
pub mod Flow
pub mod Bounded
pub mod Delivery
pub mod WebrtcStream
pub mod LoopbackStream
pub mod Options
pub mod Starting
pub mod Forward
pub mod Pool
pub mod RtspStream
mod Tests
