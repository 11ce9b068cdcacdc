-- ===== src/Lib.antt =====
-- mediasink: media sinks that take RTP packets of WebRTC tracks and pass them on to a host: an RTSP
-- publisher, a WebSocket, a UDP loopback or WebRTC viewers. This library models the program's parts
-- as functions on explicit states, and proves what makes them correct.
--
-- Prelude: the shared names, Go maps as association lists with their laws, Go strings as bytes.
-- Net: pkg/socket/server.go, pkg/webrtc_js/host.go and pkg/rtsp/new_server.go ask whether an address
--   is local; `is_loop_back` is that test, over Go's net.SplitHostPort, ParseIP and IsLoopback.
-- Rtsp.Server: pkg/rtsp/new_server.go, the relay server. `State` has Config, StreamInfo,
--   ClientSession and NewServer as records, `Handlers` the On... callbacks under their names,
--   `Upkeep` cleanupInactiveSessions and Close, `Trace` the histories of calls, `Registry` the
--   abstract view without clients that the server refines, `Routines` cleanupRoutine and
--   metricsRoutine beside Close, as turns between the points at which one can be held up.
-- Rtsp.Host: pkg/rtsp/new_host.go, the publisher. `State` has NewHost and NewNewHost, `Write` has
--   WriteRTP, `Manager` has Connect and connectionManager as a state machine.
-- Socket.Server: pkg/socket/server.go, the WebSocket relay. `Requests` has wsHandler, cut where other
--   requests can come between, and its runs, `Relay` hostHandler, clientHandler and the sends, in
--   rounds that say what other requests do to the server meanwhile, `Lifecycle` Start and Close.
-- WebrtcJs: pkg/webrtc_js/host.go, the host that restreams to WebRTC viewers. `Sessions` has
--   getOrCreateSession and the callback for connection states, `Requests` the HTTP handlers,
--   `Broadcast` WriteRTP over a memory of shared packets, which `Stamping` stops half-way, `Upkeep`
--   Connect, the cleanup and close, `Trace` the histories of all of them, whose bounds are shown in
--   `Validity` and whose counters in `Totals`.
-- Socket.Host: pkg/socket/host.go, the WebSocket host, with Connect and Close as goroutines.
-- Rtsp.SingleServer: pkg/rtsp/server.go, the older server, which has one stream.
-- Rtsp.Options: pkg/rtsp/options.go, the options and the parsing of a remote track's format line.
-- Loopback: pkg/loopback. `State` has LoopBack, its options and writes, `Threads` readLoop,
--   metricsLoop and Close as steps between the points at which they can be held up, `Rates`
--   updateRates over a record of float32 operations.
-- Sinks: pkg/sinks.go, pkg/sink.go, pkg/stream.go, the interface of pkg/host.go, and
--   internal/rtp_pool.go. A stream drives its host through the record `HostOps`, which the RTSP
--   host fills in `RtspStream`, the WebRTC host in `WebrtcStream` and the loopback in
--   `LoopbackStream`. `Options` has pkg/stream_options.go with CreateStream and Start, `Starting`
--   which streams start. `Pipeline` has Sink.loop and Stream.loop as turns on the buffer between
--   them, which is a record of operations with the laws of a bounded queue; `Flow` and `Delivery`
--   follow its packets.
-- Strings, Base64: the functions of Go's strings, strconv and encoding/base64 that the program uses.
--
-- Objects of other libraries (sessions, streams, clients, connections) are numbers, and what those
-- libraries answer is an argument. A method that holds a lock throughout is one step; locks and
-- logging are left out. Times and durations are nanoseconds that are not negative; uint64 and
-- int64 counters wrap at 2 ^ 64, an int64 by its bit pattern. The order of a range over a map is
-- the order of the list, and the theorems hold for every list; `AnyOrder` compares the orders of a
-- broadcast. Loops are structural; the decimal printer has fuel n + 1, of which it uses one for
-- each digit.
--
-- Not modelled: pkg/rtsp/host.go, which is commented out, pkg/webrtc_js/wasm, which is empty, the
-- interface of pkg/server.go, and what only prints or sets HTTP headers. Left out are also: in
-- pkg/webrtc_js/host.go, what a forwarding goroutine still finds in the channel of a session that
-- has left the table, and a send on a channel that the cleanup has just closed; in
-- pkg/rtsp/new_host.go, a write between the two lines that set the recording state; in
-- pkg/loopback/host.go, a Connect on an instance whose goroutines run.
pub mod Prelude
pub mod Net
pub mod Strings
pub mod Base64
pub mod Rtsp
pub mod Socket
pub mod WebrtcJs
pub mod Loopback
pub mod Sinks
