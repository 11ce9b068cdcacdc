-- ===== src/Socket.antt =====
-- pkg/socket: the WebSocket server that relays between one local host and its clients, and the host.
pub mod Server
pub mod Host
