-- ===== src/Rtsp/Server/Trace.antt =====
-- Histories of pkg/rtsp/new_server.go: the callbacks and the cleanup in any order, with any
-- arguments, each one step.
use mediasink.Prelude.{ℕ, List, [], ◌∷◌, nat_keys, bytes_keys, Bytes}
use mediasink.Rtsp.Server.State.{Server}
use mediasink.Rtsp.Server.Handlers.{
  on_conn_open, on_conn_close, on_session_open, on_session_close, on_announce, on_setup, on_play,
  on_packet,
}
use mediasink.Rtsp.Server.Upkeep.{cleanup_inactive_sessions}

pub data Event : Type 0 where
  conn_open : ℕ → Bytes → Event
  conn_close : Event
  session_open : ℕ → Bytes → ℕ → Event
  session_close : ℕ → Event
  announce : Bytes → ℕ → ℕ → ℕ → ℕ → Event
  setup play : Bytes → ℕ → ℕ → Event
  packet : ℕ → ℕ → Event
  cleanup : ℕ → Event

-- The state after an event. OnDescribe and OnRecord change nothing here, and are left out.
unfoldable pub step : Server → Event → Server
step s (conn_open conn addr) = (on_conn_open conn addr s).0
step s conn_close = on_conn_close s
step s (session_open session addr now) = on_session_open session addr now s
step s (session_close session) = (on_session_close session s).0
step s (announce path session stream desc now) = (on_announce path session stream desc now s).0
step s (setup path session now) = (on_setup path session now s).0
step s (play path session now) = (on_play path session now s).0
step s (packet stream now) = on_packet stream now s
step s (cleanup now) = (cleanup_inactive_sessions now s).0

unfoldable pub run : Server → List Event → Server
run s [] = s
run s (e ∷ es) = run (step s e) es
