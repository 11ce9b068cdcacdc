-- ===== src/Rtsp/Server/Upkeep.antt =====
-- The background cleanup and the shutdown of pkg/rtsp/new_server.go.
use mediasink.Prelude.{
  ℕ, ◌-◌, Bool, true, not, Option, none, some, List, [], ◌∷◌, ◌++◌, ltb, if◌then◌else◌, nat_keys,
  bytes_keys, length, Bytes, retain,
}
use mediasink.Rtsp.Server.State.{
  ClientSession, StreamInfo, Config, Server, Effect, close_server, total_clients,
}
use mediasink.Rtsp.Server.Handlers.{sweep, close_replaced}

-- `now.Sub(last) > timeout`, for a timeout that is not negative.
abbrev pub is_inactive : ℕ → ℕ → ℕ → Bool
is_inactive now last timeout = ltb timeout (now - last)

abbrev pub is_active_client : ℕ → ℕ → Bytes → ClientSession → Bool
is_active_client now timeout id client = not (is_inactive now client.last_active timeout)

-- The body of the loop of `cleanupInactiveSessions`.
unfoldable pub cleanup_stream : Config → ℕ → StreamInfo → Option StreamInfo × List Effect
cleanup_stream config now si =
    if is_inactive now si.publisher_last_active config.publisher_session_timeout
    then (none, close_replaced (some si))
    else (
      some (record si {
        clients = retain (is_active_client now config.client_session_timeout) si.clients;
      }),
      [],
    )

unfoldable pub cleanup_inactive_sessions : ℕ → Server → Server × List Effect
cleanup_inactive_sessions now s =
    let (streams, effects) = sweep (cleanup_stream s.config now) s.streams in
    (record s { streams = streams }, effects)

-- The numbers that `logMetrics` prints: the streams and the clients.
unfoldable pub log_metrics : Server → ℕ × ℕ
log_metrics s = (length s.streams, total_clients s.streams)

unfoldable pub close_all : StreamInfo → Option StreamInfo × List Effect
close_all si = (none, close_replaced (some si))

-- `none` is the panic of a call of the nil `cancel`. The routines end by the context.
unfoldable pub close : Server → Option (Server × List Effect)
close s = elim s.session [
  | none ↦ none
  | some done ↦
      let (streams, effects) = sweep close_all s.streams in
      some (
        record s { session = some true; streams = []; routines = 0; total_connections = 0 },
        effects ++ close_server ∷ [],
      )
]
