-- ===== src/Socket/Server/Lifecycle.antt =====
-- The start and the end of the server of pkg/socket/server.go.
use mediasink.Prelude.{
  Bool, true, false, Option, none, some, List, [], ◌∷◌, if◌then◌else◌, nat_keys, bytes_keys,
}
use mediasink.Socket.Server.State.{
  zero_config, Metrics, zero_metrics, Health, zero_health, Server, server_down, server_up,
  set_status, set_session, is_done,
}

-- The method `close`: `none` is the panic of a call of the nil `cancel`.
unfoldable pub close_session : Server → Option Server
close_session s = elim s.session [
  | none ↦ none
  | some d ↦ some (record s {
    session = some true;
    host = none;
    clients = [];
    metrics = zero_metrics;
    health = zero_health;
  })
]

-- Close: the body runs once, also if it panics.
unfoldable pub close : Server → Option Server
unfolding close_session
close s = if s.once then some s else (elim (close_session (record s { once = true })) [
  | none ↦ none
  | some t ↦ some (record t { config = zero_config; http_closed = true })
])

-- What other goroutines do while the server listens.
pub data Meanwhile : Type 0 where
  nothing : Meanwhile
  context_done : Meanwhile
  closed : Meanwhile

unfoldable pub during : Meanwhile → Server → Option Server
unfolding close
during nothing s = some s
during context_done s =
    some (record s { session = elim s.session [ none ↦ none | some d ↦ some true ] })
during closed s = close s

-- The loop of Start, each round with what happens meanwhile; behind it the deferred `close`.
-- The list of rounds is as long as the loop goes on; `none` is a panic.
unfoldable pub serve : List Meanwhile → Server → Option Server
unfolding close_session set_status during
serve [] s = close_session s
serve (e ∷ rounds) s = elim (is_done s) [
  | true ↦ close_session s
  | false ↦ (elim (during e (set_status server_up s)) [
    | none ↦ none
    | some t ↦
        let t' = set_status server_down t in
        elim t'.config.keep_hosting [ true ↦ serve rounds t' | false ↦ close_session t' ]
  ])
]

unfoldable pub start : Bool → List Meanwhile → Server → Option Server
unfolding set_session serve
start parent_done rounds s = serve rounds (set_session parent_done s)

-- The statusHandler and metricsHandler answer the JSON of these.
unfoldable pub status_of : Server → Health
status_of s = s.health

unfoldable pub metrics_of : Server → Metrics
metrics_of s = s.metrics
