-- ===== src/WebrtcJs/Upkeep.antt =====
-- The expiry of sessions and the shutdown of pkg/webrtc_js/host.go. The closing of a peer connection
-- and of a channel shows in the list that is returned.
use mediasink.Prelude.{
  ℕ, Bool, true, false, none, some, List, [], ◌∷◌, map, if◌then◌else◌, nat_keys, bytes_keys, Bytes,
  Map,
}
use mediasink.WebrtcJs.State.{
  server_down, server_online, ClientSession, is_expired, Metrics, decrease_active_connections, Host,
  set_status, set_session, log_error,
}

-- The loop of a tick of cleanupExpiredClients, over the table.
unfoldable pub expire :
    ℕ → Map Bytes ClientSession → Metrics → Map Bytes ClientSession × Metrics × List ℕ
unfolding is_expired decrease_active_connections
expire now [] m = ([], m, [])
expire now ((id, cs) ∷ clients) m =
    let gone = is_expired now cs in
    let rest = expire now clients (if gone then decrease_active_connections m else m) in
    if gone
    then (rest.0, rest.1, cs.peer_connection ∷ rest.2)
    else ((id, cs) ∷ rest.0, rest.1, rest.2)

unfoldable pub cleanup_expired_clients : ℕ → Host → Host × List ℕ
unfolding expire
cleanup_expired_clients now h =
    let (clients, metrics, shut) = expire now h.clients h.metrics in
    (record h { clients = clients; metrics = metrics }, shut)

unfoldable pub close : Host → Host × List ℕ
close h = (
  record h {
    session = elim h.session [ none ↦ none | some d ↦ some true ];
    http_closed = true;
    clients = [];
  },
  map (λ (entry : Bytes × ClientSession). entry.1.peer_connection) h.clients,
)

-- One round of the loop of Connect: whether ListenAndServe ended with an error of its own.
unfoldable pub serve_round : Bool → Bytes → Host → Host
unfolding log_error set_status
serve_round serving_failed text h =
    let t = set_status server_online h in
    set_status server_down (if serving_failed then log_error text (set_status server_down t) else t)

-- The loop of Connect, one item of the list a round; behind it the deferred `close`.
unfoldable pub serve : List (Bool × Bytes) → Host → Host × List ℕ
unfolding serve_round close
serve [] h = close h
serve ((serving_failed, text) ∷ rounds) h =
    let again = serve rounds (serve_round serving_failed text h) in
    if (elim h.session [ none ↦ false | some d ↦ d ])
    then close h
    else (if h.config.keep_hosting then again else close (serve_round serving_failed text h))

unfoldable pub connect : Bool → List (Bool × Bytes) → Host → Host × List ℕ
unfolding serve set_session
connect parent_done rounds h = serve rounds (set_session parent_done h)
