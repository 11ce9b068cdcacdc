-- ===== src/Socket/Server/Requests.antt =====
-- The requests to /ws in pkg/socket/server.go: wsHandler, with upgradeRequest and the entry and exit
-- of hostHandler and clientHandler. A request stands at a place between two critical sections, and
-- a move takes it through one; the list of moves is any interleaving. What `websocket.Accept`
-- answers and the id of `uuid.NewString` come with the move.
use mediasink.Prelude.{
  ℕ, ◌+◌, Bool, Option, none, some, List, [], ◌∷◌, ltb, if◌then◌else◌, nat_keys, bytes_keys, Bytes,
  Map, lookup, insert,
}
use mediasink.Net.{is_loop_back}
use mediasink.Socket.Server.State.{
  Config, Metrics, uint8, increase_active_connections, decrease_active_connections,
  increase_failed_connections, Server, new_server, set_host, add_client, remove_client,
}

pub data Place : Type 0 where
  arrived : Bytes → Place
  upgrading_host : Place
  serving_host : ℕ → Place
  refused_as_host : Place
  counting : Place
  upgrading_client : Place
  serving_client : Bytes → Place
  finished : Place

-- `departed` counts the clients that have been served and have left.
pub record Machine : Type 0 where
  pub server : Server
  pub requests : Map ℕ Place
  pub departed : ℕ

pub data Move : Type 0 where
  arrive : ℕ → Bytes → Move
  advance : ℕ → Option ℕ → Bytes → Move

abbrev pub on_metrics : (Metrics → Metrics) → Server → Server
on_metrics f s = record s { metrics = f s.metrics }

-- `s.getHost() == nil && isLoopBack(req.RemoteAddr)`
unfoldable pub ws_route : Bytes → Server → Place
ws_route addr s = elim s.host [
  | none ↦ if is_loop_back addr then upgrading_host else refused_as_host
  | some h ↦ refused_as_host
]

-- `s.metrics.active()+1 > s.config.TotalConnections`, in uint8.
abbrev pub max_clients_reached : Server → Bool
max_clients_reached s = ltb s.config.total_connections (uint8 (s.metrics.active_connections + 1))

unfoldable pub upgrade_limit : Server → Server × Place
upgrade_limit s =
    if max_clients_reached s
    then (on_metrics increase_failed_connections s, finished)
    else (s, counting)

-- The answer of Accept for a client, with the second increase, in wsHandler, and addClient.
unfoldable pub upgrade_client : Option ℕ → Bytes → Server → Server × Place
upgrade_client none id s =
    (on_metrics (λ m. increase_failed_connections (decrease_active_connections m)) s, finished)
upgrade_client (some conn) id s =
    (add_client id conn (on_metrics increase_active_connections s), serving_client id)

-- The answer of Accept for the host; the deferred `setHost(nil)` runs on an error too.
unfoldable pub upgrade_host : Option ℕ → Server → Server × Place
upgrade_host none s = (set_host none s, finished)
upgrade_host (some conn) s = (set_host (some conn) s, serving_host conn)

unfoldable pub ws_handler : Place → Option ℕ → Bytes → Server → Server × Place
unfolding ws_route upgrade_limit upgrade_client upgrade_host
ws_handler (arrived addr) accept id s = (s, ws_route addr s)
ws_handler upgrading_host accept id s = upgrade_host accept s
ws_handler (serving_host conn) accept id s = (set_host none s, finished)
ws_handler refused_as_host accept id s = upgrade_limit s
ws_handler counting accept id s = (on_metrics increase_active_connections s, upgrading_client)
ws_handler upgrading_client accept id s = upgrade_client accept id s
ws_handler (serving_client c) accept id s =
    (on_metrics decrease_active_connections (remove_client c s), finished)
ws_handler finished accept id s = (s, finished)

abbrev pub leaves : Place → ℕ
leaves (serving_client c) = 1
leaves _ = 0

abbrev pub start_machine : Config → Machine
start_machine config = record { server = new_server config; requests = []; departed = 0 }

-- A new request has a number of its own; a move of a request that is not there changes nothing.
unfoldable pub step : Machine → Move → Machine
step m (arrive r addr) = elim (lookup r m.requests) [
  | none ↦ record m { requests = insert r (arrived addr) m.requests }
  | some p ↦ m
]
step m (advance r accept id) = elim (lookup r m.requests) [
  | none ↦ m
  | some p ↦
      let (s, q) = ws_handler p accept id m.server in
      record { server = s; requests = insert r q m.requests; departed = m.departed + leaves p }
]

unfoldable pub run : Machine → List Move → Machine
run m [] = m
run m (v ∷ vs) = run (step m v) vs
