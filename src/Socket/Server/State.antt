-- ===== src/Socket/Server/State.antt =====
-- The data of pkg/socket/server.go. Connections are pointers of the WebSocket library, known here by
-- a number each. The uint8 and int64 counters wrap; an int64 is its bit pattern.
use mediasink.Prelude.{
  ℕ, ◌+◌, ◌%◌, ◌^◌, Bool, false, Option, none, some, List, [], nat_keys, bytes_keys, Bytes, codes,
  Map, insert, erase,
}

pub record Config : Type 0 where
  pub addr : Bytes
  pub port : ℕ
  pub read_timout : ℕ
  pub write_timout : ℕ
  pub total_connections : ℕ
  pub keep_hosting : Bool

abbrev pub zero_config : Config
zero_config = record {
  addr = [];
  port = 0;
  read_timout = 0;
  write_timout = 0;
  total_connections = 0;
  keep_hosting = false;
}

pub record Metrics : Type 0 where
  pub uptime : ℕ
  pub active_connections : ℕ
  pub failed_connections : ℕ
  pub total_data_sent : ℕ
  pub total_data_recvd : ℕ

abbrev pub zero_metrics : Metrics
zero_metrics = record {
  uptime = 0;
  active_connections = 0;
  failed_connections = 0;
  total_data_sent = 0;
  total_data_recvd = 0;
}

pub record Health : Type 0 where
  pub state : Bytes
  pub recent_errors : List Bytes

abbrev pub zero_health : Health
zero_health = record { state = []; recent_errors = [] }

abbrev pub uint8 : ℕ → ℕ
uint8 n = n % 256

abbrev pub int64 : ℕ → ℕ
int64 n = n % 2 ^ 64

unfoldable pub increase_active_connections : Metrics → Metrics
increase_active_connections m = record m { active_connections = uint8 (m.active_connections + 1) }

unfoldable pub decrease_active_connections : Metrics → Metrics
decrease_active_connections m = record m { active_connections = uint8 (m.active_connections + 255) }

unfoldable pub increase_failed_connections : Metrics → Metrics
increase_failed_connections m = record m { failed_connections = uint8 (m.failed_connections + 1) }

unfoldable pub add_data_sent : ℕ → Metrics → Metrics
add_data_sent len m = record m { total_data_sent = int64 (m.total_data_sent + len) }

unfoldable pub add_data_recvd : ℕ → Metrics → Metrics
add_data_recvd len m = record m { total_data_recvd = int64 (m.total_data_recvd + len) }

-- `session` holds `cancel`, if it is set, as whether the context is done; `once` is whether the
-- body of Close has run; `http_closed` is whether the HTTP server has been closed.
pub record Server : Type 0 where
  pub config : Config
  pub host : Option ℕ
  pub clients : Map Bytes ℕ
  pub once : Bool
  pub session : Option Bool
  pub metrics : Metrics
  pub health : Health
  pub http_closed : Bool

unfoldable pub new_server : Config → Server
new_server config = record {
  config = config;
  host = none;
  clients = [];
  once = false;
  session = none;
  metrics = zero_metrics;
  health = zero_health;
  http_closed = false;
}

abbrev pub server_down : Bytes
server_down = codes "SERVER_OFFLINE"

abbrev pub server_up : Bytes
server_up = codes "SERVER_ONLINE"

unfoldable pub set_status : Bytes → Server → Server
set_status status s = record s { health = record (s.health) { state = status } }

-- `context.WithCancel` of a parent that is done is done.
unfoldable pub set_session : Bool → Server → Server
set_session parent_done s = record s { session = some parent_done }

unfoldable pub set_host : Option ℕ → Server → Server
set_host conn s = record s { host = conn }

unfoldable pub add_client : Bytes → ℕ → Server → Server
add_client id conn s = record s { clients = insert id conn s.clients }

unfoldable pub remove_client : Bytes → Server → Server
remove_client id s = record s { clients = erase id s.clients }

abbrev pub is_done : Server → Bool
is_done s = elim s.session [ none ↦ false | some d ↦ d ]
