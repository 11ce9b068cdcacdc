-- ===== src/WebrtcJs/State.antt =====
-- The data of pkg/webrtc_js/host.go. Peer connections, tracks and packets are pointers, known here
-- by a number each. A session stands in the table of its host under its id. Times are nanoseconds;
-- the uint8 and int64 counters wrap, an int64 by its bit pattern.
use mediasink.Prelude.{
  ℕ, ◌+◌, ◌-◌, ◌%◌, ◌^◌, Bool, false, Option, none, some, List, [], ◌∷◌, ◌++◌, ltb, if◌then◌else◌,
  ◌==◌, nat_keys, bytes_keys, length, drop, Bytes, Map,
}

pub data SdpStatus : Type 0 where
  not_initialised requested offer_sent waiting_for_answer sdp_connected sdp_failed : SdpStatus

pub data ServerStatus : Type 0 where
  unset server_down server_online : ServerStatus

-- webrtc.PeerConnectionState.
pub data ConnectionState : Type 0 where
  new connecting connected disconnected failed closed : ConnectionState

-- `rtp_chan` holds the packets that wait in the channel, oldest first.
pub record ClientSession : Type 0 where
  pub peer_connection : ℕ
  pub video_track : ℕ
  pub primary_ssrc : ℕ
  pub rtx_ssrc : ℕ
  pub sdp_status : SdpStatus
  pub ttl : ℕ
  pub connection_state : ConnectionState
  pub rtp_chan : List ℕ
  pub last_activity : ℕ

abbrev pub chan_capacity : ℕ
chan_capacity = 1000

unfoldable pub update_activity : ℕ → ClientSession → ClientSession
update_activity now cs = record cs { last_activity = now }

unfoldable pub is_expired : ℕ → ClientSession → Bool
is_expired now cs = ltb cs.ttl (now - cs.last_activity)

pub record Config : Type 0 where
  pub addr : Bytes
  pub port : ℕ
  pub read_timout : ℕ
  pub write_timout : ℕ
  pub keep_hosting : Bool
  pub total_connections : ℕ
  pub allow_local_only : Bool
  pub client_ttl : ℕ

pub record Metrics : Type 0 where
  pub uptime : ℕ
  pub active_connections : ℕ
  pub failed_connections : ℕ
  pub total_data_sent : ℕ
  pub start_time : ℕ

abbrev pub uint8 : ℕ → ℕ
uint8 n = n % 256

abbrev pub int64 : ℕ → ℕ
int64 n = n % 2 ^ 64

unfoldable pub increase_active_connections : Metrics → Metrics
increase_active_connections m = record m { active_connections = uint8 (m.active_connections + 1) }

unfoldable pub decrease_active_connections : Metrics → Metrics
decrease_active_connections m =
    if ltb 0 m.active_connections
    then record m { active_connections = m.active_connections - 1 }
    else m

unfoldable pub increase_failed_connections : Metrics → Metrics
increase_failed_connections m = record m { failed_connections = uint8 (m.failed_connections + 1) }

unfoldable pub add_data_sent : ℕ → Metrics → Metrics
add_data_sent len m = record m { total_data_sent = int64 (m.total_data_sent + len) }

-- Marshal updates the uptime that it prints.
unfoldable pub marshal_metrics : ℕ → Metrics → Metrics
marshal_metrics now m = record m { uptime = now - m.start_time }

pub record Health : Type 0 where
  pub state : ServerStatus
  pub recent_errors : List Bytes

-- The new error goes to the end, and the oldest leaves from the eleventh on. The text comes with its
-- time in front.
unfoldable pub add_error : Bytes → Health → Health
add_error text h =
    let errors = h.recent_errors ++ text ∷ [] in
    record h { recent_errors = if ltb 10 (length errors) then drop 1 errors else errors }

pub record Packet : Type 0 where
  pub payload_type : ℕ
  pub ssrc : ℕ
  pub payload : Bytes

-- `packets` is the memory of the packets that the host has been given; `session` holds `cancel`, if
-- it is set, as whether the context is done.
pub record Host : Type 0 where
  pub config : Config
  pub clients : Map Bytes ClientSession
  pub packets : ℕ → Packet
  pub session : Option Bool
  pub http_closed : Bool
  pub metrics : Metrics
  pub health : Health

abbrev pub five_minutes : ℕ
five_minutes = 300_000_000_000

unfoldable pub new_host : Config → ℕ → (ℕ → Packet) → Host
new_host config now packets = record {
  config = record config {
    client_ttl = if config.client_ttl == 0 then five_minutes else config.client_ttl;
  };
  clients = [];
  packets = packets;
  session = none;
  http_closed = false;
  metrics = record {
    uptime = 0;
    active_connections = 0;
    failed_connections = 0;
    total_data_sent = 0;
    start_time = now;
  };
  health = record { state = unset; recent_errors = [] };
}

unfoldable pub set_status : ServerStatus → Host → Host
set_status status h = record h { health = record (h.health) { state = status } }

unfoldable pub set_session : Bool → Host → Host
set_session parent_done h = record h { session = some parent_done }

abbrev pub on_metrics : (Metrics → Metrics) → Host → Host
on_metrics f h = record h { metrics = f h.metrics }

unfoldable pub log_error : Bytes → Host → Host
unfolding add_error
log_error text h = record h { health = add_error text h.health }
