-- ===== src/Rtsp/Server/State.antt =====
-- The data of pkg/rtsp/new_server.go. Sessions, streams, connections and descriptions are pointers
-- of gortsplib, known here by a number each. Times are nanoseconds, durations and limits are not
-- negative. Each method holds the locks that it takes for its whole critical section, so it is one
-- step on the state; the locks are left out.
use mediasink.Prelude.{
  ℕ, ◌+◌, ◌*◌, ◌^◌, Bool, false, Option, none, some, List, [], ◌∷◌, map, nat_keys, bytes_keys,
  length, Bytes, codes, Map, lookup, insert, erase,
}

pub record ClientSession : Type 0 where
  pub id : Bytes
  pub session : ℕ
  pub remote_addr : Bytes
  pub is_local : Bool
  pub conn_time : ℕ
  pub last_active : ℕ

pub record StreamInfo : Type 0 where
  pub stream : Option ℕ
  pub publisher : Option ℕ
  pub publisher_last_active : ℕ
  pub description : ℕ
  pub clients : Map Bytes ClientSession
  pub created_at : ℕ

unfoldable pub add_client : ClientSession → StreamInfo → StreamInfo
add_client client si = record si { clients = insert client.id client si.clients }

unfoldable pub remove_client : Bytes → StreamInfo → StreamInfo
remove_client client_id si = record si { clients = erase client_id si.clients }

unfoldable pub get_client_count : StreamInfo → ℕ
get_client_count si = length si.clients

-- The values of the client table, in the order of the range.
unfoldable pub get_clients : StreamInfo → List ClientSession
get_clients si = map (λ (entry : Bytes × ClientSession). entry.1) si.clients

pub record Config : Type 0 where
  pub port : ℕ
  pub max_clients : ℕ
  pub max_streams : ℕ
  pub read_timeout : ℕ
  pub write_timeout : ℕ
  pub publisher_session_timeout : ℕ
  pub client_session_timeout : ℕ
  pub allow_local_only : Bool
  pub udp_rtp_address : Bytes
  pub udp_rtcp_address : Bytes
  pub multicast_ip_range : Bytes
  pub multicast_rtp_port : ℕ
  pub multicast_rtcp_port : ℕ
  pub write_queue_size : ℕ

abbrev pub second : ℕ
second = 1_000_000_000

unfoldable pub default_config : Config
default_config = record {
  port = 8554;
  max_clients = 100;
  max_streams = 10;
  read_timeout = 10 * second;
  write_timeout = 10 * second;
  publisher_session_timeout = 60 * second;
  client_session_timeout = 60 * second;
  allow_local_only = false;
  udp_rtp_address = codes ":8000";
  udp_rtcp_address = codes ":8001";
  multicast_ip_range = codes "224.1.0.0/16";
  multicast_rtp_port = 8002;
  multicast_rtcp_port = 8003;
  write_queue_size = 4096;
}

-- The map that a session carries as its user data.
pub record UserData : Type 0 where
  pub client_id : Bytes
  pub remote_addr : Bytes
  pub is_local : Bool
  pub conn_time : ℕ

-- `session` holds `cancel`, if it is set, as whether the context is done. `user_data` is what
-- gortsplib's sessions keep for the server. `total_connections` is the bit pattern of an int64.
pub record Server : Type 0 where
  pub config : Config
  pub streams : Map Bytes StreamInfo
  pub session : Option Bool
  pub routines : ℕ
  pub total_connections : ℕ
  pub user_data : Map ℕ UserData

-- What a method does to gortsplib's objects.
pub data Effect : Type 0 where
  close_stream close_session close_conn : ℕ → Effect
  close_server : Effect

pub data StatusCode : Type 0 where
  status_ok not_found service_unavailable : StatusCode

abbrev pub int64_modulus : ℕ
int64_modulus = 2 ^ 64

unfoldable pub new_server : Option Config → Server
unfolding default_config
new_server config = record {
  config = elim config [ none ↦ default_config | some c ↦ c ];
  streams = [];
  session = none;
  routines = 0;
  total_connections = 0;
  user_data = [];
}

-- `context.WithCancel` of a parent that is done is done.
unfoldable pub set_session : Bool → Server → Server
set_session parent_done s = record s { session = some parent_done }

-- The two background routines start whether or not the listener did.
unfoldable pub start : Bool → Server → Server
unfolding set_session
start parent_done s = let t = set_session parent_done s in record t { routines = t.routines + 2 }

-- The sum of the client counts of all streams.
unfoldable pub total_clients : Map Bytes StreamInfo → ℕ
unfolding get_client_count
total_clients [] = 0
total_clients ((path, si) ∷ m) = get_client_count si + total_clients m

unfoldable pub get_stream_info : Bytes → Server → Option StreamInfo
get_stream_info path s = lookup path s.streams

unfoldable pub get_all_streams : Server → Map Bytes StreamInfo
get_all_streams s = s.streams
