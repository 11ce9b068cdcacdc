-- ===== src/Rtsp/Server/Tests.antt =====
-- The theorems about the relay server at concrete inputs.
use mediasink.Prelude.{
  ◌≡◌, refl, true, false, none, some, List, [], ◌∷◌, arith, nat_keys, bytes_keys, list_beq, Bytes,
  codes, decimal, lookup, contains, insert, erase, retain, map_values,
}
use mediasink.Rtsp.Server.State.{
  close_stream, close_session, ClientSession, StreamInfo, add_client, remove_client, UserData,
  Config, Server, status_ok, total_clients, new_server,
}
use mediasink.Rtsp.Server.Handlers.{
  is_publisher, validate_connection, on_conn_open, on_session_open, make_client_id, sweep,
  leave_stream, on_session_close, find_stream, new_stream_info, on_announce, joining, on_setup,
  seen_at, touch_client, on_play, touch_stream, on_packet,
}
use mediasink.Rtsp.Server.Upkeep.{cleanup_stream, cleanup_inactive_sessions}
use mediasink.Rtsp.Server.Invariant.{IsValid, run-new_server-IsValid}
use mediasink.Rtsp.Server.Trace.{
  Event, conn_open, session_open, session_close, announce, setup, play, packet, cleanup, run,
}
use mediasink.Rtsp.Server.Ownership.{session_close_forgets, replaced_publisher_spares}
use mediasink.Rtsp.Server.Cleanup.{packet_keeps_alive}
use mediasink.Net.{is_loop_back}
use mediasink.Rtsp.Server.Quiet.{is_quiet}
use mediasink.Rtsp.Server.Abandoned.{abandoned_stream_ends}
use mediasink.Rtsp.Server.Handlers.{on_describe}
use mediasink.Rtsp.Server.Registry.{registry, register_all, describe}
use mediasink.Rtsp.Server.Refinement.{describe-run}
use mediasink.Rtsp.Server.Routines.{
  ended, returned, started, Turn, cleanup_turn, metrics_turn, close_called, run as run_threads,
  step as step_threads,
}
use mediasink.Rtsp.Server.Joining.{finish, close_returns_anywhere}

abbrev small : Config
small = record {
  port = 8554;
  max_clients = 1;
  max_streams = 2;
  read_timeout = 10;
  write_timeout = 10;
  publisher_session_timeout = 60;
  client_session_timeout = 60;
  allow_local_only = false;
  udp_rtp_address = [];
  udp_rtcp_address = [];
  multicast_ip_range = [];
  multicast_rtp_port = 0;
  multicast_rtcp_port = 0;
  write_queue_size = 16;
}

abbrev cam : Bytes
cam = codes "cam"

abbrev user_of : Bytes → UserData
user_of id = record {
  client_id = id;
  remote_addr = codes "10.0.0.7:50";
  is_local = false;
  conn_time = 5;
}

abbrev viewer : ClientSession
viewer = joining (user_of (codes "b")) 2 30

-- Session 1 publishes, session 2 watches, session 3 is open.
abbrev cam_info : StreamInfo
cam_info = record (new_stream_info 1 100 7 10) { clients = (codes "b", viewer) ∷ [] }

abbrev busy : Server
busy = record {
  config = small;
  streams = (cam, cam_info) ∷ [];
  session = some false;
  routines = 2;
  total_connections = 3;
  user_data = (1, user_of (codes "a")) ∷ (2, user_of (codes "b")) ∷ (3, user_of (codes "c")) ∷ [];
}

busy-IsValid : IsValid busy
unfolding contains
busy-IsValid = record {
  bounded = omega arith;
  distinct = (refl, tt);
  sound = (
    record {
      has_stream = λ e. cc;
      has_publisher = λ e. cc;
      distinct = (refl, tt);
      keyed = (refl, tt);
      apart = ((λ e. ground arith), tt);
    },
    tt,
  );
}

abbrev history : List Event
history =
    conn_open 1 (codes "10.0.0.7:50")
    ∷ session_open 1 (codes "10.0.0.7:50") 5
    ∷ announce cam 1 100 7 10
    ∷ session_open 2 (codes "10.0.0.8:51") 6
    ∷ setup cam 2 20
    ∷ play cam 2 21
    ∷ packet 100 22
    ∷ cleanup 40
    ∷ []

history_runs :
    lookup cam (run (new_server (some small)) history).streams
    ≡ some (record (new_stream_info 1 100 7 10) {
      publisher_last_active = 22;
      clients =
          (
            codes "10.0.0.8:51-6",
            record {
              id = codes "10.0.0.8:51-6";
              session = 2;
              remote_addr = codes "10.0.0.8:51";
              is_local = false;
              conn_time = 6;
              last_active = 22;
            },
          )
          ∷ [];
    })
unfolding run new_server on_conn_open validate_connection on_session_open make_client_id decimal
    on_announce on_setup find_stream add_client on_play touch_client on_packet touch_stream
    cleanup_inactive_sessions sweep cleanup_stream total_clients lookup insert retain map_values
    list_beq is_loop_back mediasink.Rtsp.Server.Trace.step
history_runs = refl

run-new_server-IsValid_example : IsValid (run (new_server (some small)) history)
run-new_server-IsValid_example = run-new_server-IsValid (some small) history

session_close_forgets_example :
    (is_publisher 2 (record cam_info { clients = [] }) ≡ false)
    × (lookup (codes "b") (record cam_info { clients = [] }).clients ≡ none)
unfolding lookup on_session_close sweep leave_stream remove_client erase list_beq
session_close_forgets_example =
    session_close_forgets cam 2 (user_of (codes "b")) busy (record cam_info { clients = [] })
      busy-IsValid refl refl

replaced_publisher_spares_example :
    let (t, code, closed) = on_announce cam 3 101 8 50 busy in
    (code ≡ status_ok)
    × (closed ≡ close_stream 100 ∷ close_session 1 ∷ [])
    × (lookup cam (on_session_close 1 t).0.streams
        ≡ some (record {
          stream = some 101;
          publisher = some 3;
          publisher_last_active = 50;
          description = 8;
          clients = [];
          created_at = 50;
        }))
replaced_publisher_spares_example =
    replaced_publisher_spares cam 1 100 3 101 8 50 busy cam_info busy-IsValid (omega arith)
      (unfold lookup list_beq in refl) refl refl (λ e. ground arith)

packet_keeps_alive_example :
    lookup cam (cleanup_inactive_sessions 120 (on_packet 100 65 busy)).0.streams
    ≡ some (record cam_info {
      publisher_last_active = 65;
      clients = map_values (seen_at 65) cam_info.clients;
    })
unfolding lookup list_beq
packet_keeps_alive_example =
    packet_keeps_alive cam 100 65 120 busy cam_info busy-IsValid refl refl (omega arith)
      (omega arith)

abandoned_stream_ends_example :
    lookup cam (run busy (setup cam 3 20 ∷ cleanup 1000 ∷ play cam 3 1100 ∷ [])).streams ≡ none
unfolding lookup list_beq is_quiet
abandoned_stream_ends_example =
    abandoned_stream_ends cam 100 1000 (setup cam 3 20 ∷ []) (play cam 3 1100 ∷ []) busy cam_info
      busy-IsValid refl refl (omega arith) refl refl

describe-run_example :
    on_describe cam (run busy (setup cam 3 20 ∷ cleanup 1000 ∷ play cam 3 1100 ∷ []))
    ≡ describe cam
        (register_all (registry busy) (setup cam 3 20 ∷ cleanup 1000 ∷ play cam 3 1100 ∷ []))
describe-run_example = describe-run cam busy (setup cam 3 20 ∷ cleanup 1000 ∷ play cam 3 1100 ∷ [])

abbrev both_busy : List Turn
both_busy = cleanup_turn true ∷ cleanup_turn false ∷ metrics_turn true ∷ close_called ∷ []

close_returns_anywhere_example :
    let t =
      run_threads (step_threads (run_threads (started false) both_busy) close_called) finish in
    (t.closer ≡ returned) × (t.cleanup ≡ ended) × (t.metrics ≡ ended)
close_returns_anywhere_example = close_returns_anywhere false both_busy
