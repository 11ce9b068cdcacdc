-- ===== src/WebrtcJs/Tests.antt =====
-- Concrete runs of the WebRTC host.
use mediasink.Prelude.{
  ℕ, ◌+◌, ◌≡◌, refl, true, false, none, some, List, [], ◌∷◌, ◌++◌, arith, ltb, nat_keys, bytes_keys,
  list_beq, Bytes, codes, lookup, contains, insert, Distinct,
}
use mediasink.WebrtcJs.State.{
  int64, uint8, unset, connecting, connected, disconnected, closed, ClientSession, Config, Packet,
  Host, five_minutes, new_host,
}
use mediasink.WebrtcJs.Sessions.{made, new_session}
use mediasink.WebrtcJs.Requests.{extract_ssrc_from_sdp, decoded, offered}
use mediasink.WebrtcJs.Broadcast.{write_rtp, forward_rtp_packet}
use mediasink.WebrtcJs.Errors.{last_ten, log_all, log_all_lem}
use mediasink.WebrtcJs.Fanout.{rooms, last_ssrc, write_rtp_lem, offer}
use mediasink.WebrtcJs.Stamping.{ssrc_sent, track_gets_last_ssrc}
use mediasink.WebrtcJs.Counting.{changes, disconnect_counts_twice}
use mediasink.Prelude.{Map}
use mathlib.Core.List.Perm
use mediasink.WebrtcJs.Broadcast.{ids, write_each}
use mediasink.WebrtcJs.AnyOrder.{write_rtp_any_order}
use mediasink.WebrtcJs.Trace.{
  Event, requesting, state_changed, rtp_written, rtp_forwarded, expiring, run,
}
use mediasink.WebrtcJs.Invariant.{IsValid}
use mediasink.WebrtcJs.Validity.{run-new_host-IsValid}
use mediasink.WebrtcJs.Totals.{bytes_sent, losses, run-new_host-metrics}

abbrev open_config : Config
open_config = record {
  addr = codes "0.0.0.0";
  port = 8080;
  read_timout = 0;
  write_timout = 0;
  keep_hosting = false;
  total_connections = 4;
  allow_local_only = false;
  client_ttl = 0;
}

abbrev frame : Packet
frame = record { payload_type = 96; ssrc = 7; payload = 1 ∷ 2 ∷ [] }

abbrev memory : ℕ → Packet
memory p = frame

abbrev idle_host : Host
idle_host = record {
  config = record open_config { client_ttl = five_minutes };
  clients = [];
  packets = memory;
  session = none;
  http_closed = false;
  metrics = record {
    uptime = 0;
    active_connections = 0;
    failed_connections = 0;
    total_data_sent = 0;
    start_time = 5;
  };
  health = record { state = unset; recent_errors = [] };
}

new_host_open : new_host open_config 5 memory ≡ idle_host
unfolding new_host
new_host_open = refl

abbrev viewer : ℕ → ℕ → ClientSession
viewer pc ssrc = record (new_session pc (pc + 1) 100 5) { primary_ssrc = ssrc }

abbrev id_a : Bytes
id_a = codes "a"

abbrev id_b : Bytes
id_b = codes "b"

-- Two viewers, two counted connections.
abbrev watched : Host
watched = record idle_host {
  clients = (id_a, viewer 10 111) ∷ (id_b, viewer 20 222) ∷ [];
  metrics = record (idle_host.metrics) { active_connections = 2 };
}

two_ids : Distinct watched.clients
unfolding contains list_beq
two_ids = (refl, (refl, tt))

abbrev plain_order : List ℕ → List ℕ
plain_order ssrcs = ssrcs

sdp_ssrcs :
    extract_ssrc_from_sdp plain_order
      (codes "v=0\na=ssrc:42 cname:x\na=ssrc:42 msid:y\na=ssrc:43 rtx\n")
    ≡ (42, 0)
unfolding extract_ssrc_from_sdp insert
sdp_ssrcs = refl

log_all_lem_example :
    (log_all (id_a ∷ id_b ∷ []) idle_host).health.recent_errors
    ≡ last_ten (idle_host.health.recent_errors ++ id_a ∷ id_b ∷ [])
log_all_lem_example = log_all_lem (id_a ∷ id_b ∷ []) idle_host (omega arith)

write_rtp_lem_example :
    ((write_rtp 3 9 watched).1 ≡ ltb 0 (rooms watched.clients))
    × (lookup id_a (write_rtp 3 9 watched).0.clients ≡ offer 3 9 (lookup id_a watched.clients))
write_rtp_lem_example = write_rtp_lem id_a 3 9 watched two_ids

-- The first viewer gets the SSRC of the second.
track_gets_last_ssrc_example :
    let (t, sent) = write_each (ids watched.clients) 3 9 0 watched in
    (ssrc_sent (forward_rtp_packet id_a true t).1 ≡ some 222)
    × ((write_rtp 3 9 watched).0 ≡ (write_each [] 3 9 sent t).0)
unfolding last_ssrc list_beq
track_gets_last_ssrc_example =
    track_gets_last_ssrc id_a (viewer 10 111) 3 9 true watched watched.clients [] refl two_ids
      (unfold lookup in refl) refl

disconnect_counts_twice_example :
    (changes id_a 10
        (connecting ∷ connected ∷ disconnected ∷ closed ∷ [])
        1
        2
        9
        watched).metrics.active_connections
      + 1
    ≡ 2
disconnect_counts_twice_example =
    disconnect_counts_twice id_a 10 1 2 9 watched (omega arith) (omega arith)

abbrev session_history : List Event
session_history =
    requesting id_a (codes "1.2.3.4:5") true (decoded 0) (made 10 11)
      (offered (codes "a=ssrc:42 x") true) plain_order [] 6
    ∷ state_changed id_a 10 connected 1 2 7
    ∷ rtp_written 3 8
    ∷ rtp_forwarded id_a true
    ∷ expiring 9
    ∷ []

run-new_host-IsValid_example : IsValid (run (new_host open_config 5 memory) session_history)
run-new_host-IsValid_example = run-new_host-IsValid open_config 5 memory session_history

run-new_host-metrics_example :
    let h = run (new_host open_config 5 memory) session_history in
    (h.metrics.total_data_sent ≡ int64 (bytes_sent (new_host open_config 5 memory) session_history))
    × (h.metrics.failed_connections ≡ uint8 (losses session_history))
run-new_host-metrics_example = run-new_host-metrics open_config 5 memory session_history

abbrev other_way : Map Bytes ClientSession
other_way = (id_b, viewer 20 222) ∷ (id_a, viewer 10 111) ∷ []

write_rtp_any_order_example :
    let r = write_each (ids other_way) 3 9 0 watched in
    (ltb 0 r.1 ≡ (write_rtp 3 9 watched).1)
    × (lookup id_a r.0.clients ≡ lookup id_a (write_rtp 3 9 watched).0.clients)
write_rtp_any_order_example =
    write_rtp_any_order other_way id_a 3 9 watched two_ids
      (Perm.swap (id_a, viewer 10 111) (id_b, viewer 20 222) [])
