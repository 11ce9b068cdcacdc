-- ===== src/Sinks/Tests.antt =====
-- Concrete runs of a table of sinks, a stream and a pool.
use mediasink.Prelude.{
  ◌≤◌, ℕ, ◌+◌, ◌%◌, ◌≡◌, refl, true, false, none, some, List, [], ◌∷◌, ◌==◌, nat_keys, bytes_keys,
  Bytes, codes,
}
use mediasink.Rtsp.Host.State as RtspHost
use mediasink.Rtsp.Host.State.{HostConfig, recording, vp8, video, initial_host}
use mediasink.Sinks.RtspStream.{rtsp_host, refused_packet_ends_reuse}
use mediasink.Prelude.{Bool}
use mediasink.Prelude.{pos}
use mediasink.Sinks.Forward
use mediasink.Sinks.Forward.{is_safe, sink_loop_lem}
use mediasink.Sinks.Host.{HostOps}
use mediasink.Sinks.Stream
use mediasink.Sinks.Stream.{
  context_done, popped, Fed, loop, packets, write_all, well_written, loop_lem,
}
use mediasink.Prelude.{arith, ltb, if◌then◌else◌, length, take, ◌++◌, lookup, insert, list_beq}
use mediasink.WebrtcJs.State as Webrtc
use mediasink.WebrtcJs.Trace as Trace
use mediasink.WebrtcJs.Sessions.{made, new_session, get_or_create_session}
use mediasink.WebrtcJs.Requests.{
  decoded, offered, request_handler, handle_offer_request, send_offer, extract_ssrc_from_sdp,
}
use mediasink.WebrtcJs.Validity.{run-new_host-IsValid}
use mediasink.Sinks.Pipeline as Pipeline
use mediasink.Sinks.Pipeline.{
  BufferOps, IsQueue, Turn, context_done, sink_turn, stream_turn, started,
}
use mediasink.Sinks.Flow.{taken_in, taken_out, flow}
use mediasink.Sinks.Delivery.{run_lem}
use mediasink.Sinks.WebrtcStream as WebrtcStream
use mediasink.Sinks.WebrtcStream.{chan_of, viewer_gets_stream}
use mediasink.Loopback.State.{new_loop_back}
use mediasink.Loopback.State as Loopback
use mediasink.Sinks.LoopbackStream.{loopback_host, total_accepted, loopback_stream_counts}
use mediasink.Loopback.Options.{is_some}
use mediasink.Sinks.Options as Options
use mediasink.Sinks.Options.{
  StreamOption, with_loop_back_host, with_webrtc_restream, webrtc_host, no_host, all_made,
  last_host, start, create_stream,
}
use mediasink.Sinks.Starting.{last_starts, create_stream_starts}

abbrev id_a : Bytes
id_a = codes "a"

-- A host that refuses odd packets and remembers what it was given.
abbrev picky : HostOps (List ℕ)
picky = record { write_rtp = λ p h. (p ∷ h, p % 2 == 0); close = λ h. 99 ∷ h }

abbrev rounds : List Stream.Round
rounds = popped (some 2) ∷ popped none ∷ popped (some 3) ∷ context_done ∷ popped (some 4) ∷ []

abbrev announced_config : HostConfig
announced_config = record {
  server_addr = codes "h";
  server_port = 8554;
  stream_path = codes "s";
  read_timeout = 0;
  write_timeout = 0;
  dial_timeout = 0;
  reconnect_attempts = pos 3;
  reconnect_delay = 0;
  user_agent = [];
}

abbrev publishing : RtspHost.Host
publishing =
    record (initial_host announced_config
      (record { media_type = video; formats = vp8 96 ∷ [] } ∷ [])) {
        client = some 1;
        state = recording;
      }

abbrev blank : ℕ → RtspHost.Packet
blank p = record { payload_type = 96; payload = [] }

abbrev accepts_even : ℕ → Bool
accepts_even p = p % 2 == 0

refused_packet_ends_reuse_example :
    (loop
      (rtsp_host blank accepts_even 5)
      (popped (some 3) ∷ popped (some 4) ∷ [])
      (record { host = publishing; put_back = 2 ∷ [] })).put_back
    ≡ 2 ∷ []
refused_packet_ends_reuse_example =
    refused_packet_ends_reuse blank accepts_even 5 96 1 3 (popped (some 4) ∷ [])
      (record { host = publishing; put_back = 2 ∷ [] }) refl refl refl refl

-- A sink that is started before its track is set.
sink_loop_lem_example :
    Forward.loop none (Forward.read (some 4) true ∷ Forward.track_set (some 1) ∷ []) ≡ none
unfolding is_safe
sink_loop_lem_example =
    sink_loop_lem none (Forward.read (some 4) true ∷ Forward.track_set (some 1) ∷ [])

-- A queue in a list.
abbrev list_buffer : ℕ → BufferOps (List ℕ)
list_buffer size = record {
  contents = λ b. b;
  capacity = size;
  push = λ p b. if ltb (length b) size then some (b ++ p ∷ []) else none;
  pop = λ b. elim b [ [] ↦ none | p ∷ rest ↦ some (p, rest) ];
}

list_pop : (size : ℕ) (b b' : List ℕ) (p : ℕ) → (list_buffer size).pop b ≡ some (p, b') → b ≡ p ∷ b'
list_pop size [] b' p e = cc
list_pop size (x ∷ rest) b' p e = cc

list_buffer-IsQueue : (size : ℕ) → IsQueue (list_buffer size)
list_buffer-IsQueue size = record {
  push_appends = λ p b b' e. ground arith;
  pop_takes = list_pop size;
}

abbrev sixty : ℕ
sixty = 60

abbrev turns : List Turn
turns =
    sink_turn (some 2)
    ∷ stream_turn
    ∷ sink_turn none
    ∷ sink_turn (some 3)
    ∷ sink_turn (some 4)
    ∷ stream_turn
    ∷ []

run_lem_example :
    let given =
      flow (list_buffer sixty) picky (taken_out (list_buffer sixty) picky) turns (started [] []) in
    let end = Pipeline.run (list_buffer sixty) picky turns (started [] []) in
    (flow (list_buffer sixty) picky (taken_in (list_buffer sixty) picky) turns (started [] [])
      ≡ given ++ end.buffer)
    × (length end.buffer ≤ 60)
    × (end.host
        ≡ (if end.stream_runs then write_all picky given [] else 99 ∷ write_all picky given []))
run_lem_example = run_lem (list_buffer sixty) picky (list_buffer-IsQueue sixty) turns [] [] refl

abbrev restream_config : Webrtc.Config
restream_config = record {
  addr = codes "0.0.0.0";
  port = 8080;
  read_timout = 0;
  write_timout = 0;
  keep_hosting = false;
  total_connections = 4;
  allow_local_only = false;
  client_ttl = 0;
}

abbrev empty_packets : ℕ → Webrtc.Packet
empty_packets p = record { payload_type = 96; ssrc = 0; payload = [] }

abbrev viewed : Webrtc.Host
viewed = Trace.run (Webrtc.new_host restream_config 5 empty_packets) (
    Trace.requesting id_a (codes "1.2.3.4:5") true (decoded 9) (made 10 11) (offered [] true)
      (λ ssrcs. ssrcs) [] 6
    ∷ [])

viewed_session :
    lookup id_a viewed.clients
    ≡ some (record (new_session 10 11 9 6) { sdp_status = Webrtc.offer_sent })
unfolding Trace.run Trace.step request_handler handle_offer_request get_or_create_session send_offer
    extract_ssrc_from_sdp Webrtc.new_host lookup insert list_beq
viewed_session = refl

viewer_gets_stream_example :
    let now : ℕ = 9 in
    let end =
      Pipeline.run (list_buffer sixty) (WebrtcStream.webrtc_host now) turns (started [] viewed) in
    (given : List ℕ) × (flow
        (list_buffer sixty)
        (WebrtcStream.webrtc_host now)
        (taken_in (list_buffer sixty) (WebrtcStream.webrtc_host now))
        turns
        (started [] viewed)
      ≡ given ++ end.buffer)
    × (chan_of (lookup id_a end.host.clients) ≡ some (take Webrtc.chan_capacity given))
unfolding Pipeline.run
viewer_gets_stream_example =
    viewer_gets_stream (list_buffer sixty) 9 (list_buffer-IsQueue sixty) turns [] viewed id_a
      (record (new_session 10 11 9 6) { sdp_status = Webrtc.offer_sent }) refl
      (run-new_host-IsValid restream_config 5 empty_packets _) viewed_session refl

abbrev restreams : StreamOption
restreams = with_webrtc_restream restream_config 5 empty_packets

abbrev restreaming : Options.Stream
restreaming = record {
  host = webrtc_host (Webrtc.new_host restream_config 5 empty_packets);
  buffer_size = 60;
}

create_stream_starts_example :
    (all_made (with_loop_back_host [] ∷ restreams ∷ []) ≡ true)
    × (restreaming.host ≡ last_host (with_loop_back_host [] ∷ restreams ∷ []) no_host)
    × (is_some (start restreaming) ≡ true)
unfolding create_stream new_loop_back last_starts
create_stream_starts_example =
    create_stream_starts 60 (with_loop_back_host [] ∷ restreams ∷ []) restreaming refl

abbrev bound_host : Loopback.LoopBack
bound_host = record (Loopback.new) {
  bind_port = some 5000;
  remote = some (record { ip = codes "10.0.0.1"; port = 6000 });
}

abbrev datagrams : ℕ → Loopback.Packet
datagrams p = Loopback.marshalled (p ∷ p ∷ [])

loopback_stream_counts_example :
    let queue = list_buffer sixty in
    let ops = loopback_host datagrams some in
    let end = Pipeline.run queue ops turns (started [] bound_host) in
    (given : List ℕ) × (flow queue ops (taken_in queue ops) turns (started [] bound_host)
      ≡ given ++ end.buffer)
    × (end.host.bind_port ≡ some 5000)
    × (end.host.remote ≡ bound_host.remote)
    × (end.host.metrics.data_sent ≡ Loopback.int64 (0 + total_accepted datagrams some given))
unfolding Pipeline.run
loopback_stream_counts_example =
    loopback_stream_counts datagrams some (list_buffer sixty) (list_buffer-IsQueue sixty) turns []
      bound_host 5000 (record { ip = codes "10.0.0.1"; port = 6000 }) refl refl refl (omega arith)
      refl
