-- ===== src/Rtsp/Host/Tests.antt =====
-- The theorems about the publishing host at concrete inputs.
use mediasink.Prelude.{ℕ}
use mediasink.Prelude.{
  ◌*◌, ◌≡◌, refl, ◌≢◌, true, false, none, some, [], ◌∷◌, map, arith, nat_keys, bytes_keys, Bytes,
  codes, decimal,
}
use mediasink.Prelude.{pos}
use mediasink.Rtsp.Host.State.{
  Error, disconnected, connecting, recording, failed, start_recording_failed, no_media_options,
  HostConfig, second, h264, video, Media, Packet, Host, ok, err, make_rtsp_url, new_host,
}
use mediasink.Rtsp.Host.Write.{expected_payload_type, write_rtp}
use mediasink.Rtsp.Host.Manager.{
  checking, monitoring, Machine, check, dial, started, done, tick, write_packet, close, next_delay,
  connect, step, run,
}
use mediasink.Rtsp.Host.Delivery.{write_rtp-sent}
use mediasink.Rtsp.Host.Invariant.{IsValid, run-connect-IsValid}
use mediasink.Rtsp.Host.Backoff.{delay_after, grown, failed_rounds, failed_rounds_retry}
use mediasink.Rtsp.Host.Recovery.{failed_write_is_final}
use mediasink.Prelude.{◌+◌}
use mediasink.Prelude.{List}
use mediasink.Rtsp.Host.State.{get_stats}
use mediasink.Rtsp.Host.Manager.{Input}
use mediasink.Rtsp.Host.Stats.{accepted, total_bytes, run-get_stats}
use mediasink.Rtsp.Host.Write.{uint64_modulus}
use mediasink.Prelude.{◌%◌, length}

abbrev camera : HostConfig
camera = record {
  server_addr = codes "localhost";
  server_port = 8554;
  stream_path = codes "cam";
  read_timeout = 10;
  write_timeout = 10;
  dial_timeout = 10;
  reconnect_attempts = pos 3;
  reconnect_delay = 2 * second;
  user_agent = [];
}

abbrev one_try : HostConfig
one_try = record camera { reconnect_attempts = pos 0 }

abbrev video_media : Media
video_media = record { media_type = video; formats = h264 102 1 [] [] ∷ [] }

abbrev frame : Packet
frame = record { payload_type = 96; payload = 1 ∷ 2 ∷ 3 ∷ [] }

-- A host that records, with client 5.
abbrev live : Host
live = record {
  server_addr = camera.server_addr;
  stream_path = camera.stream_path;
  rtsp_url = codes "rtsp://localhost:8554/cam";
  client = some 5;
  medias = video_media ∷ [];
  state = recording;
  session = some false;
  config = camera;
  last_error = none;
  reconnect_chan = 0;
  packets_written = 7;
  bytes_written = 100;
  last_write_time = 40;
}

abbrev idle : Host
idle = record live { client = none; state = disconnected; session = none }

abbrev monitored : Machine
monitored = record { host = live; phase = monitoring; current_delay = 2 * second }

abbrev at_head : HostConfig → Machine
at_head config = record {
  host = record idle { config = config; session = some false; state = connecting };
  phase = checking;
  current_delay = 2 * second;
}

new_host_runs :
    new_host (some camera) (video_media ∷ []) []
    ≡ ok (record idle { packets_written = 0; bytes_written = 0; last_write_time = 0 })
unfolding new_host make_rtsp_url decimal
new_host_runs = refl

new_host_needs_media : new_host none [] [] ≡ err no_media_options
unfolding new_host
new_host_needs_media = refl

default_delays :
    map (λ n. delay_after n (2 * second)) (0 ∷ 1 ∷ 2 ∷ 6 ∷ 7 ∷ 8 ∷ [])
    ≡ 2_000_000_000 ∷ 3_000_000_000 ∷ 4_500_000_000 ∷ 22_781_250_000 ∷ 30_000_000_000
      ∷ 30_000_000_000 ∷ []
unfolding delay_after next_delay
default_delays = refl

abbrev fixed_frame : Packet
fixed_frame = record { payload_type = 102; payload = 1 ∷ 2 ∷ 3 ∷ [] }

write_rtp-sent_example :
    (live.state ≡ recording)
    × (live.client ≢ none)
    × (expected_payload_type live.medias ≡ some 102)
    × (◌≡◌ {A = Bytes} fixed_frame.payload frame.payload)
unfolding write_rtp
write_rtp-sent_example = write_rtp-sent frame fixed_frame true 50 live refl

run-connect-IsValid_example : IsValid (
    run
      (connect false idle)
      (check ∷ dial 5 ∷ started none 9 ∷ write_packet (some frame) false 10 ∷ tick ∷ close ∷ []))
run-connect-IsValid_example =
    run-connect-IsValid false idle
      (check ∷ dial 5 ∷ started none 9 ∷ write_packet (some frame) false 10 ∷ tick ∷ close ∷ [])
      (omega arith)

abbrev failures : List (Error × ℕ × ℕ)
failures = (start_recording_failed, 5, 9) ∷ (start_recording_failed, 6, 12) ∷ []

failed_rounds_retry_example :
    let t = run (at_head camera) (failed_rounds failures) in
    (t.phase ≡ checking) × (t.host.state ≡ failed) × (t.current_delay ≡ 4_500_000_000)
unfolding grown
failed_rounds_retry_example = failed_rounds_retry failures (at_head camera) refl refl refl

failed_write_is_final_example :
    let t = step monitored (write_packet (some frame) false 50) in
    (run t (tick ∷ write_packet (some frame) true 51 ∷ done ∷ tick ∷ []) ≡ t)
    × (t.phase ≡ monitoring)
    × (t.host.state ≡ failed)
    × (t.host.reconnect_chan ≢ 0)
failed_write_is_final_example =
    failed_write_is_final monitored frame 50 102 5
      (tick ∷ write_packet (some frame) true 51 ∷ done ∷ tick ∷ []) refl refl refl refl refl
      (tt, (tt, (tt, (tt, tt))))

abbrev publishing_inputs : List Input
publishing_inputs =
    check
    ∷ dial 5
    ∷ started none 9
    ∷ write_packet (some frame) true 10
    ∷ write_packet (some frame) false 11
    ∷ []

run-get_stats_example :
    let m = connect false idle in
    ((get_stats (run m publishing_inputs).host).0
      ≡ (idle.packets_written + length (accepted m publishing_inputs)) % uint64_modulus)
    × ((get_stats (run m publishing_inputs).host).1
        ≡ (idle.bytes_written + total_bytes (accepted m publishing_inputs)) % uint64_modulus)
run-get_stats_example = run-get_stats false idle publishing_inputs (omega arith) (omega arith)
