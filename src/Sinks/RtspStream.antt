-- ===== src/Sinks/RtspStream.antt =====
-- A stream of pkg/stream.go whose host is the RTSP host of pkg/rtsp/new_host.go.
use mediasink.Prelude.{
  ℕ, ◌≡◌, refl, ap, ◌∙◌, Bool, true, false, Option, none, some, List, [], ◌∷◌, ◌++◌, arith,
  nat_keys, bytes_keys,
}
use mathlib.Core.List.{append-nil}
use mediasink.Rtsp.Host.State.{recording, failed, Packet, Host, set_state, set_error}
use mediasink.Rtsp.Host.Write.{expected_payload_type, write_rtp, write_failed}
use mediasink.Rtsp.Host.Manager.{close_host}
use mediasink.Sinks.Host.{HostOps}
use mediasink.Sinks.Stream.{Round, popped, Fed, loop, packets, well_written, loop_lem}

abbrev is_nil {ℓ} : {A : Type ℓ} → Option A → Bool
is_nil none = true
is_nil (some a) = false

-- The packets are in memory; `accepts` is whether the client takes a packet.
abbrev pub rtsp_host : (ℕ → Packet) → (ℕ → Bool) → ℕ → HostOps Host
rtsp_host memory accepts now = record {
  write_rtp = λ p h. (
    (write_rtp (some (memory p)) (accepts p) now h).host,
    is_nil (write_rtp (some (memory p)) (accepts p) now h).error,
  );
  close = close_host;
}

-- A host that has failed stays as it is, and answers an error.
failed_write :
    (packet : Packet) (accepted : Bool) (now : ℕ) (h : Host)
    → h.state ≡ failed
    → let r = write_rtp (some packet) accepted now h in (r.host ≡ h) × (is_nil r.error ≡ false)
unfolding write_rtp
failed_write packet accepted now h down = rw (down, write_rtp) (refl, refl)

none_well_written :
    (memory : ℕ → Packet) (accepts : ℕ → Bool) (now : ℕ) (ps : List ℕ) (h : Host)
    → h.state ≡ failed
    → well_written (rtsp_host memory accepts now) ps h ≡ []
unfolding well_written
none_well_written memory accepts now [] h down = refl
none_well_written memory accepts now (p ∷ ps) h down =
    let (same, error) = failed_write (memory p) (accepts p) now h down in
    rw error (
      none_well_written memory accepts now ps (write_rtp (some (memory p)) (accepts p) now h).host
        (ap (λ (t : Host). t.state) same ∙ down))

first_failure :
    (packet : Packet) (accepted : Bool) (now expected c : ℕ) (h : Host)
    → accepted ≡ false
    → h.state ≡ recording
    → h.client ≡ some c
    → expected_payload_type h.medias ≡ some expected
    → let r = write_rtp (some packet) accepted now h in
      (r.host.state ≡ failed) × (is_nil r.error ≡ false)
unfolding write_rtp write_failed set_state set_error
first_failure packet accepted now expected c h refuses up client announced = ground arith

-- If the client of a recording RTSP host with an announced format refuses a packet of its stream, and
-- nothing else touches the host, then the stream puts back neither that packet nor any that it pops
-- behind it.
pub refused_packet_ends_reuse :
    (memory : ℕ → Packet) (accepts : ℕ → Bool) (now expected c p : ℕ) (rounds : List Round)
    (s : Fed Host)
    → s.host.state ≡ recording
    → s.host.client ≡ some c
    → expected_payload_type s.host.medias ≡ some expected
    → accepts p ≡ false
    → (loop (rtsp_host memory accepts now) (popped (some p) ∷ rounds) s).put_back ≡ s.put_back
unfolding packets well_written
refused_packet_ends_reuse memory accepts now expected c p rounds s up client announced refuses =
    let ops = rtsp_host memory accepts now in
    let (down, error) =
      first_failure (memory p) (accepts p) now expected c s.host refuses up client announced in
    let nothing_well : well_written ops (p ∷ packets ops rounds) s.host ≡ [] = rw error (
      none_well_written memory accepts now (packets ops rounds)
        (write_rtp (some (memory p)) (accepts p) now s.host).host down) in
    (loop_lem ops (popped (some p) ∷ rounds) s).1
    ∙ ap (λ (r : List ℕ). s.put_back ++ r) nothing_well
    ∙ append-nil s.put_back
