-- ===== src/Sinks/LoopbackStream.antt =====
-- A started sink of pkg/sink.go and pkg/stream.go whose host is the UDP loopback of
-- pkg/loopback/host.go. Nothing is known of the packets, nor of what WriteToUDP answers for one.
use mediasink.Prelude.{
  ℕ, ◌+◌, ◌^◌, ◌<◌, ◌≡◌, refl, ap, ◌∙◌, true, Option, none, some, List, [], ◌∷◌, ◌++◌, arith,
  if◌then◌else◌, ◌==◌, nat_keys, bytes_keys, length,
}
use mediasink.Sinks.Host.{HostOps}
use mediasink.Sinks.Stream.{write_all}
use mediasink.Sinks.Pipeline.{BufferOps, IsQueue, Pipeline, Turn, started}
use mediasink.Sinks.Pipeline as Pipeline
use mediasink.Sinks.Flow.{taken_in, taken_out, flow}
use mediasink.Sinks.Delivery.{run_lem}
use mediasink.Loopback.State.{
  int64, add_sent, UdpAddr, LoopBack, write, Packet, nil_packet, bad_packet, marshalled, write_rtp,
}
use mediasink.Loopback.Threads.{end_session}
use mediasink.WebrtcJs.Fanout.{if_yes}

-- The bytes of a packet that WriteToUDP takes as a whole, if it answers `written`.
abbrev pub accepted_bytes : Packet → Option ℕ → ℕ
accepted_bytes (marshalled payload) (some n) = if n == length payload then length payload else 0
accepted_bytes _ _ = 0

-- A packet that is counted, on a host that keeps its addresses.
abbrev Counted : ℕ → LoopBack → LoopBack → Type 0
Counted bytes l t =
    (t.bind_port ≡ l.bind_port)
    × (t.remote ≡ l.remote)
    × (t.metrics.data_sent ≡ int64 (l.metrics.data_sent + bytes))

write-Counted :
    (packet : Packet) (written : Option ℕ) (port : ℕ) (remote : UdpAddr) (l : LoopBack)
    → l.bind_port ≡ some port
    → l.remote ≡ some remote
    → l.metrics.data_sent < 2 ^ 64
    → Counted (accepted_bytes packet written) l (write_rtp packet written l).0
unfolding write_rtp write add_sent
write-Counted nil_packet written port remote l bound known small = ground (arith, small)
write-Counted bad_packet written port remote l bound known small = ground (arith, small)
write-Counted (marshalled payload) none port remote l bound known small =
    rw (bound, known) (ground (arith, small))
write-Counted (marshalled payload) (some n) port remote l bound known small =
    ground (arith, bound, known, small)

-- What Close leaves of the host.
abbrev pub shut : LoopBack → LoopBack
shut l = record (end_session l) { bind_port = none }

module _ (packets : ℕ → Packet) (answers : ℕ → Option ℕ) where
  abbrev pub loopback_host : HostOps LoopBack
  loopback_host = record { write_rtp = λ p l. write_rtp (packets p) (answers p) l; close = shut }

  unfoldable pub total_accepted : List ℕ → ℕ
  total_accepted [] = 0
  total_accepted (p ∷ ps) = accepted_bytes (packets p) (answers p) + total_accepted ps

  write_all-Counted :
      (ps : List ℕ) (port : ℕ) (remote : UdpAddr) (l : LoopBack)
      → l.bind_port ≡ some port
      → l.remote ≡ some remote
      → l.metrics.data_sent < 2 ^ 64
      → Counted (total_accepted ps) l (write_all loopback_host ps l)
  unfolding write_all total_accepted
  write_all-Counted [] port remote l bound known small = (refl, refl, omega (arith, small))
  write_all-Counted (p ∷ ps) port remote l bound known small =
      let t = (write_rtp (packets p) (answers p) l).0 in
      let (socket, peer, sent) =
        write-Counted (packets p) (answers p) port remote l bound known small in
      let (later_socket, later_peer, later_sent) =
        write_all-Counted ps port remote t (socket ∙ bound) (peer ∙ known) (omega (arith, sent)) in
      (later_socket ∙ socket, later_peer ∙ peer, omega (arith, sent, later_sent))

  module _ {ℓ} {B : Type ℓ} (queue : BufferOps B) where
    -- In any run of a started sink over a bounded queue that is empty at first and a UDP loopback with a
    -- socket and a remote address, in which nothing else touches the host and its stream has not ended,
    -- the host keeps both, and the bytes that it counts as sent grow by those of the packets that the
    -- buffer took from the sink and has not kept and that WriteToUDP takes as a whole, modulo 2 ^ 64.
    pub loopback_stream_counts :
        IsQueue queue
        → (ts : List Turn) (b : B) (l : LoopBack) (port : ℕ) (remote : UdpAddr)
        → queue.contents b ≡ []
        → l.bind_port ≡ some port
        → l.remote ≡ some remote
        → l.metrics.data_sent < 2 ^ 64
        → (Pipeline.run queue loopback_host ts (started b l)).stream_runs ≡ true
        → let end = Pipeline.run queue loopback_host ts (started b l) in
          (given : List ℕ) × (flow queue loopback_host
              (taken_in queue loopback_host)
              ts
              (started b l)
            ≡ given ++ queue.contents end.buffer)
          × (end.host.bind_port ≡ some port)
          × (end.host.remote ≡ some remote)
          × (end.host.metrics.data_sent ≡ int64 (l.metrics.data_sent + total_accepted given))
    loopback_stream_counts is_queue ts b l port remote empty bound known small on =
        let (taken, bounded, written) = run_lem queue loopback_host is_queue ts b l empty in
        let given = flow queue loopback_host (taken_out queue loopback_host) ts (started b l) in
        let same = written ∙ if_yes _ on in
        let (socket, peer, sent) = write_all-Counted given port remote l bound known small in
        (
          given,
          taken,
          ap (λ (t : LoopBack). t.bind_port) same ∙ socket ∙ bound,
          ap (λ (t : LoopBack). t.remote) same ∙ peer ∙ known,
          ap (λ (t : LoopBack). t.metrics.data_sent) same ∙ sent,
        )
