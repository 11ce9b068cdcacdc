-- ===== src/Sinks/WebrtcStream.antt =====
-- A started sink of pkg/sink.go and pkg/stream.go whose host is the WebRTC host of
-- pkg/webrtc_js/host.go.
use mediasink.Prelude.{
  ℕ, ◌≤◌, ◌≡◌, sym, ap, ◌∙◌, subst, inl, inr, true, false, Option, none, some, List, [], ◌∷◌, ◌++◌,
  arith, ltb, if◌then◌else◌, nat_keys, bytes_keys, Bool-cases, length, take, length-append,
  take_short, take_full, Bytes, lookup,
}
use mediasink.Prelude.{Entries-lookup}
use mediasink.Sinks.Host.{HostOps}
use mediasink.Sinks.Stream.{write_all}
use mediasink.Sinks.Pipeline.{
  BufferOps, IsQueue, Pipeline, Turn, context_done, sink_turn, stream_turn, sink_round,
  stream_round, sink_step, stream_step, step, started,
}
use mediasink.Sinks.Pipeline as Pipeline
use mathlib.Core.List.{append-nil, append_assoc}
use mediasink.WebrtcJs.State.{ClientSession, chan_capacity, update_activity, Host}
use mediasink.WebrtcJs.Sessions.{has_room, enqueue}
use mediasink.WebrtcJs.Broadcast.{write_rtp}
use mediasink.WebrtcJs.Upkeep.{expire, cleanup_expired_clients, serve_round, serve, connect}
use mediasink.WebrtcJs.Upkeep as Upkeep
use mediasink.WebrtcJs.Fanout.{offer, if_yes, write_rtp_lem}
use mediasink.Sinks.Flow.{taken_in, taken_out, flow}
use mediasink.WebrtcJs.Invariant.{IsValid}
use mediasink.WebrtcJs.Preservation.{write_rtp-IsValid}
use mediasink.Sinks.Delivery.{run_lem}

-- The packets are written at one time.
abbrev pub webrtc_host : ℕ → HostOps Host
webrtc_host now = record { write_rtp = λ p h. write_rtp p now h; close = λ h. (Upkeep.close h).0 }

-- What waits in the channel of a session.
abbrev pub chan_of : Option ClientSession → Option (List ℕ)
chan_of none = none
chan_of (some cs) = some cs.rtp_chan

-- What waits behind a packet that a channel may have no room for.
abbrev offered_to : ℕ → ℕ → List ℕ → List ℕ
offered_to capacity p waiting = if ltb (length waiting) capacity then waiting ++ p ∷ [] else waiting

chan-offer :
    (p now : ℕ) (waiting : List ℕ) (o : Option ClientSession)
    → chan_of o ≡ some waiting
    → chan_of (offer p now o) ≡ some (offered_to chan_capacity p waiting)
chan-offer p now waiting none e = cc
chan-offer p now waiting (some cs) e =
    let same : cs.rtp_chan ≡ waiting = cc in
    elim (Bool-cases (has_room cs)) [
      | inl room ↦
          let fits : ltb (length waiting) chan_capacity ≡ true =
            subst (λ (q : List ℕ). ltb (length q) chan_capacity ≡ true) same room in
          rw (room, fits)
            (unfold enqueue update_activity in ap (λ (q : List ℕ). some (q ++ p ∷ [])) same)
      | inr full ↦
          let over : ltb (length waiting) chan_capacity ≡ false =
            subst (λ (q : List ℕ). ltb (length q) chan_capacity ≡ false) same full in
          rw (full, over) (ap some same)
    ]

-- Packets that are offered one after another.
offered_all : ℕ → List ℕ → List ℕ → List ℕ
offered_all capacity [] waiting = waiting
offered_all capacity (p ∷ ps) waiting = offered_all capacity ps (offered_to capacity p waiting)

offered_all-take :
    (capacity : ℕ) (ps waiting : List ℕ)
    → length waiting ≤ capacity
    → offered_all capacity ps waiting ≡ take capacity (waiting ++ ps)
unfolding offered_all
offered_all-take capacity [] waiting h =
    sym (ap (take capacity) (append-nil waiting) ∙ take_short capacity waiting h)
offered_all-take capacity (p ∷ ps) waiting h = elim (Bool-cases (ltb (length waiting) capacity)) [
  | inl room ↦ rw room (
      offered_all-take capacity ps (waiting ++ p ∷ [])
        (ground (arith, room, length-append waiting (p ∷ [])))
      ∙ ap (take capacity) (append_assoc waiting (p ∷ []) ps))
  | inr full ↦ rw full (
      let whole : length waiting ≡ capacity = ground (arith, full, h) in
      offered_all-take capacity ps waiting h
      ∙ take_full capacity waiting ps whole
      ∙ sym (take_full capacity waiting (p ∷ ps) whole))
]

chan-write_all :
    (id : Bytes) (now : ℕ) (ps waiting : List ℕ) (h : Host)
    → IsValid h
    → chan_of (lookup id h.clients) ≡ some waiting
    → chan_of (lookup id (write_all (webrtc_host now) ps h).clients)
      ≡ some (offered_all chan_capacity ps waiting)
unfolding write_all offered_all
chan-write_all id now [] waiting h v e = e
chan-write_all id now (p ∷ ps) waiting h v e =
    chan-write_all id now ps (offered_to chan_capacity p waiting) (write_rtp p now h).0
      (write_rtp-IsValid p now h v)
      (ap chan_of (write_rtp_lem id p now h v.distinct).1
        ∙ chan-offer p now waiting (lookup id h.clients) e)

module _ {ℓ} {B : Type ℓ} (queue : BufferOps B) (now : ℕ) where
  -- In any run of a started sink over a bounded queue that is empty at first and a WebRTC host within
  -- its bounds, in which nothing else touches the host and its stream has not ended, the channel of a
  -- session that there was holds what it held at first and then the packets that the buffer took from the
  -- sink and has not kept, in order, cut at 1000.
  pub viewer_gets_stream :
      IsQueue queue
      → (ts : List Turn) (b : B) (h : Host) (id : Bytes) (cs : ClientSession)
      → queue.contents b ≡ []
      → IsValid h
      → lookup id h.clients ≡ some cs
      → (Pipeline.run queue (webrtc_host now) ts (started b h)).stream_runs ≡ true
      → let end = Pipeline.run queue (webrtc_host now) ts (started b h) in
        (given : List ℕ) × (flow queue
            (webrtc_host now)
            (taken_in queue (webrtc_host now))
            ts
            (started b h)
          ≡ given ++ queue.contents end.buffer)
        × (chan_of (lookup id end.host.clients) ≡ some (take chan_capacity (cs.rtp_chan ++ given)))
  viewer_gets_stream is_queue ts b h id cs empty v found on =
      let (taken, bounded, written) = run_lem queue (webrtc_host now) is_queue ts b h empty in
      let given =
        flow queue (webrtc_host now) (taken_out queue (webrtc_host now)) ts (started b h) in
      (
        given,
        taken,
        ap (λ (t : Host). chan_of (lookup id t.clients)) (written ∙ if_yes _ on)
            ∙ chan-write_all id now given cs.rtp_chan h v (ap chan_of found)
            ∙ ap some (
                offered_all-take chan_capacity given cs.rtp_chan
                  (Entries-lookup _ id h.clients cs v.sane found).0),
      )
