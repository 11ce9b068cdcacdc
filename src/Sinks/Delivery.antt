-- ===== src/Sinks/Delivery.antt =====
-- What the host of a started sink has been given, through the loops of pkg/sink.go and
-- pkg/stream.go.
use mediasink.Prelude.{
  ℕ, ◌≤◌, ◌≡◌, refl, sym, ap, ◌∙◌, inl, inr, Bool, true, false, not, ◌&&◌, none, some, List, [],
  ◌∷◌, ◌++◌, arith, if◌then◌else◌, nat_keys, bytes_keys, Bool-cases, Option-cases, length,
}
use mediasink.Sinks.Bounded.{run-bounded}
use mediasink.Sinks.Host.{HostOps}
use mediasink.Sinks.Stream.{write_all}
use mediasink.Sinks.Pipeline.{
  BufferOps, IsQueue, Pipeline, Turn, context_done, sink_turn, stream_turn, sink_round,
  stream_round, sink_step, stream_step, step, run, started,
}
use mediasink.Sinks.Flow.{taken_in, taken_out, flow, flow-contents, stream_goes_on}

module _ {ℓ κ} {B : Type ℓ} {H : Type κ} (queue : BufferOps B) (ops : HostOps H) where
  -- A stream that has ended.
  ended_step :
      (t : Turn) (s : Pipeline B H)
      → s.stream_runs ≡ false
      → ((step queue ops t s).stream_runs ≡ false)
        × ((step queue ops t s).host ≡ s.host)
        × (taken_out queue ops t s ≡ [])
  unfolding step sink_step sink_round stream_step taken_out
  ended_step context_done s off = (off, refl, refl)
  ended_step (sink_turn none) s off = ground (arith, off)
  ended_step (sink_turn (some packet)) s off = ground (arith, off)
  ended_step stream_turn s off = ground (arith, off)

  ended_run :
      (ts : List Turn) (s : Pipeline B H)
      → s.stream_runs ≡ false
      → ((run queue ops ts s).stream_runs ≡ false)
        × ((run queue ops ts s).host ≡ s.host)
        × (flow queue ops (taken_out queue ops) ts s ≡ [])
  unfolding run flow
  ended_run [] s off = (off, refl, refl)
  ended_run (t ∷ ts) s off =
      let (still, same, nothing) = ended_step t s off in
      let (later, kept, none_later) = ended_run ts (step queue ops t s) still in
      (later, kept ∙ same, rw nothing none_later)

  -- What a turn does to a host whose stream runs.
  data Outcome (t : Turn) (s : Pipeline B H) : Type κ where
    goes_on :
        (step queue ops t s).stream_runs ≡ true
        → (step queue ops t s).host ≡ write_all ops (taken_out queue ops t s) s.host
        → Outcome t s
    ends :
        (step queue ops t s).stream_runs ≡ false
        → (step queue ops t s).host ≡ ops.close s.host
        → taken_out queue ops t s ≡ []
        → Outcome t s

  round_outcome :
      (s : Pipeline B H)
      → s.stream_runs ≡ true
      → ((stream_round queue ops s).stream_runs ≡ true)
        × ((stream_round queue ops s).host
            ≡ write_all ops
                (elim (queue.pop s.buffer) [ none ↦ [] | some (packet, b) ↦ packet ∷ [] ])
                s.host)
  unfolding stream_round write_all
  round_outcome s on = elim (Option-cases (queue.pop s.buffer)) [
    | inl empty ↦ rw (empty, stream_round) (on, refl)
    | inr ((packet, b), taken) ↦ rw (taken, stream_round) (on, refl)
  ]

  going_step :
      (s : Pipeline B H)
      → s.stream_runs ≡ true
      → (s.stream_runs && not s.done) ≡ true
      → Outcome stream_turn s
  unfolding step taken_out
  going_step s on open_to =
      let (still, given) = round_outcome s on in
      let same = stream_goes_on queue ops s open_to in
      goes_on (ap (λ (q : Pipeline B H). q.stream_runs) same ∙ still)
        (rw open_to (ap (λ (q : Pipeline B H). q.host) same ∙ given))

  running_step : (t : Turn) (s : Pipeline B H) → s.stream_runs ≡ true → Outcome t s
  unfolding step sink_step sink_round stream_step taken_out write_all
  running_step context_done s on = goes_on on refl
  running_step (sink_turn none) s on = goes_on (ground (arith, on)) (ground (arith, on))
  running_step (sink_turn (some packet)) s on = goes_on (ground (arith, on)) (ground (arith, on))
  running_step stream_turn s on = elim (Bool-cases s.done) [
    | inl over ↦
        ends (ground (arith, on, over)) (ground (arith, on, over)) (ground (arith, on, over))
    | inr going ↦ going_step s on (ground (arith, on, going))
  ]

  write_all-append :
      (ps qs : List ℕ) (h : H) → write_all ops (ps ++ qs) h ≡ write_all ops qs (write_all ops ps h)
  unfolding write_all
  write_all-append [] qs h = refl
  write_all-append (p ∷ ps) qs h = write_all-append ps qs (ops.write_rtp p h).0

  -- The host behind a run in which it is given some packets.
  abbrev after : Bool → List ℕ → H → H
  after still ps h = if still then write_all ops ps h else ops.close (write_all ops ps h)

  after-append :
      (still : Bool) (ps qs : List ℕ) (h : H)
      → after still qs (write_all ops ps h) ≡ after still (ps ++ qs) h
  after-append true ps qs h = sym (write_all-append ps qs h)
  after-append false ps qs h = ap ops.close (sym (write_all-append ps qs h))

  run-host :
      (ts : List Turn) (s : Pipeline B H)
      → s.stream_runs ≡ true
      → (run queue ops ts s).host
        ≡ after (run queue ops ts s).stream_runs (flow queue ops (taken_out queue ops) ts s) s.host
  unfolding run flow
  run-host [] s on = rw on (unfold write_all in refl)
  run-host (t ∷ ts) s on = elim (running_step t s on) [
    | goes_on still given ↦
        run-host ts (step queue ops t s) still
        ∙ ap (after _ _) given
        ∙ after-append _ (taken_out queue ops t s) _ s.host
    | ends still shut nothing ↦
        let (off, same, none_later) = ended_run ts (step queue ops t s) still in
        same ∙ shut ∙ rw (off, nothing, none_later) (unfold write_all in refl)
  ]

  -- In any run of a started sink whose buffer is an empty bounded queue at first, the packets that the
  -- buffer takes from the sink are, in order, those that the host is given and then those that still
  -- wait, which are never more than the buffer's capacity; the host is written exactly the former one
  -- after another, and it is closed once if the stream has ended and not otherwise.
  pub run_lem :
      IsQueue queue
      → (ts : List Turn) (b : B) (h : H) → queue.contents b ≡ []
      → let given = flow queue ops (taken_out queue ops) ts (started b h) in
        let end = run queue ops ts (started b h) in
        (flow queue ops (taken_in queue ops) ts (started b h) ≡ given ++ queue.contents end.buffer)
        × (length (queue.contents end.buffer) ≤ queue.capacity)
        × (end.host ≡ (
            if end.stream_runs then write_all ops given h else ops.close (write_all ops given h)))
  run_lem is_queue ts b h empty =
      let taken = flow queue ops (taken_in queue ops) ts (started b h) in
      (
        ap (λ (r : List ℕ). r ++ taken) (sym empty)
            ∙ flow-contents queue ops is_queue ts (started b h),
        run-bounded queue ops is_queue ts (started b h)
            (ground (arith, ap (λ (r : List ℕ). length r) empty)),
        run-host ts (started b h) refl,
      )
