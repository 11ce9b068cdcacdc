-- ===== src/Sinks/Flow.antt =====
-- What flows from the sink of pkg/sink.go through the buffer of pkg/stream.go to the host.
use mediasink.Prelude.{
  ℕ, ◌≡◌, refl, sym, ap, ◌∙◌, inl, inr, true, false, not, ◌&&◌, Option, none, some, List, [], ◌∷◌,
  ◌++◌, arith, if◌then◌else◌, nat_keys, bytes_keys, Bool-cases, Option-cases,
}
use mediasink.Sinks.Host.{HostOps}
use mediasink.Sinks.Pipeline.{
  BufferOps, IsQueue, Pipeline, Turn, context_done, sink_turn, stream_turn, sink_round,
  stream_round, sink_step, stream_step, step, run,
}
use mathlib.Core.List.{append-nil, append_assoc}

module _ {ℓ κ} {B : Type ℓ} {H : Type κ} (queue : BufferOps B) (ops : HostOps H) where
  -- What a turn puts into the buffer.
  unfoldable pub taken_in : Turn → Pipeline B H → List ℕ
  taken_in (sink_turn (some packet)) s =
      if s.sink_runs && not s.done
      then (elim (queue.push packet s.buffer) [ none ↦ [] | some b ↦ packet ∷ [] ])
      else []
  taken_in _ s = []

  -- What a turn takes out of it for the host.
  unfoldable pub taken_out : Turn → Pipeline B H → List ℕ
  taken_out stream_turn s =
      if s.stream_runs && not s.done
      then (elim (queue.pop s.buffer) [ none ↦ [] | some (packet, b) ↦ packet ∷ [] ])
      else []
  taken_out _ s = []

  -- The packets of a run, turn by turn.
  unfoldable pub flow : (Turn → Pipeline B H → List ℕ) → List Turn → Pipeline B H → List ℕ
  flow of_turn [] s = []
  flow of_turn (t ∷ ts) s = of_turn t s ++ flow of_turn ts (step queue ops t s)

  pub sink_pauses :
      (packet : Option ℕ) (s : Pipeline B H)
      → (s.sink_runs && not s.done) ≡ false
      → (sink_step queue ops packet s).buffer ≡ s.buffer
  unfolding sink_step
  sink_pauses packet s off = elim (Bool-cases s.sink_runs) [
    | inl runs ↦
        rw (runs, sink_step) (elim (Bool-cases s.done) [ inl over ↦ rw over refl | inr going ↦ cc ])
    | inr ended ↦ rw (ended, sink_step) refl
  ]

  pub sink_goes_on :
      (packet : Option ℕ) (s : Pipeline B H)
      → (s.sink_runs && not s.done) ≡ true
      → sink_step queue ops packet s ≡ sink_round queue ops packet s
  unfolding sink_step
  sink_goes_on packet s on = ground (arith, on)

  pub stream_pauses :
      (s : Pipeline B H)
      → (s.stream_runs && not s.done) ≡ false
      → (stream_step queue ops s).buffer ≡ s.buffer
  unfolding stream_step
  stream_pauses s off = elim (Bool-cases s.stream_runs) [
    | inl runs ↦
        rw (runs, stream_step)
          (elim (Bool-cases s.done) [ inl over ↦ rw over refl | inr going ↦ cc ])
    | inr ended ↦ rw (ended, stream_step) refl
  ]

  pub stream_goes_on :
      (s : Pipeline B H)
      → (s.stream_runs && not s.done) ≡ true
      → stream_step queue ops s ≡ stream_round queue ops s
  unfolding stream_step
  stream_goes_on s on = ground (arith, on)

  module _ (is_queue : IsQueue queue) where
    pushed :
        (packet : ℕ) (s : Pipeline B H)
        → queue.contents s.buffer
            ++ (elim (queue.push packet s.buffer) [ none ↦ [] | some b ↦ packet ∷ [] ])
          ≡ queue.contents (sink_round queue ops (some packet) s).buffer
    unfolding sink_round
    pushed packet s = elim (Option-cases (queue.push packet s.buffer)) [
      | inl refused ↦ rw (refused, sink_round) (append-nil _)
      | inr (b, taken) ↦
          rw (taken, sink_round) (sym (is_queue.push_appends packet s.buffer b taken).0)
    ]

    idle : (s : Pipeline B H) → (sink_step queue ops none s).buffer ≡ s.buffer
    unfolding sink_step sink_round
    idle s = ground arith

    sink-contents :
        (packet : Option ℕ) (s : Pipeline B H)
        → queue.contents s.buffer ++ taken_in (sink_turn packet) s
          ≡ queue.contents (sink_step queue ops packet s).buffer
    unfolding taken_in
    sink-contents none s = append-nil _ ∙ ap queue.contents (sym (idle s))
    sink-contents (some packet) s = elim (Bool-cases (s.sink_runs && not s.done)) [
      | inl on ↦ rw (on, sink_goes_on (some packet) s on) (pushed packet s)
      | inr off ↦ rw (off, sink_pauses (some packet) s off) (append-nil _)
    ]

    pub popped :
        (s : Pipeline B H)
        → queue.contents s.buffer
          ≡ (elim (queue.pop s.buffer) [ none ↦ [] | some (packet, b) ↦ packet ∷ [] ])
            ++ queue.contents (stream_round queue ops s).buffer
    unfolding stream_round
    popped s = elim (Option-cases (queue.pop s.buffer)) [
      | inl empty ↦ rw (empty, stream_round) refl
      | inr ((packet, b), taken) ↦
          rw (taken, stream_round) (is_queue.pop_takes s.buffer b packet taken)
    ]

    stream-contents :
        (s : Pipeline B H)
        → queue.contents s.buffer
          ≡ taken_out stream_turn s ++ queue.contents (stream_step queue ops s).buffer
    unfolding taken_out
    stream-contents s = elim (Bool-cases (s.stream_runs && not s.done)) [
      | inl on ↦ rw (on, stream_goes_on s on) (popped s)
      | inr off ↦ rw (off, stream_pauses s off) refl
    ]

    step-contents :
        (t : Turn) (s : Pipeline B H)
        → queue.contents s.buffer ++ taken_in t s
          ≡ taken_out t s ++ queue.contents (step queue ops t s).buffer
    unfolding taken_in taken_out step
    step-contents context_done s = append-nil _
    step-contents (sink_turn packet) s = sink-contents packet s
    step-contents stream_turn s = append-nil _ ∙ stream-contents s

    -- What is in a buffer in front of a run, and goes in during it, comes out of it or is left.
    pub flow-contents :
        (ts : List Turn) (s : Pipeline B H)
        → queue.contents s.buffer ++ flow taken_in ts s
          ≡ flow taken_out ts s ++ queue.contents (run queue ops ts s).buffer
    unfolding flow run
    flow-contents [] s = append-nil _
    flow-contents (t ∷ ts) s =
        let q = step queue ops t s in
        sym (append_assoc (queue.contents s.buffer) (taken_in t s) (flow taken_in ts q))
        ∙ ap (λ (r : List ℕ). r ++ flow taken_in ts q) (step-contents t s)
        ∙ append_assoc (taken_out t s) (queue.contents q.buffer) (flow taken_in ts q)
        ∙ ap (λ (r : List ℕ). taken_out t s ++ r) (flow-contents ts q)
        ∙ sym (append_assoc (taken_out t s) (flow taken_out ts q) _)
