-- ===== src/Sinks/Bounded.antt =====
-- How much waits between the loops of pkg/sink.go and pkg/stream.go.
use mediasink.Prelude.{
  ℕ, ◌≤◌, ◌<◌, ◌≡◌, sym, ap, subst, inl, inr, not, ◌&&◌, Option, none, some, List, [], ◌∷◌, ◌++◌,
  arith, nat_keys, bytes_keys, Bool-cases, Option-cases, length, length-append,
}
use mediasink.Sinks.Host.{HostOps}
use mediasink.Sinks.Pipeline.{
  BufferOps, IsQueue, Pipeline, Turn, context_done, sink_turn, stream_turn, sink_round,
  stream_round, step, run,
}
use mediasink.Sinks.Flow.{sink_goes_on, sink_pauses, stream_goes_on, stream_pauses, popped}

fits_behind : (xs ys : List ℕ) (p n : ℕ) → ys ≡ xs ++ p ∷ [] → length xs < n → length ys ≤ n
fits_behind xs ys p n e room =
    ground (arith, ap (λ (r : List ℕ). length r) e, length-append xs (p ∷ []))

fits_front : (xs ys zs : List ℕ) (n : ℕ) → xs ≡ ys ++ zs → length xs ≤ n → length zs ≤ n
fits_front xs ys zs n e h = ground (arith, ap (λ (r : List ℕ). length r) e, length-append ys zs)

module _ {ℓ κ} {B : Type ℓ} {H : Type κ} (queue : BufferOps B) (ops : HostOps H)
    (is_queue : IsQueue queue) where
  abbrev IsBounded : Pipeline B H → Type 0
  IsBounded s = length (queue.contents s.buffer) ≤ queue.capacity

  pushed-IsBounded :
      (packet : Option ℕ) (s : Pipeline B H)
      → IsBounded s
      → IsBounded (sink_round queue ops packet s)
  unfolding sink_round
  pushed-IsBounded none s h = h
  pushed-IsBounded (some packet) s h = elim (Option-cases (queue.push packet s.buffer)) [
    | inl refused ↦ rw (refused, sink_round) h
    | inr (b, taken) ↦
        let (grown, room) = is_queue.push_appends packet s.buffer b taken in
        rw (taken, sink_round)
          (ground
            (arith, ap length grown, length-append (queue.contents s.buffer) (packet ∷ []), room))
  ]

  popped-IsBounded : (s : Pipeline B H) → IsBounded s → IsBounded (stream_round queue ops s)
  popped-IsBounded s h = fits_front _ _ _ queue.capacity (popped queue ops is_queue s) h

  step-IsBounded : (t : Turn) (s : Pipeline B H) → IsBounded s → IsBounded (step queue ops t s)
  unfolding step
  step-IsBounded context_done s h = h
  step-IsBounded (sink_turn packet) s h = elim (Bool-cases (s.sink_runs && not s.done)) [
    | inl on ↦
        subst IsBounded (sym (sink_goes_on queue ops packet s on)) (pushed-IsBounded packet s h)
    | inr off ↦
        subst (λ (b : B). length (queue.contents b) ≤ queue.capacity)
          (sym (sink_pauses queue ops packet s off)) h
  ]
  step-IsBounded stream_turn s h = elim (Bool-cases (s.stream_runs && not s.done)) [
    | inl on ↦ subst IsBounded (sym (stream_goes_on queue ops s on)) (popped-IsBounded s h)
    | inr off ↦
        subst (λ (b : B). length (queue.contents b) ≤ queue.capacity)
          (sym (stream_pauses queue ops s off)) h
  ]

  pub run-bounded :
      (ts : List Turn) (s : Pipeline B H)
      → length (queue.contents s.buffer) ≤ queue.capacity
      → length (queue.contents (run queue ops ts s).buffer) ≤ queue.capacity
  unfolding run
  run-bounded [] s h = h
  run-bounded (t ∷ ts) s h = run-bounded ts (step queue ops t s) (step-IsBounded t s h)
