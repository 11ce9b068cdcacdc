-- ===== src/Sinks/Pipeline.antt =====
-- A started sink: the loop of pkg/sink.go and the loop of pkg/stream.go on the buffer between them,
-- under one context. The turns of the two goroutines come in any order.
use mediasink.Prelude.{
  ℕ, ◌<◌, ◌≡◌, Bool, true, false, Option, none, some, List, [], ◌∷◌, ◌++◌, if◌then◌else◌, nat_keys,
  bytes_keys, length,
}
use mediasink.Sinks.Host.{HostOps}

-- The buffer of another library, with its packets oldest first. Push answers none if the time runs
-- out.
pub record BufferOps {ℓ} (B : Type ℓ) : Type ℓ where
  pub contents : B → List ℕ
  pub capacity : ℕ
  pub push : ℕ → B → Option B
  pub pop : B → Option (ℕ × B)

-- The buffer is a queue of bounded length.
pub record IsQueue {ℓ} {B : Type ℓ} (buffer : BufferOps B) : Type ℓ where
  pub push_appends :
      (p : ℕ) (b b' : B)
      → buffer.push p b ≡ some b'
      → (buffer.contents b' ≡ buffer.contents b ++ p ∷ [])
        × (length (buffer.contents b) < buffer.capacity)
  pub pop_takes :
      (b b' : B) (p : ℕ) → buffer.pop b ≡ some (p, b') → buffer.contents b ≡ p ∷ buffer.contents b'

-- `done` is whether the context is done.
pub record Pipeline {ℓ κ} (B : Type ℓ) (H : Type κ) : Type (ℓ ⊔ κ) where
  pub done : Bool
  pub sink_runs : Bool
  pub stream_runs : Bool
  pub buffer : B
  pub host : H
  pub put_back : List ℕ

-- A turn of the sink comes with what ReadRTP answers.
pub data Turn : Type 0 where
  context_done : Turn
  sink_turn : Option ℕ → Turn
  stream_turn : Turn

-- Both loops are started, on a new buffer.
abbrev pub started {ℓ κ} : {B : Type ℓ} {H : Type κ} → B → H → Pipeline B H
started b h = record {
  done = false;
  sink_runs = true;
  stream_runs = true;
  buffer = b;
  host = h;
  put_back = [];
}

module _ {ℓ κ} {B : Type ℓ} {H : Type κ} (queue : BufferOps B) (ops : HostOps H) where
  -- A round of the loop of the sink that reads.
  unfoldable pub sink_round : Option ℕ → Pipeline B H → Pipeline B H
  sink_round none s = s
  sink_round (some packet) s = elim (queue.push packet s.buffer) [
    | none ↦ s
    | some b ↦ record s { buffer = b }
  ]

  -- A round of the loop of the stream that pops.
  unfoldable pub stream_round : Pipeline B H → Pipeline B H
  stream_round s = elim (queue.pop s.buffer) [
    | none ↦ s
    | some (packet, b) ↦
        let (host, written) = ops.write_rtp packet s.host in
        record s {
          buffer = b;
          host = host;
          put_back = if written then s.put_back ++ packet ∷ [] else s.put_back;
        }
  ]

  unfoldable pub sink_step : Option ℕ → Pipeline B H → Pipeline B H
  unfolding sink_round
  sink_step packet s =
      if s.sink_runs
      then (if s.done then record s { sink_runs = false } else sink_round packet s)
      else s

  unfoldable pub stream_step : Pipeline B H → Pipeline B H
  unfolding stream_round
  stream_step s =
      if s.stream_runs
      then (if s.done
          then record s { stream_runs = false; host = ops.close s.host }
          else stream_round s)
      else s

  unfoldable pub step : Turn → Pipeline B H → Pipeline B H
  unfolding sink_step stream_step
  step context_done s = record s { done = true }
  step (sink_turn packet) s = sink_step packet s
  step stream_turn s = stream_step s

  unfoldable pub run : List Turn → Pipeline B H → Pipeline B H
  unfolding step
  run [] s = s
  run (t ∷ ts) s = run ts (step t s)
