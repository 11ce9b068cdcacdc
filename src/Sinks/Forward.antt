-- ===== src/Sinks/Forward.antt =====
-- pkg/sink.go: the loop of a sink, which reads its track and writes to its stream. SetTrack may come
-- between two rounds. What ReadRTP and the buffer answer comes with each round.
use mediasink.Prelude.{
  ℕ, ◌≡◌, refl, inl, inr, Bool, true, false, Option, none, some, List, [], ◌∷◌, if◌then◌else◌,
  nat_keys, bytes_keys, Bool-cases,
}

-- A round reads once: nothing, or a packet, with whether the stream takes it.
pub data Round : Type 0 where
  context_done : Round
  track_set : Option ℕ → Round
  read : Option ℕ → Bool → Round

-- The packets that the stream takes; none is the panic of a read of the nil track. Behind the end of
-- the context the deferred `close` does nothing.
unfoldable pub loop : Option ℕ → List Round → Option (List ℕ)
loop track [] = some []
loop track (context_done ∷ rounds) = some []
loop track (track_set t ∷ rounds) = loop t rounds
loop none (read packet taken ∷ rounds) = none
loop (some t) (read packet taken ∷ rounds) = elim (loop (some t) rounds) [
  | none ↦ none
  | some rest ↦ some (elim packet [ none ↦ rest | some p ↦ if taken then p ∷ rest else rest ])
]

-- Whether no read comes while the track is nil, up to the end of the context.
unfoldable pub is_safe : Option ℕ → List Round → Bool
is_safe track [] = true
is_safe track (context_done ∷ rounds) = true
is_safe track (track_set t ∷ rounds) = is_safe t rounds
is_safe none (read packet taken ∷ rounds) = false
is_safe (some t) (read packet taken ∷ rounds) = is_safe (some t) rounds

-- The packets that are read and taken, up to the end of the context.
unfoldable pub taken_packets : List Round → List ℕ
taken_packets [] = []
taken_packets (context_done ∷ rounds) = []
taken_packets (track_set t ∷ rounds) = taken_packets rounds
taken_packets (read none taken ∷ rounds) = taken_packets rounds
taken_packets (read (some p) taken ∷ rounds) =
    let rest = taken_packets rounds in if taken then p ∷ rest else rest

-- The loop of a sink panics exactly if it comes to read while its track is nil. Otherwise the stream
-- takes the packets that are read before the context is done, in order, but for those that it refuses.
pub sink_loop_lem :
    (track : Option ℕ) (rounds : List Round)
    → loop track rounds ≡ (if is_safe track rounds then some (taken_packets rounds) else none)
unfolding loop is_safe taken_packets
sink_loop_lem track [] = refl
sink_loop_lem track (context_done ∷ rounds) = refl
sink_loop_lem track (track_set t ∷ rounds) = sink_loop_lem t rounds
sink_loop_lem none (read packet taken ∷ rounds) = refl
sink_loop_lem (some t) (read none taken ∷ rounds) = elim (Bool-cases (is_safe (some t) rounds)) [
  | inl safe ↦ rw (sink_loop_lem (some t) rounds, safe) refl
  | inr bad ↦ rw (sink_loop_lem (some t) rounds, bad) refl
]
sink_loop_lem (some t) (read (some p) taken ∷ rounds) =
    elim (Bool-cases (is_safe (some t) rounds)) [
      | inl safe ↦ rw (sink_loop_lem (some t) rounds, safe) refl
      | inr bad ↦ rw (sink_loop_lem (some t) rounds, bad) refl
    ]
