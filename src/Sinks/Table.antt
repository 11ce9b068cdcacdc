-- ===== src/Sinks/Table.antt =====
-- pkg/sinks.go and the setters of pkg/sink.go: the table of sinks. A stream, a track and a packet
-- are pointers; what CreateStream answers, which runs the options, comes with the call.
use mediasink.Prelude.{
  ℕ, ◌≡◌, refl, sym, ap, ◌∙◌, ◌⊎◌, inl, inr, false, Option, none, some, List, [], ◌∷◌, arith,
  if◌then◌else◌, ◌==◌, ==_sound, nat_keys, bytes_keys, Bool-cases, Option-cases, Bytes, Map, lookup,
  contains, insert, lookup-insert, lookup-insert_self, lookup-ne_contains,
}

pub record Sink : Type 0 where
  pub track : Option ℕ
  pub stream : ℕ

abbrev pub Sinks : Type 0
Sinks = Map Bytes Sink

-- An option of CreateSinks, which may fail.
abbrev pub SinksOption : Type 0
SinksOption = Sinks → Option Sinks

unfoldable pub apply_sinks_options : List SinksOption → Sinks → Option Sinks
apply_sinks_options [] sinks = some sinks
apply_sinks_options (option ∷ options) sinks = elim (option sinks) [
  | none ↦ none
  | some changed ↦ apply_sinks_options options changed
]

unfoldable pub create_sinks : List SinksOption → Option Sinks
unfolding apply_sinks_options
create_sinks options = apply_sinks_options options []

pub data Error : Type 0 where
  track_already_exists no_stream sink_does_not_exist nil_track : Error

pub data Answer {ℓ} (A : Type ℓ) : Type ℓ where
  ok : A → Answer A
  failed : Error → Answer A

unfoldable pub create_sink : Bytes → Option ℕ → Sinks → Sinks × Answer Sink
create_sink id stream sinks =
    if contains id sinks then (sinks, failed track_already_exists) else (elim stream [
      | none ↦ (sinks, failed no_stream)
      | some s ↦
          let sink : Sink = record { track = none; stream = s } in (insert id sink sinks, ok sink)
    ])

unfoldable pub get_sink : Bytes → Sinks → Answer Sink
get_sink id sinks = elim (lookup id sinks) [
  | none ↦ failed sink_does_not_exist
  | some sink ↦ ok sink
]

-- SetTrack, on the sink that GetSink gives.
unfoldable pub set_track : Bytes → Option ℕ → Sinks → Sinks
set_track id track sinks = elim (lookup id sinks) [
  | none ↦ sinks
  | some sink ↦ insert id (record sink { track = track }) sinks
]

-- A call of CreateSink, or of GetSink with SetTrack.
pub data Call : Type 0 where
  creating : Bytes → Option ℕ → Call
  setting : Bytes → Option ℕ → Call

unfoldable pub call : Call → Sinks → Sinks
unfolding create_sink set_track
call (creating id stream) sinks = (create_sink id stream sinks).0
call (setting id track) sinks = set_track id track sinks

unfoldable pub run : Sinks → List Call → Sinks
unfolding call
run sinks [] = sinks
run sinks (c ∷ calls) = run (call c sinks) calls

abbrev pub stream_of : Answer Sink → Option ℕ
stream_of (ok sink) = some sink.stream
stream_of (failed e) = none

abbrev shown : Option Sink → Option ℕ
shown none = none
shown (some sink) = some sink.stream

get_sink-shown :
    (id : Bytes) (sinks : Sinks) → stream_of (get_sink id sinks) ≡ shown (lookup id sinks)
unfolding get_sink
get_sink-shown id sinks = elim (Option-cases (lookup id sinks)) [
  | inl absent ↦ rw (absent, get_sink) refl
  | inr (sink, found) ↦ rw (found, get_sink) refl
]

-- A write at one id, seen at an id whose stream it does not change.
insert_keeps :
    (id other : Bytes) (sink : Sink) (stream : ℕ) (sinks : Sinks)
    → shown (lookup id sinks) ≡ some stream
    → shown (lookup other sinks) ≡ some sink.stream ⊎ (contains other sinks ≡ false)
    → shown (lookup id (insert other sink sinks)) ≡ some stream
insert_keeps id other sink stream sinks h (inl same_stream) = elim (Bool-cases (other == id)) [
  | inl same ↦
      rw (lookup-insert, same)
        (sym same_stream ∙ ap (λ (x : Bytes). shown (lookup x sinks)) (==_sound other id same) ∙ h)
  | inr differs ↦ rw (lookup-insert, differs) h
]
insert_keeps id other sink stream sinks h (inr fresh) = elim (Bool-cases (other == id)) [
  | inl same ↦ ground (
    arith,
    ap shown (lookup-ne_contains other sinks fresh),
    ap (λ (x : Bytes). shown (lookup x sinks)) (==_sound other id same),
  )
  | inr differs ↦ rw (lookup-insert, differs) h
]

call_keeps :
    (id : Bytes) (stream : ℕ) (c : Call) (sinks : Sinks)
    → shown (lookup id sinks) ≡ some stream
    → shown (lookup id (call c sinks)) ≡ some stream
unfolding call create_sink set_track
call_keeps id stream (creating other none) sinks h = elim (Bool-cases (contains other sinks)) [
  | inl there ↦ rw (there, call, create_sink) h
  | inr fresh ↦ rw (fresh, call, create_sink) h
]
call_keeps id stream (creating other (some s)) sinks h = elim (Bool-cases (contains other sinks)) [
  | inl there ↦ rw (there, call, create_sink) h
  | inr fresh ↦
      rw (fresh, call, create_sink)
        (insert_keeps id other (record { track = none; stream = s }) stream sinks h (inr fresh))
]
call_keeps id stream (setting other track) sinks h = elim (Option-cases (lookup other sinks)) [
  | inl absent ↦ rw (absent, call, set_track) h
  | inr (sink, found) ↦
      rw (found, call, set_track)
        (insert_keeps id other (record sink { track = track }) stream sinks h
          (inl (ap shown found)))
]

run_keeps :
    (id : Bytes) (stream : ℕ) (sinks : Sinks) (calls : List Call)
    → shown (lookup id sinks) ≡ some stream
    → shown (lookup id (run sinks calls)) ≡ some stream
unfolding run
run_keeps id stream sinks [] h = h
run_keeps id stream sinks (c ∷ calls) h =
    run_keeps id stream (call c sinks) calls (call_keeps id stream c sinks h)

made :
    (id : Bytes) (stream : ℕ) (sinks : Sinks)
    → contains id sinks ≡ false
    → shown (lookup id (create_sink id (some stream) sinks).0) ≡ some stream
unfolding create_sink
made id stream sinks fresh =
    rw (fresh, create_sink)
      (ap shown (lookup-insert_self id (record { track = none; stream = stream }) sinks))

-- A sink that CreateSink makes is the one that GetSink finds under its id from then on, whatever is
-- created or set behind it: a second CreateSink of the id leaves it as it is.
pub create_sink_stays :
    (id : Bytes) (stream : ℕ) (sinks : Sinks) (calls : List Call)
    → contains id sinks ≡ false
    → stream_of (get_sink id (run (create_sink id (some stream) sinks).0 calls)) ≡ some stream
create_sink_stays id stream sinks calls fresh =
    let start = (create_sink id (some stream) sinks).0 in
    get_sink-shown id (run start calls)
    ∙ run_keeps id stream start calls (made id stream sinks fresh)
