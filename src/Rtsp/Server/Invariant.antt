-- ===== src/Rtsp/Server/Invariant.antt =====
-- What holds of the relay server between two calls, whatever the calls.
use mediasink.Prelude.{
  ℕ, ◌≤◌, ◌≡◌, refl, subst, ◌⊎◌, inl, inr, Option, none, some, List, [], ◌∷◌, arith, leb, nat_keys,
  bytes_keys, Bool-cases, Option-cases, length, Bytes, Map, lookup, insert, Distinct, Entries,
  contains-lookup, length-insert, Distinct-insert, Distinct-map_values, length-map_values,
}
use mediasink.Prelude.{Entries-insert, Entries-map_values, Entries-lookup}
use mediasink.Rtsp.Server.State.{StreamInfo, Config, Server, Effect, new_server}
use mediasink.Rtsp.Server.Handlers.{
  is_publisher, on_conn_open, on_conn_close, on_session_open, sweep, on_session_close, find_stream,
  new_stream_info, on_announce, joining, on_setup, on_play, touch_stream, on_packet,
}
use mediasink.Rtsp.Server.Upkeep.{cleanup_inactive_sessions}
use mediasink.Rtsp.Server.Sweep.{Distinct-swept, length-swept-le}
use mediasink.Rtsp.Server.Trace.{
  Event, conn_open, conn_close, session_open, session_close, announce, setup, play, packet, cleanup,
  step, run,
}
use mediasink.Rtsp.Server.Soundness.{
  IsSound, Kept, leave_stream-Kept, cleanup_stream-Kept, add_client-IsSound, touch_client-IsSound,
  touch_stream-IsSound,
}

abbrev AllSound : Map Bytes StreamInfo → Type 0
AllSound = Entries (λ path si. IsSound si)

pub record IsValid (s : Server) : Type 0 where
  pub bounded : length s.streams ≤ s.config.max_streams
  pub distinct : Distinct s.streams
  pub sound : AllSound s.streams

new_server-IsValid : (config : Option Config) → IsValid (new_server config)
unfolding new_server
new_server-IsValid config = record { bounded = omega arith; distinct = tt; sound = tt }

AllSound-swept :
    (body : StreamInfo → Option StreamInfo × List Effect) (m : Map Bytes StreamInfo)
    → ((si : StreamInfo) → IsSound si → Kept (body si).0)
    → AllSound m
    → AllSound (sweep body m).0
unfolding sweep
AllSound-swept body [] keep h = tt
AllSound-swept body ((path, si) ∷ m) keep h = elim (Option-cases (body si).0) [
  | inl gone ↦ rw gone (AllSound-swept body m keep h.1)
  | inr (si', kept) ↦ rw kept (subst Kept kept (keep si h.0), AllSound-swept body m keep h.1)
]

sweep-IsValid :
    (body : StreamInfo → Option StreamInfo × List Effect) (s : Server)
    → ((si : StreamInfo) → IsSound si → Kept (body si).0)
    → IsValid s
    → IsValid (record s { streams = (sweep body s.streams).0 })
sweep-IsValid body s keep v = record {
  bounded = omega (arith, length-swept-le body s.streams, v.bounded);
  distinct = Distinct-swept body s.streams v.distinct;
  sound = AllSound-swept body s.streams keep v.sound;
}

-- A map of streams with one entry written.
insert-IsValid :
    (path : Bytes) (si : StreamInfo) (s : Server)
    → IsSound si
    → length (insert path si s.streams) ≤ s.config.max_streams
    → IsValid s
    → IsValid (record s { streams = insert path si s.streams })
insert-IsValid path si s h fits v = record {
  bounded = fits;
  distinct = Distinct-insert path si s.streams v.distinct;
  sound = Entries-insert _ path si s.streams h v.sound;
}

-- An entry that is there is overwritten in place.
update-IsValid :
    (path : Bytes) (si si' : StreamInfo) (s : Server)
    → lookup path s.streams ≡ some si
    → (IsSound si → IsSound si')
    → IsValid s
    → IsValid (record s { streams = insert path si' s.streams })
update-IsValid path si si' s e keep v =
    insert-IsValid path si' s (keep (Entries-lookup _ path s.streams si v.sound e))
      (rw (length-insert, contains-lookup path s.streams si e) v.bounded) v

pub announce-IsValid :
    (path : Bytes) (session stream desc now : ℕ) (s : Server)
    → IsValid s
    → IsValid (on_announce path session stream desc now s).0
unfolding on_announce
announce-IsValid path session stream desc now s v =
    elim (Bool-cases (leb s.config.max_streams (length s.streams))) [
      | inl full ↦ rw full v
      | inr room ↦ rw room (
          insert-IsValid path (new_stream_info session stream desc now) s
            (record {
              has_stream = λ e. cc;
              has_publisher = λ e. cc;
              distinct = tt;
              keyed = tt;
              apart = tt;
            })
            (ground (arith, length-insert path (new_stream_info session stream desc now) s.streams))
            v)
    ]

pub find_stream-cases :
    (path : Bytes) (s : Server)
    → (find_stream path s ≡ none)
      ⊎ ((si : StreamInfo) × (stream : ℕ) × (lookup path s.streams ≡ some si)
          × (find_stream path s ≡ some (si, stream)))
unfolding find_stream
find_stream-cases path s = elim (Option-cases (lookup path s.streams)) [
  | inl gone ↦ inl (rw (gone, find_stream))
  | inr (si, e) ↦ (elim (Option-cases si.stream) [
    | inl bare ↦ inl (ground arith)
    | inr (stream, f) ↦ inr (si, stream, e, ground arith)
  ])
]

setup-IsValid :
    (path : Bytes) (session now : ℕ) (s : Server)
    → IsValid s
    → IsValid (on_setup path session now s).0
unfolding on_setup
setup-IsValid path session now s v = elim (find_stream-cases path s) [
  | inl gone ↦ rw (gone, on_setup) v
  | inr (si, stream, e, f) ↦ (elim (Bool-cases (is_publisher session si)) [
    | inl own ↦ rw (f, own, on_setup) v
    | inr other ↦ (elim (Option-cases (lookup session s.user_data)) [
      | inl bare ↦ rw (f, other, bare, on_setup) v
      | inr (user, u) ↦
          rw (f, other, u, on_setup)
            (update-IsValid path si _ s e (add_client-IsSound (joining user session now) si other)
              v)
    ])
  ])
]

play-IsValid :
    (path : Bytes) (session now : ℕ) (s : Server)
    → IsValid s
    → IsValid (on_play path session now s).0
unfolding on_play
play-IsValid path session now s v = elim (Option-cases (lookup path s.streams)) [
  | inl gone ↦ rw (gone, on_play) v
  | inr (si, e) ↦ (elim (Option-cases (lookup session s.user_data)) [
    | inl bare ↦ rw (e, bare, on_play) v
    | inr (user, u) ↦
        rw (e, u, on_play)
          (update-IsValid path si _ s e (touch_client-IsSound user.client_id now si) v)
  ])
]

packet-IsValid : (stream now : ℕ) (s : Server) → IsValid s → IsValid (on_packet stream now s)
unfolding on_packet
packet-IsValid stream now s v = record {
  bounded = rw (length-map_values (touch_stream stream now) s.streams) v.bounded;
  distinct = Distinct-map_values _ s.streams v.distinct;
  sound = Entries-map_values _ _ (λ path si. touch_stream-IsSound stream now si) s.streams v.sound;
}

session_close-IsValid :
    (session : ℕ) (s : Server) → IsValid s → IsValid (on_session_close session s).0
unfolding on_session_close
session_close-IsValid session s v = elim (Option-cases (lookup session s.user_data)) [
  | inl bare ↦ rw (bare, on_session_close) v
  | inr (user, u) ↦
      rw (u, on_session_close) (sweep-IsValid _ s (leave_stream-Kept user.client_id session) v)
]

-- No counter, and no user data, is in the invariant.
same_streams-IsValid :
    (s t : Server) → t.streams ≡ s.streams → t.config ≡ s.config → IsValid s → IsValid t
same_streams-IsValid s t e f v = record {
  bounded = rw (e, f) v.bounded;
  distinct = rw e v.distinct;
  sound = rw e v.sound;
}

-- Every call keeps the invariant.
pub step-IsValid : (s : Server) (e : Event) → IsValid s → IsValid (step s e)
unfolding step
step-IsValid s (conn_open conn addr) v =
    unfold on_conn_open in same_streams-IsValid s _ (ground arith) (ground arith) v
step-IsValid s conn_close v = unfold on_conn_close in same_streams-IsValid s _ refl refl v
step-IsValid s (session_open session addr now) v =
    unfold on_session_open in same_streams-IsValid s _ refl refl v
step-IsValid s (session_close session) v = session_close-IsValid session s v
step-IsValid s (announce path session stream desc now) v =
    announce-IsValid path session stream desc now s v
step-IsValid s (setup path session now) v = setup-IsValid path session now s v
step-IsValid s (play path session now) v = play-IsValid path session now s v
step-IsValid s (packet stream now) v = packet-IsValid stream now s v
step-IsValid s (cleanup now) v =
    unfold cleanup_inactive_sessions in sweep-IsValid _ s (cleanup_stream-Kept s.config now) v

run-IsValid : (s : Server) (es : List Event) → IsValid s → IsValid (run s es)
unfolding run
run-IsValid s [] v = v
run-IsValid s (e ∷ es) v = run-IsValid (step s e) es (step-IsValid s e v)

-- From an empty server, any history of calls leaves at most `max_streams` streams, one entry for
-- each path, each with a stream and a publisher, each client under its own id, and the publisher
-- among none of its clients.
pub run-new_server-IsValid :
    (config : Option Config) (es : List Event) → IsValid (run (new_server config) es)
run-new_server-IsValid config es = run-IsValid _ es (new_server-IsValid config)
