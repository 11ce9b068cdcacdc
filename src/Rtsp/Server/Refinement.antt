-- ===== src/Rtsp/Server/Refinement.antt =====
-- pkg/rtsp/new_server.go publishes what its registry says, whatever the viewers do.
use mediasink.Prelude.{
  ℕ, ◌≡◌, refl, sym, ap, ◌∙◌, inl, inr, Bool, true, false, not, Option, none, some, List, [], ◌∷◌,
  arith, leb, if◌then◌else◌, nat_keys, bytes_keys, Bool-cases, Option-cases, length, Bytes, Map,
  lookup, retain, map_values, contains-lookup, contains_of_lookup-none,
}
use mediasink.Rtsp.Server.State.{
  StreamInfo, add_client, remove_client, UserData, Config, Server, Effect,
}
use mediasink.Rtsp.Server.Handlers.{
  is_publisher, on_conn_open, on_conn_close, on_session_open, sweep, leave_stream, on_session_close,
  find_stream, on_describe, new_stream_info, on_announce, joining, on_setup, touch_client, on_play,
  touch_stream, on_packet,
}
use mediasink.Rtsp.Server.Upkeep.{is_inactive, cleanup_stream, cleanup_inactive_sessions}
use mediasink.Rtsp.Server.Sweep.{swept}
use mediasink.Rtsp.Server.Invariant.{find_stream-cases}
use mediasink.Rtsp.Server.Trace.{
  Event, conn_open, conn_close, session_open, session_close, announce, setup, play, packet, cleanup,
  step, run,
}
use mediasink.Rtsp.Server.Registry.{
  over, option_map, lookup-over, contains-over, over-insert, length-over, over-insert_same,
  Published, published, Registry, registry, publishes, sent_at, register, register_all, describe,
  answered, stream_at,
}

-- The registry of a server whose streams have changed.
abbrev with_entries : Server → Map Bytes Published → Registry
with_entries s entries = record (registry s) { entries = entries }

over-map_values :
    (f : StreamInfo → StreamInfo) (g : Published → Published) (m : Map Bytes StreamInfo)
    → ((si : StreamInfo) → published (f si) ≡ g (published si))
    → over published (map_values f m) ≡ map_values g (over published m)
unfolding over map_values
over-map_values f g [] same = refl
over-map_values f g ((path, si) ∷ m) same =
    ap (λ (p : Published). (path, p) ∷ over published (map_values f m)) (same si)
    ∙ ap (λ (r : Map Bytes Published). (path, g (published si)) ∷ r) (over-map_values f g m same)

-- A body that keeps the view of an entry, or deletes the entry, by a test of the view.
over-swept :
    (body : StreamInfo → Option StreamInfo × List Effect) (keep : Published → Bool)
    (m : Map Bytes StreamInfo)
    → ((si : StreamInfo)
        → option_map published (body si).0
          ≡ (if keep (published si) then some (published si) else none))
    → over published (swept body m) ≡ retain (λ path p. keep p) (over published m)
unfolding over sweep retain
over-swept body keep [] same = refl
over-swept body keep ((path, si) ∷ m) same =
    let later = over-swept body keep m same in
    let view = same si in
    elim (Option-cases (body si).0) [
      | inl gone ↦
          let dropped : keep (published si) ≡ false = ground (arith, view, gone) in
          rw (gone, dropped) later
      | inr (si', kept) ↦
          let stays : keep (published si) ≡ true = ground (arith, view, kept) in
          let same_view : published si' ≡ published si = ground (arith, view, kept) in
          rw (kept, stays)
            (ap (λ (p : Published). (path, p) ∷ over published (swept body m)) same_view
              ∙ ap (λ (r : Map Bytes Published). (path, published si) ∷ r) later)
    ]

leave-view :
    (id : Bytes) (session : ℕ) (si : StreamInfo)
    → option_map published (leave_stream id session si).0
      ≡ (if not (publishes session (published si)) then some (published si) else none)
unfolding leave_stream remove_client
leave-view id session si = ground arith

cleanup-view :
    (config : Config) (now : ℕ) (si : StreamInfo)
    → option_map published (cleanup_stream config now si).0 ≡ (
        if not (is_inactive now (published si).last_active config.publisher_session_timeout)
        then some (published si)
        else none)
unfolding cleanup_stream
cleanup-view config now si = ground arith

touch-view :
    (st now : ℕ) (si : StreamInfo)
    → published (touch_stream st now si) ≡ sent_at st now (published si)
unfolding touch_stream
touch-view st now si = ground arith

setup-view :
    (path : Bytes) (session now : ℕ) (s : Server)
    → registry (on_setup path session now s).0 ≡ registry s
unfolding on_setup
setup-view path session now s = elim (find_stream-cases path s) [
  | inl gone ↦ rw (gone, on_setup) refl
  | inr (si, stream, e, f) ↦ (elim (Bool-cases (is_publisher session si)) [
    | inl own ↦ rw (f, own, on_setup) refl
    | inr other ↦ (elim (Option-cases (lookup session s.user_data)) [
      | inl bare ↦ rw (f, other, bare, on_setup) refl
      | inr (user, u) ↦
          rw (f, other, u, on_setup)
            (ap (with_entries s) (
              over-insert_same published path si (add_client (joining user session now) si)
                s.streams e (unfold add_client in refl)))
    ])
  ])
]

touch_client-view :
    (id : Bytes) (now : ℕ) (si : StreamInfo) → published (touch_client id now si) ≡ published si
unfolding touch_client
touch_client-view id now si = ground arith

play-view :
    (path : Bytes) (session now : ℕ) (s : Server)
    → registry (on_play path session now s).0 ≡ registry s
unfolding on_play
play-view path session now s = elim (Option-cases (lookup path s.streams)) [
  | inl gone ↦ rw (gone, on_play) refl
  | inr (si, e) ↦ (elim (Option-cases (lookup session s.user_data)) [
    | inl bare ↦ rw (e, bare, on_play) refl
    | inr (user, u) ↦
        rw (e, u, on_play)
          (ap (with_entries s) (
            over-insert_same published path si (touch_client user.client_id now si) s.streams e
              (touch_client-view user.client_id now si)))
  ])
]

close-view :
    (session : ℕ) (s : Server)
    → registry (on_session_close session s).0 ≡ register (registry s) (session_close session)
unfolding on_session_close register
close-view session s =
    let known = contains-over (λ (user : UserData). true) session s.user_data in
    elim (Option-cases (lookup session s.user_data)) [
      | inl bare ↦
          let unknown = known ∙ contains_of_lookup-none session s.user_data bare in
          rw (bare, on_session_close, unknown) refl
      | inr (user, u) ↦
          let opened = known ∙ contains-lookup session s.user_data user u in
          rw (u, on_session_close, opened)
            (ap (with_entries s) (
              over-swept (leave_stream user.client_id session) (λ p. not (publishes session p))
                s.streams (leave-view user.client_id session)))
    ]

announce-view :
    (path : Bytes) (session stream desc now : ℕ) (s : Server)
    → registry (on_announce path session stream desc now s).0
      ≡ register (registry s) (announce path session stream desc now)
unfolding on_announce register
announce-view path session stream desc now s =
    elim (Bool-cases (leb s.config.max_streams (length s.streams))) [
      | inl full ↦ rw (full, on_announce, length-over published s.streams, full) refl
      | inr room ↦
          rw (room, on_announce, length-over published s.streams, room)
            (ap (with_entries s)
              (over-insert published path (new_stream_info session stream desc now) s.streams))
    ]

step-view : (s : Server) (e : Event) → registry (step s e) ≡ register (registry s) e
unfolding step register
step-view s (conn_open conn addr) = unfold on_conn_open in ground arith
step-view s conn_close = unfold on_conn_close in refl
step-view s (session_open session addr now) =
    unfold on_session_open in
    (ap (λ (opened : Map ℕ Bool). record (registry s) { opened = opened })
      (over-insert (λ (user : UserData). true) session _ s.user_data))
step-view s (session_close session) = close-view session s
step-view s (announce path session stream desc now) = announce-view path session stream desc now s
step-view s (setup path session now) = setup-view path session now s
step-view s (play path session now) = play-view path session now s
step-view s (packet st now) =
    unfold on_packet in
    (ap (with_entries s)
      (over-map_values (touch_stream st now) (sent_at st now) s.streams (touch-view st now)))
step-view s (cleanup now) =
    unfold cleanup_inactive_sessions in
    (ap (with_entries s) (
      over-swept (cleanup_stream s.config now)
        (λ p. not (is_inactive now p.last_active s.config.publisher_session_timeout)) s.streams
        (cleanup-view s.config now)))

run-view : (s : Server) (es : List Event) → registry (run s es) ≡ register_all (registry s) es
unfolding run register_all
run-view s [] = refl
run-view s (e ∷ es) =
    run-view (step s e) es ∙ ap (λ (r : Registry). register_all r es) (step-view s e)

on_describe_lem :
    (path : Bytes) (s : Server)
    → on_describe path s ≡ answered (stream_at (option_map published (lookup path s.streams)))
unfolding on_describe find_stream
on_describe_lem path s = elim (Option-cases (lookup path s.streams)) [
  | inl gone ↦ rw (gone, on_describe, find_stream) refl
  | inr (si, e) ↦ (elim (Option-cases si.stream) [
    | inl bare ↦ rw (e, on_describe, find_stream, bare) refl
    | inr (stream, f) ↦ rw (e, on_describe, find_stream, f) refl
  ])
]

describe-view : (path : Bytes) (s : Server) → on_describe path s ≡ describe path (registry s)
unfolding describe
describe-view path s =
    on_describe_lem path s
    ∙ ap (λ (o : Option Published). answered (stream_at o))
        (sym (lookup-over published path s.streams))

-- After any history, a DESCRIBE is answered as by the registry, which knows the streams, their
-- publishers and when each has sent last, and which only announcements, packets, opened and closed
-- sessions and the cleanup change: no set up or play of a viewer and no connection has a part in the
-- answer.
pub describe-run :
    (path : Bytes) (s : Server) (es : List Event)
    → on_describe path (run s es) ≡ describe path (register_all (registry s) es)
describe-run path s es = describe-view path (run s es) ∙ ap (describe path) (run-view s es)
