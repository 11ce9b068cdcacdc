-- ===== src/Rtsp/SingleServer/History.antt =====
-- What every history of callbacks of pkg/rtsp/server.go comes to.
use mediasink.Prelude.{
  ℕ, ◌≡◌, refl, sym, ap, ◌∙◌, inl, inr, Bool, true, false, Option, none, some, List, [], ◌∷◌, ◌++◌,
  map, if◌then◌else◌, ◌==◌, arith, nat_keys, bytes_keys, Bool-cases, Option-cases,
}
use mathlib.Core.List.{append-nil, append_assoc}
use mediasink.Rtsp.SingleServer.State.{
  Server, create_server, Shut, shut_stream, shut_publisher, is_session, on_session_close,
  on_announce, on_describe, close,
}

pub data Event : Type 0 where
  announced : ℕ → ℕ → Event
  session_closed : ℕ → Event

unfoldable pub handle : Event → Server → Server × List Shut
unfolding on_announce on_session_close
handle (announced session stream) s = on_announce session stream s
handle (session_closed session) s = on_session_close session s

-- The server behind a history, with what it has closed.
unfoldable pub run : List Event → Server → List Shut → Server × List Shut
unfolding handle
run [] s log = (s, log)
run (e ∷ events) s log = run events (handle e s).0 (log ++ (handle e s).1)

unfoldable pub announced_streams : List Event → List ℕ
announced_streams [] = []
announced_streams (announced session stream ∷ events) = stream ∷ announced_streams events
announced_streams (session_closed session ∷ events) = announced_streams events

unfoldable pub shut_streams : List Shut → List ℕ
shut_streams [] = []
shut_streams (shut_stream stream ∷ log) = stream ∷ shut_streams log
shut_streams (shut_publisher publisher ∷ log) = shut_streams log

abbrev pub open_stream : Option ℕ → List ℕ
open_stream none = []
open_stream (some stream) = stream ∷ []

shut_streams-append :
    (xs ys : List Shut) → shut_streams (xs ++ ys) ≡ shut_streams xs ++ shut_streams ys
unfolding shut_streams
shut_streams-append [] ys = refl
shut_streams-append (shut_stream stream ∷ xs) ys =
    ap (λ (r : List ℕ). stream ∷ r) (shut_streams-append xs ys)
shut_streams-append (shut_publisher publisher ∷ xs) ys = shut_streams-append xs ys

-- One event: what it closes with what is open behind it is what was open, with what it opens.
handle-streams :
    (e : Event) (s : Server)
    → shut_streams (handle e s).1 ++ open_stream (handle e s).0.stream
      ≡ open_stream s.stream ++ announced_streams (e ∷ [])
unfolding handle on_announce on_session_close shut_streams announced_streams
handle-streams (announced session stream) s = elim (Option-cases s.stream) [
  | inl idle ↦ rw (idle, handle, on_announce) refl
  | inr (old, busy) ↦ rw (busy, handle, on_announce) refl
]
handle-streams (session_closed session) s = elim (Option-cases s.stream) [
  | inl idle ↦ rw (idle, handle, on_session_close) (ap open_stream idle)
  | inr (old, busy) ↦ (elim (Bool-cases (is_session session s.publisher)) [
    | inl own ↦ rw (busy, own, handle, on_session_close) refl
    | inr foreign ↦ rw (busy, foreign, handle, on_session_close) (ap open_stream busy)
  ])
]

announced_streams-cons :
    (e : Event) (events : List Event)
    → announced_streams (e ∷ []) ++ announced_streams events ≡ announced_streams (e ∷ events)
unfolding announced_streams
announced_streams-cons (announced session stream) events = refl
announced_streams-cons (session_closed session) events = refl

regroup : (a b c d e f : List ℕ) → b ++ c ≡ d ++ e → (a ++ b) ++ (c ++ f) ≡ a ++ (d ++ (e ++ f))
regroup a b c d e f h =
    append_assoc a b (c ++ f)
    ∙ ap (λ (r : List ℕ). a ++ r)
        (sym (append_assoc b c f) ∙ ap (λ (r : List ℕ). r ++ f) h ∙ append_assoc d e f)

run-streams :
    (events : List Event) (s : Server) (log : List Shut)
    → let r = run events s log in
      shut_streams r.1 ++ open_stream r.0.stream
      ≡ shut_streams log ++ (open_stream s.stream ++ announced_streams events)
unfolding run announced_streams
run-streams [] s log =
    ap (λ (r : List ℕ). shut_streams log ++ r) (sym (append-nil (open_stream s.stream)))
run-streams (e ∷ events) s log =
    let (t, shut) = handle e s in
    run-streams events t (log ++ shut)
    ∙ ap (λ (r : List ℕ). r ++ (open_stream t.stream ++ announced_streams events))
        (shut_streams-append log shut)
    ∙ regroup (shut_streams log) (shut_streams shut) (open_stream t.stream) (open_stream s.stream)
        (announced_streams (e ∷ [])) (announced_streams events) (handle-streams e s)
    ∙ ap (λ (r : List ℕ). shut_streams log ++ (open_stream s.stream ++ r))
        (announced_streams-cons e events)

run-append :
    (xs ys : List Event) (s : Server) (log : List Shut)
    → run (xs ++ ys) s log ≡ run ys (run xs s log).0 (run xs s log).1
unfolding run
run-append [] ys s log = refl
run-append (e ∷ xs) ys s log = run-append xs ys (handle e s).0 (log ++ (handle e s).1)

abbrev pub ends_of : List ℕ → List Event
ends_of = map session_closed

-- Whether the session is among those that end.
unfoldable pub closes : ℕ → List ℕ → Bool
closes session [] = false
closes session (ended ∷ rest) = if ended == session then true else closes session rest

stays_closed :
    (sessions : List ℕ) (s : Server) (log : List Shut)
    → s.stream ≡ none
    → (run (ends_of sessions) s log).0.stream ≡ none
unfolding run handle on_session_close
stays_closed [] s log e = e
stays_closed (ended ∷ rest) s log e =
    stays_closed rest (on_session_close ended s).0 (log ++ (on_session_close ended s).1)
      (rw (e, on_session_close) e)

open_until_its_end :
    (session stream : ℕ) (sessions : List ℕ) (s : Server) (log : List Shut)
    → s.stream ≡ some stream
    → s.publisher ≡ some session
    → (run (ends_of sessions) s log).0.stream
      ≡ (if closes session sessions then none else some stream)
unfolding run handle on_session_close closes
open_until_its_end session stream [] s log e own = e
open_until_its_end session stream (ended ∷ rest) s log e own =
    elim (Bool-cases (ended == session)) [
      | inl its ↦ rw its (
          stays_closed rest (on_session_close ended s).0 (log ++ (on_session_close ended s).1)
            (rw (e, own, its, on_session_close) refl))
      | inr other ↦ rw other (
          open_until_its_end session stream rest (on_session_close ended s).0
            (log ++ (on_session_close ended s).1) (ground (arith, e, own, other))
            (ground (arith, e, own, other)))
    ]

announced_streams-append :
    (xs : List Event) (session stream : ℕ) (sessions : List ℕ)
    → announced_streams (xs ++ announced session stream ∷ ends_of sessions)
      ≡ announced_streams xs ++ stream ∷ []
unfolding announced_streams
announced_streams-append (announced other first ∷ xs) session stream sessions =
    ap (λ (r : List ℕ). first ∷ r) (announced_streams-append xs session stream sessions)
announced_streams-append (session_closed other ∷ xs) session stream sessions =
    announced_streams-append xs session stream sessions
announced_streams-append [] session stream [] = refl
announced_streams-append [] session stream (ended ∷ rest) =
    announced_streams-append [] session stream rest

-- After a history that ends with an announcement and the ends of some sessions, the announced stream
-- is open unless the session that announced it is among them, and no stream is otherwise; and the
-- streams that have been closed, with the one that is open, are all that were ever announced, each once
-- and in order.
pub run-create_server :
    (events : List Event) (session stream : ℕ) (sessions : List ℕ)
    → let r = run (events ++ announced session stream ∷ ends_of sessions) create_server [] in
      (on_describe r.0 ≡ (if closes session sessions then none else some stream))
      × (shut_streams r.1 ++ open_stream (on_describe r.0)
          ≡ announced_streams events ++ stream ∷ [])
unfolding create_server on_describe shut_streams
run-create_server events session stream sessions =
    let (s, log) = run events create_server [] in
    let (t, shut) = on_announce session stream s in
    let opened : t.stream ≡ some stream = unfold on_announce in refl in
    let own : t.publisher ≡ some session = unfold on_announce in refl in
    (
      ap (λ (r : Server × List Shut). r.0.stream)
            (run-append events (announced session stream ∷ ends_of sessions) create_server [])
          ∙ (unfold run handle in
              open_until_its_end session stream sessions t (log ++ shut) opened own),
      run-streams (events ++ announced session stream ∷ ends_of sessions) create_server []
          ∙ announced_streams-append events session stream sessions,
    )

handle-has_cancel : (e : Event) (s : Server) → (handle e s).0.has_cancel ≡ s.has_cancel
unfolding handle on_announce on_session_close
handle-has_cancel (announced session stream) s = refl
handle-has_cancel (session_closed session) s = ground arith

run-has_cancel :
    (events : List Event) (s : Server) (log : List Shut)
    → (run events s log).0.has_cancel ≡ s.has_cancel
unfolding run
run-has_cancel [] s log = refl
run-has_cancel (e ∷ events) s log =
    run-has_cancel events (handle e s).0 (log ++ (handle e s).1) ∙ handle-has_cancel e s

-- Close panics, whatever has happened before: nothing sets the function that it calls.
pub close_panics_always : (events : List Event) → close (run events create_server []).0 ≡ none
unfolding close create_server
close_panics_always events = rw (run-has_cancel events create_server []) refl
