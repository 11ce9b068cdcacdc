-- ===== src/Socket/Host/Shutdown.antt =====
-- When Close of pkg/socket/host.go returns.
use mediasink.Prelude.{
  ◌≡◌, sym, subst, Bool, true, false, none, some, List, [], ◌∷◌, arith, nat_keys, bytes_keys, All,
  Bytes,
}
use mediasink.Socket.Host.State.{Host, set_server, is_done, end_session, close_host}
use mediasink.Socket.Host.Threads.{
  Phase, reading, ended, Closer, outside, waiting, returned, Machine, nothing_yet, dialed, message,
  canceled, broken, Event, context_done, turn, close, connect_step, close_step, step, run,
}

-- The server neither sends a message nor breaks the connection, and the context lasts.
unfoldable pub is_quiet : Event → Bool
is_quiet context_done = false
is_quiet (turn (message msg)) = false
is_quiet (turn broken) = false
is_quiet _ = true

abbrev pub IsHeld : Machine → Type 0
IsHeld m = (m.phase ≡ reading) × ((m.closer ≡ waiting) × (is_done m.host ≡ false))

step-IsHeld : (m : Machine) (e : Event) → is_quiet e ≡ true → IsHeld m → IsHeld (step m e)
unfolding step connect_step close_step is_quiet
step-IsHeld m context_done q h = cc
step-IsHeld m (turn nothing_yet) q h = ground arith
step-IsHeld m (turn (dialed conn)) q h = ground arith
step-IsHeld m (turn (message msg)) q h = cc
step-IsHeld m (turn canceled) q h = ground arith
step-IsHeld m (turn broken) q h = cc
step-IsHeld m close q h = ground arith

run-IsHeld :
    (m : Machine) (events : List Event)
    → All (λ (e : Event). is_quiet e ≡ true) events
    → IsHeld m
    → IsHeld (run m events)
unfolding run
run-IsHeld m [] quiet h = h
run-IsHeld m (e ∷ events) (q, quiet) h = run-IsHeld (step m e) events quiet (step-IsHeld m e q h)

-- If Close is called while the host waits for a message, and the context that was given to Connect
-- lasts, then for as long as the server neither sends nor breaks the connection Close does not
-- return, and the context of the session is not cancelled.
pub close_waits :
    (m : Machine) (events : List Event)
    → m.phase ≡ reading
    → m.closer ≡ outside
    → is_done m.host ≡ false
    → All (λ (e : Event). is_quiet e ≡ true) events
    → IsHeld (run (step m close) events)
close_waits m events at before lasting quiet =
    run-IsHeld (step m close) events quiet (unfold step close_step in ground arith)

abbrev last_turns : Bytes → List Event
last_turns msg =
    turn (message msg)
    ∷ close
    ∷ turn nothing_yet
    ∷ turn nothing_yet
    ∷ turn nothing_yet
    ∷ turn nothing_yet
    ∷ turn nothing_yet
    ∷ []

abbrev IsOver : Machine → Type 0
IsOver m = (m.closer ≡ returned) × ((m.phase ≡ ended) × (m.host.server ≡ none))

run-IsOver :
    (h : Host) (received : List Bytes) (msg : Bytes) (done : Bool)
    → h.session ≡ some done
    → IsOver (
        run
          (record { host = h; phase = reading; closer = waiting; received = received })
          (last_turns msg))
unfolding run step connect_step close_step close_host end_session set_server
run-IsOver h received msg done started = ground arith

-- If Close waits for the lock while the host reads, the next message lets Close return, and five more
-- turns of the host end it without a connection, whether it is to retry or not.
pub message_lets_close_return :
    (m : Machine) (msg : Bytes)
    → IsHeld m
    → ((done : Bool) × (m.host.session ≡ some done))
    → let t = run m (
        turn (message msg)
        ∷ close
        ∷ turn nothing_yet
        ∷ turn nothing_yet
        ∷ turn nothing_yet
        ∷ turn nothing_yet
        ∷ turn nothing_yet
        ∷ []) in
      (t.closer ≡ returned) × ((t.phase ≡ ended) × (t.host.server ≡ none))
message_lets_close_return m msg (at, (blocked, lasting)) (done, started) =
    subst (λ (p : Phase). IsOver (run (record m { phase = p }) (last_turns msg))) (sym at)
      (subst
        (λ (c : Closer). IsOver (run (record m { phase = reading; closer = c }) (last_turns msg)))
        (sym blocked) (run-IsOver m.host m.received msg done started))
