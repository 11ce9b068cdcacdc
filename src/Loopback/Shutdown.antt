-- ===== src/Loopback/Shutdown.antt =====
-- How Close of pkg/loopback/host.go ends, and when it does not.
use mediasink.Prelude.{
  ℕ, ◌≡◌, ◌⊎◌, Bool, true, false, none, some, List, [], ◌∷◌, arith, if◌then◌else◌, nat_keys,
  bytes_keys,
}
use mediasink.Loopback.State.{UdpAddr, LoopBack}
use mediasink.Loopback.Threads.{
  Reader, selecting, reading, received, processing, stopped, is_done, started, not_closing, waiting,
  closed, Threads, Event, context_done, read, tick, write_payload, close, read_loop,
  metrics_loop_step, both_stopped, close_step, step, run,
}

-- When Close has returned, no goroutine is left.
unfoldable pub IsJoined : Threads → Type 0
IsJoined t = if (elim t.closer [ closed ↦ true | _ ↦ false ]) then both_stopped t ≡ true else Unit

step-IsJoined : (t : Threads) (e : Event) → IsJoined t → IsJoined (step t e)
unfolding step IsJoined read_loop metrics_loop_step close_step
step-IsJoined t context_done h = h
step-IsJoined t (read answer) h = ground arith
step-IsJoined t tick h = ground arith
step-IsJoined t (write_payload payload written) h = ground arith
step-IsJoined t close h = ground arith

run-IsJoined : (t : Threads) (events : List Event) → IsJoined t → IsJoined (run t events)
unfolding run
run-IsJoined t [] h = h
run-IsJoined t (e ∷ events) h = run-IsJoined (step t e) events (step-IsJoined t e h)

-- In every run behind Connect, once Close has returned both goroutines have ended.
pub run-started-IsJoined :
    (parent_done : Bool) (l : LoopBack) (events : List Event)
    → IsJoined (run (started parent_done l) events)
run-started-IsJoined parent_done l events =
    run-IsJoined (started parent_done l) events (unfold IsJoined in tt)

-- The reader waits for the lock that Close holds while it waits for the reader.
abbrev pub IsStuck : ℕ → UdpAddr → Threads → Type 0
IsStuck n sender t = (t.closer ≡ waiting) × (t.reader ≡ received n sender)

step-IsStuck :
    (n : ℕ) (sender : UdpAddr) (t : Threads) (e : Event)
    → IsStuck n sender t
    → IsStuck n sender (step t e)
unfolding step read_loop metrics_loop_step close_step
step-IsStuck n sender t context_done (shut, at) = (shut, at)
step-IsStuck n sender t (read answer) (shut, at) = ground arith
step-IsStuck n sender t tick (shut, at) = ground arith
step-IsStuck n sender t (write_payload payload written) (shut, at) = ground arith
step-IsStuck n sender t close (shut, at) = ground arith

run-IsStuck :
    (n : ℕ) (sender : UdpAddr) (t : Threads) (events : List Event)
    → IsStuck n sender t
    → IsStuck n sender (run t events)
unfolding run
run-IsStuck n sender t [] h = h
run-IsStuck n sender t (e ∷ events) h =
    run-IsStuck n sender (step t e) events (step-IsStuck n sender t e h)

close-IsStuck :
    (n : ℕ) (sender : UdpAddr) (t : Threads)
    → t.closer ≡ not_closing
    → t.reader ≡ received n sender
    → IsStuck n sender (step t close)
unfolding step close_step
close-IsStuck n sender t running at = ground arith

-- If the reader has received a message and not yet taken the lock when Close takes it, then however
-- the run goes on, Close waits for the reader and the reader waits for the lock, for ever.
pub close_deadlocks :
    (t : Threads) (n : ℕ) (sender : UdpAddr) (events : List Event)
    → t.closer ≡ not_closing
    → t.reader ≡ received n sender
    → IsStuck n sender (run (step t close) events)
close_deadlocks t n sender events running at =
    run-IsStuck n sender (step t close) events (close-IsStuck n sender t running at)

-- Whether the reader is at a place that Close does not hold up: not between its select and the read,
-- nor between the read and the lock.
abbrev pub is_clear : Reader → Bool
is_clear selecting = true
is_clear reading = true
is_clear (processing n) = true
is_clear stopped = true
is_clear _ = false

-- Whether every read of some steps fails.
unfoldable pub reads_fail : List Event → Bool
reads_fail [] = true
reads_fail (read (some answer) ∷ events) = false
reads_fail (event ∷ events) = reads_fail events

abbrev pub finish : List Event
finish = read none ∷ read none ∷ tick ∷ close ∷ []

-- Close has taken the lock, and the reader is clear of it.
record IsEnding (t : Threads) : Type 0 where
  called : (t.closer ≡ waiting) ⊎ (t.closer ≡ closed)
  over : is_done t.loop_back ≡ true
  clear : is_clear t.reader ≡ true
