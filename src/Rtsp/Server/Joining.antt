-- ===== src/Rtsp/Server/Joining.antt =====
-- How Close of pkg/rtsp/new_server.go ends beside the goroutines of the server.
use mediasink.Prelude.{
  ◌≡◌, refl, ap, ◌∙◌, Bool, true, false, not, ◌&&◌, List, [], ◌∷◌, ◌++◌, arith, nat_keys,
  bytes_keys,
}
use mediasink.Rtsp.Server.Routines.{
  Routine, selecting, waiting, working, ended, Closer, not_called, locking, closing, stopping,
  joining, returned, Threads, started, Turn, context_cancelled, close_called, cleanup_turn,
  metrics_turn, closer_turn, is_working, is_closing, is_ended, routine_turn, cleanup_routine,
  metrics_routine, closer_step, call_close, step, run,
}

-- Behind the lock of Close the context is done and no routine is behind the lock beside it; both
-- have ended once it has returned.
abbrev pub Holds : Threads → Type 0
Holds t = elim t.closer [
  | not_called ↦ Unit
  | locking ↦ Unit
  | closing ↦
      (t.context_done ≡ true) × (is_working t.cleanup ≡ false) × (is_working t.metrics ≡ false)
  | stopping ↦ t.context_done ≡ true
  | joining ↦ t.context_done ≡ true
  | returned ↦ (t.context_done ≡ true) × (is_ended t.cleanup ≡ true) × (is_ended t.metrics ≡ true)
]

-- The two routines are never behind the lock at once.
pub record IsValid (t : Threads) : Type 0 where
  pub apart : is_working t.cleanup && is_working t.metrics ≡ false
  pub holds : Holds t

step-IsValid : (t : Threads) (turn : Turn) → IsValid t → IsValid (step t turn)
unfolding step cleanup_routine metrics_routine closer_step call_close routine_turn
step-IsValid t context_cancelled v = record { apart = v.apart; holds = ground (arith, v.holds) }
step-IsValid t close_called v = record {
  apart = ground (arith, v.apart);
  holds = ground (arith, v.holds);
}
step-IsValid t (cleanup_turn tick) v = record {
  apart = ground (arith, v.apart);
  holds = ground (arith, v.holds);
}
step-IsValid t (metrics_turn tick) v = record {
  apart = ground (arith, v.apart);
  holds = ground (arith, v.holds);
}
step-IsValid t closer_turn v = record {
  apart = ground (arith, v.apart);
  holds = ground (arith, v.holds);
}

run-IsValid : (t : Threads) (turns : List Turn) → IsValid t → IsValid (run t turns)
unfolding run
run-IsValid t [] v = v
run-IsValid t (turn ∷ turns) v = run-IsValid (step t turn) turns (step-IsValid t turn v)

run-append : (t : Threads) (xs ys : List Turn) → run t (xs ++ ys) ≡ run (run t xs) ys
unfolding run
run-append t [] ys = refl
run-append t (x ∷ xs) ys = run-append (step t x) xs ys

-- Both routines come out of the lock.
abbrev pub settle : List Turn
settle = cleanup_turn false ∷ cleanup_turn false ∷ metrics_turn false ∷ metrics_turn false ∷ []

-- Close goes on as far as the wait.
abbrev pub shut : List Turn
shut = closer_turn ∷ closer_turn ∷ closer_turn ∷ []

-- Both routines end, and Close returns.
abbrev pub join : List Turn
join =
    cleanup_turn false
    ∷ cleanup_turn false
    ∷ cleanup_turn false
    ∷ metrics_turn false
    ∷ metrics_turn false
    ∷ metrics_turn false
    ∷ closer_turn
    ∷ []

-- No routine is behind the lock.
abbrev IsQuiet : Threads → Type 0
IsQuiet t = (is_working t.cleanup ≡ false) × (is_working t.metrics ≡ false)

rests :
    (free done : Bool) (r : Routine)
    → is_working (routine_turn false free done (routine_turn false free done r)) ≡ false
unfolding routine_turn
rests free done selecting = ground arith
rests free done waiting = ground arith
rests free done working = ground arith
rests free done ended = refl

settle_lem : (t : Threads) → IsQuiet (run t settle) × ((run t settle).closer ≡ t.closer)
unfolding run step cleanup_routine metrics_routine
settle_lem t = (
  (
    rests (not (is_working t.metrics) && not (is_closing t.closer)) t.context_done t.cleanup,
    rests _ t.context_done t.metrics,
  ),
  refl,
)

-- How far Close is behind the lock.
abbrev is_at_wait : Closer → Bool
is_at_wait joining = true
is_at_wait returned = true
is_at_wait _ = false

abbrev is_called : Closer → Bool
is_called not_called = false
is_called _ = true

shut_lem :
    (t : Threads)
    → IsQuiet t
    → is_called t.closer ≡ true
    → (is_at_wait (run t shut).closer ≡ true) × IsQuiet (run t shut)
unfolding run step closer_step
shut_lem t quiet called = ground (arith, quiet, called)

join_lem :
    (t : Threads)
    → IsQuiet t
    → is_at_wait t.closer ≡ true
    → t.context_done ≡ true
    → Holds t
    → (run t join).closer ≡ returned
unfolding run step cleanup_routine metrics_routine closer_step routine_turn
join_lem t quiet at done holds = ground (arith, quiet, at, done, holds)

done_at_wait : (t : Threads) → IsValid t → is_at_wait t.closer ≡ true → t.context_done ≡ true
done_at_wait t v at = ground (arith, v.holds, at)

call_is_called : (t : Threads) → is_called (step t close_called).closer ≡ true
unfolding step call_close
call_is_called t = ground arith

start-IsValid : (parent_done : Bool) → IsValid (started parent_done)
start-IsValid parent_done = record { apart = refl; holds = tt }

abbrev pub finish : List Turn
finish = settle ++ (shut ++ join)

finish_lem :
    (t : Threads) → IsValid t → is_called t.closer ≡ true → (run t finish).closer ≡ returned
finish_lem t v called =
    let u = run t settle in
    let w = run u shut in
    let (quiet, same) = settle_lem t in
    let (at, still) = shut_lem u quiet (ap is_called same ∙ called) in
    let valid = run-IsValid u shut (run-IsValid t settle v) in
    let returns = join_lem w still at (done_at_wait w valid at) valid.holds in
    ap (λ (x : Threads). x.closer) (run-append t settle (shut ++ join) ∙ run-append u shut join)
    ∙ returns

at_end : (t : Threads) → IsValid t → t.closer ≡ returned → (t.cleanup ≡ ended) × (t.metrics ≡ ended)
at_end t v at = ground (arith, v.holds, at)

-- Whatever turns the goroutines of a started server have taken, and wherever each of them is, Close
-- does not wait for ever: fourteen more turns in which no ticker fires are enough for it to return,
-- and both goroutines have ended then.
pub close_returns_anywhere :
    (parent_done : Bool) (turns : List Turn)
    → let t = run (step (run (started parent_done) turns) close_called) finish in
      (t.closer ≡ returned) × (t.cleanup ≡ ended) × (t.metrics ≡ ended)
close_returns_anywhere parent_done turns =
    let before = run (started parent_done) turns in
    let valid = run-IsValid (started parent_done) turns (start-IsValid parent_done) in
    let called = step before close_called in
    let v = step-IsValid before close_called valid in
    let returns = finish_lem called v (call_is_called before) in
    let (cleanup, metrics) = at_end (run called finish) (run-IsValid called finish v) returns in
    (returns, cleanup, metrics)

-- Close does not return while a goroutine of the server is left, in whatever order the turns come.
pub returned_has_joined :
    (parent_done : Bool) (turns : List Turn)
    → (run (started parent_done) turns).closer ≡ returned
    → ((run (started parent_done) turns).cleanup ≡ ended)
      × ((run (started parent_done) turns).metrics ≡ ended)
returned_has_joined parent_done turns =
    at_end (run (started parent_done) turns)
      (run-IsValid (started parent_done) turns (start-IsValid parent_done))
