-- ===== src/Rtsp/Server/Routines.antt =====
-- The goroutines of pkg/rtsp/new_server.go that a Start leaves, and Close beside them, as turns between
-- the points at which one can be held up. What is done at a tick is in `Upkeep`. A callback takes the
-- lock and gives it back without waiting for anything in between, and is left out.
use mediasink.Prelude.{
  Bool, true, false, not, ◌&&◌, List, [], ◌∷◌, if◌then◌else◌, nat_keys, bytes_keys,
}

-- Where cleanupRoutine or metricsRoutine is: in its select, at the lock, behind it, or at its end.
pub data Routine : Type 0 where
  selecting waiting working ended : Routine

-- Where Close is: not called, at the lock, behind it with the context cancelled, at the Close of the
-- library's server, at the wait for the routines, or at its end.
pub data Closer : Type 0 where
  not_called locking closing stopping joining returned : Closer

pub record Threads : Type 0 where
  pub context_done : Bool
  pub cleanup : Routine
  pub metrics : Routine
  pub closer : Closer

abbrev pub started : Bool → Threads
started parent_done = record {
  context_done = parent_done;
  cleanup = selecting;
  metrics = selecting;
  closer = not_called;
}

-- A turn of a routine says whether its ticker is what the select takes.
pub data Turn : Type 0 where
  context_cancelled close_called : Turn
  cleanup_turn metrics_turn : Bool → Turn
  closer_turn : Turn

abbrev pub is_working : Routine → Bool
is_working working = true
is_working _ = false

abbrev pub is_closing : Closer → Bool
is_closing closing = true
is_closing _ = false

abbrev pub is_ended : Routine → Bool
is_ended ended = true
is_ended _ = false

-- A turn of a routine, with whether the lock is free for it. Without a tick the select waits for the
-- context.
unfoldable pub routine_turn : Bool → Bool → Bool → Routine → Routine
routine_turn tick free done selecting =
    if tick then waiting else (if done then ended else selecting)
routine_turn tick free done waiting = if free then working else waiting
routine_turn tick free done working = selecting
routine_turn tick free done ended = ended

-- cleanupInactiveSessions takes the lock for itself.
unfoldable pub cleanup_routine : Bool → Threads → Threads
unfolding routine_turn
cleanup_routine tick t = record t {
  cleanup =
      routine_turn tick (not (is_working t.metrics) && not (is_closing t.closer)) t.context_done
        t.cleanup;
}

-- logMetrics takes it for reading.
unfoldable pub metrics_routine : Bool → Threads → Threads
unfolding routine_turn
metrics_routine tick t = record t {
  metrics =
      routine_turn tick (not (is_working t.cleanup) && not (is_closing t.closer)) t.context_done
        t.metrics;
}

unfoldable pub closer_step : Threads → Threads
closer_step t = elim t.closer [
  | locking ↦
      if not (is_working t.cleanup) && not (is_working t.metrics)
      then record t { context_done = true; closer = closing }
      else t
  | closing ↦ record t { closer = stopping }
  | stopping ↦ record t { closer = joining }
  | joining ↦ if is_ended t.cleanup && is_ended t.metrics then record t { closer = returned } else t
  | _ ↦ t
]

unfoldable pub call_close : Threads → Threads
call_close t = elim t.closer [ not_called ↦ record t { closer = locking } | _ ↦ t ]

unfoldable pub step : Threads → Turn → Threads
unfolding cleanup_routine metrics_routine closer_step call_close
step t context_cancelled = record t { context_done = true }
step t close_called = call_close t
step t (cleanup_turn tick) = cleanup_routine tick t
step t (metrics_turn tick) = metrics_routine tick t
step t closer_turn = closer_step t

unfoldable pub run : Threads → List Turn → Threads
unfolding step
run t [] = t
run t (turn ∷ turns) = run (step t turn) turns
