-- ===== src/Socket/Host/Tests.antt =====
-- Concrete runs of the WebSocket host.
use mediasink.Prelude.{refl, true, false, some, [], ◌∷◌, nat_keys, bytes_keys, codes}
use mediasink.Socket.Host.State.{HostConfig, new_host, set_session}
use mediasink.Socket.Host.Threads.{
  Machine, nothing_yet, dialed, canceled, turn, close, connect, step, run,
}
use mediasink.Socket.Host.Shutdown.{is_quiet, IsHeld, close_waits}

abbrev retrying : HostConfig
retrying = record { write_timeout = 0; read_timout = 0; connect_retry = true }

abbrev listening : Machine
listening =
    run (connect false (new_host (codes "localhost") 8080 retrying true))
      (turn nothing_yet ∷ turn (dialed (some 4)) ∷ turn nothing_yet ∷ turn nothing_yet ∷ [])

close_waits_example :
    IsHeld (run (step listening close) (close ∷ turn nothing_yet ∷ turn canceled ∷ []))
unfolding run new_host set_session is_quiet
close_waits_example =
    close_waits listening (close ∷ turn nothing_yet ∷ turn canceled ∷ []) refl refl refl
      (refl, (refl, (refl, tt)))
