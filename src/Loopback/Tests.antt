-- ===== src/Loopback/Tests.antt =====
-- Concrete runs of the loopback host.
use mediasink.Prelude.{◌≡◌, refl, true, false, none, some, [], ◌∷◌, nat_keys, bytes_keys}
use mediasink.Loopback.State.{UdpAddr, LoopBack, new, local_ip}
use mediasink.Loopback.Threads.{Threads, read, tick, close, started, run}
use mediasink.Loopback.Shutdown.{IsStuck, close_deadlocks}
use mediasink.Prelude.{ℕ, List, ◌++◌, ◌-◌, ◌^◌, arith}
use mediasink.Loopback.Rates.{
  FloatOps, Rates, sent, recvd, count, total_sent, total_recvd, update_rates, on_counts,
  rates_between_ticks,
}

abbrev bound : LoopBack
bound = record new { bind_port = some 14550; has_callback = true }

abbrev drone : UdpAddr
drone = record { ip = local_ip; port = 5760 }

abbrev waits_for_read : Threads
waits_for_read = run (started false bound) (read none ∷ read none ∷ [])

abbrev hearing : Threads
hearing = run (started false bound) (read none ∷ read none ∷ read (some (12, drone)) ∷ [])

close_deadlocks_example :
    IsStuck 12 drone (run (run hearing (close ∷ [])) (read none ∷ tick ∷ close ∷ []))
unfolding run
close_deadlocks_example = close_deadlocks hearing 12 drone (read none ∷ tick ∷ close ∷ []) refl refl

abbrev about_to_read : Threads
about_to_read = run (started false bound) (read none ∷ [])

-- Rates that keep what they are made of.
abbrev plain_floats : FloatOps (List ℕ)
plain_floats = record { of_int64 = λ n. n ∷ []; of_seconds = λ n. n ∷ []; div = λ a b. a ++ b }

abbrev full_counts : Rates (List ℕ)
full_counts = record {
  counts = record { data_sent = 2 ^ 64 - 1; data_recvd = 8 };
  data_sent_rate = [];
  data_recvd_rate = [];
  last_update = none;
  last_sent = 0;
  last_recvd = 0;
}

-- The counter of what is sent wraps.
rates_between_ticks_example :
    let t = update_rates plain_floats 9 (
      on_counts plain_floats
        (count (sent 5 ∷ recvd 3 ∷ []))
        (update_rates plain_floats 7 full_counts)) in
    (t.data_sent_rate ≡ 5 ∷ 2 ∷ []) × (t.data_recvd_rate ≡ 3 ∷ 2 ∷ [])
unfolding total_sent total_recvd
rates_between_ticks_example =
    rates_between_ticks plain_floats 7 9 (sent 5 ∷ recvd 3 ∷ []) full_counts (omega arith)
      (omega arith) (omega arith)
