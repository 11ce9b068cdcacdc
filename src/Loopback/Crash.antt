-- ===== src/Loopback/Crash.antt =====
-- What Close of pkg/loopback/host.go does to a reader that is about to read.
use mediasink.Prelude.{◌≡◌, ◌⊎◌, none, nat_keys, bytes_keys}
use mediasink.Loopback.Threads.{entering, crashed, waiting, Threads}

-- Close waits, the socket is nil, and the reader is in front of its calls on it, or has made one.
record IsDoomed (t : Threads) : Type 0 where
  shutting : t.closer ≡ waiting
  no_socket : t.loop_back.bind_port ≡ none
  place : (t.reader ≡ entering) ⊎ (t.reader ≡ crashed)
