-- ===== src/Rtsp/Host/Invariant.antt =====
-- What holds of the publishing host whatever the order of its goroutines.
use mediasink.Prelude.{
  ℕ, ◌≤◌, ◌≡◌, subst, ◌≢◌, Bool, Option, none, some, List, [], ◌∷◌, arith, nat_keys, bytes_keys,
}
use mediasink.Rtsp.Host.State.{recording, Packet, Host, set_state, set_error}
use mediasink.Rtsp.Host.Write.{write_rtp}
use mediasink.Rtsp.Host.Manager.{
  starting, monitoring, Machine, Input, check, dial, started, retry, done, tick, write_packet,
  cancel, close, cancel_session, close_host, connect, step, run,
}

-- The host records only while its connection is monitored, and then has a client; the reconnection
-- channel holds one token at most.
pub record IsValid (m : Machine) : Type 0 where
  pub recording_monitored : m.host.state ≡ recording → m.phase ≡ monitoring
  pub starting_client : m.phase ≡ starting → m.host.client ≢ none
  pub monitoring_client : m.phase ≡ monitoring → m.host.client ≢ none
  pub one_token : m.host.reconnect_chan ≤ 1

connect-IsValid :
    (parent_done : Bool) (h : Host) → h.reconnect_chan ≤ 1 → IsValid (connect parent_done h)
unfolding connect set_state
connect-IsValid parent_done h c = ground arith

write-IsValid :
    (m : Machine) (packet : Option Packet) (written : Bool) (now : ℕ)
    → IsValid m
    → IsValid (record m { host = (write_rtp packet written now m.host).host })
unfolding write_rtp set_state set_error
write-IsValid m none written now v = v
write-IsValid m (some packet) written now v = ground arith

step-write_packet :
    (m : Machine) (packet : Option Packet) (written : Bool) (now : ℕ)
    → record m { host = (write_rtp packet written now m.host).host }
      ≡ step m (write_packet packet written now)
unfolding step
step-write_packet m packet written now = ground arith

step-IsValid : (i : Input) (m : Machine) → IsValid m → IsValid (step m i)
unfolding step set_state set_error cancel_session close_host
step-IsValid check m v = ground arith
step-IsValid (dial client) m v = ground arith
step-IsValid (started (some e) now) m v = ground arith
step-IsValid (started none now) m v = ground arith
step-IsValid retry m v = ground arith
step-IsValid done m v = ground arith
step-IsValid tick m v = ground arith
step-IsValid (write_packet packet written now) m v =
    subst IsValid (step-write_packet m packet written now) (write-IsValid m packet written now v)
step-IsValid cancel m v = ground arith
step-IsValid close m v = ground arith

run-IsValid : (is : List Input) (m : Machine) → IsValid m → IsValid (run m is)
unfolding run
run-IsValid [] m v = v
run-IsValid (i ∷ is) m v = run-IsValid is (step m i) (step-IsValid i m v)

-- From Connect on, in every interleaving of the loop with writes, Close and the end of the context,
-- the host is recording only while its connection is monitored, has a client then, and keeps at
-- most one request to reconnect.
pub run-connect-IsValid :
    (parent_done : Bool) (h : Host) (is : List Input)
    → h.reconnect_chan ≤ 1
    → IsValid (run (connect parent_done h) is)
run-connect-IsValid parent_done h is c = run-IsValid is _ (connect-IsValid parent_done h c)
