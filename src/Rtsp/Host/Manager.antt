-- ===== src/Rtsp/Host/Manager.antt =====
-- The connection loop of pkg/rtsp/new_host.go, Connect and connectionManager, as a state machine.
-- A phase is a place where the goroutine waits or calls out; an input lets it go on with what it
-- waited for, or is a call of WriteRTP or Close by another goroutine, or the end of the parent
-- context. An input that does not fit the phase changes nothing, so every list of inputs is an
-- interleaving. The outcome of url.Parse and of the client's StartRecording comes with the input.
use mediasink.Prelude.{
  ℕ, ◌-◌, ◌*◌, ◌/◌, Bool, true, false, Option, none, some, List, [], ◌∷◌, ltb, if◌then◌else◌,
  nat_keys, bytes_keys,
}
use mediasink.Prelude.{is_zero}
use mediasink.Rtsp.Host.State.{
  disconnected, connecting, recording, failed, Error, second, Packet, Host, set_state, set_error,
}
use mediasink.Rtsp.Host.Write.{write_rtp}

pub data Phase : Type 0 where
  checking dialing starting waiting monitoring stopped : Phase

pub record Machine : Type 0 where
  pub host : Host
  pub phase : Phase
  pub current_delay : ℕ

pub data Input : Type 0 where
  check : Input
  dial : ℕ → Input
  started : Option Error → ℕ → Input
  retry : Input
  done : Input
  tick : Input
  write_packet : Option Packet → Bool → ℕ → Input
  cancel : Input
  close : Input

abbrev pub max_delay : ℕ
max_delay = 30 * second

-- Half as much again, at most 30 seconds. Below 2^52 ns the product of floats is exact up to the
-- conversion, which cuts off; above, it is over the cap all the same.
unfoldable pub next_delay : ℕ → ℕ
next_delay delay = let longer = delay * 3 / 2 in if ltb max_delay longer then max_delay else longer

abbrev pub is_done : Host → Bool
is_done h = elim h.session [ none ↦ false | some d ↦ d ]

-- `h.cancel()`, where it is set.
unfoldable pub cancel_session : Host → Host
cancel_session h = record h { session = elim h.session [ none ↦ none | some d ↦ some true ] }

unfoldable pub close_host : Host → Host
unfolding cancel_session
close_host h = set_state disconnected (cancel_session h)

unfoldable pub connect : Bool → Host → Machine
connect parent_done h = record {
  host = set_state connecting (record h { session = some parent_done });
  phase = checking;
  current_delay = h.config.reconnect_delay;
}

unfoldable pub stop : Machine → Machine
stop m = record m { host = set_state disconnected m.host; phase = stopped }

unfoldable pub attempt_failed : Error → Machine → Machine
attempt_failed e m = record m {
  host = set_error e (set_state failed m.host);
  phase = if is_zero m.host.config.reconnect_attempts then stopped else waiting;
}

-- attemptConnection sets the state, and connectionManager sets it again; both are one step here, so that
-- no write comes in between. In the source the second undoes the error state of a write that failed
-- there.
unfoldable pub attempt_done : ℕ → Machine → Machine
attempt_done now m = record {
  host = record (set_state recording m.host) { last_write_time = now };
  phase = monitoring;
  current_delay = m.host.config.reconnect_delay;
}

-- Behind `monitorConnection`: stop, or connect again.
unfoldable pub monitor_left : Machine → Machine
unfolding stop
monitor_left m =
    if is_done m.host
    then stop m
    else record m { host = set_state connecting m.host; phase = checking }

unfoldable pub monitor_tick : Machine → Machine
unfolding monitor_left
monitor_tick m = elim m.host.client [ none ↦ monitor_left m | some c ↦ m ]

-- The goroutine's own moves.
unfoldable pub advance : Phase → Input → Machine → Machine
unfolding stop attempt_failed attempt_done monitor_left monitor_tick next_delay
advance checking check m = if is_done m.host then stop m else record m { phase = dialing }
advance dialing (dial client) m = record m {
  host = record (m.host) { client = some client };
  phase = starting;
}
advance starting (started (some e) now) m = attempt_failed e m
advance starting (started none now) m = attempt_done now m
advance waiting retry m = record m { phase = checking; current_delay = next_delay m.current_delay }
advance waiting done m = if is_done m.host then stop m else m
advance monitoring done m = if is_done m.host then monitor_left m else m
advance monitoring tick m = monitor_tick m
advance phase (write_packet packet written now) m = record m {
  host = (write_rtp packet written now m.host).host;
}
advance phase cancel m = record m { host = cancel_session m.host }
advance phase close m = record m { host = close_host m.host }
advance _ _ m = m

unfoldable pub step : Machine → Input → Machine
unfolding advance
step m i = advance m.phase i m

unfoldable pub run : Machine → List Input → Machine
run m [] = m
run m (i ∷ is) = run (step m i) is

-- The loop that nobody starts: it would take a token and connect again.
unfoldable pub connection_monitor_token : Option Error → ℕ → ℕ → Host → Host
connection_monitor_token outcome client now h =
    if ltb 0 h.reconnect_chan
    then (let taken = record h { reconnect_chan = h.reconnect_chan - 1 } in
        elim h.state [
          | failed ↦ (elim outcome [
            | none ↦ record (set_state recording taken) {
              client = some client;
              last_write_time = now;
            }
            | some e ↦ record taken { client = some client }
          ])
          | _ ↦ taken
        ])
    else h
