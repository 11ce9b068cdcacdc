-- ===== src/Socket/Host/Threads.antt =====
-- Connect of pkg/socket/host.go, with serverHandler, as a goroutine next to a call of Close. A step
-- is what a goroutine does between two points at which it can be held up. The lock is a
-- sync.RWMutex: readFromServer holds it for reading while it waits for a message, and a writer that
-- waits keeps new readers out.
use mediasink.Prelude.{
  ℕ, Bool, true, false, Option, none, some, List, [], ◌∷◌, ◌++◌, if◌then◌else◌, nat_keys,
  bytes_keys, Bytes,
}
use mediasink.Socket.Host.State.{
  Host, set_session, set_server, is_done, end_session, close_host, send_to_source,
}

pub data Phase : Type 0 where
  selecting dialing : Phase
  installing : ℕ → Phase
  handling reading : Phase
  delivering : Bytes → Phase
  uninstalling closing ended : Phase

pub data Closer : Type 0 where
  outside waiting returned : Closer

-- `received` holds what came to the source.
pub record Machine : Type 0 where
  pub host : Host
  pub phase : Phase
  pub closer : Closer
  pub received : List Bytes

-- What the library answers to the goroutine of Connect, if it does.
pub data Answer : Type 0 where
  nothing_yet : Answer
  dialed : Option ℕ → Answer
  message : Bytes → Answer
  canceled broken : Answer

-- The end of the context that was given to Connect, a turn of its goroutine, or a turn of Close.
pub data Event : Type 0 where
  context_done : Event
  turn : Answer → Event
  close : Event

abbrev pub connect : Bool → Host → Machine
connect parent_done h = record {
  host = set_session parent_done h;
  phase = selecting;
  closer = outside;
  received = [];
}

abbrev pub is_waiting : Closer → Bool
is_waiting waiting = true
is_waiting _ = false

abbrev pub is_reading : Phase → Bool
is_reading reading = true
is_reading _ = false

-- A read answers that it was cancelled only when the context is done.
unfoldable pub connect_step : Answer → Machine → Machine
unfolding set_server close_host send_to_source
connect_step answer m = elim m.phase [
  | selecting ↦ record m { phase = if is_done m.host then closing else dialing }
  | dialing ↦ (elim answer [
    | dialed conn ↦ record m { phase = elim conn [ none ↦ closing | some c ↦ installing c ] }
    | _ ↦ m
  ])
  | installing conn ↦ record m { host = set_server (some conn) m.host; phase = handling }
  | handling ↦
      if is_done m.host
      then record m { phase = uninstalling }
      else (if is_waiting m.closer then m else record m { phase = reading })
  | reading ↦ (elim answer [
    | message msg ↦ record m { phase = delivering msg }
    | broken ↦ record m { phase = uninstalling }
    | canceled ↦ if is_done m.host then record m { phase = handling } else m
    | _ ↦ m
  ])
  | delivering msg ↦
      if is_waiting m.closer
      then m
      else record m { phase = handling; received = m.received ++ send_to_source msg m.host }
  | uninstalling ↦ record m {
    host = set_server none m.host;
    phase = if m.host.config.connect_retry then selecting else closing;
  }
  | closing ↦ record m { host = close_host m.host; phase = ended }
  | ended ↦ m
]

-- Close waits for the lock, and then cancels the context and closes the connection.
unfoldable pub close_step : Machine → Machine
unfolding close_host
close_step m = elim m.closer [
  | outside ↦ record m { closer = waiting }
  | waiting ↦
      if is_reading m.phase then m else record m { host = close_host m.host; closer = returned }
  | returned ↦ m
]

unfoldable pub step : Machine → Event → Machine
unfolding connect_step close_step end_session
step m context_done = record m { host = end_session m.host }
step m (turn answer) = connect_step answer m
step m close = close_step m

unfoldable pub run : Machine → List Event → Machine
unfolding step
run m [] = m
run m (e ∷ events) = run (step m e) events
