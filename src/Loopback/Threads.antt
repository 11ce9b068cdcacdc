-- ===== src/Loopback/Threads.antt =====
-- The goroutines of pkg/loopback/host.go: readLoop and metricsLoop, which Connect starts, and
-- Close, which holds the lock while it waits for both. A step is what a goroutine does between two
-- points at which it can be held up.
use mediasink.Prelude.{
  ℕ, Bool, true, false, not, Option, none, some, List, [], ◌∷◌, ltb, if◌then◌else◌, nat_keys,
  bytes_keys, Bytes,
}
use mediasink.Loopback.State.{add_recvd, UdpAddr, LoopBack, write}

-- Where readLoop is: at its select, behind it in front of the calls on the socket, in ReadFromUDP,
-- at the lock in readMessageFromUDPPort, behind that, at its end. A call on a socket that is nil
-- panics, which ends the program: `crashed`.
pub data Reader : Type 0 where
  selecting entering reading : Reader
  received : ℕ → UdpAddr → Reader
  processing : ℕ → Reader
  stopped crashed : Reader

pub data Closer : Type 0 where
  not_closing : Closer
  waiting : Closer
  closed : Closer

pub record Threads : Type 0 where
  pub loop_back : LoopBack
  pub reader : Reader
  pub metrics_loop : Bool
  pub closer : Closer

-- The end of the context that was given to Connect, or a step of a goroutine; the reader's has what
-- ReadFromUDP answers.
pub data Event : Type 0 where
  context_done : Event
  read : Option (ℕ × UdpAddr) → Event
  tick : Event
  write_payload : Bytes → Option ℕ → Event
  close : Event

abbrev pub is_done : LoopBack → Bool
is_done l = elim l.session [ none ↦ false | some done ↦ done ]

abbrev pub end_session : LoopBack → LoopBack
end_session l = record l { session = elim l.session [ none ↦ none | some done ↦ some true ] }

abbrev pub started : Bool → LoopBack → Threads
started parent_done l = record {
  loop_back = record l { session = some parent_done };
  reader = selecting;
  metrics_loop = true;
  closer = not_closing;
}

-- Connect, on an instance that has no goroutines; none is the panic of LocalAddr on a socket that is
-- nil, in its last line.
unfoldable pub connect : Bool → LoopBack → Option Threads
connect parent_done l = elim l.bind_port [ none ↦ none | some port ↦ some (started parent_done l) ]

abbrev pub discover : UdpAddr → LoopBack → LoopBack
discover sender l = record l {
  remote = elim l.remote [ none ↦ some sender | some addr ↦ some addr ];
}

unfoldable pub read_loop : Option (ℕ × UdpAddr) → Threads → Threads
unfolding add_recvd
read_loop answer t = elim t.reader [
  | selecting ↦ record t { reader = if is_done t.loop_back then stopped else entering }
  | entering ↦ record t {
    reader = elim t.loop_back.bind_port [ none ↦ crashed | some port ↦ reading ];
  }
  | reading ↦ record t { reader = elim answer [ none ↦ selecting | some a ↦ received a.0 a.1 ] }
  | received n sender ↦ (elim t.closer [
    | waiting ↦ t
    | _ ↦ record t { loop_back = discover sender t.loop_back; reader = processing n }
  ])
  | processing n ↦ record t {
    loop_back =
        if ltb 0 n
        then record (t.loop_back) { metrics = add_recvd n t.loop_back.metrics }
        else t.loop_back;
    reader = selecting;
  }
  | stopped ↦ t
  | crashed ↦ t
]

unfoldable pub metrics_loop_step : Threads → Threads
metrics_loop_step t = if is_done t.loop_back then record t { metrics_loop = false } else t

abbrev pub both_stopped : Threads → Bool
both_stopped t = elim t.reader [ stopped ↦ not t.metrics_loop | _ ↦ false ]

-- Close: to take the lock, cancel the context and close the port; then to wait for the goroutines.
unfoldable pub close_step : Threads → Threads
close_step t = elim t.closer [
  | not_closing ↦ record t {
    loop_back = record (end_session t.loop_back) { bind_port = none };
    closer = waiting;
  }
  | waiting ↦ if both_stopped t then record t { closer = closed } else t
  | closed ↦ t
]

unfoldable pub step : Threads → Event → Threads
unfolding read_loop metrics_loop_step close_step write
step t context_done = record t { loop_back = end_session t.loop_back }
step t (read answer) = read_loop answer t
step t tick = metrics_loop_step t
step t (write_payload payload written) = elim t.closer [
  | waiting ↦ t
  | _ ↦ record t { loop_back = (write payload written t.loop_back).0 }
]
step t close = close_step t

unfoldable pub run : Threads → List Event → Threads
unfolding step
run t [] = t
run t (e ∷ events) = run (step t e) events
