-- ===== src/Rtsp/SingleServer/State.antt =====
-- The data and the callbacks of pkg/rtsp/server.go. Sessions and streams are known by a number; the
-- callbacks that only print are left out.
use mediasink.Prelude.{
  ℕ, Bool, false, Option, none, some, List, [], ◌∷◌, if◌then◌else◌, ◌==◌, nat_keys, bytes_keys,
}

-- `has_cancel` is whether the field `cancel` is set.
pub record Server : Type 0 where
  pub stream : Option ℕ
  pub publisher : Option ℕ
  pub has_cancel : Bool

unfoldable pub create_server : Server
create_server = record { stream = none; publisher = none; has_cancel = false }

-- What a callback closes.
pub data Shut : Type 0 where
  shut_stream : ℕ → Shut
  shut_publisher : Option ℕ → Shut

abbrev pub is_session : ℕ → Option ℕ → Bool
is_session session none = false
is_session session (some s) = session == s

unfoldable pub on_session_close : ℕ → Server → Server × List Shut
on_session_close session s = elim s.stream [
  | none ↦ (s, [])
  | some stream ↦
      if is_session session s.publisher
      then (record s { stream = none }, shut_stream stream ∷ [])
      else (s, [])
]

-- `stream` is what NewServerStream makes.
unfoldable pub on_announce : ℕ → ℕ → Server → Server × List Shut
on_announce session stream s = (
  record s { stream = some stream; publisher = some session },
  elim s.stream [
    | none ↦ []
    | some replaced ↦ shut_stream replaced ∷ shut_publisher s.publisher ∷ []
  ],
)

-- The stream that goes with the status OK; none is the status not found.
unfoldable pub on_describe : Server → Option ℕ
on_describe s = s.stream

unfoldable pub on_setup : Server → Option ℕ
on_setup s = s.stream

-- The callback for packets that OnRecord sets: the stream that is written to, none is a panic.
unfoldable pub on_packet : Server → Option ℕ
on_packet s = s.stream

-- none is the panic of a call of the nil `cancel`; else the server of the library is closed.
unfoldable pub close : Server → Option Server
close s = if s.has_cancel then some s else none
