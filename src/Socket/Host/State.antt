-- ===== src/Socket/Host/State.antt =====
-- The data of pkg/socket/host.go and its sends. A connection is known by a number; what the
-- WebSocket library answers comes with the call.
use mediasink.Prelude.{
  ℕ, Bool, true, false, Option, none, some, List, [], ◌∷◌, if◌then◌else◌, nat_keys, bytes_keys,
  Bytes,
}

pub record HostConfig : Type 0 where
  pub write_timeout : ℕ
  pub read_timout : ℕ
  pub connect_retry : Bool

-- `session` holds `cancel`, if it is set, as whether the context is done.
pub record Host : Type 0 where
  pub addr : Bytes
  pub port : ℕ
  pub server : Option ℕ
  pub config : HostConfig
  pub has_handler : Bool
  pub session : Option Bool

unfoldable pub new_host : Bytes → ℕ → HostConfig → Bool → Host
new_host addr port config has_handler = record {
  addr = addr;
  port = port;
  server = none;
  config = config;
  has_handler = has_handler;
  session = none;
}

unfoldable pub set_session : Bool → Host → Host
set_session parent_done h = record h { session = some parent_done }

unfoldable pub set_server : Option ℕ → Host → Host
set_server conn h = record h { server = conn }

abbrev pub is_done : Host → Bool
is_done h = elim h.session [ none ↦ false | some done ↦ done ]

unfoldable pub end_session : Host → Host
end_session h = record h { session = elim h.session [ none ↦ none | some done ↦ some true ] }

unfoldable pub close_host : Host → Host
unfolding end_session
close_host h = record (end_session h) { server = none }

-- What a send comes to: an error, a panic of the nil connection, or a message on a connection.
pub data Sent : Type 0 where
  send_failed panic : Sent
  sent : ℕ → Bytes → Sent

unfoldable pub send : ℕ → Bytes → Bool → Sent
send conn msg written = if written then sent conn msg else send_failed

-- The bytes of the packet, if Marshal gives them.
unfoldable pub write_rtp : Option Bytes → Bool → Host → Sent
unfolding send
write_rtp none written h = send_failed
write_rtp (some msg) written h = elim h.server [
  | none ↦ send_failed
  | some conn ↦ send conn msg written
]

unfoldable pub write : Bytes → Bool → Host → Sent
unfolding send
write msg written h = elim h.server [ none ↦ panic | some conn ↦ send conn msg written ]

-- Whether the message came to the source: there has to be a handler.
unfoldable pub send_to_source : Bytes → Host → List Bytes
send_to_source msg h = if h.has_handler then msg ∷ [] else []

-- The handler may be nil.
unfoldable pub set_on_payload_callback : Bool → Host → Host
set_on_payload_callback has_f h = record h { has_handler = has_f }
