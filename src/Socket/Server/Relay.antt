-- ===== src/Socket/Server/Relay.antt =====
-- How pkg/socket/server.go passes messages on: sendAllClients, sendHost, read, and the loops of
-- hostHandler and clientHandler. Other requests go on beside a loop: what they do
-- to the server is part of each round, with what the connections answer. The sends of one message are
-- made to the connections that were in the table when it came; whether a write of it goes well is a
-- function of the connection.
use mediasink.Prelude.{
  ℕ, Bool, true, false, none, some, List, [], ◌∷◌, ◌++◌, map, if◌then◌else◌, nat_keys, bytes_keys,
  length, Bytes, Map, lookup,
}
use mediasink.Socket.Server.State.{add_data_sent, add_data_recvd, Server, is_done, remove_client}

-- The result of a send to several connections: who got the message, and whether no error came.
pub record Sent : Type 0 where
  pub server : Server
  pub delivered : List ℕ
  pub succeeded : Bool

abbrev pub counted : ℕ → Server → Server
counted len s = record s { metrics = add_data_sent len s.metrics }

-- The loop over the list of clients stops at the first error.
unfoldable pub send_each : (ℕ → Bool) → Bytes → List ℕ → Server → Sent
unfolding add_data_sent
send_each writes msg [] s = record { server = s; delivered = []; succeeded = true }
send_each writes msg (conn ∷ conns) s =
    let rest = send_each writes msg conns (counted (length msg) s) in
    if writes conn
    then record rest { delivered = conn ∷ rest.delivered }
    else record { server = s; delivered = []; succeeded = false }

abbrev pub connections : Map Bytes ℕ → List ℕ
connections = map (λ entry. entry.1)

unfoldable pub send_all_clients : (ℕ → Bool) → Bytes → Server → Sent
unfolding send_each
send_all_clients writes msg s = elim (connections s.clients) [
  | [] ↦ record { server = s; delivered = []; succeeded = false }
  | c ∷ cs ↦ send_each writes msg (c ∷ cs) s
]

unfoldable pub send_host : (ℕ → Bool) → Bytes → Server → Sent
unfolding send_each
send_host writes msg s = elim s.host [
  | none ↦ record { server = s; delivered = []; succeeded = false }
  | some host ↦ send_each writes msg (host ∷ []) s
]

pub data MessageType : Type 0 where
  message_text message_binary : MessageType

abbrev pub Message : Type 0
Message = MessageType × Bytes

-- What Read of a connection answers: a message, a deadline that has passed, another error.
pub data Read : Type 0 where
  message : Message → Read
  deadline_exceeded broken : Read

-- A round of a loop: what other requests and Close do to the server while the loop waits for its read
-- (a change of the order of a range is one of these things), what the read answers, and which writes go
-- well behind it.
pub record Round : Type 0 where
  pub meanwhile : Server → Server
  pub answer : Read
  pub writes : ℕ → Bool

abbrev pub received : Bytes → Server → Server
received msg s = record s { metrics = add_data_recvd (length msg) s.metrics }

-- readHost and readClient, for a connection that would answer `r`.
unfoldable pub read_host : Read → Server → Read
read_host r s = elim s.host [ none ↦ broken | some conn ↦ r ]

unfoldable pub read_client : Bytes → Read → Server → Read
read_client id r s = elim (lookup id s.clients) [ none ↦ broken | some conn ↦ r ]

abbrev pub to_each : Message → List ℕ → List (ℕ × Message)
to_each msg = map (λ conn. (conn, msg))

-- The loop of hostHandler: what it has sent to whom, as long as the rounds go on.
unfoldable pub host_handler : List Round → Server → Server × List (ℕ × Message)
unfolding send_all_clients add_data_recvd read_host
host_handler [] s = (s, [])
host_handler (r ∷ rounds) s = elim (is_done s) [
  | true ↦ (s, [])
  | false ↦ (elim (read_host r.answer s) [
    | broken ↦ (r.meanwhile s, [])
    | deadline_exceeded ↦ host_handler rounds (r.meanwhile s)
    | message msg ↦
        let sent = send_all_clients r.writes msg.1 (received msg.1 (r.meanwhile s)) in
        let rest = host_handler rounds sent.server in (rest.0, to_each msg sent.delivered ++ rest.1)
  ])
]

-- The loop of clientHandler.
unfoldable pub client_loop : Bytes → List Round → Server → Server × List (ℕ × Message)
unfolding send_host add_data_recvd read_client
client_loop id [] s = (s, [])
client_loop id (r ∷ rounds) s = elim (is_done s) [
  | true ↦ (s, [])
  | false ↦ (elim (read_client id r.answer s) [
    | broken ↦ (r.meanwhile s, [])
    | deadline_exceeded ↦ client_loop id rounds (r.meanwhile s)
    | message msg ↦
        let sent = send_host r.writes msg.1 (received msg.1 (r.meanwhile s)) in
        let rest = client_loop id rounds sent.server in
        (rest.0, to_each msg sent.delivered ++ rest.1)
  ])
]

-- Behind the loop the client leaves the table.
unfoldable pub client_handler : Bytes → List Round → Server → Server × List (ℕ × Message)
unfolding client_loop remove_client
client_handler id rounds s =
    let (t, passed) = client_loop id rounds s in (remove_client id t, passed)
