-- ===== src/Socket/Server/Broadcast.antt =====
-- What the host's loop in pkg/socket/server.go brings to one client, with other requests beside it.
use mediasink.Prelude.{
  ℕ, suc, ◌==◌, ap, ◌≡◌, refl, subst, ◌∙◌, inl, inr, Bool, true, false, some, List, [], ◌∷◌, ◌++◌,
  arith, if◌then◌else◌, nat_keys, bytes_keys, Bool-cases, Bytes, Map,
}
use mediasink.Socket.Server.State.{Server, is_done}
use mediasink.Socket.Server.Relay.{
  connections, send_all_clients, Read, message, deadline_exceeded, broken, received, host_handler,
  read_host, Round, Message, to_each,
}
use mediasink.Socket.Server.Delivery.{take_while, send_all_clients-delivered}

-- The messages before the first error; a deadline that passes loses none.
unfoldable pub heard : List Round → List Message
heard [] = []
heard (r ∷ rounds) = elim r.answer [
  | broken ↦ []
  | deadline_exceeded ↦ heard rounds
  | message msg ↦ msg ∷ heard rounds
]

-- The messages that a connection gets.
unfoldable pub messages_to : ℕ → List (ℕ × Message) → List Message
messages_to c [] = []
messages_to c ((conn, msg) ∷ sent) =
    let rest = messages_to c sent in if conn == c then msg ∷ rest else rest

-- How often a connection stands in a list.
unfoldable pub occurs : ℕ → List ℕ → ℕ
occurs c [] = 0
occurs c (conn ∷ conns) = if conn == c then suc (occurs c conns) else occurs c conns

messages_to-append :
    (c : ℕ) (xs ys : List (ℕ × Message))
    → messages_to c (xs ++ ys) ≡ messages_to c xs ++ messages_to c ys
unfolding messages_to
messages_to-append c [] ys = refl
messages_to-append c ((conn, msg) ∷ xs) ys = elim (Bool-cases (conn == c)) [
  | inl same ↦ rw same (ap (λ (r : List Message). msg ∷ r) (messages_to-append c xs ys))
  | inr other ↦ rw other (messages_to-append c xs ys)
]

messages_to-none :
    (c : ℕ) (msg : Message) (conns : List ℕ)
    → occurs c conns ≡ 0
    → messages_to c (to_each msg conns) ≡ []
unfolding messages_to occurs
messages_to-none c msg [] h = refl
messages_to-none c msg (conn ∷ conns) h = elim (Bool-cases (conn == c)) [
  | inl same ↦ ground (arith, h, same)
  | inr other ↦ rw other (messages_to-none c msg conns (ground (arith, h, other)))
]

messages_to-once :
    (c : ℕ) (msg : Message) (conns : List ℕ)
    → occurs c conns ≡ 1
    → messages_to c (to_each msg conns) ≡ msg ∷ []
unfolding messages_to occurs
messages_to-once c msg [] h = ground (arith, h)
messages_to-once c msg (conn ∷ conns) h = elim (Bool-cases (conn == c)) [
  | inl same ↦
      rw same (
        ap (λ (r : List Message). msg ∷ r) (messages_to-none c msg conns (ground (arith, h, same))))
  | inr other ↦ rw other (messages_to-once c msg conns (ground (arith, h, other)))
]

take_while-all :
    (writes : ℕ → Bool) (conns : List ℕ)
    → ((conn : ℕ) → writes conn ≡ true)
    → take_while writes conns ≡ conns
unfolding take_while
take_while-all writes [] h = refl
take_while-all writes (conn ∷ conns) h =
    rw (h conn) (ap (λ (r : List ℕ). conn ∷ r) (take_while-all writes conns h))

read_host_found : (c : ℕ) (r : Read) (s : Server) → s.host ≡ some c → read_host r s ≡ r
unfolding read_host
read_host_found c r s found = rw (found, read_host) refl

-- The context lasts, the host is there, and the connection of a client stands once in the table.
abbrev pub IsReachable : ℕ → ℕ → Server → Type 0
IsReachable host c s =
    (is_done s ≡ false) × (s.host ≡ some host) × (occurs c (connections s.clients) ≡ 1)

-- What a round leaves of the server.
unfoldable pub after_round : Round → Server → Server
unfolding send_all_clients
after_round r s = elim r.answer [
  | message msg ↦ (send_all_clients r.writes msg.1 (received msg.1 (r.meanwhile s))).server
  | _ ↦ r.meanwhile s
]

-- This stays so in each round, whatever else is done meanwhile, and every write goes well.
unfoldable pub StaysReachable : ℕ → ℕ → List Round → Server → Type 0
StaysReachable host c [] s = Unit
StaysReachable host c (r ∷ rounds) s =
    IsReachable host c (r.meanwhile s)
    × ((conn : ℕ) → r.writes conn ≡ true)
    × StaysReachable host c rounds (after_round r s)

send-IsReachable :
    (host c : ℕ) (writes : ℕ → Bool) (msg : Bytes) (s : Server)
    → IsReachable host c s
    → IsReachable host c (send_all_clients writes msg (received msg s)).server
send-IsReachable host c writes msg s (on, there, once) =
    let (d, clients, session, same) = send_all_clients-delivered writes msg (received msg s) in
    (
      ground (arith, session, on),
      same ∙ there,
      ap (λ (m : Map Bytes ℕ). occurs c (connections m)) clients ∙ once,
    )

-- A round, with what the later rounds come to.
round_reaches :
    (host c : ℕ) (r : Round) (rounds : List Round) (s : Server) (answer : Read)
    → r.answer ≡ answer
    → is_done s ≡ false
    → s.host ≡ some host
    → IsReachable host c (r.meanwhile s)
    → ((conn : ℕ) → r.writes conn ≡ true)
    → ((u : Server)
        → after_round r s ≡ u
        → IsReachable host c u
        → messages_to c (host_handler rounds u).1 ≡ heard rounds)
    → messages_to c (host_handler (r ∷ rounds) s).1 ≡ heard (r ∷ rounds)
unfolding host_handler heard messages_to after_round
round_reaches host c r rounds s broken e on there still well rest =
    rw (on, host_handler, read_host_found host r.answer s there, e) refl
round_reaches host c r rounds s deadline_exceeded e on there still well rest =
    rw (on, host_handler, read_host_found host r.answer s there, e)
      (rest (r.meanwhile s) (rw (e, after_round) refl) still)
round_reaches host c r rounds s (message msg) e on there still well rest =
    let t = r.meanwhile s in
    let sent = send_all_clients r.writes msg.1 (received msg.1 t) in
    let later = (host_handler rounds sent.server).1 in
    let d =
      (send_all_clients-delivered r.writes msg.1 (received msg.1 t)).0
      ∙ take_while-all r.writes (connections t.clients) well in
    rw (on, host_handler, read_host_found host r.answer s there, e)
      (messages_to-append c (to_each msg sent.delivered) later
        ∙ ap (λ (conns : List ℕ). messages_to c (to_each msg conns) ++ messages_to c later) d
        ∙ ap (λ (xs : List Message). xs ++ messages_to c later)
            (messages_to-once c msg (connections t.clients) still.2)
        ∙ ap (λ (xs : List Message). msg ∷ xs)
            (rest sent.server (rw (e, after_round) refl)
              (send-IsReachable host c r.writes msg.1 t still)))

-- A client whose connection stands once in the table whenever a message of the host comes gets every
-- message that the host's loop reads before the first error, once each and in their order, if the
-- context lasts, the host stays in its place, and the writes go well; other clients may come and go,
-- and the order of the range may change.
pub host_handler_broadcasts :
    (host c : ℕ) (rounds : List Round) (s : Server)
    → IsReachable host c s
    → StaysReachable host c rounds s
    → messages_to c (host_handler rounds s).1 ≡ heard rounds
unfolding host_handler heard messages_to StaysReachable
host_handler_broadcasts host c [] s at calm = refl
host_handler_broadcasts host c (r ∷ rounds) s (on, there, once) (still, well, later) =
    round_reaches host c r rounds s r.answer refl on there still well (λ u same reached.
      host_handler_broadcasts host c rounds u reached
        (subst (StaysReachable host c rounds) same later))
