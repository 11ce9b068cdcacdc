-- ===== src/Socket/Server/Upstream.antt =====
-- What pkg/socket/server.go passes on from a client to the host.
use mediasink.Prelude.{
  ℕ, ◌≡◌, refl, true, subst, lookup-erase, ==_refl, ap, ◌∙◌, inl, inr, Bool, false, Option, none,
  some, List, [], ◌∷◌, ◌++◌, map, arith, nat_keys, bytes_keys, Option-cases, Bytes, Map, lookup,
}
use mediasink.Socket.Server.State.{add_data_sent, Server, is_done, remove_client}
use mediasink.Socket.Server.Relay.{
  send_each, send_host, Read, message, deadline_exceeded, broken, received, client_handler,
  client_loop, read_client, Round, Message, to_each,
}
use mediasink.Socket.Server.Broadcast.{heard}
use mediasink.Socket.Server.Delivery.{take_while, send_each-delivered, send_each_keeps}

-- A host or none, as a list of connections.
abbrev pub conns_of : Option ℕ → List ℕ
conns_of none = []
conns_of (some c) = c ∷ []

send_host-delivered :
    (writes : ℕ → Bool) (msg : Bytes) (s : Server)
    → let r = send_host writes msg s in
      (r.delivered ≡ take_while writes (conns_of s.host))
      × (r.server.host ≡ s.host)
      × (r.server.session ≡ s.session)
      × (r.server.metrics.total_data_recvd ≡ s.metrics.total_data_recvd)
      × (r.server.clients ≡ s.clients)
unfolding send_host take_while
send_host-delivered writes msg s = elim (Option-cases s.host) [
  | inl absent ↦ rw (absent, send_host) (refl, absent, refl, refl, refl)
  | inr (c, e) ↦
      let d = send_each-delivered writes msg (c ∷ []) s in
      let keep = send_each_keeps writes msg (c ∷ []) s in
      let recvd : (send_each writes msg (c ∷ []) s).server.metrics.total_data_recvd
          ≡ s.metrics.total_data_recvd =
        unfold send_each add_data_sent in ground arith in
      rw (e, send_host) (d.0, keep.1 ∙ e, keep.2, recvd, keep.0)
]

read_client_found :
    (id : Bytes) (c : ℕ) (r : Read) (s : Server)
    → lookup id s.clients ≡ some c
    → read_client id r s ≡ r
unfolding read_client
read_client_found id c r s found = rw (found, read_client) refl

-- The context lasts, the client is in the table, and the host is there.
abbrev pub IsRelaying : ℕ → Bytes → ℕ → Server → Type 0
IsRelaying host id c s = (is_done s ≡ false) × (lookup id s.clients ≡ some c) × (s.host ≡ some host)

-- What a round leaves of the server.
unfoldable pub after_relay : Round → Server → Server
unfolding send_host
after_relay r s = elim r.answer [
  | message msg ↦ (send_host r.writes msg.1 (received msg.1 (r.meanwhile s))).server
  | _ ↦ r.meanwhile s
]

-- This stays so in each round, whatever else is done meanwhile, and the write to the host goes well.
unfoldable pub StaysRelaying : ℕ → Bytes → ℕ → List Round → Server → Type 0
StaysRelaying host id c [] s = Unit
StaysRelaying host id c (r ∷ rounds) s =
    IsRelaying host id c (r.meanwhile s)
    × (r.writes host ≡ true)
    × StaysRelaying host id c rounds (after_relay r s)

send-IsRelaying :
    (host : ℕ) (id : Bytes) (c : ℕ) (writes : ℕ → Bool) (msg : Bytes) (s : Server)
    → IsRelaying host id c s
    → IsRelaying host id c (send_host writes msg (received msg s)).server
send-IsRelaying host id c writes msg s (on, there, at) =
    let (d, same, session, recvd, clients) = send_host-delivered writes msg (received msg s) in
    (ground (arith, session, on), ap (λ (m : Map Bytes ℕ). lookup id m) clients ∙ there, same ∙ at)

take_one :
    (writes : ℕ → Bool) (host : ℕ) → writes host ≡ true → take_while writes (host ∷ []) ≡ host ∷ []
unfolding take_while
take_one writes host well = rw well refl

delivers :
    (host : ℕ) (writes : ℕ → Bool) (msg : Bytes) (s : Server)
    → s.host ≡ some host
    → writes host ≡ true
    → (send_host writes msg (received msg s)).delivered ≡ host ∷ []
delivers host writes msg s at well =
    (send_host-delivered writes msg (received msg s)).0
    ∙ ap (λ (o : Option ℕ). take_while writes (conns_of o)) at
    ∙ take_one writes host well

-- A round, with what the later rounds come to.
round_relays :
    (host : ℕ) (id : Bytes) (c : ℕ) (r : Round) (rounds : List Round) (s : Server) (answer : Read)
    → r.answer ≡ answer
    → is_done s ≡ false
    → lookup id s.clients ≡ some c
    → IsRelaying host id c (r.meanwhile s)
    → r.writes host ≡ true
    → ((u : Server)
        → after_relay r s ≡ u
        → IsRelaying host id c u
        → (client_loop id rounds u).1 ≡ map (λ msg. (host, msg)) (heard rounds))
    → (client_loop id (r ∷ rounds) s).1 ≡ map (λ msg. (host, msg)) (heard (r ∷ rounds))
unfolding client_loop heard after_relay
round_relays host id c r rounds s broken e on there still well rest =
    rw (on, client_loop, read_client_found id c r.answer s there, e) refl
round_relays host id c r rounds s deadline_exceeded e on there still well rest =
    rw (on, client_loop, read_client_found id c r.answer s there, e)
      (rest (r.meanwhile s) (rw (e, after_relay) refl) still)
round_relays host id c r rounds s (message msg) e on there still well rest =
    let t = r.meanwhile s in
    let sent = send_host r.writes msg.1 (received msg.1 t) in
    let later = (client_loop id rounds sent.server).1 in
    rw (on, client_loop, read_client_found id c r.answer s there, e)
      (ap (λ (conns : List ℕ). to_each msg conns ++ later)
          (delivers host r.writes msg.1 t still.2 well)
        ∙ ap (λ (xs : List (ℕ × Message)). (host, msg) ∷ xs)
            (rest sent.server (rw (e, after_relay) refl)
              (send-IsRelaying host id c r.writes msg.1 t still)))

client_loop_relays :
    (host : ℕ) (id : Bytes) (c : ℕ) (rounds : List Round) (s : Server)
    → IsRelaying host id c s
    → StaysRelaying host id c rounds s
    → (client_loop id rounds s).1 ≡ map (λ msg. (host, msg)) (heard rounds)
unfolding client_loop heard StaysRelaying
client_loop_relays host id c [] s at stays = refl
client_loop_relays host id c (r ∷ rounds) s (on, there, at) (still, well, later) =
    round_relays host id c r rounds s r.answer refl on there still well (λ u same reached.
      client_loop_relays host id c rounds u reached
        (subst (StaysRelaying host id c rounds) same later))

-- The handler of a client that stays in the table passes every message that it reads before the first
-- error on to the host, once each and in their order, and sends nothing else, if the context lasts, the
-- host stays in its place, and the writes to it go well, whatever other requests do to the server
-- beside it; behind it the client is not in the table.
pub client_handler_relays :
    (host : ℕ) (id : Bytes) (c : ℕ) (rounds : List Round) (s : Server)
    → IsRelaying host id c s
    → StaysRelaying host id c rounds s
    → let r = client_handler id rounds s in
      (r.1 ≡ map (λ msg. (host, msg)) (heard rounds)) × (lookup id r.0.clients ≡ none)
unfolding client_handler remove_client
client_handler_relays host id c rounds s at stays =
    let end = (client_loop id rounds s).0 in
    (
      client_loop_relays host id c rounds s at stays,
      lookup-erase id id end.clients ∙ rw (==_refl id) refl,
    )
