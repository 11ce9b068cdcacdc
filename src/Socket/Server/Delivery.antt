-- ===== src/Socket/Server/Delivery.antt =====
-- What gets through pkg/socket/server.go, to whom, and in which order.
use mediasink.Prelude.{
  ℕ, ◌+◌, ◌*◌, ◌^◌, ◌<◌, ◌≡◌, refl, ◌∙◌, ◌⊎◌, inl, inr, Bool, true, ◌&&◌, List, [], ◌∷◌, arith, ltb,
  if◌then◌else◌, nat_keys, bytes_keys, Bool-cases, length, Bytes, Map,
}
use mediasink.Socket.Server.State.{int64, add_data_sent, Server}
use mediasink.Socket.Server.Relay.{counted, send_each, connections, send_all_clients}

unfoldable pub take_while : (ℕ → Bool) → List ℕ → List ℕ
take_while p [] = []
take_while p (x ∷ xs) = let rest = take_while p xs in if p x then x ∷ rest else []

unfoldable pub all_of : (ℕ → Bool) → List ℕ → Bool
all_of p [] = true
all_of p (x ∷ xs) = p x && all_of p xs

pub send_each-delivered :
    (writes : ℕ → Bool) (msg : Bytes) (conns : List ℕ) (s : Server)
    → let r = send_each writes msg conns s in
      (r.delivered ≡ take_while writes conns) × (r.succeeded ≡ all_of writes conns)
unfolding send_each take_while all_of
send_each-delivered writes msg [] s = (refl, refl)
send_each-delivered writes msg (c ∷ cs) s =
    ground (arith, send_each-delivered writes msg cs (counted (length msg) s))

send_each-counts :
    (writes : ℕ → Bool) (msg : Bytes) (conns : List ℕ) (s : Server)
    → s.metrics.total_data_sent < 2 ^ 64
    → let r = send_each writes msg conns s in
      r.server.metrics.total_data_sent
      ≡ int64 (s.metrics.total_data_sent + length r.delivered * length msg)
unfolding send_each add_data_sent
send_each-counts writes msg [] s h = ground arith
send_each-counts writes msg (c ∷ cs) s h =
    let later =
      send_each-counts writes msg cs (counted (length msg) s)
        (unfold add_data_sent in omega arith) in
    elim (Bool-cases (writes c)) [
      | inl accepted ↦ rw accepted (unfold add_data_sent in omega (arith, later))
      | inr refused ↦ rw refused (omega arith)
    ]

pub send_each_keeps :
    (writes : ℕ → Bool) (msg : Bytes) (conns : List ℕ) (s : Server)
    → let r = send_each writes msg conns s in
      (r.server.clients ≡ s.clients) × (r.server.host ≡ s.host) × (r.server.session ≡ s.session)
unfolding send_each
send_each_keeps writes msg [] s = (refl, refl, refl)
send_each_keeps writes msg (c ∷ cs) s =
    ground (arith, send_each_keeps writes msg cs (counted (length msg) s))

entries-cases :
    (m : Map Bytes ℕ)
    → (m ≡ []) ⊎ ((k : Bytes) × (c : ℕ) × (rest : Map Bytes ℕ) × (m ≡ (k, c) ∷ rest))
entries-cases [] = inl refl
entries-cases ((k, c) ∷ rest) = inr (k, c, rest, refl)

-- A message of the host reaches the clients in the order of the range up to the first whose write
-- fails, and none behind it. The send succeeds exactly if there are clients and every write did,
-- and the bytes of each delivery are counted.
pub send_all_clients_lem :
    (writes : ℕ → Bool) (msg : Bytes) (s : Server)
    → s.metrics.total_data_sent < 2 ^ 64
    → let r = send_all_clients writes msg s in
      (r.delivered ≡ take_while writes (connections s.clients))
      × (r.succeeded ≡ (ltb 0 (length s.clients) && all_of writes (connections s.clients)))
      × (r.server.metrics.total_data_sent
          ≡ int64 (s.metrics.total_data_sent + length r.delivered * length msg))
      × (r.server.clients ≡ s.clients)
unfolding send_all_clients take_while all_of
send_all_clients_lem writes msg s h = elim (entries-cases s.clients) [
  | inl empty ↦ rw (empty, send_all_clients) (refl, refl, omega arith, empty)
  | inr (k, c, rest, e) ↦
      let d = send_each-delivered writes msg (c ∷ connections rest) s in
      rw (e, send_all_clients)
        (
          d.0,
          d.1 ∙ ground arith,
          send_each-counts writes msg (c ∷ connections rest) s h,
          (send_each_keeps writes msg (c ∷ connections rest) s).0 ∙ e,
        )
]

pub send_all_clients-delivered :
    (writes : ℕ → Bool) (msg : Bytes) (s : Server)
    → let r = send_all_clients writes msg s in
      (r.delivered ≡ take_while writes (connections s.clients))
      × (r.server.clients ≡ s.clients)
      × (r.server.session ≡ s.session)
      × (r.server.host ≡ s.host)
unfolding send_all_clients take_while
send_all_clients-delivered writes msg s = elim (entries-cases s.clients) [
  | inl empty ↦ rw (empty, send_all_clients) (refl, empty, refl, refl)
  | inr (k, c, rest, e) ↦
      let d = send_each-delivered writes msg (c ∷ connections rest) s in
      let keep = send_each_keeps writes msg (c ∷ connections rest) s in
      rw (e, send_all_clients) (d.0, keep.0 ∙ e, keep.2, keep.1)
]
