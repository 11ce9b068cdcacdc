-- ===== src/Socket/Server/Accounting.antt =====
-- What the count of active connections in pkg/socket/server.go counts.
use mediasink.Prelude.{
  ℕ, ◌+◌, ◌≤◌, ◌<◌, ◌≡◌, refl, sym, ap, ◌∙◌, inl, inr, Option, none, some, List, [], ◌∷◌, arith,
  nat_keys, bytes_keys, Option-cases, Bytes, Map, lookup, insert, lookup-insert_self,
}
use mediasink.Socket.Server.State.{
  Config, uint8, increase_active_connections, decrease_active_connections,
  increase_failed_connections, Server, new_server, set_host, add_client, remove_client,
}
use mediasink.Socket.Server.Requests.{
  Place, arrived, upgrading_host, serving_host, refused_as_host, counting, upgrading_client,
  serving_client, finished, Machine, Move, arrive, advance, ws_handler, leaves, start_machine, step,
  run,
}

-- How often a request has been counted and not uncounted.
abbrev pub weight : Place → ℕ
weight upgrading_client = 1
weight (serving_client c) = 2
weight _ = 0

unfoldable pub weights : Map ℕ Place → ℕ
weights [] = 0
weights ((r, p) ∷ m) = weight p + weights m

weights-insert_new :
    (r : ℕ) (q : Place) (m : Map ℕ Place)
    → lookup r m ≡ none
    → weights (insert r q m) ≡ weights m + weight q
unfolding weights lookup insert
weights-insert_new r q [] e = omega arith
weights-insert_new r q ((k, p) ∷ m) e = ground (arith, weights-insert_new r q m)

weights-insert :
    (r : ℕ) (p q : Place) (m : Map ℕ Place)
    → lookup r m ≡ some p
    → weights (insert r q m) + weight p ≡ weights m + weight q
unfolding weights lookup insert
weights-insert r p q [] e = cc
weights-insert r p q ((k, w) ∷ m) e = ground (arith, weights-insert r p q m)

-- The count is twice the clients that are served, and one for each that is being upgraded, and one
-- for each that has ever left.
pub record IsAccounted (config : Config) (m : Machine) : Type 0 where
  pub same_config : m.server.config ≡ config
  pub active : m.server.metrics.active_connections ≡ uint8 (weights m.requests + m.departed)

start_machine-IsAccounted : (config : Config) → IsAccounted config (start_machine config)
unfolding new_server weights
start_machine-IsAccounted config = record { same_config = refl; active = refl }

ws_handler-active :
    (p : Place) (accept : Option ℕ) (id : Bytes) (s : Server) (others departed : ℕ)
    → s.metrics.active_connections ≡ uint8 (weight p + others + departed)
    → let (t, q) = ws_handler p accept id s in
      (t.config ≡ s.config)
      × (t.metrics.active_connections ≡ uint8 (weight q + others + (departed + leaves p)))
unfolding ws_handler set_host add_client remove_client increase_active_connections
    decrease_active_connections increase_failed_connections
ws_handler-active (arrived addr) accept id s others departed h = ground arith
ws_handler-active upgrading_host none id s others departed h = ground arith
ws_handler-active upgrading_host (some conn) id s others departed h = ground arith
ws_handler-active (serving_host conn) accept id s others departed h = ground arith
ws_handler-active refused_as_host accept id s others departed h = ground arith
ws_handler-active counting accept id s others departed h = ground arith
ws_handler-active upgrading_client none id s others departed h = ground arith
ws_handler-active upgrading_client (some conn) id s others departed h = ground arith
ws_handler-active (serving_client c) accept id s others departed h = ground arith
ws_handler-active finished accept id s others departed h = ground arith

-- The weights of the requests but one.
weights-split :
    (r : ℕ) (p : Place) (m : Map ℕ Place)
    → lookup r m ≡ some p
    → (others : ℕ) × (weights m ≡ weight p + others)
      × ((q : Place) → weights (insert r q m) ≡ weight q + others)
weights-split r p m e = (
  weights (insert r finished m),
  omega (arith, weights-insert r p finished m e),
  λ q. omega (arith, weights-insert r p q m e, weights-insert r p finished m e),
)

step-IsAccounted :
    (config : Config) (m : Machine) (v : Move)
    → IsAccounted config m
    → IsAccounted config (step m v)
unfolding step
step-IsAccounted config m (arrive r addr) h = elim (Option-cases (lookup r m.requests)) [
  | inl new ↦
      rw (new, step)
        (record {
          same_config = h.same_config;
          active =
              h.active
              ∙ ap (λ (n : ℕ). uint8 (n + m.departed))
                  (omega (arith, weights-insert_new r (arrived addr) m.requests new));
        })
  | inr (p, old) ↦ rw (old, step) h
]
step-IsAccounted config m (advance r accept id) h = elim (Option-cases (lookup r m.requests)) [
  | inl gone ↦ rw (gone, step) h
  | inr (p, here) ↦
      let (others, before, after) = weights-split r p m.requests here in
      let moved =
        ws_handler-active p accept id m.server others m.departed
          (h.active ∙ ap (λ (n : ℕ). uint8 (n + m.departed)) before) in
      rw (here, step)
        (record {
          same_config = moved.0 ∙ h.same_config;
          active =
              moved.1
              ∙ ap (λ (n : ℕ). uint8 (n + (m.departed + leaves p)))
                  (sym (after (ws_handler p accept id m.server).1));
        })
]

run-IsAccounted :
    (config : Config) (vs : List Move) (m : Machine)
    → IsAccounted config m
    → IsAccounted config (run m vs)
unfolding run
run-IsAccounted config [] m h = h
run-IsAccounted config (v ∷ vs) m h =
    run-IsAccounted config vs (step m v) (step-IsAccounted config m v h)

-- In every interleaving of requests, the count of active connections is, modulo 256, twice the
-- clients that are served, one for each that is being upgraded, and one for each that has ever
-- left: a client is counted twice and uncounted once.
pub run-start_machine-IsAccounted :
    (config : Config) (vs : List Move) → IsAccounted config (run (start_machine config) vs)
run-start_machine-IsAccounted config vs =
    run-IsAccounted config vs _ (start_machine-IsAccounted config)

refused-step :
    (config : Config) (m : Machine) (r : ℕ) (accept : Option ℕ) (id : Bytes)
    → IsAccounted config m
    → weights m.requests ≡ 0
    → config.total_connections ≤ m.departed
    → m.departed < 255
    → lookup r m.requests ≡ some refused_as_host
    → let t = step m (advance r accept id) in
      (lookup r t.requests ≡ some finished) × (t.server.clients ≡ m.server.clients)
unfolding step ws_handler
refused-step config m r accept id h idle used few here = ground (
  arith,
  ap (λ (c : Config). c.total_connections) h.same_config,
  lookup-insert_self r finished m.requests,
)

-- So while fewer than 255 clients have ever left, a server that has served as many clients as it allows
-- at once turns the next one away that comes to the test of the limit, though no client is connected or
-- being upgraded.
pub idle_server_refuses :
    (config : Config) (vs : List Move) (r : ℕ) (accept : Option ℕ) (id : Bytes)
    → let m = run (start_machine config) vs in
      weights m.requests ≡ 0
      → config.total_connections ≤ m.departed
      → m.departed < 255
      → lookup r m.requests ≡ some refused_as_host
      → let t = step m (advance r accept id) in
        (lookup r t.requests ≡ some finished) × (t.server.clients ≡ m.server.clients)
idle_server_refuses config vs r accept id idle used few here =
    refused-step config _ r accept id (run-start_machine-IsAccounted config vs) idle used few here
