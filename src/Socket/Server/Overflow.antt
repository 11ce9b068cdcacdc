-- ===== src/Socket/Server/Overflow.antt =====
-- Where the test of the limit in pkg/socket/server.go overflows.
use mediasink.Prelude.{
  ℕ, ◌+◌, ◌≡◌, sym, ap, ◌∙◌, ◌⊎◌, inl, inr, Option, some, List, arith, nat_keys, bytes_keys, Bytes,
  lookup, lookup-insert_self,
}
use mediasink.Socket.Server.State.{Config, uint8}
use mediasink.Socket.Server.Requests.{
  refused_as_host, counting, Machine, Move, advance, upgrade_limit, ws_handler, start_machine, step,
  run,
}
use mediasink.Socket.Server.Accounting.{weights, IsAccounted, run-start_machine-IsAccounted}

passes :
    (config : Config) (m : Machine) (r : ℕ) (accept : Option ℕ) (id : Bytes)
    → IsAccounted config m
    → (config.total_connections ≡ 255) ⊎ (uint8 (weights m.requests + m.departed) ≡ 255)
    → lookup r m.requests ≡ some refused_as_host
    → lookup r (step m (advance r accept id)).requests ≡ some counting
unfolding step ws_handler upgrade_limit
passes config m r accept id h (inl widest) here = ground (
  arith,
  widest,
  ap (λ (c : Config). c.total_connections) h.same_config,
  lookup-insert_self r counting m.requests,
)
passes config m r accept id h (inr full) here =
    ground (arith, full, h.active, lookup-insert_self r counting m.requests)

-- In every interleaving of requests, with a limit of 255 or while the count of active connections
-- stands at 255, a request that comes to the test of the limit passes it, however many clients there
-- are.
pub limit_wraps :
    (config : Config) (vs : List Move) (r : ℕ) (accept : Option ℕ) (id : Bytes)
    → (config.total_connections ≡ 255)
      ⊎ ((run (start_machine config) vs).server.metrics.active_connections ≡ 255)
    → lookup r (run (start_machine config) vs).requests ≡ some refused_as_host
    → lookup r (step (run (start_machine config) vs) (advance r accept id)).requests ≡ some counting
limit_wraps config vs r accept id at_limit here =
    let h = run-start_machine-IsAccounted config vs in
    passes config (run (start_machine config) vs) r accept id h
      (elim at_limit [ inl widest ↦ inl widest | inr full ↦ inr (sym h.active ∙ full) ]) here
