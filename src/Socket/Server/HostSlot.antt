-- ===== src/Socket/Server/HostSlot.antt =====
-- Who holds the slot of the host in pkg/socket/server.go.
use mediasink.Prelude.{
  ℕ, ◌≡◌, refl, ap, ◌∙◌, inl, inr, true, false, Bool, not, ◌&&◌, Option, none, some, List, [], ◌∷◌,
  ◌++◌, arith, ◌==◌, nat_keys, bytes_keys, Option-cases, Bytes, lookup, lookup-insert,
  lookup-insert_self,
}
use mediasink.Net.{is_loop_back}
use mediasink.Socket.Server.State.{Server, set_host}
use mediasink.Socket.Server.Requests.{
  Place, arrived, upgrading_host, serving_host, Machine, Move, arrive, advance, ws_handler, step,
  run,
}

-- Whether no move is one of the request's own.
unfoldable pub spares : ℕ → List Move → Bool
spares k [] = true
spares k (arrive x addr ∷ vs) = not (x == k) && spares k vs
spares k (advance x accept id ∷ vs) = not (x == k) && spares k vs

-- A move of one request leaves the place of another.
other_place :
    (k x : ℕ) (accept : Option ℕ) (id : Bytes) (m : Machine)
    → (x == k) ≡ false
    → lookup k (step m (advance x accept id)).requests ≡ lookup k m.requests
unfolding step
other_place k x accept id m other = elim (Option-cases (lookup x m.requests)) [
  | inl gone ↦ rw (gone, step) refl
  | inr (p, here) ↦ rw (here, step, lookup-insert, other) refl
]

lookup-spared :
    (k : ℕ) (vs : List Move) (m : Machine)
    → spares k vs ≡ true
    → lookup k (run m vs).requests ≡ lookup k m.requests
unfolding run step spares
lookup-spared k [] m h = refl
lookup-spared k (arrive x addr ∷ vs) m h =
    lookup-spared k vs (step m (arrive x addr)) (ground (arith, h))
    ∙ (elim (Option-cases (lookup x m.requests)) [
      | inl new ↦
          let other : (x == k) ≡ false = ground (arith, h) in
          rw (new, step, lookup-insert, other) refl
      | inr (p, old) ↦ rw (old, step) refl
    ])
lookup-spared k (advance x accept id ∷ vs) m h =
    lookup-spared k vs (step m (advance x accept id)) (ground (arith, h))
    ∙ other_place k x accept id m (ground (arith, h))

-- A move of a request that is there.
own_move :
    (k : ℕ) (p : Place) (accept : Option ℕ) (id : Bytes) (m : Machine)
    → lookup k m.requests ≡ some p
    → let t = step m (advance k accept id) in
      (t.server ≡ (ws_handler p accept id m.server).0)
      × (lookup k t.requests ≡ some (ws_handler p accept id m.server).1)
unfolding step
own_move k p accept id m here =
    rw (here, step) (refl, lookup-insert_self k (ws_handler p accept id m.server).1 m.requests)

run-append : (vs ws : List Move) (m : Machine) → run m (vs ++ ws) ≡ run (run m vs) ws
unfolding run
run-append [] ws m = refl
run-append (v ∷ vs) ws m = run-append vs ws (step m v)

routes :
    (addr : Bytes) (s : Server)
    → s.host ≡ none
    → is_loop_back addr ≡ true
    → (ws_handler (arrived addr) none [] s).1 ≡ upgrading_host
unfolding ws_handler
routes addr s free local_addr = rw (free, local_addr) refl

-- Both find the slot free, and go on to their upgrades.
both_route :
    (r q : ℕ) (a b : Bytes) (m : Machine)
    → (r == q) ≡ false
    → (q == r) ≡ false
    → m.server.host ≡ none
    → lookup r m.requests ≡ some (arrived a)
    → lookup q m.requests ≡ some (arrived b)
    → is_loop_back a ≡ true
    → is_loop_back b ≡ true
    → let t = step (step m (advance r none [])) (advance q none []) in
      (lookup r t.requests ≡ some upgrading_host) × (lookup q t.requests ≡ some upgrading_host)
unfolding ws_handler
both_route r q a b m rq qr free at_r at_q local_a local_b =
    let u = step m (advance r none []) in
    let (server, here) = own_move r (arrived a) none [] m at_r in
    let (later, there) = own_move q (arrived b) none [] u (other_place q r none [] m rq ∙ at_q) in
    let same : u.server ≡ m.server = server in
    (
      other_place r q none [] u qr ∙ here ∙ ap some (routes a m.server free local_a),
      there ∙ ap some (routes b u.server (ap (λ (s : Server). s.host) same ∙ free) local_b),
    )

-- If two local requests both come to look at the slot of the host while it is free, and the upgrade of
-- the first goes well and that of the second fails behind it, then the slot is empty although the
-- first is still served as the host, whatever moves other requests make in between.
pub host_slot_race :
    (r q conn : ℕ) (a b : Bytes) (others more : List Move) (m : Machine)
    → (r == q) ≡ false
    → (q == r) ≡ false
    → m.server.host ≡ none
    → lookup r m.requests ≡ some (arrived a)
    → lookup q m.requests ≡ some (arrived b)
    → is_loop_back a ≡ true
    → is_loop_back b ≡ true
    → spares r others && spares q others ≡ true
    → spares r more && spares q more ≡ true
    → let looks = advance r none [] ∷ advance q none [] ∷ [] in
      let succeeds = advance r (some conn) [] ∷ [] in
      let fails = advance q none [] ∷ [] in
      let t = run m (looks ++ (others ++ (succeeds ++ (more ++ fails)))) in
      (lookup r t.requests ≡ some (serving_host conn)) × (t.server.host ≡ none)
unfolding run
host_slot_race r q conn a b others more m rq qr free at_r at_q local_a local_b apart apart_more =
    let fails = advance q none [] ∷ [] in
    let succeeds = advance r (some conn) [] ∷ [] in
    let m1 = step (step m (advance r none [])) (advance q none []) in
    let (up_r, up_q) = both_route r q a b m rq qr free at_r at_q local_a local_b in
    let m2 = run m1 others in
    let at_r2 = lookup-spared r others m1 (ground (arith, apart)) ∙ up_r in
    let at_q2 = lookup-spared q others m1 (ground (arith, apart)) ∙ up_q in
    let m3 = step m2 (advance r (some conn) []) in
    let at_r3 = (own_move r upgrading_host (some conn) [] m2 at_r2).1 in
    let at_q3 = other_place q r (some conn) [] m2 rq ∙ at_q2 in
    let m4 = run m3 more in
    let at_r4 = lookup-spared r more m3 (ground (arith, apart_more)) ∙ at_r3 in
    let at_q4 = lookup-spared q more m3 (ground (arith, apart_more)) ∙ at_q3 in
    let (server, _) = own_move q upgrading_host none [] m4 at_q4 in
    let end = run-append others (succeeds ++ (more ++ fails)) m1 ∙ run-append more fails m3 in
    (
      ap (λ (t : Machine). lookup r t.requests) end
          ∙ other_place r q none [] m4 qr
          ∙ at_r4
          ∙ (unfold ws_handler in refl),
      ap (λ (t : Machine). t.server.host) end
          ∙ ap (λ (s : Server). s.host) server
          ∙ (unfold ws_handler set_host in refl),
    )
