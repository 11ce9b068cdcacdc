-- ===== src/Socket/Server/Shutdown.antt =====
-- How the server of pkg/socket/server.go ends.
use mediasink.Prelude.{
  ◌≡◌, refl, ◌↔◌, inl, inr, Bool, true, false, Option, none, some, List, [], ◌∷◌, arith, nat_keys,
  bytes_keys, Bool-cases, Option-cases,
}
use mediasink.Socket.Server.State.{
  zero_config, zero_metrics, zero_health, Server, server_down, server_up, set_status, is_done,
}
use mediasink.Socket.Server.Lifecycle.{
  close_session, close, Meanwhile, nothing, context_done, closed, during, serve, start,
}

-- Close panics exactly if it is the first call and Start has never run.
pub close_panics : (s : Server) → (close s ≡ none) ↔ ((s.once ≡ false) × (s.session ≡ none))
unfolding close
close_panics s = (λ h. ground arith, λ h. ground arith)

-- A first Close of a server that has been started ends its context, empties it, closes the HTTP
-- server and keeps it from hosting again; a second one changes nothing.
pub close_once :
    (s : Server) (done : Bool)
    → s.once ≡ false
    → s.session ≡ some done
    → (t : Server) × (close s ≡ some t)
      × (close t ≡ some t)
      × (is_done t ≡ true)
      × (t.host ≡ none)
      × (t.clients ≡ [])
      × (t.http_closed ≡ true)
      × (t.config.keep_hosting ≡ false)
unfolding close
close_once s done o c = (
  record s {
    config = zero_config;
    host = none;
    clients = [];
    once = true;
    session = some true;
    metrics = zero_metrics;
    health = zero_health;
    http_closed = true;
  },
  ground arith,
  refl,
  refl,
  refl,
  refl,
  refl,
  refl,
)

-- A server whose context is done and which is empty.
abbrev pub Ends : Option Server → Type 0
Ends r = (t : Server) × (r ≡ some t) × (is_done t ≡ true) × (t.host ≡ none) × (t.clients ≡ [])

close_session-Ends : (s : Server) (d : Bool) → s.session ≡ some d → Ends (close_session s)
unfolding close_session
close_session-Ends s d e = (
  record s {
    session = some true;
    host = none;
    clients = [];
    metrics = zero_metrics;
    health = zero_health;
  },
  ground arith,
  refl,
  refl,
  refl,
)

done-session : (s : Server) → is_done s ≡ true → s.session ≡ some true
done-session s e = ground arith

during-some :
    (e : Meanwhile) (s : Server) (d : Bool)
    → s.session ≡ some d
    → (t : Server) × (d' : Bool) × (during e s ≡ some t) × (t.session ≡ some d')
unfolding during close
during-some nothing s d h = (s, d, refl, h)
during-some context_done s d h = (_, true, refl, ground arith)
during-some closed s d h = elim (Bool-cases s.once) [
  | inl before ↦ (s, d, ground arith, h)
  | inr first ↦
      let ends = close_once s d first h in (ends.0, true, ends.1, done-session ends.0 ends.3)
]

serve-Ends :
    (rounds : List Meanwhile) (s : Server) (d : Bool) → s.session ≡ some d → Ends (serve rounds s)
unfolding serve
serve-Ends [] s d h = close_session-Ends s d h
serve-Ends (e ∷ rounds) s d h = elim (Bool-cases (is_done s)) [
  | inl over ↦ rw (over, serve) (close_session-Ends s d h)
  | inr on ↦
      let (t, d', f, g) = during-some e (set_status server_up s) d h in
      (elim (Bool-cases t.config.keep_hosting) [
        | inl more ↦ rw (on, f, more, serve) (serve-Ends rounds (set_status server_down t) d' g)
        | inr last ↦ rw (on, f, last, serve) (close_session-Ends (set_status server_down t) d' g)
      ])
]

-- Start, once its loop has ended, leaves the context done and no host and no client, whatever
-- happened while it listened; it does not panic.
pub start-Ends :
    (parent_done : Bool) (rounds : List Meanwhile) (s : Server) → Ends (start parent_done rounds s)
unfolding start
start-Ends parent_done rounds s = serve-Ends rounds _ parent_done refl

during_keeps :
    (e : Meanwhile) (s t : Server)
    → s.config.keep_hosting ≡ false
    → during e s ≡ some t
    → t.config.keep_hosting ≡ false
unfolding during close
during_keeps nothing s t k f = ground arith
during_keeps context_done s t k f = ground arith
during_keeps closed s t k f = ground arith

-- Without `keep_hosting` the loop ends with its first round.
pub serve_one_round :
    (e : Meanwhile) (rounds : List Meanwhile) (s : Server)
    → s.config.keep_hosting ≡ false
    → serve (e ∷ rounds) s ≡ serve (e ∷ []) s
unfolding serve
serve_one_round e rounds s k = elim (Bool-cases (is_done s)) [
  | inl over ↦ rw (over, serve)
  | inr on ↦ (elim (Option-cases (during e (set_status server_up s))) [
    | inl panic ↦ rw (on, panic, serve)
    | inr (t, f) ↦ rw (on, f, during_keeps e (set_status server_up s) t k f, serve)
  ])
]
