-- ===== src/WebrtcJs/Shutdown.antt =====
-- How Connect of pkg/webrtc_js/host.go ends.
use mediasink.Prelude.{
  ℕ, ◌≡◌, refl, ap, ◌∙◌, Bool, true, false, none, some, List, [], ◌∷◌, map, if◌then◌else◌, nat_keys,
  bytes_keys, Bytes, Map,
}
use mediasink.WebrtcJs.State.{ClientSession, Host, set_status, set_session, log_error}
use mediasink.WebrtcJs.Upkeep.{close, serve_round, serve, connect}

abbrev peers : Map Bytes ClientSession → List ℕ
peers = map (λ (entry : Bytes × ClientSession). entry.1.peer_connection)

-- Everything is shut, and the peer connections that are closed are those of the sessions that there
-- were.
abbrev pub Ends : Host → Host × List ℕ → Type 0
Ends h r = (r.0.clients ≡ []) × (r.0.http_closed ≡ true) × (r.1 ≡ peers h.clients)

close-Ends : (h : Host) → Ends h (close h)
unfolding close
close-Ends h = (refl, refl, refl)

round_keeps :
    (serving_failed : Bool) (text : Bytes) (h : Host)
    → (serve_round serving_failed text h).clients ≡ h.clients
unfolding serve_round set_status log_error
round_keeps true text h = refl
round_keeps false text h = refl

either-Ends :
    (b : Bool) (h : Host) (r t : Host × List ℕ) → Ends h r → Ends h t → Ends h (if b then r else t)
either-Ends true h r t first second = first
either-Ends false h r t first second = second

round-Ends :
    (serving_failed : Bool) (text : Bytes) (h : Host) (r : Host × List ℕ)
    → Ends (serve_round serving_failed text h) r
    → Ends h r
round-Ends serving_failed text h r (empty, shut, all) =
    (empty, shut, all ∙ ap peers (round_keeps serving_failed text h))

serve-Ends : (rounds : List (Bool × Bytes)) (h : Host) → Ends h (serve rounds h)
unfolding serve
serve-Ends [] h = close-Ends h
serve-Ends ((serving_failed, text) ∷ rounds) h =
    let next = serve_round serving_failed text h in
    let again = round-Ends serving_failed text h (serve rounds next) (serve-Ends rounds next) in
    let over = round-Ends serving_failed text h (close next) (close-Ends next) in
    either-Ends (elim h.session [ none ↦ false | some d ↦ d ]) h (close h) _ (close-Ends h)
      (either-Ends h.config.keep_hosting h (serve rounds next) (close next) again over)

-- However its rounds go, Connect ends with no session, with the HTTP server closed, and with the
-- peer connection of every session that there was closed once, in the order of the table.
pub connect-Ends :
    (parent_done : Bool) (rounds : List (Bool × Bytes)) (h : Host)
    → Ends h (connect parent_done rounds h)
unfolding connect set_session
connect-Ends parent_done rounds h = serve-Ends rounds (set_session parent_done h)
