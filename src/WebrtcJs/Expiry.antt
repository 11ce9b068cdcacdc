-- ===== src/WebrtcJs/Expiry.antt =====
-- Which sessions pkg/webrtc_js/host.go drops, and when.
use mediasink.Prelude.{
  ℕ, ◌+◌, ◌-◌, ◌≡◌, refl, ap, ◌∙◌, inl, inr, Bool, not, [], ◌∷◌, arith, nat_keys, bytes_keys,
  Bool-cases, length, Bytes, Map, lookup, retain, Distinct, keep_if, lookup-retain,
}
use mediasink.WebrtcJs.State.{ClientSession, is_expired, Metrics, decrease_active_connections, Host}
use mediasink.WebrtcJs.Upkeep.{expire, cleanup_expired_clients}

abbrev pub unexpired : ℕ → Bytes → ClientSession → Bool
unexpired now id cs = not (is_expired now cs)

pub expire-retain :
    (now : ℕ) (clients : Map Bytes ClientSession) (m : Metrics)
    → (expire now clients m).0 ≡ retain (unexpired now) clients
unfolding expire retain
expire-retain now [] m = refl
expire-retain now ((id, cs) ∷ clients) m =
    let keep = expire-retain now clients m in
    let drop_it = expire-retain now clients (decrease_active_connections m) in
    elim (Bool-cases (is_expired now cs)) [
      | inl gone ↦ rw gone drop_it
      | inr stays ↦ rw stays (ap (λ (r : Map Bytes ClientSession). (id, cs) ∷ r) keep)
    ]

expire-active :
    (now : ℕ) (clients : Map Bytes ClientSession) (m : Metrics)
    → (expire now clients m).1.active_connections
      ≡ m.active_connections - length (expire now clients m).2
unfolding expire
expire-active now [] m = omega arith
expire-active now ((id, cs) ∷ clients) m =
    let keep = expire-active now clients m in
    let drop_it = expire-active now clients (decrease_active_connections m) in
    elim (Bool-cases (is_expired now cs)) [
      | inl gone ↦ rw gone (drop_it ∙ (unfold decrease_active_connections in ground arith))
      | inr stays ↦ rw stays keep
    ]

expire-length :
    (now : ℕ) (clients : Map Bytes ClientSession) (m : Metrics)
    → length (expire now clients m).0 + length (expire now clients m).2 ≡ length clients
unfolding expire
expire-length now [] m = omega arith
expire-length now ((id, cs) ∷ clients) m =
    let keep = expire-length now clients m in
    let drop_it = expire-length now clients (decrease_active_connections m) in
    elim (Bool-cases (is_expired now cs)) [
      | inl gone ↦ rw gone (omega (arith, drop_it))
      | inr stays ↦ rw stays (omega (arith, keep))
    ]

-- If no id stands twice in the table, a tick of the cleanup leaves exactly the sessions whose time
-- has not run out, as they were.
pub lookup-cleanup :
    (k : Bytes) (now : ℕ) (h : Host)
    → Distinct h.clients
    → lookup k (cleanup_expired_clients now h).0.clients
      ≡ keep_if (unexpired now) k (lookup k h.clients)
unfolding cleanup_expired_clients
lookup-cleanup k now h d =
    ap (λ (m : Map Bytes ClientSession). lookup k m) (expire-retain now h.clients h.metrics)
    ∙ lookup-retain (unexpired now) k h.clients d

-- The cleanup takes every session that it drops off the counter of the active ones, whether it was
-- counted or not, down to zero; the counter of the sessions left and the peer connections closed add up
-- to those that there were.
pub cleanup-active :
    (now : ℕ) (h : Host)
    → let r = cleanup_expired_clients now h in
      (r.0.metrics.active_connections ≡ h.metrics.active_connections - length r.1)
      × (length r.0.clients + length r.1 ≡ length h.clients)
unfolding cleanup_expired_clients
cleanup-active now h =
    (expire-active now h.clients h.metrics, expire-length now h.clients h.metrics)
