-- ===== src/Rtsp/Server/Quiet.antt =====
-- What of a stream of pkg/rtsp/new_server.go lasts while its publisher is quiet.
use mediasink.Prelude.{
  ℕ, ◌≡◌, refl, sym, ap, ◌∙◌, subst, inl, inr, Bool, true, false, not, ◌&&◌, Option, none, some,
  List, [], ◌∷◌, arith, nat_beq_iff, ◌==◌, ==_sound, nat_keys, bytes_keys, Bool-cases, Option-cases,
  Bytes, Map, lookup, insert, map_opt, lookup-insert, lookup-map_values,
}
use mediasink.Rtsp.Server.State.{StreamInfo, add_client, remove_client, Config, Server, Effect}
use mediasink.Rtsp.Server.Handlers.{
  is_publisher, on_conn_open, on_conn_close, on_session_open, leave_stream, on_session_close,
  on_announce, on_setup, touch_client, on_play, touch_stream, on_packet,
}
use mediasink.Rtsp.Server.Upkeep.{is_inactive, cleanup_stream}
use mediasink.Rtsp.Server.Sweep.{bind_kept}
use mediasink.Rtsp.Server.Invariant.{IsValid, find_stream-cases}
use mediasink.Rtsp.Server.Invariant.{step-IsValid}
use mediasink.Rtsp.Server.Trace.{
  Event, conn_open, conn_close, session_open, session_close, announce, setup, play, packet, cleanup,
  step, run,
}
use mediasink.Rtsp.Server.Ownership.{on_announce_lem, lookup-session_close}
use mediasink.Rtsp.Server.Cleanup.{lookup-cleanup}

-- No announcement of the path, and no packet of the stream.
abbrev pub is_quiet_event : Bytes → ℕ → Event → Bool
is_quiet_event path stream (announce p session st desc now) = not (p == path)
is_quiet_event path stream (packet st now) = not (st == stream)
is_quiet_event path stream _ = true

unfoldable pub is_quiet : Bytes → ℕ → List Event → Bool
is_quiet path stream [] = true
is_quiet path stream (e ∷ es) = is_quiet_event path stream e && is_quiet path stream es

-- What a quiet event keeps of the entry of a path.
pub record Survives (stream : ℕ) (Q : Option StreamInfo → Type 0) : Type 0 where
  pub known : (si : StreamInfo) → Q (some si) → si.stream ≡ some stream
  pub dropped : Q none
  pub changed :
      (si si' : StreamInfo)
      → si'.stream ≡ si.stream
      → si'.publisher_last_active ≡ si.publisher_last_active
      → Q (some si)
      → Q (some si')

module _ (path : Bytes) (stream : ℕ) (Q : Option StreamInfo → Type 0)
    (keeps : Survives stream Q) where
  bind-keeps :
      (body : StreamInfo → Option StreamInfo × List Effect) (o : Option StreamInfo)
      → ((si : StreamInfo) → Q (some si) → Q (body si).0)
      → Q o
      → Q (bind_kept body o)
  bind-keeps body none keep q = q
  bind-keeps body (some si) keep q = keep si q

  leave-keeps :
      (id : Bytes) (session : ℕ) (si : StreamInfo) → Q (some si) → Q (leave_stream id session si).0
  unfolding leave_stream
  leave-keeps id session si q = elim (Bool-cases (is_publisher session si)) [
    | inl own ↦ rw own keeps.dropped
    | inr other ↦ rw other (unfold remove_client in keeps.changed si _ refl refl q)
  ]

  cleanup-keeps :
      (config : Config) (now : ℕ) (si : StreamInfo)
      → Q (some si)
      → Q (cleanup_stream config now si).0
  unfolding cleanup_stream
  cleanup-keeps config now si q =
      elim (Bool-cases
        (is_inactive now si.publisher_last_active config.publisher_session_timeout)) [
          | inl idle ↦ rw idle keeps.dropped
          | inr busy ↦ rw busy (keeps.changed si _ refl refl q)
        ]

  touch-keeps :
      (st now : ℕ) (o : Option StreamInfo)
      → (st == stream) ≡ false
      → Q o
      → Q (map_opt (touch_stream st now) o)
  unfolding touch_stream
  touch-keeps st now none another q = q
  touch-keeps st now (some si) another q =
      let same : touch_stream st now si ≡ si =
        ground (arith, keeps.known si q, another, nat_beq_iff st stream, nat_beq_iff stream st) in
      subst (λ (x : StreamInfo). Q (some x)) (sym same) q

  -- An entry that is overwritten in place.
  insert-keeps :
      (p : Bytes) (si si' : StreamInfo) (s : Server)
      → lookup p s.streams ≡ some si
      → si'.stream ≡ si.stream
      → si'.publisher_last_active ≡ si.publisher_last_active
      → Q (lookup path s.streams)
      → Q (lookup path (insert p si' s.streams))
  insert-keeps p si si' s found e f q = elim (Bool-cases (p == path)) [
    | inl same ↦
        let here = ap (λ (x : Bytes). lookup x s.streams) (sym (==_sound p path same)) ∙ found in
        rw (lookup-insert, same) (keeps.changed si si' e f (subst Q here q))
    | inr other ↦ rw (lookup-insert, other) q
  ]

  setup-keeps :
      (p : Bytes) (session now : ℕ) (s : Server)
      → Q (lookup path s.streams)
      → Q (lookup path (on_setup p session now s).0.streams)
  unfolding on_setup
  setup-keeps p session now s q = elim (find_stream-cases p s) [
    | inl gone ↦ rw (gone, on_setup) q
    | inr (si, st, e, f) ↦ (elim (Bool-cases (is_publisher session si)) [
      | inl own ↦ rw (f, own, on_setup) q
      | inr other ↦ (elim (Option-cases (lookup session s.user_data)) [
        | inl bare ↦ rw (f, other, bare, on_setup) q
        | inr (user, u) ↦
            rw (f, other, u, on_setup) (unfold add_client in insert-keeps p si _ s e refl refl q)
      ])
    ])
  ]

  play-keeps :
      (p : Bytes) (session now : ℕ) (s : Server)
      → Q (lookup path s.streams)
      → Q (lookup path (on_play p session now s).0.streams)
  unfolding on_play
  play-keeps p session now s q = elim (Option-cases (lookup p s.streams)) [
    | inl gone ↦ rw (gone, on_play) q
    | inr (si, e) ↦ (elim (Option-cases (lookup session s.user_data)) [
      | inl bare ↦ rw (e, bare, on_play) q
      | inr (user, u) ↦
          rw (e, u, on_play)
            (insert-keeps p si (touch_client user.client_id now si) s e
              (unfold touch_client in ground arith) (unfold touch_client in ground arith) q)
    ])
  ]

  close-keeps :
      (session : ℕ) (s : Server)
      → IsValid s
      → Q (lookup path s.streams)
      → Q (lookup path (on_session_close session s).0.streams)
  unfolding on_session_close
  close-keeps session s v q = elim (Option-cases (lookup session s.user_data)) [
    | inl bare ↦ rw (bare, on_session_close) q
    | inr (user, u) ↦ subst Q (sym (lookup-session_close path session user s v.distinct u)) (
        bind-keeps (leave_stream user.client_id session) (lookup path s.streams)
          (leave-keeps user.client_id session) q)
  ]

  same_streams-keeps :
      (s t : Server) → t.streams ≡ s.streams → Q (lookup path s.streams) → Q (lookup path t.streams)
  same_streams-keeps s t e q = subst (λ (m : Map Bytes StreamInfo). Q (lookup path m)) (sym e) q

  step-keeps :
      (s : Server) (e : Event)
      → IsValid s
      → is_quiet_event path stream e ≡ true
      → Q (lookup path s.streams)
      → Q (lookup path (step s e).streams)
  unfolding step
  step-keeps s (conn_open conn addr) v quiet q =
      let same : (on_conn_open conn addr s).0.streams ≡ s.streams =
        unfold on_conn_open in ground arith in
      same_streams-keeps s (on_conn_open conn addr s).0 same q
  step-keeps s conn_close v quiet q =
      let same : (on_conn_close s).streams ≡ s.streams = unfold on_conn_close in refl in
      same_streams-keeps s (on_conn_close s) same q
  step-keeps s (session_open session addr now) v quiet q =
      let same : (on_session_open session addr now s).streams ≡ s.streams =
        unfold on_session_open in refl in
      same_streams-keeps s (on_session_open session addr now s) same q
  step-keeps s (session_close session) v quiet q = close-keeps session s v q
  step-keeps s (announce p session st desc now) v quiet q =
      let other : (p == path) ≡ false = ground (arith, quiet) in
      let same : lookup path (on_announce p session st desc now s).0.streams
          ≡ lookup path s.streams =
        ground (arith, (on_announce_lem p path session st desc now s).2, other) in
      subst Q (sym same) q
  step-keeps s (setup p session now) v quiet q = setup-keeps p session now s q
  step-keeps s (play p session now) v quiet q = play-keeps p session now s q
  step-keeps s (packet st now) v quiet q =
      unfold on_packet in
      subst Q (sym (lookup-map_values (touch_stream st now) path s.streams))
        (touch-keeps st now (lookup path s.streams) (ground (arith, quiet)) q)
  step-keeps s (cleanup now) v quiet q = subst Q (sym (lookup-cleanup path now s v.distinct)) (
      bind-keeps (cleanup_stream s.config now) (lookup path s.streams) (cleanup-keeps s.config now)
        q)

  pub run-keeps :
      (s : Server) (es : List Event)
      → IsValid s
      → is_quiet path stream es ≡ true
      → Q (lookup path s.streams)
      → Q (lookup path (run s es).streams)
  unfolding run is_quiet
  run-keeps s [] v quiet q = q
  run-keeps s (e ∷ es) v quiet q =
      run-keeps (step s e) es (step-IsValid s e v) (ground (arith, quiet))
        (step-keeps s e v (ground (arith, quiet)) q)
