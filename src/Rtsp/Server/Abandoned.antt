-- ===== src/Rtsp/Server/Abandoned.antt =====
-- What becomes of a stream of pkg/rtsp/new_server.go whose publisher sends no more.
use mediasink.Prelude.{
  ℕ, ◌-◌, ◌<◌, ◌≡◌, refl, sym, ap, ◌∙◌, subst, true, Option, none, some, List, [], ◌∷◌, ◌++◌, arith,
  nat_keys, bytes_keys, Bytes, lookup,
}
use mediasink.Rtsp.Server.State.{StreamInfo, Config, Server}
use mediasink.Rtsp.Server.Handlers.{
  on_conn_open, on_conn_close, on_session_open, on_session_close, on_announce, on_setup, on_play,
  on_packet,
}
use mediasink.Rtsp.Server.Upkeep.{cleanup_stream, cleanup_inactive_sessions}
use mediasink.Rtsp.Server.Sweep.{bind_kept}
use mediasink.Rtsp.Server.Invariant.{IsValid}
use mediasink.Rtsp.Server.Invariant.{step-IsValid}
use mediasink.Rtsp.Server.Trace.{
  Event, conn_open, conn_close, session_open, session_close, announce, setup, play, packet, cleanup,
  step, run,
}
use mediasink.Rtsp.Server.Cleanup.{lookup-cleanup}
use mediasink.Rtsp.Server.Quiet.{is_quiet, Survives, run-keeps}

-- The entry is gone, or it is the stream's and as old as it was.
abbrev IsIdle : ℕ → ℕ → Option StreamInfo → Type 0
IsIdle stream last none = Unit
IsIdle stream last (some si) = (si.stream ≡ some stream) × (si.publisher_last_active ≡ last)

IsIdle-Survives : (stream last : ℕ) → Survives stream (IsIdle stream last)
IsIdle-Survives stream last = record {
  known = λ si q. q.0;
  dropped = tt;
  changed = λ si si' e f q. (e ∙ q.0, f ∙ q.1);
}

none-Survives : (stream : ℕ) → Survives stream (λ o. o ≡ none)
none-Survives stream = record { known = λ si q. cc; dropped = refl; changed = λ si si' e f q. cc }

idle_dropped :
    (stream last now : ℕ) (config : Config) (o : Option StreamInfo)
    → config.publisher_session_timeout < now - last
    → IsIdle stream last o
    → bind_kept (cleanup_stream config now) o ≡ none
unfolding cleanup_stream
idle_dropped stream last now config none late q = refl
idle_dropped stream last now config (some si) late q = ground (arith, q.1, late)

step-config : (s : Server) (e : Event) → (step s e).config ≡ s.config
unfolding step on_conn_open on_conn_close on_session_open on_session_close on_announce on_setup
    on_play on_packet cleanup_inactive_sessions
step-config s (conn_open conn addr) = ground arith
step-config s conn_close = refl
step-config s (session_open session addr now) = refl
step-config s (session_close session) = ground arith
step-config s (announce p session st desc now) = ground arith
step-config s (setup p session now) = ground arith
step-config s (play p session now) = ground arith
step-config s (packet st now) = refl
step-config s (cleanup now) = refl

run-config : (s : Server) (es : List Event) → (run s es).config ≡ s.config
unfolding run
run-config s [] = refl
run-config s (e ∷ es) = run-config (step s e) es ∙ step-config s e

run-append : (s : Server) (es fs : List Event) → run s (es ++ fs) ≡ run (run s es) fs
unfolding run
run-append s [] fs = refl
run-append s (e ∷ es) fs = run-append (step s e) es fs

run-IsValid : (s : Server) (es : List Event) → IsValid s → IsValid (run s es)
unfolding run
run-IsValid s [] v = v
run-IsValid s (e ∷ es) v = run-IsValid (step s e) es (step-IsValid s e v)

-- If the publisher of a stream sends nothing more, then the first cleanup behind its timeout ends the
-- stream, whatever viewers, sessions and other publishers do meanwhile, and its path stays free
-- until it is announced again.
pub abandoned_stream_ends :
    (path : Bytes) (stream now : ℕ) (before after : List Event) (s : Server) (si : StreamInfo)
    → IsValid s
    → lookup path s.streams ≡ some si
    → si.stream ≡ some stream
    → s.config.publisher_session_timeout < now - si.publisher_last_active
    → is_quiet path stream before ≡ true
    → is_quiet path stream after ≡ true
    → lookup path (run s (before ++ cleanup now ∷ after)).streams ≡ none
unfolding run
abandoned_stream_ends path stream now before after s si v found named late quiet quiet_after =
    let t = run s before in
    let w = run-IsValid s before v in
    let idle =
      run-keeps path stream (IsIdle stream si.publisher_last_active)
        (IsIdle-Survives stream si.publisher_last_active) s before v quiet
        (subst (IsIdle stream si.publisher_last_active) (sym found) (named, refl)) in
    let late_then : t.config.publisher_session_timeout < now - si.publisher_last_active =
      ground
        (arith, late, ap (λ (c : Config). c.publisher_session_timeout) (run-config s before)) in
    let gone : lookup path (step t (cleanup now)).streams ≡ none =
      unfold step in
      (lookup-cleanup path now t w.distinct
        ∙ idle_dropped stream si.publisher_last_active now t.config (lookup path t.streams)
            late_then idle) in
    ap (λ (u : Server). lookup path u.streams) (run-append s before (cleanup now ∷ after))
    ∙ run-keeps path stream (λ o. o ≡ none) (none-Survives stream) (step t (cleanup now)) after
        (step-IsValid t (cleanup now) w) quiet_after gone
