-- ===== src/Rtsp/Server/Cleanup.antt =====
-- What the cleanup of pkg/rtsp/new_server.go drops and keeps, and how packets keep a stream alive.
use mediasink.Prelude.{
  ℕ, ◌-◌, ◌≤◌, ◌≡◌, refl, sym, ◌∙◌, subst, inl, inr, some, arith, nat_keys, bytes_keys, Bool-cases,
  Option-cases, Bytes, lookup, retain, map_values, Distinct, Entries, keep_if, lookup-retain,
  Distinct-map_values, lookup-map_values,
}
use mediasink.Prelude.{Entries-lookup, Entries-retain_test, retain-map_values}
use mediasink.Rtsp.Server.State.{StreamInfo, Config, Server}
use mediasink.Rtsp.Server.Handlers.{seen_at, touch_stream, on_packet}
use mediasink.Rtsp.Server.Upkeep.{
  is_inactive, is_active_client, cleanup_stream, cleanup_inactive_sessions,
}
use mediasink.Rtsp.Server.Sweep.{bind_kept, lookup-swept}
use mediasink.Rtsp.Server.Invariant.{IsValid}

pub lookup-cleanup :
    (path : Bytes) (now : ℕ) (s : Server)
    → Distinct s.streams
    → lookup path (cleanup_inactive_sessions now s).0.streams
      ≡ bind_kept (cleanup_stream s.config now) (lookup path s.streams)
unfolding cleanup_inactive_sessions
lookup-cleanup path now s d = lookup-swept (cleanup_stream s.config now) path s.streams d

-- The publisher and every client were active within their timeouts.
abbrev pub IsActiveAt : Config → ℕ → StreamInfo → Type 0
IsActiveAt config now si =
    (now - si.publisher_last_active ≤ config.publisher_session_timeout)
    × Entries (λ id client. now - client.last_active ≤ config.client_session_timeout) si.clients

cleanup_stream_active :
    (config : Config) (now : ℕ) (si si' : StreamInfo)
    → (cleanup_stream config now si).0 ≡ some si'
    → IsActiveAt config now si'
unfolding cleanup_stream
cleanup_stream_active config now si si' e =
    elim (Bool-cases (is_inactive now si.publisher_last_active config.publisher_session_timeout)) [
      | inl idle ↦ ground arith
      | inr busy ↦
          let kept : record si {
            clients = retain (is_active_client now config.client_session_timeout) si.clients;
          }
              ≡ si' =
            ground arith in
          subst (IsActiveAt config now) kept
            (ground arith, Entries-retain_test _ _ (λ id client h. ground arith) si.clients)
    ]

-- What is left after a cleanup was active within the timeouts, the publisher and each client.
pub cleanup_leaves_active :
    (path : Bytes) (now : ℕ) (s : Server) (si : StreamInfo)
    → IsValid s
    → lookup path (cleanup_inactive_sessions now s).0.streams ≡ some si
    → IsActiveAt s.config now si
cleanup_leaves_active path now s si v e = elim (Option-cases (lookup path s.streams)) [
  | inl gone ↦ cc (lookup-cleanup path now s v.distinct, gone)
  | inr (old, f) ↦ cleanup_stream_active s.config now old si (
      subst (λ o. bind_kept (cleanup_stream s.config now) o ≡ some si) f
        (sym (lookup-cleanup path now s v.distinct) ∙ e))
]

-- A stream whose publisher was active within the timeout keeps its place, its publisher and
-- exactly its active clients.
pub cleanup_keeps_active :
    (path id : Bytes) (now : ℕ) (s : Server) (si : StreamInfo)
    → IsValid s
    → lookup path s.streams ≡ some si
    → now - si.publisher_last_active ≤ s.config.publisher_session_timeout
    → (si' : StreamInfo) × (lookup path (cleanup_inactive_sessions now s).0.streams ≡ some si')
      × (si'.stream ≡ si.stream)
      × (si'.publisher ≡ si.publisher)
      × (lookup id si'.clients
          ≡ keep_if
              (is_active_client now s.config.client_session_timeout)
              id
              (lookup id si.clients))
unfolding cleanup_stream
cleanup_keeps_active path id now s si v e active = (
  record si { clients = retain (is_active_client now s.config.client_session_timeout) si.clients },
  lookup-cleanup path now s v.distinct ∙ rw e (ground arith),
  refl,
  refl,
  lookup-retain _ id si.clients (Entries-lookup _ path s.streams si v.sound e).distinct,
)

-- A packet of the publisher keeps its stream, and every client of it, through each cleanup within
-- both timeouts.
pub packet_keeps_alive :
    (path : Bytes) (stream sent now : ℕ) (s : Server) (si : StreamInfo)
    → IsValid s
    → lookup path s.streams ≡ some si
    → si.stream ≡ some stream
    → now - sent ≤ s.config.publisher_session_timeout
    → now - sent ≤ s.config.client_session_timeout
    → lookup path (cleanup_inactive_sessions now (on_packet stream sent s)).0.streams
      ≡ some (record si {
        publisher_last_active = sent;
        clients = map_values (seen_at sent) si.clients;
      })
unfolding on_packet touch_stream cleanup_stream
packet_keeps_alive path stream sent now s si v e f h k =
    lookup-cleanup path now (on_packet stream sent s)
      (Distinct-map_values (touch_stream stream sent) s.streams v.distinct)
    ∙ rw (lookup-map_values (touch_stream stream sent) path s.streams, e)
        (ground (
          arith,
          retain-map_values (is_active_client now s.config.client_session_timeout) (seen_at sent)
              (λ id client. ground arith) si.clients,
        ))
