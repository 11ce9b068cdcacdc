-- ===== src/Rtsp/Server/Ownership.antt =====
-- Who owns a stream in pkg/rtsp/new_server.go: announcing, replacing, and the end of a session.
use mediasink.Prelude.{
  ℕ, ◌<◌, ◌≡◌, refl, sym, ◌∙◌, subst, ◌≢◌, inl, inr, false, not, ◌&&◌, none, some, [], ◌∷◌, arith,
  leb, if◌then◌else◌, ◌==◌, nat_keys, bytes_keys, list_beq_iff, Option-cases, length, Bytes, lookup,
  erase, Distinct, lookup-insert, lookup-erase,
}
use mediasink.Rtsp.Server.State.{
  close_stream, close_session, StreamInfo, remove_client, UserData, Server, status_ok,
  service_unavailable,
}
use mediasink.Rtsp.Server.Handlers.{
  is_publisher, leave_stream, on_session_close, close_replaced, new_stream_info, on_announce,
}
use mediasink.Rtsp.Server.Sweep.{bind_kept, lookup-swept}
use mediasink.Rtsp.Server.Invariant.{IsValid, announce-IsValid}

-- On a full server an announcement is refused and changes no path, also where it would only have
-- replaced a stream. Otherwise its path, and no other, gets a fresh entry, and what stood there is
-- closed.
pub on_announce_lem :
    (path k : Bytes) (session stream desc now : ℕ) (s : Server)
    → let (t, code, closed) = on_announce path session stream desc now s in
      let full = leb s.config.max_streams (length s.streams) in
      (code ≡ (if full then service_unavailable else status_ok))
      × (closed ≡ (if full then [] else close_replaced (lookup path s.streams)))
      × (lookup k t.streams ≡ (
          if not full && path == k
          then some (new_stream_info session stream desc now)
          else lookup k s.streams))
unfolding on_announce
on_announce_lem path k session stream desc now s =
    ground (arith, lookup-insert path k (new_stream_info session stream desc now) s.streams)

-- What the end of a session leaves at a path.
pub lookup-session_close :
    (path : Bytes) (session : ℕ) (user : UserData) (s : Server)
    → Distinct s.streams
    → lookup session s.user_data ≡ some user
    → lookup path (on_session_close session s).0.streams
      ≡ bind_kept (leave_stream user.client_id session) (lookup path s.streams)
unfolding on_session_close
lookup-session_close path session user s d u =
    rw (u, on_session_close) (lookup-swept (leave_stream user.client_id session) path s.streams d)

leave_stream_forgets :
    (id : Bytes) (session : ℕ) (si si' : StreamInfo)
    → (leave_stream id session si).0 ≡ some si'
    → (is_publisher session si' ≡ false) × (lookup id si'.clients ≡ none)
unfolding leave_stream remove_client
leave_stream_forgets id session si si' e =
    ground (arith, lookup-erase id id si.clients, list_beq_iff id id)

-- After the end of a session that was opened, no stream has it as its publisher, and none has a
-- client under its id.
pub session_close_forgets :
    (path : Bytes) (session : ℕ) (user : UserData) (s : Server) (si : StreamInfo)
    → IsValid s
    → lookup session s.user_data ≡ some user
    → lookup path (on_session_close session s).0.streams ≡ some si
    → (is_publisher session si ≡ false) × (lookup user.client_id si.clients ≡ none)
session_close_forgets path session user s si v u e = elim (Option-cases (lookup path s.streams)) [
  | inl gone ↦ cc (lookup-session_close path session user s v.distinct u, gone)
  | inr (old, f) ↦ leave_stream_forgets user.client_id session old si (
      subst (λ o. bind_kept (leave_stream user.client_id session) o ≡ some si) f
        (sym (lookup-session_close path session user s v.distinct u) ∙ e))
]

-- A stream that another session publishes outlives the end of a session, and loses only the client
-- of that session.
pub session_close_spares :
    (path : Bytes) (session : ℕ) (user : UserData) (s : Server) (si : StreamInfo)
    → IsValid s
    → lookup session s.user_data ≡ some user
    → lookup path s.streams ≡ some si
    → is_publisher session si ≡ false
    → lookup path (on_session_close session s).0.streams
      ≡ some (record si { clients = erase user.client_id si.clients })
unfolding leave_stream remove_client
session_close_spares path session user s si v u e other =
    lookup-session_close path session user s v.distinct u ∙ rw e (ground arith)

-- On a server that satisfies the invariant and has room, an announcement of a path that another
-- session publishes closes the stream and the session that stood there, in this order, and nothing
-- else. When that session ends then, the path still has the new stream under its publisher, without
-- clients, active since the announcement.
pub replaced_publisher_spares :
    (path : Bytes) (old old_stream new stream desc now : ℕ) (s : Server) (si : StreamInfo)
    → IsValid s
    → length s.streams < s.config.max_streams
    → lookup path s.streams ≡ some si
    → si.publisher ≡ some old
    → si.stream ≡ some old_stream
    → old ≢ new
    → let (t, code, closed) = on_announce path new stream desc now s in
      (code ≡ status_ok)
      × (closed ≡ close_stream old_stream ∷ close_session old ∷ [])
      × (lookup path (on_session_close old t).0.streams
          ≡ some (record {
            stream = some stream;
            publisher = some new;
            publisher_last_active = now;
            description = desc;
            clients = [];
            created_at = now;
          }))
unfolding on_session_close
replaced_publisher_spares path old old_stream new stream desc now s si v room found owner open_one
      differ =
    let (code, closed, there) = announced in
    (
      code,
      closed ∙ rw (found, owner, open_one) refl,
      elim (Option-cases (lookup old t.user_data)) [
        | inl bare ↦ rw (bare, on_session_close) there
        | inr (user, u) ↦
            session_close_spares path old user t (new_stream_info new stream desc now)
              (announce-IsValid path new stream desc now s v) u there (ground (arith, differ))
            ∙ unfold erase in refl
      ],
    )
  where
    t : Server
    t = (on_announce path new stream desc now s).0

    announced :
        ((on_announce path new stream desc now s).1 ≡ status_ok)
        × ((on_announce path new stream desc now s).2 ≡ close_replaced (lookup path s.streams))
        × (lookup path t.streams ≡ some (new_stream_info new stream desc now))
    announced =
        let (code, closed, there) = on_announce_lem path path new stream desc now s in
        let free : leb s.config.max_streams (length s.streams) ≡ false = ground (arith, room) in
        (
          code ∙ rw free refl,
          closed ∙ rw free refl,
          there ∙ ground (arith, room, list_beq_iff path path),
        )
