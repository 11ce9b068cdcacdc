-- ===== src/Rtsp/Server/Admission.antt =====
-- Who is let in by pkg/rtsp/new_server.go, what the counters say of it, and how many clients a
-- server may end up with.
use mediasink.Prelude.{
  ℕ, ◌+◌, ◌-◌, ◌%◌, ◌<◌, ◌≡◌, ◌↔◌, ◌⊎◌, inl, inr, true, false, none, some, [], ◌∷◌, arith,
  if◌then◌else◌, nat_keys, bytes_keys, length, Bytes, Map, lookup, insert, contains_of_lookup-none,
  length-insert,
}
use mediasink.Rtsp.Server.State.{
  StreamInfo, add_client, UserData, Server, int64_modulus, total_clients,
}
use mediasink.Rtsp.Server.Handlers.{
  is_publisher, validate_connection, on_conn_open, on_conn_close, find_stream, on_describe, joining,
  on_setup, on_record,
}
use mediasink.Rtsp.Server.Invariant.{find_stream-cases}
use mediasink.Net.{is_loop_back}

-- A connection stays open exactly if it is local or may be remote, and the streams have fewer
-- clients than the limit.
pub on_conn_open_iff :
    (conn : ℕ) (addr : Bytes) (s : Server)
    → ((on_conn_open conn addr s).1 ≡ []) ↔ (
        ((s.config.allow_local_only ≡ false) ⊎ (is_loop_back addr ≡ true))
        × (total_clients s.streams < s.config.max_clients))
unfolding on_conn_open validate_connection
on_conn_open_iff conn addr s = (λ h. ground arith, λ h. ground arith)

-- The connection count after a connection has come and gone: as before, if it was let in; one less,
-- if it was turned away, which wraps to the int64 that stands for -1.
pub conn_close-conn_open_drift :
    (conn : ℕ) (addr : Bytes) (s : Server)
    → s.total_connections < int64_modulus
    → (on_conn_close (on_conn_open conn addr s).0).total_connections ≡ (
        if validate_connection addr s
        then s.total_connections
        else (s.total_connections + (int64_modulus - 1)) % int64_modulus)
unfolding on_conn_close on_conn_open
conn_close-conn_open_drift conn addr s h = ground arith

total_clients-insert :
    (path : Bytes) (si si' : StreamInfo) (m : Map Bytes StreamInfo)
    → lookup path m ≡ some si
    → total_clients (insert path si' m) + length si.clients ≡ total_clients m + length si'.clients
unfolding total_clients lookup insert
total_clients-insert path si si' [] e = cc
total_clients-insert path si si' ((k, w) ∷ m) e = ground (arith, total_clients-insert path si si' m)

-- A session that sets up a stream becomes one more client of it, also where the clients are as many
-- as the limit or more: only new connections are counted against it.
pub on_setup-passes_limit :
    (path : Bytes) (session now stream : ℕ) (user : UserData) (s : Server) (si : StreamInfo)
    → find_stream path s ≡ some (si, stream)
    → lookup path s.streams ≡ some si
    → is_publisher session si ≡ false
    → lookup session s.user_data ≡ some user
    → lookup user.client_id si.clients ≡ none
    → total_clients (on_setup path session now s).0.streams ≡ total_clients s.streams + 1
unfolding on_setup add_client
on_setup-passes_limit path session now stream user s si f e other u fresh =
    rw (f, other, u, on_setup)
      (omega (
        arith,
        total_clients-insert path si (add_client (joining user session now) si) s.streams e,
        grown,
      ))
  where
    grown :
        length (insert user.client_id (joining user session now) si.clients) ≡ length si.clients + 1
    grown = ground (
      arith,
      length-insert user.client_id (joining user session now) si.clients,
      contains_of_lookup-none user.client_id si.clients fresh,
    )

-- DESCRIBE, SETUP and RECORD answer alike, whoever asks: the stream of the path, or not found.
pub handlers_agree :
    (path : Bytes) (session now : ℕ) (s : Server)
    → ((on_setup path session now s).1 ≡ (on_describe path s).0)
      × ((on_setup path session now s).2 ≡ (on_describe path s).1)
      × (on_record path s ≡ on_describe path s)
unfolding on_setup on_describe on_record
handlers_agree path session now s = elim (find_stream-cases path s) [
  | inl gone ↦ ground arith
  | inr (si, stream, e, f) ↦ ground arith
]
