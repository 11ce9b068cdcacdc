-- ===== src/Rtsp/Server/Handlers.antt =====
-- The callbacks of pkg/rtsp/new_server.go. What the library hands in (the path, the session, the
-- stream that `gortsplib.NewServerStream` made, the clock) is an argument. A method returns the new
-- state, its answer, and the objects that it closed in the order of the closing.
use mediasink.Prelude.{
  ℕ, ◌+◌, ◌-◌, ◌%◌, Bool, true, false, not, ◌&&◌, Option, none, some, List, [], ◌∷◌, ◌++◌, ltb, leb,
  if◌then◌else◌, ◌==◌, nat_keys, bytes_keys, length, Bytes, decimal, Map, lookup, insert,
  map_values,
}
use mediasink.Net.{is_loop_back}
use mediasink.Rtsp.Server.State.{
  ClientSession, StreamInfo, add_client, remove_client, UserData, Server, Effect, close_stream,
  close_session, close_conn, StatusCode, status_ok, not_found, service_unavailable, int64_modulus,
  total_clients,
}

abbrev pub is_some_stream : Option ℕ → Bool
is_some_stream none = false
is_some_stream (some x) = true

-- `streamInfo.Publisher == ctx.Session`
abbrev pub is_publisher : ℕ → StreamInfo → Bool
is_publisher session si = elim si.publisher [ none ↦ false | some p ↦ p == session ]

abbrev pub close_if {ℓ} : {A : Type ℓ} → (A → Effect) → Option A → List Effect
close_if f none = []
close_if f (some x) = f x ∷ []

-- Whether `validateConnection` returns no error.
unfoldable pub validate_connection : Bytes → Server → Bool
validate_connection remote_addr s =
    if s.config.allow_local_only && not (is_loop_back remote_addr)
    then false
    else ltb (total_clients s.streams) s.config.max_clients

unfoldable pub on_conn_open : ℕ → Bytes → Server → Server × List Effect
on_conn_open conn remote_addr s =
    if validate_connection remote_addr s
    then (record s { total_connections = (s.total_connections + 1) % int64_modulus }, [])
    else (s, close_conn conn ∷ [])

unfoldable pub on_conn_close : Server → Server
on_conn_close s = record s {
  total_connections = (s.total_connections + (int64_modulus - 1)) % int64_modulus;
}

-- `fmt.Sprintf("%s-%d", addr, now)`
unfoldable pub make_client_id : Bytes → ℕ → Bytes
make_client_id remote_addr now = remote_addr ++ b'-' ∷ decimal now

unfoldable pub on_session_open : ℕ → Bytes → ℕ → Server → Server
on_session_open session remote_addr now s = record s {
  user_data =
      insert session
        (record {
          client_id = make_client_id remote_addr now;
          remote_addr = remote_addr;
          is_local = is_loop_back remote_addr;
          conn_time = now;
        })
        s.user_data;
}

-- A range over the streams whose body keeps its entry, changed or not, or deletes it.
unfoldable pub sweep :
    (StreamInfo → Option StreamInfo × List Effect)
    → Map Bytes StreamInfo
    → Map Bytes StreamInfo × List Effect
sweep body [] = ([], [])
sweep body ((path, si) ∷ m) =
    let (rest, effects) = sweep body m in
    let (kept, closed) = body si in
    (elim kept [ none ↦ rest | some si' ↦ (path, si') ∷ rest ], closed ++ effects)

-- The body of the loop of `OnSessionClose`.
unfoldable pub leave_stream : Bytes → ℕ → StreamInfo → Option StreamInfo × List Effect
leave_stream client_id session si =
    if is_publisher session si
    then (none, close_if close_stream si.stream)
    else (some (remove_client client_id si), [])

unfoldable pub on_session_close : ℕ → Server → Server × List Effect
on_session_close session s = elim (lookup session s.user_data) [
  | none ↦ (s, [])
  | some data' ↦
      let (streams, effects) = sweep (leave_stream data'.client_id session) s.streams in
      (record s { streams = streams }, effects)
]

-- The stream of a path, where `Stream` is not nil.
unfoldable pub find_stream : Bytes → Server → Option (StreamInfo × ℕ)
find_stream path s = elim (lookup path s.streams) [
  | none ↦ none
  | some si ↦ (elim si.stream [ none ↦ none | some stream ↦ some (si, stream) ])
]

unfoldable pub on_describe : Bytes → Server → StatusCode × Option ℕ
on_describe path s = elim (find_stream path s) [
  | none ↦ (not_found, none)
  | some (si, stream) ↦ (status_ok, some stream)
]

abbrev pub close_replaced : Option StreamInfo → List Effect
close_replaced none = []
close_replaced (some si) = close_if close_stream si.stream ++ close_if close_session si.publisher

abbrev pub new_stream_info : ℕ → ℕ → ℕ → ℕ → StreamInfo
new_stream_info session stream description now = record {
  stream = some stream;
  publisher = some session;
  publisher_last_active = now;
  description = description;
  clients = [];
  created_at = now;
}

unfoldable pub on_announce : Bytes → ℕ → ℕ → ℕ → ℕ → Server → Server × StatusCode × List Effect
on_announce path session stream description now s =
    if leb s.config.max_streams (length s.streams) then (s, service_unavailable, []) else (
      record s { streams = insert path (new_stream_info session stream description now) s.streams },
      status_ok,
      close_replaced (lookup path s.streams),
    )

abbrev pub joining : UserData → ℕ → ℕ → ClientSession
joining user session now = record {
  id = user.client_id;
  session = session;
  remote_addr = user.remote_addr;
  is_local = user.is_local;
  conn_time = user.conn_time;
  last_active = now;
}

unfoldable pub on_setup : Bytes → ℕ → ℕ → Server → Server × StatusCode × Option ℕ
on_setup path session now s = elim (find_stream path s) [
  | none ↦ (s, not_found, none)
  | some (si, stream) ↦
      if is_publisher session si
      then (s, status_ok, some stream)
      else (elim (lookup session s.user_data) [
        | none ↦ (s, status_ok, some stream)
        | some user ↦ (
          record s { streams = insert path (add_client (joining user session now) si) s.streams },
          status_ok,
          some stream,
        )
      ])
]

abbrev pub seen_at : ℕ → ClientSession → ClientSession
seen_at now client = record client { last_active = now }

unfoldable pub touch_client : Bytes → ℕ → StreamInfo → StreamInfo
touch_client client_id now si = elim (lookup client_id si.clients) [
  | none ↦ si
  | some client ↦ record si { clients = insert client_id (seen_at now client) si.clients }
]

unfoldable pub on_play : Bytes → ℕ → ℕ → Server → Server × StatusCode
on_play path session now s = elim (lookup path s.streams) [
  | none ↦ (s, status_ok)
  | some si ↦ (elim (lookup session s.user_data) [
    | none ↦ (s, status_ok)
    | some user ↦ (
      record s { streams = insert path (touch_client user.client_id now si) s.streams },
      status_ok,
    )
  ])
]

-- With `status_ok` the session's packets go to the stream, by `on_packet`.
unfoldable pub on_record : Bytes → Server → StatusCode × Option ℕ
on_record path s = elim (find_stream path s) [
  | none ↦ (not_found, none)
  | some (si, stream) ↦ (status_ok, some stream)
]

unfoldable pub touch_stream : ℕ → ℕ → StreamInfo → StreamInfo
touch_stream stream now si = elim si.stream [
  | none ↦ si
  | some t ↦
      if t == stream
      then record si { publisher_last_active = now; clients = map_values (seen_at now) si.clients }
      else si
]

-- The callback of `OnRecord` holds the StreamInfo that was current then, here known by its stream:
-- once that entry has been replaced or deleted, a packet changes nothing that the table reaches.
unfoldable pub on_packet : ℕ → ℕ → Server → Server
on_packet stream now s = record s { streams = map_values (touch_stream stream now) s.streams }
