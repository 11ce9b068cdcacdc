-- ===== src/WebrtcJs/Sessions.antt =====
-- The life of a session in pkg/webrtc_js/host.go: getOrCreateSession and the callback for changes of
-- the connection's state, with the parameter sets that it sends.
use mediasink.Prelude.{
  ℕ, Bool, true, false, not, none, some, [], ◌∷◌, ◌++◌, ltb, if◌then◌else◌, ◌==◌, nat_keys,
  bytes_keys, length, Bytes, lookup, insert,
}
use mediasink.WebrtcJs.State.{
  SdpStatus, requested, sdp_connected, sdp_failed, ConnectionState, new, connected, disconnected,
  failed, closed, ClientSession, chan_capacity, update_activity, increase_active_connections,
  decrease_active_connections, increase_failed_connections, Packet, Host, on_metrics,
}

-- How far the WebRTC library gets with a new session.
pub data Created : Type 0 where
  no_peer_connection no_track track_not_added : Created
  made : ℕ → ℕ → Created

abbrev pub new_session : ℕ → ℕ → ℕ → ℕ → ClientSession
new_session pc track ttl now = record {
  peer_connection = pc;
  video_track = track;
  primary_ssrc = 0;
  rtx_ssrc = 0;
  sdp_status = requested;
  ttl = ttl;
  connection_state = new;
  rtp_chan = [];
  last_activity = now;
}

-- Whether there is a session of the id, old or new, at the end; a ttl of zero is the default.
unfoldable pub get_or_create_session : Bytes → ℕ → Created → ℕ → Host → Host × Bool
unfolding update_activity
get_or_create_session id ttl created now h = elim (lookup id h.clients) [
  | some cs ↦ (record h { clients = insert id (update_activity now cs) h.clients }, true)
  | none ↦ (elim created [
    | made pc track ↦ (
      record h {
        clients =
            insert id (new_session pc track (if ttl == 0 then h.config.client_ttl else ttl) now)
              h.clients;
      },
      true,
    )
    | _ ↦ (h, false)
  ])
]

-- A change of the session with a peer connection; of one that is in the table no more, it is not
-- seen.
unfoldable pub change_session : Bytes → ℕ → (ClientSession → ClientSession) → Host → Host
change_session id pc f h = elim (lookup id h.clients) [
  | none ↦ h
  | some cs ↦
      if cs.peer_connection == pc then record h { clients = insert id (f cs) h.clients } else h
]

-- A send that does not block.
abbrev pub has_room : ClientSession → Bool
has_room cs = ltb (length cs.rtp_chan) chan_capacity

unfoldable pub enqueue : ℕ → ℕ → ClientSession → ClientSession
unfolding update_activity
enqueue packet now cs = update_activity now (record cs { rtp_chan = cs.rtp_chan ++ packet ∷ [] })

-- `*p = v`
abbrev pub store : ℕ → Packet → (ℕ → Packet) → ℕ → Packet
store p v packets q = if p == q then v else packets q

abbrev pub sps_data : Bytes
sps_data =
    103 ∷ 66 ∷ 192 ∷ 31 ∷ 166 ∷ 128 ∷ 216 ∷ 61 ∷ 230 ∷ 225 ∷ 0 ∷ 0 ∷ 3 ∷ 0 ∷ 1 ∷ 0 ∷ 0 ∷ 3 ∷ 0 ∷ 50
    ∷ 224 ∷ 32 ∷ 0 ∷ 19 ∷ 18 ∷ 208 ∷ 0 ∷ 9 ∷ 137 ∷ 110 ∷ 41 ∷ 32 ∷ 7 ∷ 140 ∷ 25 ∷ 80 ∷ []

abbrev pub pps_data : Bytes
pps_data = 104 ∷ 206 ∷ 62 ∷ 128 ∷ []

abbrev pub parameter_set : ClientSession → Bytes → Packet
parameter_set cs payload = record { payload_type = 102; ssrc = cs.primary_ssrc; payload = payload }

-- `sendParameterSets`, which makes the packets `sps` and `pps`; whether both went into the channel.
-- The lookup and the sends are one step; that the cleanup closes the channel in between, which makes
-- the send panic in the source, is left out.
unfoldable pub send_parameter_sets : Bytes → ℕ → ℕ → ℕ → Host → Host × Bool
unfolding enqueue
send_parameter_sets id sps pps now h = elim (lookup id h.clients) [
  | none ↦ (h, false)
  | some cs ↦
      let t = record h {
        packets =
            store pps (parameter_set cs pps_data) (store sps (parameter_set cs sps_data) h.packets);
      } in
      let first = enqueue sps now cs in
      if not (has_room cs)
      then (t, false)
      else (if has_room first
          then (record t { clients = insert id (enqueue pps now first) h.clients }, true)
          else (record t { clients = insert id first h.clients }, false))
]

abbrev pub with_state : ConnectionState → ClientSession → ClientSession
with_state state cs = record cs { connection_state = state }

abbrev pub with_status : SdpStatus → ClientSession → ClientSession
with_status status cs = record cs { sdp_status = status }

unfoldable pub connection_lost : Bytes → ℕ → Host → Host
unfolding change_session
connection_lost id pc h =
    on_metrics (λ m. increase_failed_connections (decrease_active_connections m))
      (change_session id pc (with_status sdp_failed) h)

unfoldable pub connection_made : Bytes → ℕ → ℕ → ℕ → ℕ → Host → Host
unfolding change_session send_parameter_sets
connection_made id pc sps pps now h =
    (send_parameter_sets id sps pps now (
      on_metrics increase_active_connections
        (change_session id pc (with_status sdp_connected) h))).0

-- The callback of OnConnectionStateChange, of the session of an id with its peer connection.
unfoldable pub on_connection_state_change : Bytes → ℕ → ConnectionState → ℕ → ℕ → ℕ → Host → Host
unfolding change_session connection_made connection_lost
on_connection_state_change id pc state sps pps now h =
    let t = change_session id pc (with_state state) h in
    elim state [
      | connected ↦ connection_made id pc sps pps now t
      | disconnected ↦ connection_lost id pc t
      | failed ↦ connection_lost id pc t
      | closed ↦ connection_lost id pc t
      | _ ↦ t
    ]

-- One tick of the timer of a session: whether it goes on.
unfoldable pub parameter_set_tick : Bytes → ℕ → ℕ → ℕ → Host → Host × Bool
unfolding send_parameter_sets
parameter_set_tick id sps pps now h = elim (lookup id h.clients) [
  | none ↦ (h, false)
  | some cs ↦ (elim cs.connection_state [
    | connected ↦ ((send_parameter_sets id sps pps now h).0, true)
    | _ ↦ (h, false)
  ])
]
