-- ===== src/WebrtcJs/SessionValidity.antt =====
-- The callback, the timer and the making of a session in pkg/webrtc_js/host.go keep what holds of
-- the host.
use mediasink.Prelude.{
  ℕ, ◌≡◌, refl, sym, subst, ◌⊎◌, inl, inr, none, some, arith, if◌then◌else◌, ◌==◌, nat_keys,
  bytes_keys, Option-cases, Bytes, lookup, insert,
}
use mediasink.WebrtcJs.State.{
  sdp_connected, sdp_failed, ConnectionState, new, connecting, connected, disconnected, failed,
  closed, ClientSession, update_activity, increase_active_connections, Host,
}
use mediasink.WebrtcJs.Sessions.{
  Created, no_peer_connection, no_track, track_not_added, made, new_session, get_or_create_session,
  change_session, send_parameter_sets, with_state, with_status, connection_lost, connection_made,
  on_connection_state_change, parameter_set_tick,
}
use mediasink.WebrtcJs.Invariant.{
  IsValid, insert-IsValid, IsSane-lookup, on_metrics-IsValid, increase_active-IsCounted,
  decrease_active-IsCounted, increase_failed-IsCounted,
}
use mediasink.WebrtcJs.Preservation.{change_session-IsValid, send_parameter_sets-IsValid}

connection_lost-IsValid :
    (id : Bytes) (pc : ℕ) (h : Host) → IsValid h → IsValid (connection_lost id pc h)
unfolding connection_lost
connection_lost-IsValid id pc h v =
    on_metrics-IsValid _ _ (λ m c. increase_failed-IsCounted _ (decrease_active-IsCounted m c))
      (change_session-IsValid id pc (with_status sdp_failed) h (λ cs s. s) v)

connection_made-IsValid :
    (id : Bytes) (pc sps pps now : ℕ) (h : Host)
    → IsValid h
    → IsValid (connection_made id pc sps pps now h)
unfolding connection_made
connection_made-IsValid id pc sps pps now h v = send_parameter_sets-IsValid id sps pps now _ (
    on_metrics-IsValid increase_active_connections _ increase_active-IsCounted
      (change_session-IsValid id pc (with_status sdp_connected) h (λ cs s. s) v))

changed_state :
    (id : Bytes) (pc : ℕ) (state : ConnectionState) (h : Host)
    → IsValid h
    → IsValid (change_session id pc (with_state state) h)
changed_state id pc state h v = change_session-IsValid id pc (with_state state) h (λ cs s. s) v

pub state_change-IsValid :
    (id : Bytes) (pc : ℕ) (state : ConnectionState) (sps pps now : ℕ) (h : Host)
    → IsValid h
    → IsValid (on_connection_state_change id pc state sps pps now h)
unfolding on_connection_state_change
state_change-IsValid id pc new sps pps now h v = changed_state id pc new h v
state_change-IsValid id pc connecting sps pps now h v = changed_state id pc connecting h v
state_change-IsValid id pc connected sps pps now h v =
    connection_made-IsValid id pc sps pps now _ (changed_state id pc connected h v)
state_change-IsValid id pc disconnected sps pps now h v =
    connection_lost-IsValid id pc _ (changed_state id pc disconnected h v)
state_change-IsValid id pc failed sps pps now h v =
    connection_lost-IsValid id pc _ (changed_state id pc failed h v)
state_change-IsValid id pc closed sps pps now h v =
    connection_lost-IsValid id pc _ (changed_state id pc closed h v)

-- The timer of a session goes on while it is connected.
tick_at :
    (id : Bytes) (cs : ClientSession) (state : ConnectionState) (sps pps now : ℕ) (h : Host)
    → lookup id h.clients ≡ some cs
    → cs.connection_state ≡ state
    → ((parameter_set_tick id sps pps now h).0 ≡ h)
      ⊎ ((parameter_set_tick id sps pps now h).0 ≡ (send_parameter_sets id sps pps now h).0)
unfolding parameter_set_tick
tick_at id cs new sps pps now h found e = inl (rw (found, parameter_set_tick, e) refl)
tick_at id cs connecting sps pps now h found e = inl (rw (found, parameter_set_tick, e) refl)
tick_at id cs connected sps pps now h found e = inr (rw (found, parameter_set_tick, e) refl)
tick_at id cs disconnected sps pps now h found e = inl (rw (found, parameter_set_tick, e) refl)
tick_at id cs failed sps pps now h found e = inl (rw (found, parameter_set_tick, e) refl)
tick_at id cs closed sps pps now h found e = inl (rw (found, parameter_set_tick, e) refl)

pub tick-IsValid :
    (id : Bytes) (sps pps now : ℕ) (h : Host)
    → IsValid h
    → IsValid (parameter_set_tick id sps pps now h).0
unfolding parameter_set_tick
tick-IsValid id sps pps now h v = elim (Option-cases (lookup id h.clients)) [
  | inl absent ↦ rw (absent, parameter_set_tick) v
  | inr (cs, found) ↦ (elim (tick_at id cs cs.connection_state sps pps now h found refl) [
    | inl still ↦ subst IsValid (sym still) v
    | inr sent ↦ subst IsValid (sym sent) (send_parameter_sets-IsValid id sps pps now h v)
  ])
]

new_session-IsValid :
    (id : Bytes) (ttl pc track now : ℕ) (h : Host)
    → IsValid h
    → IsValid (record h {
      clients =
          insert id
            (new_session pc track (if ttl == 0 then h.config.client_ttl else ttl) now)
            h.clients;
    })
new_session-IsValid id ttl pc track now h v =
    insert-IsValid id _ h (omega arith, ground (arith, v.ttl)) v

create_absent :
    (id : Bytes) (ttl : ℕ) (created : Created) (now : ℕ) (h : Host)
    → lookup id h.clients ≡ none
    → IsValid h
    → IsValid (get_or_create_session id ttl created now h).0
unfolding get_or_create_session
create_absent id ttl no_peer_connection now h absent v = rw (absent, get_or_create_session) v
create_absent id ttl no_track now h absent v = rw (absent, get_or_create_session) v
create_absent id ttl track_not_added now h absent v = rw (absent, get_or_create_session) v
create_absent id ttl (made pc track) now h absent v =
    rw (absent, get_or_create_session) (new_session-IsValid id ttl pc track now h v)

pub create-IsValid :
    (id : Bytes) (ttl : ℕ) (created : Created) (now : ℕ) (h : Host)
    → IsValid h
    → IsValid (get_or_create_session id ttl created now h).0
unfolding get_or_create_session
create-IsValid id ttl created now h v = elim (Option-cases (lookup id h.clients)) [
  | inl absent ↦ create_absent id ttl created now h absent v
  | inr (cs, found) ↦
      rw (found, get_or_create_session)
        (unfold update_activity in insert-IsValid id _ h (IsSane-lookup id cs h found v) v)
]
