-- ===== src/WebrtcJs/Counting.antt =====
-- What the counters of pkg/webrtc_js/host.go count.
use mediasink.Prelude.{
  ℕ, suc, ◌+◌, ◌≤◌, ◌<◌, ◌≡◌, refl, sym, ap, ◌∙◌, subst, Bool, true, false, some, List, [], ◌∷◌,
  arith, leb, if◌then◌else◌, ◌==◌, nat_keys, bytes_keys, list_beq_iff, length, Bytes, lookup,
  contains, insert, lookup-insert_self, lookup-ne_contains, contains-insert, length-insert,
}
use mediasink.WebrtcJs.State.{
  sdp_connected, sdp_failed, ConnectionState, new, connecting, connected, disconnected, failed,
  closed, ClientSession, Metrics, uint8, increase_active_connections, decrease_active_connections,
  increase_failed_connections, Host, on_metrics,
}
use mediasink.WebrtcJs.Sessions.{
  Created, made, new_session, get_or_create_session, change_session, send_parameter_sets,
  with_state, with_status, connection_lost, connection_made, on_connection_state_change,
}
use mediasink.WebrtcJs.Requests.{
  Status, status_ok, extract_ssrc_from_sdp, Body, decoded, Offered, offered, send_offer,
  handle_offer_request, request_handler, fail, is_empty, with_offer, on_client,
}

pub change_session-metrics :
    (id : Bytes) (pc : ℕ) (f : ClientSession → ClientSession) (h : Host)
    → (change_session id pc f h).metrics ≡ h.metrics
unfolding change_session
change_session-metrics id pc f h = ground arith

pub send_parameter_sets-metrics :
    (id : Bytes) (sps pps now : ℕ) (h : Host)
    → (send_parameter_sets id sps pps now h).0.metrics ≡ h.metrics
unfolding send_parameter_sets
send_parameter_sets-metrics id sps pps now h = ground arith

connection_lost-metrics :
    (id : Bytes) (pc : ℕ) (h : Host)
    → (connection_lost id pc h).metrics
      ≡ increase_failed_connections (decrease_active_connections h.metrics)
unfolding connection_lost
connection_lost-metrics id pc h =
    ap (λ (m : Metrics). increase_failed_connections (decrease_active_connections m))
      (change_session-metrics id pc (with_status sdp_failed) h)

connection_made-metrics :
    (id : Bytes) (pc sps pps now : ℕ) (h : Host)
    → (connection_made id pc sps pps now h).metrics ≡ increase_active_connections h.metrics
unfolding connection_made
connection_made-metrics id pc sps pps now h =
    send_parameter_sets-metrics id sps pps now
      (on_metrics increase_active_connections (change_session id pc (with_status sdp_connected) h))
    ∙ ap increase_active_connections (change_session-metrics id pc (with_status sdp_connected) h)

lost :
    (id : Bytes) (pc : ℕ) (state : ConnectionState) (h : Host)
    → (connection_lost id pc (change_session id pc (with_state state) h)).metrics
      ≡ increase_failed_connections (decrease_active_connections h.metrics)
lost id pc state h =
    connection_lost-metrics id pc (change_session id pc (with_state state) h)
    ∙ ap (λ (m : Metrics). increase_failed_connections (decrease_active_connections m))
        (change_session-metrics id pc (with_state state) h)

-- What a change of state does to the counters.
unfoldable pub count_change : ConnectionState → Metrics → Metrics
count_change connected m = increase_active_connections m
count_change disconnected m = increase_failed_connections (decrease_active_connections m)
count_change failed m = increase_failed_connections (decrease_active_connections m)
count_change closed m = increase_failed_connections (decrease_active_connections m)
count_change _ m = m

pub state_change-metrics :
    (id : Bytes) (pc : ℕ) (state : ConnectionState) (sps pps now : ℕ) (h : Host)
    → (on_connection_state_change id pc state sps pps now h).metrics ≡ count_change state h.metrics
unfolding on_connection_state_change count_change
state_change-metrics id pc new sps pps now h = change_session-metrics id pc (with_state new) h
state_change-metrics id pc connecting sps pps now h =
    change_session-metrics id pc (with_state connecting) h
state_change-metrics id pc connected sps pps now h =
    let t = change_session id pc (with_state connected) h in
    connection_made-metrics id pc sps pps now t
    ∙ ap increase_active_connections (change_session-metrics id pc (with_state connected) h)
state_change-metrics id pc disconnected sps pps now h = lost id pc disconnected h
state_change-metrics id pc failed sps pps now h = lost id pc failed h
state_change-metrics id pc closed sps pps now h = lost id pc closed h

-- A run of changes of the state of one connection.
unfoldable pub changes : Bytes → ℕ → List ConnectionState → ℕ → ℕ → ℕ → Host → Host
changes id pc [] sps pps now h = h
changes id pc (state ∷ states) sps pps now h =
    changes id pc states sps pps now (on_connection_state_change id pc state sps pps now h)

unfoldable pub count_changes : List ConnectionState → Metrics → Metrics
unfolding count_change
count_changes [] m = m
count_changes (state ∷ states) m = count_changes states (count_change state m)

changes-metrics :
    (id : Bytes) (pc : ℕ) (states : List ConnectionState) (sps pps now : ℕ) (h : Host)
    → (changes id pc states sps pps now h).metrics ≡ count_changes states h.metrics
unfolding changes count_changes
changes-metrics id pc [] sps pps now h = refl
changes-metrics id pc (state ∷ states) sps pps now h =
    changes-metrics id pc states sps pps now (on_connection_state_change id pc state sps pps now h)
    ∙ ap (count_changes states) (state_change-metrics id pc state sps pps now h)

-- The states of a run that mean a loss.
unfoldable pub lost_states : List ConnectionState → ℕ
lost_states [] = 0
lost_states (disconnected ∷ states) = suc (lost_states states)
lost_states (failed ∷ states) = suc (lost_states states)
lost_states (closed ∷ states) = suc (lost_states states)
lost_states (_ ∷ states) = lost_states states

pub count_lost :
    (m : Metrics)
    → (increase_failed_connections (decrease_active_connections m)).failed_connections
      ≡ uint8 (m.failed_connections + 1)
unfolding increase_failed_connections decrease_active_connections
count_lost m = ground arith

pub count_gained :
    (m : Metrics) → (increase_active_connections m).failed_connections ≡ m.failed_connections
unfolding increase_active_connections
count_gained m = refl

abbrev counted_loss : Metrics → Metrics
counted_loss m = increase_failed_connections (decrease_active_connections m)

later_lost :
    (states : List ConnectionState) (m : Metrics)
    → let n = counted_loss m in
      (count_changes states n).failed_connections
        ≡ uint8 (n.failed_connections + lost_states states)
      → (count_changes states n).failed_connections
        ≡ uint8 (m.failed_connections + suc (lost_states states))
later_lost states m later = later ∙ omega (arith, count_lost m)

count_changes-failed :
    (states : List ConnectionState) (m : Metrics)
    → m.failed_connections < 256
    → (count_changes states m).failed_connections
      ≡ uint8 (m.failed_connections + lost_states states)
unfolding count_changes lost_states count_change
count_changes-failed [] m h = omega arith
count_changes-failed (new ∷ states) m h = count_changes-failed states m h
count_changes-failed (connecting ∷ states) m h = count_changes-failed states m h
count_changes-failed (connected ∷ states) m h =
    count_changes-failed states (increase_active_connections m) (ground (arith, count_gained m))
    ∙ ground (arith, count_gained m)
count_changes-failed (disconnected ∷ states) m h =
    later_lost states m
      (count_changes-failed states (counted_loss m) (ground (arith, count_lost m)))
count_changes-failed (failed ∷ states) m h =
    later_lost states m
      (count_changes-failed states (counted_loss m) (ground (arith, count_lost m)))
count_changes-failed (closed ∷ states) m h =
    later_lost states m
      (count_changes-failed states (counted_loss m) (ground (arith, count_lost m)))

-- Over any run of changes of a connection's state, the failed connections grow, modulo 256, by the
-- number of changes to disconnected, failed or closed.
pub changes-failed_connections :
    (id : Bytes) (pc : ℕ) (states : List ConnectionState) (sps pps now : ℕ) (h : Host)
    → h.metrics.failed_connections < 256
    → (changes id pc states sps pps now h).metrics.failed_connections
      ≡ uint8 (h.metrics.failed_connections + lost_states states)
changes-failed_connections id pc states sps pps now h small =
    ap (λ (m : Metrics). m.failed_connections) (changes-metrics id pc states sps pps now h)
    ∙ count_changes-failed states h.metrics small

down_twice :
    (m : Metrics)
    → 1 ≤ m.active_connections
    → m.active_connections < 255
    → (count_changes (connecting ∷ connected ∷ disconnected ∷ closed ∷ []) m).active_connections + 1
      ≡ m.active_connections
unfolding count_changes count_change increase_active_connections decrease_active_connections
    increase_failed_connections
down_twice m some_other few = ground arith

-- A connection that comes up, goes down and is closed is counted once and uncounted twice: if at
-- least one other connection is counted, and fewer than 255 are, then one fewer is counted behind it
-- than before it.
pub disconnect_counts_twice :
    (id : Bytes) (pc sps pps now : ℕ) (h : Host)
    → 1 ≤ h.metrics.active_connections
    → h.metrics.active_connections < 255
    → (changes id pc
          (connecting ∷ connected ∷ disconnected ∷ closed ∷ [])
          sps
          pps
          now
          h).metrics.active_connections
        + 1
      ≡ h.metrics.active_connections
disconnect_counts_twice id pc sps pps now h some_other few =
    ap (λ (m : Metrics). m.active_connections + 1)
      (changes-metrics id pc (connecting ∷ connected ∷ disconnected ∷ closed ∷ []) sps pps now h)
    ∙ down_twice h.metrics some_other few

abbrev with_client : Bytes → ClientSession → Host → Host
with_client id cs h = record h { clients = insert id cs h.clients }

get_or_create-fresh :
    (id : Bytes) (ttl pc track now : ℕ) (h : Host)
    → contains id h.clients ≡ false
    → get_or_create_session id ttl (made pc track) now h ≡ (
      with_client id (new_session pc track (if ttl == 0 then h.config.client_ttl else ttl) now) h,
      true,
    )
unfolding get_or_create_session
get_or_create-fresh id ttl pc track now h fresh =
    rw (lookup-ne_contains id h.clients fresh, get_or_create_session) refl

on_client-found :
    (id : Bytes) (cs : ClientSession) (f : ClientSession → ClientSession) (h : Host)
    → lookup id h.clients ≡ some cs
    → on_client id f h ≡ with_client id (f cs) h
on_client-found id cs f h found = rw (found, on_client) refl

passes_guards :
    (id remote_addr : Bytes) (body : Body ℕ) (created : Created) (offer : Offered)
    (order : List ℕ → List ℕ) (text : Bytes) (now : ℕ) (h : Host)
    → is_empty id ≡ false
    → h.config.allow_local_only ≡ false
    → leb h.config.total_connections h.metrics.active_connections ≡ false
    → request_handler id remote_addr true body created offer order text now h
      ≡ handle_offer_request id body created offer order text now h
unfolding request_handler
passes_guards id remote_addr body created offer order text now h named open_to under =
    simp (named, open_to, under) refl

send_offer-new :
    (id : Bytes) (cs : ClientSession) (sdp : Bytes) (order : List ℕ → List ℕ) (text : Bytes)
    (h : Host)
    → contains id h.clients ≡ false
    → let r = send_offer id (offered sdp true) order text (with_client id cs h) in
      (r.1 ≡ status_ok) × (length r.0.clients ≡ suc (length h.clients)) × (r.0.metrics ≡ h.metrics)
unfolding send_offer
send_offer-new id cs sdp order text h fresh =
    let stored =
      on_client-found id cs (with_offer (extract_ssrc_from_sdp order sdp)) (with_client id cs h)
        (lookup-insert_self id cs h.clients) in
    (
      refl,
      ap (λ (t : Host). length t.clients) stored
          ∙ ground (
            arith,
            length-insert id (with_offer (extract_ssrc_from_sdp order sdp) cs)
                (insert id cs h.clients),
            length-insert id cs h.clients,
            contains-insert id id cs h.clients,
            list_beq_iff id id,
          ),
      ap (λ (t : Host). t.metrics) stored,
    )

-- A POST with an id that has no session yet, decoded and offered without an error, is answered
-- well while fewer connections are counted than the configuration allows and any address is let
-- in: it adds a session, and it leaves all the counters as they are.
pub request_adds_uncounted :
    (id remote_addr : Bytes) (ttl pc track : ℕ) (sdp : Bytes) (order : List ℕ → List ℕ)
    (text : Bytes) (now : ℕ) (h : Host)
    → is_empty id ≡ false
    → contains id h.clients ≡ false
    → h.config.allow_local_only ≡ false
    → h.metrics.active_connections < h.config.total_connections
    → let r =
        request_handler id remote_addr true
          (decoded ttl)
          (made pc track)
          (offered sdp true)
          order
          text
          now
          h in
      (r.1 ≡ status_ok) × (length r.0.clients ≡ suc (length h.clients)) × (r.0.metrics ≡ h.metrics)
unfolding handle_offer_request
request_adds_uncounted id remote_addr ttl pc track sdp order text now h named fresh open_to under =
    let offer = offered sdp true in
    let runs =
      passes_guards id remote_addr (decoded ttl) (made pc track) offer order text now h named
        open_to (ground arith)
      ∙ ap (λ (r : Host × Bool). if r.1 then send_offer id offer order text r.0 else fail text r.0)
          (get_or_create-fresh id ttl pc track now h fresh) in
    subst
      (λ (r : Host × Status).
        (r.1 ≡ status_ok)
        × (length r.0.clients ≡ suc (length h.clients))
        × (r.0.metrics ≡ h.metrics))
      (sym runs)
      (send_offer-new id (new_session pc track (if ttl == 0 then h.config.client_ttl else ttl) now)
        sdp order text h fresh)
