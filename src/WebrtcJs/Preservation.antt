-- ===== src/WebrtcJs/Preservation.antt =====
-- Every step of pkg/webrtc_js/host.go keeps what holds of the host.
use mediasink.Prelude.{
  ℕ, ◌+◌, ◌≡◌, refl, sym, subst, inl, inr, Bool, true, false, some, List, [], ◌∷◌, arith,
  if◌then◌else◌, ◌==◌, nat_keys, bytes_keys, Bool-cases, Option-cases, length, length-append, Bytes,
  Map, lookup, Distinct, Distinct-retain,
}
use mediasink.Prelude.{Entries-retain}
use mediasink.WebrtcJs.State.{
  ClientSession, update_activity, is_expired, Metrics, decrease_active_connections, Host,
}
use mediasink.WebrtcJs.Sessions.{
  change_session, has_room, enqueue, store, sps_data, pps_data, parameter_set, send_parameter_sets,
}
use mediasink.WebrtcJs.Requests.{on_client}
use mediasink.WebrtcJs.Broadcast.{
  with_ssrc, process_rtp_packet, ids, write_each, write_rtp, forward_rtp_packet,
}
use mediasink.WebrtcJs.Upkeep.{expire, cleanup_expired_clients}
use mediasink.WebrtcJs.Fanout.{write_rtp_runs}
use mediasink.WebrtcJs.Expiry.{expire-retain}
use mediasink.WebrtcJs.Invariant.{
  IsSane, AllSane, IsCounted, IsValid, insert-IsValid, IsSane-lookup, packets-IsValid,
  on_metrics-IsValid, decrease_active-IsCounted, add_data-IsCounted,
}

-- A session of the table that is changed in place.
pub change-IsValid :
    (id : Bytes) (f : ClientSession → ClientSession) (h : Host)
    → ((cs : ClientSession) → IsSane cs → IsSane (f cs))
    → IsValid h
    → IsValid (on_client id f h)
change-IsValid id f h keep v = elim (Option-cases (lookup id h.clients)) [
  | inl absent ↦ rw (absent, on_client) v
  | inr (cs, found) ↦
      rw (found, on_client) (insert-IsValid id (f cs) h (keep cs (IsSane-lookup id cs h found v)) v)
]

pub change_session-IsValid :
    (id : Bytes) (pc : ℕ) (f : ClientSession → ClientSession) (h : Host)
    → ((cs : ClientSession) → IsSane cs → IsSane (f cs))
    → IsValid h
    → IsValid (change_session id pc f h)
unfolding change_session
change_session-IsValid id pc f h keep v = elim (Option-cases (lookup id h.clients)) [
  | inl absent ↦ rw (absent, change_session) v
  | inr (cs, found) ↦ (elim (Bool-cases (cs.peer_connection == pc)) [
    | inl same ↦
        rw (found, change_session, same)
          (insert-IsValid id (f cs) h (keep cs (IsSane-lookup id cs h found v)) v)
    | inr another ↦ rw (found, change_session, another) v
  ])
]

pub enqueue-IsSane :
    (packet now : ℕ) (cs : ClientSession)
    → has_room cs ≡ true
    → IsSane cs
    → IsSane (enqueue packet now cs)
unfolding enqueue update_activity
enqueue-IsSane packet now cs room (fits, lives) =
    (ground (arith, room, length-append cs.rtp_chan (packet ∷ [])), lives)

pub send_parameter_sets-IsValid :
    (id : Bytes) (sps pps now : ℕ) (h : Host)
    → IsValid h
    → IsValid (send_parameter_sets id sps pps now h).0
unfolding send_parameter_sets
send_parameter_sets-IsValid id sps pps now h v = elim (Option-cases (lookup id h.clients)) [
  | inl absent ↦ rw (absent, send_parameter_sets) v
  | inr (cs, found) ↦
      let s = IsSane-lookup id cs h found v in
      let packets =
        store pps (parameter_set cs pps_data) (store sps (parameter_set cs sps_data) h.packets) in
      let t = packets-IsValid packets h v in
      (elim (Bool-cases (has_room cs)) [
        | inr full ↦ rw (found, send_parameter_sets, full) t
        | inl room ↦
            let first = enqueue-IsSane sps now cs room s in
            (elim (Bool-cases (has_room (enqueue sps now cs))) [
              | inl more ↦
                  rw (found, send_parameter_sets, room, more)
                    (insert-IsValid id _ _ (enqueue-IsSane pps now (enqueue sps now cs) more first)
                      t)
              | inr full ↦
                  rw (found, send_parameter_sets, room, full) (insert-IsValid id _ _ first t)
            ])
      ])
]

pub process-IsValid :
    (id : Bytes) (packet now : ℕ) (h : Host)
    → IsValid h
    → IsValid (process_rtp_packet id packet now h).0
unfolding process_rtp_packet
process-IsValid id packet now h v = elim (Option-cases (lookup id h.clients)) [
  | inl absent ↦ rw (absent, process_rtp_packet) v
  | inr (cs, found) ↦
      let t =
        packets-IsValid (store packet (with_ssrc cs.primary_ssrc (h.packets packet)) h.packets) h
          v in
      (elim (Bool-cases (has_room cs)) [
        | inl room ↦
            rw (found, process_rtp_packet, room)
              (insert-IsValid id _ _
                (enqueue-IsSane packet now cs room (IsSane-lookup id cs h found v)) t)
        | inr full ↦ rw (found, process_rtp_packet, full) t
      ])
]

pub write_each-IsValid :
    (names : List Bytes) (packet now count : ℕ) (h : Host)
    → IsValid h
    → IsValid (write_each names packet now count h).0
unfolding write_each
write_each-IsValid [] packet now count h v = v
write_each-IsValid (id ∷ rest) packet now count h v =
    let (t, sent) = process_rtp_packet id packet now h in
    write_each-IsValid rest packet now (if sent then count + 1 else count) t
      (process-IsValid id packet now h v)

pub write_rtp-IsValid : (packet now : ℕ) (h : Host) → IsValid h → IsValid (write_rtp packet now h).0
write_rtp-IsValid packet now h v =
    subst IsValid (sym (write_rtp_runs packet now h).0)
      (write_each-IsValid (ids h.clients) packet now 0 h v)

pub tail-IsSane :
    (cs : ClientSession) (p : ℕ) (rest : List ℕ)
    → cs.rtp_chan ≡ p ∷ rest
    → IsSane cs
    → IsSane (record cs { rtp_chan = rest })
tail-IsSane cs p rest e (fits, lives) = (ground (arith, e), lives)

pub forward_at :
    (id : Bytes) (cs : ClientSession) (queue : List ℕ) (written : Bool) (h : Host)
    → lookup id h.clients ≡ some cs
    → cs.rtp_chan ≡ queue
    → IsValid h
    → IsValid (forward_rtp_packet id written h).0
unfolding forward_rtp_packet
forward_at id cs [] written h found e v = rw (found, forward_rtp_packet, e) v
forward_at id cs (p ∷ rest) true h found e v =
    rw (found, forward_rtp_packet, e)
      (on_metrics-IsValid _ _ (add_data-IsCounted (length (h.packets p).payload))
        (insert-IsValid id _ h (tail-IsSane cs p rest e (IsSane-lookup id cs h found v)) v))
forward_at id cs (p ∷ rest) false h found e v =
    rw (found, forward_rtp_packet, e)
      (insert-IsValid id _ h (tail-IsSane cs p rest e (IsSane-lookup id cs h found v)) v)

pub forward-IsValid :
    (id : Bytes) (written : Bool) (h : Host)
    → IsValid h
    → IsValid (forward_rtp_packet id written h).0
unfolding forward_rtp_packet
forward-IsValid id written h v = elim (Option-cases (lookup id h.clients)) [
  | inl absent ↦ rw (absent, forward_rtp_packet) v
  | inr (cs, found) ↦ forward_at id cs cs.rtp_chan written h found refl v
]

pub expire-IsCounted :
    (now : ℕ) (clients : Map Bytes ClientSession) (m : Metrics)
    → IsCounted m
    → IsCounted (expire now clients m).1
unfolding expire
expire-IsCounted now [] m c = c
expire-IsCounted now ((id, cs) ∷ clients) m c =
    let keep = expire-IsCounted now clients m c in
    let dropped =
      expire-IsCounted now clients (decrease_active_connections m)
        (decrease_active-IsCounted m c) in
    elim (Bool-cases (is_expired now cs)) [ inl gone ↦ rw gone dropped | inr stays ↦ rw stays keep ]

pub expire-IsValid : (now : ℕ) (h : Host) → IsValid h → IsValid (cleanup_expired_clients now h).0
unfolding cleanup_expired_clients
expire-IsValid now h v = record {
  distinct =
      subst Distinct (sym (expire-retain now h.clients h.metrics))
        (Distinct-retain _ h.clients v.distinct);
  sane =
      subst AllSane (sym (expire-retain now h.clients h.metrics))
        (Entries-retain _ _ h.clients v.sane);
  counted = expire-IsCounted now h.clients h.metrics v.counted;
  recent = v.recent;
  ttl = v.ttl;
}
