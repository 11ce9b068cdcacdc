-- ===== src/WebrtcJs/Broadcast.antt =====
-- The packet path of pkg/webrtc_js/host.go: ProcessRTPPacket, WriteRTP and forwardRTPPackets. The
-- packets are shared: a channel holds the pointer that was sent.
use mediasink.Prelude.{
  ℕ, ◌+◌, Bool, true, false, Option, none, some, List, [], ◌∷◌, map, ltb, if◌then◌else◌, nat_keys,
  bytes_keys, length, Bytes, Map, lookup, insert,
}
use mediasink.WebrtcJs.State.{ClientSession, add_data_sent, Packet, Host, on_metrics}
use mediasink.WebrtcJs.Sessions.{has_room, enqueue, store}

abbrev pub with_ssrc : ℕ → Packet → Packet
with_ssrc ssrc p = record p { ssrc = ssrc }

-- The packet is stamped with the session's SSRC in place, and then goes into its channel if there
-- is room; whether it did.
unfoldable pub process_rtp_packet : Bytes → ℕ → ℕ → Host → Host × Bool
unfolding enqueue
process_rtp_packet id packet now h = elim (lookup id h.clients) [
  | none ↦ (h, false)
  | some cs ↦
      let t = record h {
        packets = store packet (with_ssrc cs.primary_ssrc (h.packets packet)) h.packets;
      } in
      if has_room cs
      then (record t { clients = insert id (enqueue packet now cs) t.clients }, true)
      else (t, false)
]

abbrev pub ids : Map Bytes ClientSession → List Bytes
ids = map (λ entry. entry.0)

-- The loop over the sessions' ids, with the number of successes so far.
unfoldable pub write_each : List Bytes → ℕ → ℕ → ℕ → Host → Host × ℕ
unfolding process_rtp_packet
write_each [] packet now count h = (h, count)
write_each (id ∷ rest) packet now count h =
    let (t, sent) = process_rtp_packet id packet now h in
    write_each rest packet now (if sent then count + 1 else count) t

-- Whether WriteRTP returns no error.
unfoldable pub write_rtp : ℕ → ℕ → Host → Host × Bool
unfolding write_each
write_rtp packet now h = elim h.clients [
  | [] ↦ (h, false)
  | c ∷ cs ↦ let (t, count) = write_each (ids h.clients) packet now 0 h in (t, ltb 0 count)
]

-- One round of forwardRTPPackets, for a session in the table: the oldest packet goes to the track, as
-- it is in memory then. What is returned is the packet that the track is handed. The goroutine takes no
-- lock, so that a round can come between two sessions of a broadcast: `write_each` over a part of the
-- table is such a point. The packets that are left in a channel when its session leaves the table, which
-- the goroutine still forwards in the source, are left out.
unfoldable pub forward_rtp_packet : Bytes → Bool → Host → Host × Option Packet
unfolding add_data_sent
forward_rtp_packet id written h = elim (lookup id h.clients) [
  | none ↦ (h, none)
  | some cs ↦ (elim cs.rtp_chan [
    | [] ↦ (h, none)
    | p ∷ rest ↦
        let t = record h { clients = insert id (record cs { rtp_chan = rest }) h.clients } in
        (
          if written then on_metrics (add_data_sent (length (h.packets p).payload)) t else t,
          some (h.packets p),
        )
  ])
]

-- Raw bytes are dropped.
unfoldable pub write : Bytes → Host → Host × Bool
write payload h = (h, true)
