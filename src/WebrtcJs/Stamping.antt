-- ===== src/WebrtcJs/Stamping.antt =====
-- What the tracks are handed while a broadcast of pkg/webrtc_js/host.go goes on: WriteRTP stamps one
-- packet for every session, and forwardRTPPackets takes no lock.
use mediasink.Prelude.{
  ℕ, ◌+◌, ◌≡◌, refl, sym, ap, ◌∙◌, inl, inr, Bool, true, false, Option, none, some, List, [], ◌∷◌,
  ◌++◌, subst, arith, if◌then◌else◌, ◌==◌, ==_sound, nat_keys, bytes_keys, Bool-cases, Bytes, Map,
  lookup, contains, Distinct,
}
use mediasink.WebrtcJs.State.{ClientSession, Packet, Host}
use mediasink.WebrtcJs.Sessions.{has_room, enqueue}
use mediasink.WebrtcJs.Broadcast.{
  process_rtp_packet, ids, write_each, write_rtp, forward_rtp_packet,
}
use mediasink.WebrtcJs.Fanout.{
  offer, if_yes, lookup-write_each, not_in_cons, Agree, Agree-self, write_each-counts, last_ssrc,
  write_rtp_runs,
}

-- What a track is handed.
abbrev pub ssrc_sent : Option Packet → Option ℕ
ssrc_sent none = none
ssrc_sent (some p) = some p.ssrc

forward-head :
    (k : Bytes) (cs : ClientSession) (p : ℕ) (rest : List ℕ) (written : Bool) (h : Host)
    → lookup k h.clients ≡ some cs
    → cs.rtp_chan ≡ p ∷ rest
    → (forward_rtp_packet k written h).1 ≡ some (h.packets p)
unfolding forward_rtp_packet
forward-head k cs p rest written h found waits = rw (found, forward_rtp_packet, waits) refl

contains-left :
    (m rest : Map Bytes ClientSession) (i : Bytes)
    → contains i (m ++ rest) ≡ false
    → contains i m ≡ false
unfolding contains
contains-left [] rest i h = refl
contains-left ((j, c) ∷ m) rest i h =
    let parts = not_in_cons i j c (m ++ rest) h in
    let later = contains-left m rest i parts.1 in ground (arith, parts.0, later)

Distinct-left : (m rest : Map Bytes ClientSession) → Distinct (m ++ rest) → Distinct m
Distinct-left [] rest d = tt
Distinct-left ((i, c) ∷ m) rest d = (contains-left m rest i d.0, Distinct-left m rest d.1)

Agree-left :
    (m rest clients : Map Bytes ClientSession) → Agree (m ++ rest) clients → Agree m clients
Agree-left [] rest clients a = tt
Agree-left ((i, c) ∷ m) rest clients a = (a.0, Agree-left m rest clients a.1)

lookup-Agree :
    (k : Bytes) (cs : ClientSession) (m clients : Map Bytes ClientSession)
    → Agree m clients
    → lookup k m ≡ some cs
    → (lookup k clients ≡ some cs) × (contains k m ≡ true)
unfolding lookup contains
lookup-Agree k cs [] clients a found = cc
lookup-Agree k cs ((i, c) ∷ m) clients a found = elim (Bool-cases (i == k)) [
  | inl same ↦
      let own : c ≡ cs = ground (arith, found, same) in
      (
        ap (λ (x : Bytes). lookup x clients) (sym (==_sound i k same)) ∙ a.0 ∙ ap some own,
        ground (arith, same),
      )
  | inr other ↦
      let (there, known) = lookup-Agree k cs m clients a.1 (ground (arith, found, other)) in
      (there, ground (arith, known))
]

write_each-append :
    (m rest : Map Bytes ClientSession) (packet now count : ℕ) (h : Host)
    → let (t, sent) = write_each (ids m) packet now count h in
      write_each (ids (m ++ rest)) packet now count h ≡ write_each (ids rest) packet now sent t
unfolding write_each
write_each-append [] rest packet now count h = refl
write_each-append ((i, c) ∷ m) rest packet now count h =
    let (t, sent) = process_rtp_packet i packet now h in
    write_each-append m rest packet now (if sent then count + 1 else count) t

-- The sessions share the packet. Let a broadcast over a table in which no id stands twice have come
-- to any point of its range, and let a session whose turn has been have had an empty channel. If the
-- session takes the packet at this point and nothing else happens in between, then its track is handed
-- the packet with the SSRC of the last session whose turn has been, whatever the session's own; and
-- the rest of the range goes on from here.
pub track_gets_last_ssrc :
    (k : Bytes) (cs : ClientSession) (packet now : ℕ) (written : Bool) (h : Host)
    (reached rest : Map Bytes ClientSession)
    → h.clients ≡ reached ++ rest
    → Distinct h.clients
    → lookup k reached ≡ some cs
    → cs.rtp_chan ≡ []
    → let (t, sent) = write_each (ids reached) packet now 0 h in
      (ssrc_sent (forward_rtp_packet k written t).1
        ≡ some (last_ssrc reached (h.packets packet).ssrc))
      × ((write_rtp packet now h).0 ≡ (write_each (ids rest) packet now sent t).0)
track_gets_last_ssrc k cs packet now written h reached rest table d found idle =
    let distinct = Distinct-left reached rest (subst Distinct table d) in
    let agree =
      Agree-left reached rest h.clients (
        subst (λ (m : Map Bytes ClientSession). Agree m h.clients) table
          (Agree-self h.clients d)) in
    let (there, known) = lookup-Agree k cs reached h.clients agree found in
    let (counts, ssrc) = write_each-counts reached packet now 0 h distinct agree in
    let t = (write_each (ids reached) packet now 0 h).0 in
    let queued =
      lookup-write_each k reached packet now 0 h distinct
      ∙ if_yes _ known
      ∙ ap (offer packet now) there in
    let room : has_room cs ≡ true = rw idle refl in
    let waits : (enqueue packet now cs).rtp_chan ≡ packet ∷ [] = unfold enqueue in rw idle refl in
    (
      ap ssrc_sent (
            forward-head k (enqueue packet now cs) packet [] written t (queued ∙ if_yes _ room)
              waits)
          ∙ ap some ssrc,
      (write_rtp_runs packet now h).0
          ∙ ap (λ (m : Map Bytes ClientSession). (write_each (ids m) packet now 0 h).0) table
          ∙ ap (λ (r : Host × ℕ). r.0) (write_each-append reached rest packet now 0 h),
    )
