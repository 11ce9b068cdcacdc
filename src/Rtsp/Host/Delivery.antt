-- ===== src/Rtsp/Host/Delivery.antt =====
-- What a write of the publishing host does, on every branch.
use mediasink.Prelude.{
  ℕ, ◌+◌, ◌%◌, ◌≡◌, ◌≢◌, ◌⊎◌, Bool, false, none, some, arith, nat_beq_iff, nat_keys, bytes_keys,
  length,
}
use mediasink.Rtsp.Host.State.{recording, failed, Error, Packet, Host, get_stats}
use mediasink.Rtsp.Host.Write.{uint64_modulus, expected_payload_type, write_rtp}

-- Every packet that reaches the client has the payload type of the announced format, and the
-- payload that it came with; the host was recording then, with a client.
pub write_rtp-sent :
    (packet q : Packet) (written : Bool) (now : ℕ) (h : Host)
    → (write_rtp (some packet) written now h).sent ≡ some q
    → (h.state ≡ recording)
      × (h.client ≢ none)
      × (expected_payload_type h.medias ≡ some q.payload_type)
      × (q.payload ≡ packet.payload)
unfolding write_rtp
write_rtp-sent packet q written now h e =
    ground (arith, nat_beq_iff packet.payload_type q.payload_type)

-- A write that returns no error counts one packet and its bytes, and leaves the host recording.
pub write_rtp-counts :
    (packet : Packet) (written : Bool) (now : ℕ) (h : Host)
    → (write_rtp (some packet) written now h).error ≡ none
    → let t = (write_rtp (some packet) written now h).host in
      (t.packets_written ≡ (h.packets_written + 1) % uint64_modulus)
      × (t.bytes_written ≡ (h.bytes_written + length packet.payload) % uint64_modulus)
      × (t.last_write_time ≡ now)
      × (t.state ≡ recording)
unfolding write_rtp
write_rtp-counts packet written now h e = ground arith

-- A write that returns an error counts nothing. Either it changed nothing at all, or the client
-- refused the packet: then the host is failed, keeps the error, and asks for a reconnection.
pub write_rtp-error :
    (packet : Packet) (written : Bool) (now : ℕ) (h : Host) (e : Error)
    → (write_rtp (some packet) written now h).error ≡ some e
    → let t = (write_rtp (some packet) written now h).host in
      (get_stats t ≡ get_stats h)
      × ((t ≡ h)
          ⊎ ((written ≡ false)
              × (t.state ≡ failed)
              × (t.last_error ≡ some e)
              × (t.reconnect_chan ≢ 0)))
unfolding write_rtp get_stats
write_rtp-error packet written now h e f = ground arith
