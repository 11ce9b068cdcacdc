-- ===== src/Rtsp/Host/Write.antt =====
-- The packet path of pkg/rtsp/new_host.go.
use mediasink.Prelude.{
  ℕ, ◌+◌, ◌%◌, ◌^◌, Bool, not, Option, none, some, List, [], ◌∷◌, ltb, if◌then◌else◌, ◌==◌,
  nat_keys, bytes_keys, length, Bytes,
}
use mediasink.Rtsp.Host.State.{
  failed, Error, write_packet_failed, cannot_write, client_not_initialised, no_media_formats,
  payload_type_of, Media, Packet, Host, is_recording_state, set_state, set_error,
}

abbrev pub uint64_modulus : ℕ
uint64_modulus = 2 ^ 64

-- The payload type that the stream was announced with.
abbrev pub expected_payload_type : List Media → Option ℕ
expected_payload_type [] = none
expected_payload_type (m ∷ ms) = elim m.formats [ [] ↦ none | f ∷ fs ↦ some (payload_type_of f) ]

-- What a write leaves: the host, the packet that was handed to the client, the error.
pub record Written : Type 0 where
  pub host : Host
  pub sent : Option Packet
  pub error : Option Error

-- A send that does not block, to a channel of capacity 1.
abbrev pub offer_token : ℕ → ℕ
offer_token n = if ltb n 1 then n + 1 else n

unfoldable pub write_failed : Packet → Host → Written
unfolding set_state set_error
write_failed packet h = record {
  host = record (set_error write_packet_failed (set_state failed h)) {
    reconnect_chan = offer_token h.reconnect_chan;
  };
  sent = some packet;
  error = some write_packet_failed;
}

unfoldable pub write_done : Packet → ℕ → Host → Written
write_done packet now h = record {
  host = record h {
    packets_written = (h.packets_written + 1) % uint64_modulus;
    bytes_written = (h.bytes_written + length packet.payload) % uint64_modulus;
    last_write_time = now;
  };
  sent = some packet;
  error = none;
}

abbrev pub refused : Host → Error → Written
refused h e = record { host = h; sent = none; error = some e }

-- `written` is whether the client's WritePacketRTP returns no error. The packet is changed in place.
unfoldable pub write_rtp : Option Packet → Bool → ℕ → Host → Written
unfolding write_failed write_done
write_rtp none written now h = record { host = h; sent = none; error = none }
write_rtp (some packet) written now h =
    if not (is_recording_state h.state) then refused h (cannot_write h.state) else (elim h.client [
      | none ↦ refused h client_not_initialised
      | some c ↦ (elim (expected_payload_type h.medias) [
        | none ↦ refused h no_media_formats
        | some expected ↦
            let fixed =
              if packet.payload_type == expected
              then packet
              else record packet { payload_type = expected } in
            if written then write_done fixed now h else write_failed fixed h
      ])
    ])

-- Raw bytes are dropped.
unfoldable pub write : Bytes → Host → Host × Option Error
write payload h = (h, none)
