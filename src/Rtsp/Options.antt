-- ===== src/Rtsp/Options.antt =====
-- pkg/rtsp/options.go: the options of the publishing host, and what they read from the SDP of a
-- remote track.
pub mod Announce
pub mod RoundTrip
mod Tests
use mediasink.Prelude.{
  ℕ, zero, suc, ◌+◌, ◌-◌, ◌*◌, ◌/◌, ◌%◌, ◌^◌, ◌≤◌, ◌<◌, min, ◌≡◌, refl, sym, ap, ◌∙◌, subst, ◌≢◌,
  ◌↔◌, ◌⊎◌, inl, inr, Bool, true, false, not, ◌&&◌, ◌||◌, Option, none, some, List, [], ◌∷◌, ◌++◌,
  map, arith, ltb, leb, nat_beq, nat_beq_iff, if◌then◌else◌, KeyEq, ◌==◌, ==_refl, ==_sound,
  nat_keys, bytes_keys, list_beq, list_beq_iff, Bool-cases, Option-cases, length, take, drop, All,
  length-append, length-drop, Bytes, codes, decimal, Map, lookup, contains, insert, erase, retain,
  map_values, Distinct, Entries, keep_if, map_opt, lookup-insert, lookup-insert_self, lookup-erase,
  contains-lookup, lookup-ne_contains, contains_of_lookup-none, contains-insert, contains-erase,
  length-insert, length-erase-le, Distinct-insert, Distinct-erase, contains-retain, Distinct-retain,
  length-retain-le, lookup-retain, contains-map_values, Distinct-map_values, length-map_values,
  lookup-map_values,
}
use mediasink.Prelude.{
  Entries-insert, Entries-erase, Entries-retain, Entries-map_values, Entries-lookup, Entries-every,
  Entries-retain_test, retain-map_values,
}
use mediasink.Prelude.{ℤ, pos, negsuc, is_zero}
use mediasink.Base64.{decode}
use mediasink.Strings.{split, has_prefix, trim_prefix, atoi}
use mediasink.Rtsp.Host.State.{
  option_failed, Format, h264, vp8, opus, other, payload_type_of, MediaType, video, audio, Media,
  Host, Result, ok, err, HostOption, append_rtsp_media_description,
}

abbrev pub media_of : MediaType → Format → Media
media_of kind f = record { media_type = kind; formats = f ∷ [] }

unfoldable pub with_h264_options : ℕ → Bytes → Bytes → HostOption
unfolding append_rtsp_media_description
with_h264_options packetisation_mode sps pps h =
    ok (append_rtsp_media_description (media_of video (h264 102 packetisation_mode sps pps)) h)

unfoldable pub with_vp8_option : HostOption
unfolding append_rtsp_media_description
with_vp8_option h = ok (append_rtsp_media_description (media_of video (vp8 96)) h)

unfoldable pub with_opus_options : ℕ → HostOption
unfolding append_rtsp_media_description
with_opus_options channel_count h =
    ok (append_rtsp_media_description (media_of audio (opus 111 channel_count)) h)

-- What the options read of webrtc.TrackRemote's Codec.
pub record Codec : Type 0 where
  pub mime_type : Bytes
  pub payload_type : ℕ
  pub channels : ℕ
  pub sdp_fmtp_line : Bytes

-- The first parameter with the prefix, without it; nothing is the empty string.
unfoldable pub find_param : Bytes → List Bytes → Bytes
unfolding has_prefix trim_prefix
find_param prefix [] = []
find_param prefix (param ∷ params) =
    let rest = find_param prefix params in
    if has_prefix prefix param then trim_prefix prefix param else rest

abbrev pub both : Option Bytes → Option Bytes → Option (Bytes × Bytes)
both (some sps) (some pps) = some (sps, pps)
both _ _ = none

abbrev pub sprop : Bytes
sprop = codes "sprop-parameter-sets="

unfoldable pub parse_sets : Bytes → Option (Bytes × Bytes)
unfolding split decode
parse_sets [] = none
parse_sets (c ∷ s) = elim (split b',' (c ∷ s)) [
  | sps ∷ pps ∷ [] ↦ both (decode sps) (decode pps)
  | _ ↦ none
]

unfoldable pub parse_sps_pps : Bytes → Option (Bytes × Bytes)
unfolding split find_param parse_sets
parse_sps_pps sdp_fmtp_line = parse_sets (find_param sprop (split b';' sdp_fmtp_line))

abbrev pub mode_prefix : Bytes
mode_prefix = codes "packetization-mode="

unfoldable pub parse_packetisation_mode : Bytes → Option ℤ
unfolding split find_param atoi
parse_packetisation_mode sdp_fmtp_line = elim (find_param mode_prefix (split b';' sdp_fmtp_line)) [
  | [] ↦ none
  | c ∷ s ↦ atoi (c ∷ s)
]

-- The conversion to uint8.
abbrev pub to_uint8 : ℤ → ℕ
to_uint8 (pos n) = n % 256
to_uint8 (negsuc n) = 255 - n % 256

unfoldable pub with_h264_options_from_remote : Codec → HostOption
unfolding parse_sps_pps parse_packetisation_mode with_h264_options
with_h264_options_from_remote codec h = elim (parse_sps_pps codec.sdp_fmtp_line) [
  | none ↦ err option_failed
  | some (sps, pps) ↦ (elim (parse_packetisation_mode codec.sdp_fmtp_line) [
    | none ↦ err option_failed
    | some mode ↦
        if codec.payload_type == 102
        then with_h264_options (to_uint8 mode) sps pps h
        else err option_failed
  ])
]

unfoldable pub with_vp8_options_from_remote : Codec → HostOption
unfolding with_vp8_option
with_vp8_options_from_remote codec h =
    if codec.payload_type == 96 then with_vp8_option h else err option_failed

unfoldable pub with_opus_options_from_remote : Codec → HostOption
unfolding with_opus_options
with_opus_options_from_remote codec h =
    if codec.payload_type == 111 then with_opus_options codec.channels h else err option_failed

unfoldable pub with_options_from_remote : Codec → HostOption
unfolding with_h264_options_from_remote with_vp8_options_from_remote with_opus_options_from_remote
with_options_from_remote codec h =
    if codec.mime_type == codes "video/H264"
    then with_h264_options_from_remote codec h
    else (if codec.mime_type == codes "video/VP8"
        then with_vp8_options_from_remote codec h
        else (if codec.mime_type == codes "audio/opus"
            then with_opus_options_from_remote codec h
            else err option_failed))
