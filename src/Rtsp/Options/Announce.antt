-- ===== src/Rtsp/Options/Announce.antt =====
-- What a host announces that is made from the codec of a remote track.
use mediasink.Prelude.{
  ◌≡◌, refl, sym, ap, ◌∙◌, ◌⊎◌, inl, inr, Bool, true, false, Option, some, List, [], ◌∷◌,
  if◌then◌else◌, ◌==◌, ==_sound, nat_keys, bytes_keys, Bool-cases, Option-cases, codes,
}
use mediasink.Rtsp.Host.State.{
  HostConfig, option_failed, Format, h264, vp8, opus, payload_type_of, MediaType, video, audio,
  Media, Host, Result, ok, err, HostOption, append_rtsp_media_description, apply_options, new_host,
  initial_host, config_or_local,
}
use mediasink.Rtsp.Host.Write.{expected_payload_type}
use mediasink.Rtsp.Options.{
  media_of, with_h264_options, with_vp8_option, with_opus_options, Codec, parse_sps_pps,
  parse_packetisation_mode, to_uint8, with_h264_options_from_remote, with_vp8_options_from_remote,
  with_opus_options_from_remote, with_options_from_remote,
}

-- An option that fails, or adds a media whose payload type is the codec's.
abbrev Announces : Codec → Host → Result Host → Type 0
Announces codec h r =
    (r ≡ err option_failed)
    ⊎ ((kind : MediaType) × (f : Format) × (r
          ≡ ok (append_rtsp_media_description (media_of kind f) h))
        × (payload_type_of f ≡ codec.payload_type))

h264-Announces :
    (codec : Codec) (h : Host) → Announces codec h (with_h264_options_from_remote codec h)
unfolding with_h264_options_from_remote with_h264_options
h264-Announces codec h = elim (Option-cases (parse_sps_pps codec.sdp_fmtp_line)) [
  | inl bad ↦ inl (rw (bad, with_h264_options_from_remote) refl)
  | inr ((sps, pps), sets) ↦ (elim (Option-cases (parse_packetisation_mode codec.sdp_fmtp_line)) [
    | inl bad ↦ inl (rw (sets, bad, with_h264_options_from_remote) refl)
    | inr (mode, found) ↦ (elim (Bool-cases (codec.payload_type == 102)) [
      | inl same ↦ inr (
        video,
        h264 102 (to_uint8 mode) sps pps,
        rw (sets, found, same, with_h264_options_from_remote) refl,
        sym (==_sound codec.payload_type 102 same),
      )
      | inr wrong ↦ inl (rw (sets, found, wrong, with_h264_options_from_remote) refl)
    ])
  ])
]

vp8-Announces :
    (codec : Codec) (h : Host) → Announces codec h (with_vp8_options_from_remote codec h)
unfolding with_vp8_options_from_remote with_vp8_option
vp8-Announces codec h = elim (Bool-cases (codec.payload_type == 96)) [
  | inl same ↦ inr (
    video,
    vp8 96,
    rw (same, with_vp8_options_from_remote) refl,
    sym (==_sound codec.payload_type 96 same),
  )
  | inr wrong ↦ inl (rw (wrong, with_vp8_options_from_remote) refl)
]

opus-Announces :
    (codec : Codec) (h : Host) → Announces codec h (with_opus_options_from_remote codec h)
unfolding with_opus_options_from_remote with_opus_options
opus-Announces codec h = elim (Bool-cases (codec.payload_type == 111)) [
  | inl same ↦ inr (
    audio,
    opus 111 codec.channels,
    rw (same, with_opus_options_from_remote) refl,
    sym (==_sound codec.payload_type 111 same),
  )
  | inr wrong ↦ inl (rw (wrong, with_opus_options_from_remote) refl)
]

pick :
    (b : Bool) (codec : Codec) (h : Host) (r t : Result Host)
    → Announces codec h r
    → Announces codec h t
    → Announces codec h (if b then r else t)
pick true codec h r t first second = first
pick false codec h r t first second = second

remote-Announces : (codec : Codec) (h : Host) → Announces codec h (with_options_from_remote codec h)
unfolding with_options_from_remote
remote-Announces codec h =
    pick (codec.mime_type == codes "video/H264") codec h _ _ (h264-Announces codec h) (
      pick (codec.mime_type == codes "video/VP8") codec h _ _ (vp8-Announces codec h) (
        pick (codec.mime_type == codes "audio/opus") codec h _ _ (opus-Announces codec h)
          (inl refl)))

one_failed :
    (config : Option HostConfig) (o : HostOption)
    → o (initial_host (config_or_local config) []) ≡ err option_failed
    → new_host config [] (o ∷ []) ≡ err option_failed
unfolding new_host apply_options
one_failed config o e = rw (e, new_host, apply_options) refl

one_added :
    (config : Option HostConfig) (o : HostOption) (m : Media)
    → let start = initial_host (config_or_local config) [] in
      o start ≡ ok (append_rtsp_media_description m start)
      → new_host config [] (o ∷ []) ≡ ok (append_rtsp_media_description m start)
unfolding new_host apply_options append_rtsp_media_description
one_added config o m e = rw (e, new_host, apply_options) refl

abbrev medias_of : Result Host → List Media
medias_of (ok h) = h.medias
medias_of (err e) = []

-- A host that is made without a description and with the one option WithOptionsFromRemote expects
-- the payload type of the remote track's codec, whatever the codec is.
pub remote_payload_type :
    (config : Option HostConfig) (codec : Codec) (h : Host)
    → new_host config [] (with_options_from_remote codec ∷ []) ≡ ok h
    → expected_payload_type h.medias ≡ some codec.payload_type
remote_payload_type config codec h made =
    elim (remote-Announces codec (initial_host (config_or_local config) [])) [
      | inl failed ↦
          let e = sym made ∙ one_failed config (with_options_from_remote codec) failed in cc
      | inr (kind, f, added, same) ↦
          let e =
            sym made ∙ one_added config (with_options_from_remote codec) (media_of kind f) added in
          ap (λ (r : Result Host). expected_payload_type (medias_of r)) e
          ∙ unfold append_rtsp_media_description in ap some same
    ]
