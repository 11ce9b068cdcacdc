-- ===== src/Rtsp/Options/Tests.antt =====
-- Concrete format lines and options.
use mediasink.Prelude.{
  ◌≡◌, refl, none, some, List, [], ◌∷◌, ◌++◌, arith, nat_keys, bytes_keys, Bytes, codes,
}
use mediasink.Prelude.{pos}
use mediasink.Base64.{encode}
use mediasink.Strings.{has_prefix}
use mediasink.Rtsp.Options.{sprop, parse_sps_pps, parse_packetisation_mode}
use mediasink.Rtsp.Options.RoundTrip.{is_free-IsFree, join, print_sets, parse_sps_pps-join}

abbrev before : List Bytes
before = codes "level-asymmetry-allowed=1" ∷ []

abbrev after : List Bytes
after = codes "packetization-mode=1" ∷ []

abbrev line : Bytes
line = codes "level-asymmetry-allowed=1;sprop-parameter-sets=Z0I=,aM4=;packetization-mode=1"

-- A parameter behind a space is not found.
mode_found :
    (parse_packetisation_mode line ≡ some (pos 1))
    × (parse_packetisation_mode (codes "a; packetization-mode=1") ≡ none)
unfolding parse_packetisation_mode
mode_found = (refl, refl)

printed : join (before ++ (sprop ++ print_sets (103 ∷ 66 ∷ []) (104 ∷ 206 ∷ [])) ∷ after) ≡ line
unfolding encode
printed = refl

parse_sps_pps-join_example :
    parse_sps_pps (join (before ++ (sprop ++ print_sets (103 ∷ 66 ∷ []) (104 ∷ 206 ∷ [])) ∷ after))
    ≡ some (103 ∷ 66 ∷ [], 104 ∷ 206 ∷ [])
unfolding has_prefix
parse_sps_pps-join_example =
    parse_sps_pps-join before after (103 ∷ 66 ∷ []) (104 ∷ 206 ∷ [])
      (is_free-IsFree b';' (codes "level-asymmetry-allowed=1") refl, tt) (refl, tt)
      (is_free-IsFree b';' (codes "packetization-mode=1") refl, tt) (omega arith, (omega arith, tt))
      (omega arith, (omega arith, tt))
