-- ===== src/WebrtcJs/Ssrc.antt =====
-- Which SSRCs extractSSRCFromSDP of pkg/webrtc_js/host.go takes from an offer.
use mediasink.Prelude.{
  ℕ, ◌≡◌, ◌≢◌, ◌&&◌, not, codes, ◌⊎◌, Bool, true, false, none, some, List, [], ◌∷◌, map,
  if◌then◌else◌, ◌==◌, nat_keys, bytes_keys, Bytes, Map,
}
use mediasink.Strings.{has_prefix, contains_text, trim_space}
use mediasink.WebrtcJs.Requests.{ssrc_of_line}
use mathlib.Core.List.{Perm}
use mathlib.Core.List.Perm
use mathlib.Core.Logic.Or

-- A line of an SSRC: without the space around it, it starts with a=ssrc: and has no rtx.
abbrev pub is_source : Bytes → Bool
is_source line =
    has_prefix (codes "a=ssrc:") (trim_space line)
    && not (contains_text (codes "rtx") (trim_space line))

-- Whether some line of an SSRC has this number.
unfoldable pub has_ssrc : ℕ → List Bytes → Bool
has_ssrc ssrc [] = false
has_ssrc ssrc (line ∷ lines) =
    let later = has_ssrc ssrc lines in
    elim (ssrc_of_line line) [
      | none ↦ later
      | some s ↦ if is_source line && s == ssrc then true else later
    ]

-- Whether some line of an SSRC has a number that passes a test.
unfoldable pub any_ssrc : (ℕ → Bool) → List Bytes → Bool
any_ssrc test [] = false
any_ssrc test (line ∷ lines) =
    let later = any_ssrc test lines in
    elim (ssrc_of_line line) [
      | none ↦ later
      | some s ↦ if is_source line && test s then true else later
    ]

abbrev keys : Map ℕ Bool → List ℕ
keys = map (λ (entry : ℕ × Bool). entry.0)

-- What the SSRCs of an offer come to: none at all; the only one that its lines have, and zero; or two
-- of its lines that differ.
abbrev pub IsTaken : List Bytes → ℕ × ℕ → Type 0
IsTaken lines r =
    (any_ssrc (λ k. true) lines ≡ false) × (r ≡ (0, 0))
    ⊎ (has_ssrc r.0 lines ≡ true) × (r.1 ≡ 0) × (any_ssrc (λ k. not (k == r.0)) lines ≡ false)
    ⊎ (has_ssrc r.0 lines ≡ true) × (has_ssrc r.1 lines ≡ true) × (r.0 ≢ r.1)
