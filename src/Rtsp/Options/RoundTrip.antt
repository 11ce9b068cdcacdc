-- ===== src/Rtsp/Options/RoundTrip.antt =====
-- Parsing the format line of a track in pkg/rtsp/options.go, against its printing.
use mediasink.Prelude.{
  ℕ, ◌≡◌, refl, ap, ◌∙◌, Bool, true, false, not, ◌&&◌, some, List, [], ◌∷◌, ◌++◌, arith, ◌==◌,
  ==_refl, nat_keys, bytes_keys, length, drop, All, Bytes,
}
use mediasink.Base64.{decode, encode, IsBytes, IsPlain, encode-IsPlain, decode-encode}
use mediasink.Strings.{split, has_prefix, trim_prefix}
use mediasink.Rtsp.Options.{find_param, both, sprop, parse_sets, parse_sps_pps}

-- A text without a separator.
abbrev pub IsFree : ℕ → Bytes → Type 0
IsFree sep = All (λ (c : ℕ). (c == sep) ≡ false)

abbrev is_free : ℕ → Bytes → Bool
is_free sep [] = true
is_free sep (c ∷ s) = not (c == sep) && is_free sep s

pub is_free-IsFree : (sep : ℕ) (s : Bytes) → is_free sep s ≡ true → IsFree sep s
is_free-IsFree sep [] h = tt
is_free-IsFree sep (c ∷ s) h = (ground arith, is_free-IsFree sep s (ground arith))

abbrev pub join : List Bytes → Bytes
join [] = []
join (p ∷ []) = p
join (p ∷ q ∷ ps) = p ++ b';' ∷ join (q ∷ ps)

split-IsFree : (sep : ℕ) (xs : Bytes) → IsFree sep xs → split sep xs ≡ xs ∷ []
unfolding split
split-IsFree sep [] h = refl
split-IsFree sep (c ∷ xs) (differs, h) = rw (differs, split-IsFree sep xs h) refl

split-append :
    (sep : ℕ) (xs s : Bytes) → IsFree sep xs → split sep (xs ++ sep ∷ s) ≡ xs ∷ split sep s
unfolding split
split-append sep [] s h = rw (==_refl sep) refl
split-append sep (c ∷ xs) s (differs, h) = rw (differs, split-append sep xs s h) refl

split-join :
    (p : Bytes) (ps : List Bytes) → All (IsFree b';') (p ∷ ps) → split b';' (join (p ∷ ps)) ≡ p ∷ ps
split-join p [] (h, rest) = split-IsFree b';' p h
split-join p (q ∷ ps) (h, rest) =
    split-append b';' p (join (q ∷ ps)) h ∙ ap (λ (r : List Bytes). p ∷ r) (split-join q ps rest)

has_prefix-append : (prefix s : Bytes) → has_prefix prefix (prefix ++ s) ≡ true
unfolding has_prefix
has_prefix-append [] s = refl
has_prefix-append (c ∷ prefix) s = rw (==_refl c, has_prefix-append prefix s) refl

drop-append : (prefix s : Bytes) → drop (length prefix) (prefix ++ s) ≡ s
drop-append [] s = refl
drop-append (c ∷ prefix) s = drop-append prefix s

abbrev pub Lacks : Bytes → List Bytes → Type 0
Lacks prefix = All (λ (p : Bytes). has_prefix prefix p ≡ false)

find_param-append :
    (prefix s : Bytes) (before after : List Bytes)
    → Lacks prefix before
    → find_param prefix (before ++ (prefix ++ s) ∷ after) ≡ s
unfolding find_param trim_prefix
find_param-append prefix s [] after h = rw (has_prefix-append prefix s) (drop-append prefix s)
find_param-append prefix s (p ∷ before) after (differs, h) =
    rw differs (find_param-append prefix s before after h)

parse_sets-split :
    (v a b : Bytes) → split b',' v ≡ a ∷ b ∷ [] → parse_sets v ≡ both (decode a) (decode b)
unfolding parse_sets
parse_sets-split [] a b h = unfold split in cc
parse_sets-split (c ∷ v) a b h = rw (h, parse_sets) refl

IsPlain-comma : (s : Bytes) → IsPlain s → IsFree b',' s
IsPlain-comma [] h = tt
IsPlain-comma (c ∷ s) (plain, h) = (ground arith, IsPlain-comma s h)

IsPlain-semicolon : (s : Bytes) → IsPlain s → IsFree b';' s
IsPlain-semicolon [] h = tt
IsPlain-semicolon (c ∷ s) (plain, h) = (ground arith, IsPlain-semicolon s h)

All-append {ℓ} :
    {A : Type ℓ} (P : A → Type 0) (xs ys : List A) → All P xs → All P ys → All P (xs ++ ys)
All-append P [] ys h k = k
All-append P (x ∷ xs) ys (first, h) k = (first, All-append P xs ys h k)

-- The parameter that carries both sets.
abbrev pub print_sets : Bytes → Bytes → Bytes
print_sets sps pps = encode sps ++ b',' ∷ encode pps

parse_sets-print_sets :
    (sps pps : Bytes)
    → IsBytes sps
    → IsBytes pps
    → parse_sets (print_sets sps pps) ≡ some (sps, pps)
parse_sets-print_sets sps pps hs hp =
    parse_sets-split (print_sets sps pps) (encode sps) (encode pps) (
      split-append b',' (encode sps) (encode pps) (IsPlain-comma (encode sps) (encode-IsPlain sps))
      ∙ ap (λ (r : List Bytes). encode sps ∷ r)
          (split-IsFree b',' (encode pps) (IsPlain-comma (encode pps) (encode-IsPlain pps))))
    ∙ rw (decode-encode sps hs, decode-encode pps hp) refl

split-line :
    (before after : List Bytes) (p : Bytes)
    → All (IsFree b';') before
    → IsFree b';' p
    → All (IsFree b';') after
    → split b';' (join (before ++ p ∷ after)) ≡ before ++ p ∷ after
split-line [] after p hb h ha = split-join p after (h, ha)
split-line (q ∷ before) after p (hq, hb) h ha =
    split-join q (before ++ p ∷ after) (hq, All-append (IsFree b';') before (p ∷ after) hb (h, ha))

-- A format line whose parameters are joined by semicolons, none of them with a semicolon of its
-- own, and whose first sprop-parameter-sets has the bytes of an SPS and a PPS in base64 with a
-- comma between, is parsed to those bytes.
pub parse_sps_pps-join :
    (before after : List Bytes) (sps pps : Bytes)
    → All (IsFree b';') before
    → Lacks sprop before
    → All (IsFree b';') after
    → IsBytes sps
    → IsBytes pps
    → parse_sps_pps (join (before ++ (sprop ++ print_sets sps pps) ∷ after)) ≡ some (sps, pps)
unfolding parse_sps_pps
parse_sps_pps-join before after sps pps hb lacks ha hs hp =
    let free =
      All-append (λ (c : ℕ). (c == b';') ≡ false) sprop (print_sets sps pps)
        (is_free-IsFree b';' sprop refl)
        (All-append (λ (c : ℕ). (c == b';') ≡ false) (encode sps) (b',' ∷ encode pps)
          (IsPlain-semicolon (encode sps) (encode-IsPlain sps))
          (refl, IsPlain-semicolon (encode pps) (encode-IsPlain pps))) in
    ap (λ (params : List Bytes). parse_sets (find_param sprop params))
      (split-line before after (sprop ++ print_sets sps pps) hb free ha)
    ∙ ap parse_sets (find_param-append sprop (print_sets sps pps) before after lacks)
    ∙ parse_sets-print_sets sps pps hs hp
