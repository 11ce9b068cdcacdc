-- ===== src/Base64.antt =====
-- StdEncoding of Go's encoding/base64, as pkg/rtsp/options.go uses it, with the encoding of RFC 4648
-- to which it is the inverse.
use mediasink.Prelude.{
  ℕ, ◌+◌, ◌-◌, ◌*◌, ◌/◌, ◌%◌, ◌<◌, ◌≡◌, refl, sym, ap, ◌∙◌, Bool, true, false, not, ◌&&◌, ◌||◌,
  Option, none, some, [], ◌∷◌, ◌++◌, arith, ltb, leb, if◌then◌else◌, ◌==◌, nat_keys, bytes_keys,
  All, Bytes,
}
use mathlib.Core.List.{append-nil}

value : ℕ → Option ℕ
value c =
    if leb 65 c && leb c 90
    then some (c - 65)
    else (if leb 97 c && leb c 122
        then some (c - 71)
        else (if leb 48 c && leb c 57
            then some (c + 4)
            else (if c == 43 then some 62 else (if c == 47 then some 63 else none))))

-- The bytes of a group, by the values of its characters.
two : Option ℕ → Option ℕ → Option Bytes
two (some a) (some b) = some ((a * 4 + b / 16) ∷ [])
two _ _ = none

three : Option ℕ → Option ℕ → Option ℕ → Option Bytes
three (some a) (some b) (some c) = some ((a * 4 + b / 16) ∷ (b % 16 * 16 + c / 4) ∷ [])
three _ _ _ = none

four : Option ℕ → Option ℕ → Option ℕ → Option ℕ → Option Bytes
four (some a) (some b) (some c) (some d) =
    some ((a * 4 + b / 16) ∷ (b % 16 * 16 + c / 4) ∷ (c % 4 * 64 + d) ∷ [])
four _ _ _ _ = none

-- The last group may be padded.
last_group : ℕ → ℕ → ℕ → ℕ → Option Bytes
unfolding value two three four
last_group a b c d =
    if d == b'='
    then (if c == b'=' then two (value a) (value b) else three (value a) (value b) (value c))
    else four (value a) (value b) (value c) (value d)

abbrev append_opt : Option Bytes → Option Bytes → Option Bytes
append_opt (some xs) (some ys) = some (xs ++ ys)
append_opt _ _ = none

decode_groups : Bytes → Option Bytes
unfolding value four last_group
decode_groups [] = some []
decode_groups (a ∷ b ∷ c ∷ d ∷ s) =
    let rest = decode_groups s in
    elim s [
      | [] ↦ last_group a b c d
      | e ∷ t ↦ append_opt (four (value a) (value b) (value c) (value d)) rest
    ]
decode_groups _ = none

drop_newlines : Bytes → Bytes
drop_newlines [] = []
drop_newlines (c ∷ s) = let rest = drop_newlines s in if c == 10 || c == 13 then rest else c ∷ rest

-- DecodeString skips line ends.
unfoldable pub decode : Bytes → Option Bytes
unfolding decode_groups drop_newlines
decode s = decode_groups (drop_newlines s)

char : ℕ → ℕ
char n =
    if ltb n 26
    then n + 65
    else (if ltb n 52 then n + 71 else (if ltb n 62 then n - 4 else (if n == 62 then 43 else 47)))

unfoldable pub encode : Bytes → Bytes
unfolding char
encode [] = []
encode (x ∷ []) = char (x / 4) ∷ char (x % 4 * 16) ∷ b'=' ∷ b'=' ∷ []
encode (x ∷ y ∷ []) = char (x / 4) ∷ char (x % 4 * 16 + y / 16) ∷ char (y % 16 * 4) ∷ b'=' ∷ []
encode (x ∷ y ∷ z ∷ s) =
    char (x / 4)
    ∷ char (x % 4 * 16 + y / 16)
    ∷ char (y % 16 * 4 + z / 64)
    ∷ char (z % 64)
    ∷ encode s

abbrev pub IsBytes : Bytes → Type 0
IsBytes = All (λ (x : ℕ). x < 256)

value-char : (n : ℕ) → n < 64 → value (char n) ≡ some n
unfolding value char
value-char n h = ground arith

char-ne_padding : (n : ℕ) → (char n == b'=') ≡ false
unfolding char
char-ne_padding n = ground arith

-- No line end, comma or semicolon.
abbrev pub is_plain : ℕ → Bool
is_plain c = not (c == 10 || c == 13 || c == b',' || c == b';')

abbrev pub IsPlain : Bytes → Type 0
IsPlain = All (λ (c : ℕ). is_plain c ≡ true)

char-plain : (n : ℕ) → is_plain (char n) ≡ true
unfolding char
char-plain n = ground arith

pub encode-IsPlain : (s : Bytes) → IsPlain (encode s)
unfolding encode
encode-IsPlain [] = tt
encode-IsPlain (x ∷ []) = (char-plain (x / 4), (char-plain (x % 4 * 16), (refl, (refl, tt))))
encode-IsPlain (x ∷ y ∷ []) =
    (char-plain (x / 4), (char-plain (x % 4 * 16 + y / 16), (char-plain (y % 16 * 4), (refl, tt))))
encode-IsPlain (x ∷ y ∷ z ∷ s) = (
  char-plain (x / 4),
  (
    char-plain (x % 4 * 16 + y / 16),
    (char-plain (y % 16 * 4 + z / 64), (char-plain (z % 64), encode-IsPlain s)),
  ),
)

drop_newlines-plain : (s : Bytes) → IsPlain s → drop_newlines s ≡ s
unfolding drop_newlines
drop_newlines-plain [] h = refl
drop_newlines-plain (c ∷ s) (plain, h) =
    let none_here : (c == 10 || c == 13) ≡ false = ground arith in
    rw none_here (ap (λ (r : Bytes). c ∷ r) (drop_newlines-plain s h))

append_opt-nil : (o : Option Bytes) → append_opt o (some []) ≡ o
append_opt-nil none = refl
append_opt-nil (some xs) = ap some (append-nil xs)

group_then :
    (a b c d : ℕ) (r : Bytes)
    → (d == b'=') ≡ false
    → decode_groups (a ∷ b ∷ c ∷ d ∷ r)
      ≡ append_opt (four (value a) (value b) (value c) (value d)) (decode_groups r)
unfolding decode_groups last_group
group_then a b c d [] h = rw h (sym (append_opt-nil (four (value a) (value b) (value c) (value d))))
group_then a b c d (e ∷ t) h = refl

-- Three bytes, in the values of their four characters.
full_group :
    (x y z : ℕ)
    → x < 256
    → y < 256
    → z < 256
    → four
        (value (char (x / 4)))
        (value (char (x % 4 * 16 + y / 16)))
        (value (char (y % 16 * 4 + z / 64)))
        (value (char (z % 64)))
      ≡ some (x ∷ y ∷ z ∷ [])
unfolding four
full_group x y z hx hy hz =
    let first : x / 4 * 4 + (x % 4 * 16 + y / 16) / 16 ≡ x = omega arith in
    let second : (x % 4 * 16 + y / 16) % 16 * 16 + (y % 16 * 4 + z / 64) / 4 ≡ y = omega arith in
    let third : (y % 16 * 4 + z / 64) % 4 * 64 + z % 64 ≡ z = omega arith in
    rw
      (
        value-char (x / 4) (omega arith),
        value-char (x % 4 * 16 + y / 16) (omega arith),
        value-char (y % 16 * 4 + z / 64) (omega arith),
        value-char (z % 64) (omega arith),
      )
      (rw (first, second, third) refl)

decode_groups-encode : (s : Bytes) → IsBytes s → decode_groups (encode s) ≡ some s
unfolding decode_groups encode last_group two three
decode_groups-encode [] h = refl
decode_groups-encode (x ∷ []) h =
    let first : x / 4 * 4 + x % 4 * 16 / 16 ≡ x = omega arith in
    rw (value-char (x / 4) (omega arith), value-char (x % 4 * 16) (omega arith)) (rw first refl)
decode_groups-encode (x ∷ y ∷ []) h =
    let first : x / 4 * 4 + (x % 4 * 16 + y / 16) / 16 ≡ x = omega arith in
    let second : (x % 4 * 16 + y / 16) % 16 * 16 + y % 16 * 4 / 4 ≡ y = omega arith in
    rw
      (
        char-ne_padding (y % 16 * 4),
        value-char (x / 4) (omega arith),
        value-char (x % 4 * 16 + y / 16) (omega arith),
        value-char (y % 16 * 4) (omega arith),
      )
      (rw (first, second) refl)
decode_groups-encode (x ∷ y ∷ z ∷ s) (hx, (hy, (hz, h))) =
    group_then (char (x / 4)) (char (x % 4 * 16 + y / 16)) (char (y % 16 * 4 + z / 64))
      (char (z % 64)) (encode s) (char-ne_padding (z % 64))
    ∙ ap (λ (o : Option Bytes). append_opt o (decode_groups (encode s))) (full_group x y z hx hy hz)
    ∙ ap (λ (o : Option Bytes). append_opt (some (x ∷ y ∷ z ∷ [])) o) (decode_groups-encode s h)

-- Decoding is the inverse of the encoding of RFC 4648, for any bytes.
pub decode-encode : (s : Bytes) → IsBytes s → decode (encode s) ≡ some s
unfolding decode
decode-encode s h =
    ap decode_groups (drop_newlines-plain (encode s) (encode-IsPlain s)) ∙ decode_groups-encode s h
