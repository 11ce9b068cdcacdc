-- ===== src/Strings.antt =====
-- The parts of Go's `strings` and `strconv` that the program uses, over bytes.
use mediasink.Prelude.{
  ℕ, zero, suc, ◌+◌, ◌-◌, ◌*◌, ◌^◌, Bool, true, false, ◌&&◌, ◌||◌, Option, none, some, List, [],
  ◌∷◌, ltb, leb, if◌then◌else◌, ◌==◌, nat_keys, bytes_keys, length, drop, Bytes,
}
use mediasink.Prelude.{ℤ, pos, negsuc}

abbrev cons_head : ℕ → List Bytes → List Bytes
cons_head c [] = (c ∷ []) ∷ []
cons_head c (piece ∷ pieces) = (c ∷ piece) ∷ pieces

-- strings.Split by one byte: one piece more than there are separators.
unfoldable pub split : ℕ → Bytes → List Bytes
split sep [] = [] ∷ []
split sep (c ∷ s) = let pieces = split sep s in if c == sep then [] ∷ pieces else cons_head c pieces

unfoldable pub has_prefix : Bytes → Bytes → Bool
has_prefix [] s = true
has_prefix (p ∷ prefix) [] = false
has_prefix (p ∷ prefix) (c ∷ s) = let rest = has_prefix prefix s in if p == c then rest else false

unfoldable pub trim_prefix : Bytes → Bytes → Bytes
unfolding has_prefix
trim_prefix prefix s = if has_prefix prefix s then drop (length prefix) s else s

-- strings.Contains.
unfoldable pub contains_text : Bytes → Bytes → Bool
unfolding has_prefix
contains_text part [] = has_prefix part []
contains_text part (c ∷ s) =
    let later = contains_text part s in if has_prefix part (c ∷ s) then true else later

is_space : ℕ → Bool
is_space c = c == 32 || (leb 9 c && leb c 13)

trim_left : Bytes → Bytes
unfolding is_space
trim_left [] = []
trim_left (c ∷ s) = let rest = trim_left s in if is_space c then rest else c ∷ s

trim_right : Bytes → Bytes
unfolding is_space
trim_right [] = []
trim_right (c ∷ s) =
    let rest = trim_right s in
    elim rest [ [] ↦ if is_space c then [] else c ∷ [] | d ∷ r ↦ c ∷ d ∷ r ]

-- strings.TrimSpace, for the spaces of ASCII.
unfoldable pub trim_space : Bytes → Bytes
unfolding trim_left trim_right
trim_space s = trim_right (trim_left s)

is_decimal : ℕ → Bool
is_decimal c = leb b'0' c && leb c b'9'

-- The value of a run of digits behind the value so far.
unfoldable pub digits_value : ℕ → Bytes → Option ℕ
unfolding is_decimal
digits_value acc [] = some acc
digits_value acc (c ∷ s) =
    let rest = digits_value (acc * 10 + (c - b'0')) s in if is_decimal c then rest else none

-- A number of one digit or more, below a limit.
unfoldable pub parse_below : ℕ → Bytes → Option ℕ
unfolding digits_value
parse_below limit [] = none
parse_below limit (c ∷ s) = elim (digits_value 0 (c ∷ s)) [
  | none ↦ none
  | some n ↦ if ltb n limit then some n else none
]

abbrev negate : ℕ → ℤ
negate zero = pos 0
negate (suc n) = negsuc n

-- strconv.Atoi on a 64-bit machine: a sign, digits, and the range of int.
unfoldable pub atoi : Bytes → Option ℤ
unfolding parse_below
atoi [] = none
atoi (c ∷ s) =
    if c == b'-'
    then (elim (parse_below (2 ^ 63 + 1) s) [ none ↦ none | some n ↦ some (negate n) ])
    else (elim (parse_below (2 ^ 63) (if c == b'+' then s else c ∷ s)) [
      | none ↦ none
      | some n ↦ some (pos n)
    ])
