-- ===== src/Net.antt =====
-- The part of Go's `net` that the admission tests read (net.SplitHostPort, net.ParseIP and
-- IP.IsLoopback, over bytes), and the test itself, which three packages repeat word for word:
-- pkg/socket/server.go, pkg/webrtc_js/host.go and pkg/rtsp/new_server.go.
mod Tests
use mediasink.Prelude.{
  ℕ, zero, suc, ◌+◌, ◌-◌, ◌*◌, ◌/◌, ◌%◌, ◌^◌, ◌≤◌, ◌<◌, min, ◌≡◌, refl, sym, ap, ◌∙◌, subst, ◌≢◌,
  ◌↔◌, ◌⊎◌, inl, inr, Bool, true, false, not, ◌&&◌, ◌||◌, Option, none, some, List, [], ◌∷◌, ◌++◌,
  map, arith, ltb, leb, nat_beq, nat_beq_iff, if◌then◌else◌, KeyEq, ◌==◌, ==_refl, ==_sound,
  nat_keys, bytes_keys, list_beq, list_beq_iff, Bool-cases, Option-cases, length, take, drop, All,
  length-append, length-drop, Bytes, codes, Map, lookup, contains, insert, erase, retain,
  map_values, Distinct, Entries, keep_if, map_opt, lookup-insert, lookup-insert_self, lookup-erase,
  contains-lookup, lookup-ne_contains, contains_of_lookup-none, contains-insert, contains-erase,
  length-insert, length-erase-le, Distinct-insert, Distinct-erase, contains-retain, Distinct-retain,
  length-retain-le, lookup-retain, contains-map_values, Distinct-map_values, length-map_values,
  lookup-map_values,
}

index_from : ℕ → ℕ → Bytes → Option ℕ
index_from i c [] = none
index_from i c (x ∷ xs) = if x == c then some i else index_from (i + 1) c xs

-- The position of the first byte `c`.
pub index_of : ℕ → Bytes → Option ℕ
unfolding index_from
index_of c s = index_from 0 c s

last_index_from : ℕ → ℕ → Option ℕ → Bytes → Option ℕ
last_index_from i c found [] = found
last_index_from i c found (x ∷ xs) = last_index_from (i + 1) c (if x == c then some i else found) xs

-- The position of the last byte `c`.
pub last_index_of : ℕ → Bytes → Option ℕ
unfolding last_index_from
last_index_of c s = last_index_from 0 c none s

abbrev is_absent : Option ℕ → Bool
is_absent none = true
is_absent (some i) = false

abbrev starts_with_byte : ℕ → Bytes → Bool
starts_with_byte c [] = false
starts_with_byte c (x ∷ xs) = x == c

-- The last checks of SplitHostPort: no bracket in the rest of the text.
no_brackets : Bytes → ℕ → ℕ → Bool
unfolding index_of
no_brackets s j k = is_absent (index_of b'[' (drop j s)) && is_absent (index_of b']' (drop k s))

split_bracketed : Bytes → ℕ → ℕ → Option (Bytes × Bytes)
unfolding no_brackets
split_bracketed s i end =
    if end + 1 == i && no_brackets s 1 (end + 1)
    then some (take (end - 1) (drop 1 s), drop (i + 1) s)
    else none

split_plain : Bytes → ℕ → Option (Bytes × Bytes)
unfolding no_brackets index_of
split_plain s i =
    if is_absent (index_of b':' (take i s)) && no_brackets s 0 0
    then some (take i s, drop (i + 1) s)
    else none

-- net.SplitHostPort, its errors as `none`.
pub split_host_port : Bytes → Option (Bytes × Bytes)
unfolding last_index_of index_of split_bracketed split_plain
split_host_port s = elim (last_index_of b':' s) [
  | none ↦ none
  | some i ↦
      if starts_with_byte b'[' s
      then (elim (index_of b']' s) [ none ↦ none | some end ↦ split_bracketed s i end ])
      else split_plain s i
]

is_digit : ℕ → Bool
is_digit c = leb b'0' c && leb c b'9'

-- netip's parseIPv4Fields: the bytes left, the fields so far, the octet's value and its digits.
parse_fields : Bytes → List ℕ → ℕ → ℕ → Option (List ℕ)
unfolding is_digit
parse_fields [] fields val dig_len =
    if length fields == 3 && ltb 0 dig_len then some (fields ++ val ∷ []) else none
parse_fields (c ∷ s) fields val dig_len =
    let digit = parse_fields s fields (val * 10 + (c - b'0')) (dig_len + 1) in
    let dot = parse_fields s (fields ++ val ∷ []) 0 0 in
    if is_digit c
    then (if dig_len == 1 && val == 0
        then none
        else (if ltb 255 (val * 10 + (c - b'0')) then none else digit))
    else (if c == b'.' && ltb 0 dig_len && ltb (length fields) 3 then dot else none)

parse_ip_v4 : Bytes → Option (List ℕ)
unfolding parse_fields
parse_ip_v4 s = parse_fields s [] 0 0

hex_value : ℕ → Option ℕ
hex_value c =
    if leb b'0' c && leb c b'9'
    then some (c - b'0')
    else (if leb b'a' c && leb c b'f'
        then some (c - b'a' + 10)
        else (if leb b'A' c && leb c b'F' then some (c - b'A' + 10) else none))

-- The hexadecimal digits at the front: their value, how many, and what follows.
hex_group : Bytes → ℕ → ℕ → ℕ × ℕ × Bytes
unfolding hex_value
hex_group [] acc off = (acc, off, [])
hex_group (c ∷ s) acc off = elim (hex_value c) [
  | none ↦ (acc, off, c ∷ s)
  | some d ↦ hex_group s (acc * 16 + d) (off + 1)
]

-- What the loop of netip's parseIPv6 ends with: the bytes, the ellipsis, the text left.
abbrev V6State : Type 0
V6State = List ℕ × Option ℕ × Bytes

v6_dotted : List ℕ → Option ℕ → Bytes → Option V6State
unfolding parse_fields
v6_dotted ip ellipsis s =
    if (is_absent ellipsis && not (length ip == 12)) || ltb 12 (length ip)
    then none
    else (elim (parse_fields s [] 0 0) [
      | none ↦ none
      | some fields ↦ some (ip ++ fields, ellipsis, [])
    ])

-- After a colon: an ellipsis here, or the next group.
v6_after_colon : List ℕ → Option ℕ → Bytes → (Option ℕ → Bytes → Option V6State) → Option V6State
v6_after_colon ip ellipsis [] more = none
v6_after_colon ip ellipsis (c ∷ s) more =
    if c == b':'
    then (elim ellipsis [
      | some e ↦ none
      | none ↦ (elim s [
        | [] ↦ some (ip, some (length ip), [])
        | d ∷ t ↦ more (some (length ip)) (d ∷ t)
      ])
    ])
    else more ellipsis (c ∷ s)

-- One 16-bit chunk a round, eight rounds at most.
v6_loop : ℕ → List ℕ → Option ℕ → Bytes → Option V6State
unfolding hex_group v6_dotted v6_after_colon
v6_loop zero ip ellipsis s = some (ip, ellipsis, s)
v6_loop (suc rounds) ip ellipsis s =
    let (acc, off, rest) = hex_group s 0 0 in
    let ip' = ip ++ (acc / 256) ∷ (acc % 256) ∷ [] in
    if off == 0 || ltb 4 off then none else (elim rest [
      | [] ↦ some (ip', ellipsis, [])
      | c ∷ t ↦
          if c == b'.'
          then v6_dotted ip ellipsis s
          else (if c == b':'
              then v6_after_colon ip' ellipsis t (λ e r. v6_loop rounds ip' e r)
              else none)
    ])

zeros : ℕ → List ℕ
zeros zero = []
zeros (suc n) = 0 ∷ zeros n

-- The ellipsis stands for one zero chunk at least.
v6_finish : Option V6State → Option (List ℕ)
unfolding zeros
v6_finish none = none
v6_finish (some (ip, ellipsis, s)) =
    if length s == 0
    then (elim ellipsis [
      | none ↦ if length ip == 16 then some ip else none
      | some e ↦
          if ltb (length ip) 16
          then some (take e ip ++ zeros (16 - length ip) ++ drop e ip)
          else none
    ])
    else none

parse_ip_v6 : Bytes → Option (List ℕ)
unfolding v6_loop v6_finish zeros
parse_ip_v6 (b1 ∷ b2 ∷ []) =
    if b1 == b':' && b2 == b':'
    then some (zeros 16)
    else v6_finish (v6_loop 8 [] none (b1 ∷ b2 ∷ []))
parse_ip_v6 (b1 ∷ b2 ∷ c ∷ s) =
    if b1 == b':' && b2 == b':'
    then v6_finish (v6_loop 8 [] (some 0) (c ∷ s))
    else v6_finish (v6_loop 8 [] none (b1 ∷ b2 ∷ c ∷ s))
parse_ip_v6 s = v6_finish (v6_loop 8 [] none s)

-- The first dot, colon or percent sign decides.
first_mark : Bytes → Option ℕ
first_mark [] = none
first_mark (c ∷ s) = if c == b'.' || c == b':' || c == b'%' then some c else first_mark s

-- net.ParseIP: four bytes or sixteen; an address with a zone is none.
pub parse_ip : Bytes → Option (List ℕ)
unfolding first_mark parse_ip_v4 parse_ip_v6 index_of
parse_ip s = elim (first_mark s) [
  | none ↦ none
  | some c ↦
      if c == b'.'
      then parse_ip_v4 s
      else (if c == b':' && is_absent (index_of b'%' s) then parse_ip_v6 s else none)
]

mapped_prefix : List ℕ
unfolding zeros
mapped_prefix = zeros 10 ++ 255 ∷ 255 ∷ []

-- IP.IsLoopback: 127.0.0.0/8, also when it is written as an IPv6 address, and ::1.
pub ip_is_loopback : List ℕ → Bool
unfolding mapped_prefix zeros
ip_is_loopback (a ∷ b ∷ c ∷ d ∷ []) = a == 127
ip_is_loopback ip =
    if take 12 ip == mapped_prefix
    then starts_with_byte 127 (drop 12 ip)
    else ip == zeros 15 ++ 1 ∷ []

to_lower : Bytes → Bytes
to_lower [] = []
to_lower (c ∷ s) = (if leb b'A' c && leb c b'Z' then c + 32 else c) ∷ to_lower s

unfoldable pub is_loop_back : Bytes → Bool
unfolding split_host_port parse_ip ip_is_loopback to_lower
is_loop_back remote_addr = elim (split_host_port remote_addr) [
  | none ↦ false
  | some (host, port) ↦ (elim (parse_ip host) [
    | none ↦ to_lower host == codes "localhost"
    | some ip ↦ ip_is_loopback ip
  ])
]
