-- ===== src/Prelude/Text.antt =====
-- Go strings as the lists of their bytes.
use Prim.Native.Nat.{ℕ, zero, suc, ◌+◌, ◌/◌, ◌%◌}
use Prim.Native.Char.{code}
use Prim.Native.String.{String}
use mathlib.Core.List.{List, [], ◌∷◌}

abbrev pub Bytes : Type 0
Bytes = List ℕ

-- The code points of a text: its bytes, if it is ASCII.
abbrev pub codes : String → Bytes
codes String.[] = []
codes (String.◌∷◌ c s) = code c ∷ codes s

decimal_from : ℕ → ℕ → Bytes → Bytes
decimal_from zero n acc = acc
decimal_from (suc fuel) n acc = elim (n / 10) [
  | zero ↦ (b'0' + n % 10) ∷ acc
  | suc q ↦ decimal_from fuel (suc q) ((b'0' + n % 10) ∷ acc)
]

-- The verb %d of `fmt`. A round divides by ten, so `n + 1` rounds are enough.
unfoldable pub decimal : ℕ → Bytes
unfolding decimal_from
decimal n = decimal_from (suc n) n []
