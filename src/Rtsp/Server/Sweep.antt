-- ===== src/Rtsp/Server/Sweep.antt =====
-- What a range that keeps, changes or deletes its entries leaves behind.
use mediasink.Prelude.{
  ◌≤◌, ◌≡◌, refl, ap, false, Option, none, some, List, [], ◌∷◌, arith, nat_keys, bytes_keys,
  list_beq_iff, length, Bytes, Map, lookup, contains, Distinct, lookup-ne_contains,
}
use mediasink.Rtsp.Server.State.{StreamInfo, Effect}
use mediasink.Rtsp.Server.Handlers.{sweep}

-- The streams that a range leaves.
abbrev pub swept :
    (StreamInfo → Option StreamInfo × List Effect) → Map Bytes StreamInfo → Map Bytes StreamInfo
swept body m = (sweep body m).0

abbrev pub bind_kept :
    (StreamInfo → Option StreamInfo × List Effect) → Option StreamInfo → Option StreamInfo
bind_kept body none = none
bind_kept body (some si) = (body si).0

pub contains-swept :
    (body : StreamInfo → Option StreamInfo × List Effect) (k : Bytes) (m : Map Bytes StreamInfo)
    → contains k m ≡ false
    → contains k (swept body m) ≡ false
unfolding sweep contains
contains-swept body k [] h = refl
contains-swept body k ((path, si) ∷ m) h = ground (arith, contains-swept body k m)

pub Distinct-swept :
    (body : StreamInfo → Option StreamInfo × List Effect) (m : Map Bytes StreamInfo)
    → Distinct m
    → Distinct (swept body m)
unfolding sweep
Distinct-swept body [] d = tt
Distinct-swept body ((path, si) ∷ m) d =
    ground (arith, contains-swept body path m d.0, Distinct-swept body m d.1)

pub length-swept-le :
    (body : StreamInfo → Option StreamInfo × List Effect) (m : Map Bytes StreamInfo)
    → length (swept body m) ≤ length m
unfolding sweep
length-swept-le body [] = omega arith
length-swept-le body ((path, si) ∷ m) = ground (arith, length-swept-le body m)

pub lookup-swept :
    (body : StreamInfo → Option StreamInfo × List Effect) (k : Bytes) (m : Map Bytes StreamInfo)
    → Distinct m
    → lookup k (swept body m) ≡ bind_kept body (lookup k m)
unfolding sweep lookup
lookup-swept body k [] d = refl
lookup-swept body k ((path, si) ∷ m) d = ground (
  arith,
  lookup-swept body k m d.1,
  list_beq_iff path k,
  lookup-ne_contains path m d.0,
  ap (λ (x : Bytes). lookup x m),
)
