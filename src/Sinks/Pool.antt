-- ===== src/Sinks/Pool.antt =====
-- internal/rtp_pool.go, the pool of packets over Go's sync.Pool. A packet is a pointer, nil is
-- `none`; sync.Pool may drop what it holds, and then makes a new packet.
use mediasink.Prelude.{
  ℕ, ◌+◌, ◌≡◌, refl, Bool, true, false, Option, none, some, List, [], ◌∷◌, if◌then◌else◌, nat_keys,
  bytes_keys, All,
}

pub record Pool : Type 0 where
  pub held : List (Option ℕ)
  pub fresh : ℕ

unfoldable pub create_rtp_pool : Pool
create_rtp_pool = record { held = []; fresh = 0 }

-- Get of sync.Pool: one that is held, or what New makes; `dropped` is whether the pool has lost those
-- that it held.
unfoldable pub pool_get : Bool → Pool → Pool × Option ℕ
pool_get dropped p =
    let made : Pool × Option ℕ = (record { held = []; fresh = p.fresh + 1 }, some p.fresh) in
    elim p.held [ [] ↦ made | x ∷ rest ↦ if dropped then made else (record p { held = rest }, x) ]

-- The packet that the caller gets; a nil packet is replaced by a new one.
unfoldable pub get : Bool → Pool → Pool × ℕ
unfolding pool_get
get dropped p =
    let (q, packet) = pool_get dropped p in
    elim packet [ none ↦ (record q { fresh = q.fresh + 1 }, q.fresh) | some x ↦ (q, x) ]

unfoldable pub put : Option ℕ → Pool → Pool
put none p = p
put (some x) p = record p { held = some x ∷ p.held }

-- The loop of Release on a list of what the pool does; whether it ends by then, with the pool.
unfoldable pub release : List Bool → Pool → Pool × Bool
unfolding pool_get
release [] p = (p, false)
release (dropped ∷ rounds) p =
    let rest = release rounds (pool_get dropped p).0 in
    elim (pool_get dropped p).1 [ none ↦ ((pool_get dropped p).0, true) | some x ↦ rest ]

-- No nil packet is held.
abbrev pub IsFilled : Pool → Type 0
IsFilled p = All (λ (x : Option ℕ). (n : ℕ) × (x ≡ some n)) p.held

pub data Call : Type 0 where
  getting : Bool → Call
  putting : Option ℕ → Call

unfoldable pub run : Pool → List Call → Pool
unfolding get put
run p [] = p
run p (getting dropped ∷ calls) = run (get dropped p).0 calls
run p (putting packet ∷ calls) = run (put packet p) calls

held_get :
    (dropped : Bool) (held : List (Option ℕ)) (fresh : ℕ)
    → All (λ (x : Option ℕ). (n : ℕ) × (x ≡ some n)) held
    → let r = pool_get dropped (record { held = held; fresh = fresh }) in
      IsFilled r.0 × ((n : ℕ) × (r.1 ≡ some n))
unfolding pool_get
held_get dropped [] fresh h = (tt, (fresh, refl))
held_get true (x ∷ held) fresh h = (tt, (fresh, refl))
held_get false (x ∷ held) fresh (full, rest) = (rest, full)

pool_get-IsFilled :
    (dropped : Bool) (p : Pool)
    → IsFilled p
    → IsFilled (pool_get dropped p).0 × ((n : ℕ) × ((pool_get dropped p).1 ≡ some n))
pool_get-IsFilled dropped p h = held_get dropped p.held p.fresh h

get-IsFilled : (dropped : Bool) (p : Pool) → IsFilled p → IsFilled (get dropped p).0
unfolding get
get-IsFilled dropped p h =
    let (filled, (n, e)) = pool_get-IsFilled dropped p h in rw (e, get) filled

run-IsFilled : (p : Pool) (calls : List Call) → IsFilled p → IsFilled (run p calls)
unfolding run put
run-IsFilled p [] h = h
run-IsFilled p (getting dropped ∷ calls) h =
    run-IsFilled (get dropped p).0 calls (get-IsFilled dropped p h)
run-IsFilled p (putting none ∷ calls) h = run-IsFilled p calls h
run-IsFilled p (putting (some x) ∷ calls) h = run-IsFilled (put (some x) p) calls ((x, refl), h)

release_on : (p : Pool) (rounds : List Bool) → IsFilled p → (release rounds p).1 ≡ false
unfolding release
release_on p [] h = refl
release_on p (dropped ∷ rounds) h =
    let (filled, (n, e)) = pool_get-IsFilled dropped p h in
    rw (e, release) (release_on (pool_get dropped p).0 rounds filled)

-- Whatever calls of Get and Put have been made of a pool, and whatever sync.Pool drops, the loop
-- of Release does not end.
pub release_never_ends :
    (calls : List Call) (rounds : List Bool)
    → (release rounds (run create_rtp_pool calls)).1 ≡ false
release_never_ends calls rounds =
    release_on (run create_rtp_pool calls) rounds
      (run-IsFilled create_rtp_pool calls (unfold create_rtp_pool in tt))
