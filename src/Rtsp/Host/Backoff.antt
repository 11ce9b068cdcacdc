-- ===== src/Rtsp/Host/Backoff.antt =====
-- The retry loop of pkg/rtsp/new_host.go: how long it waits, and when it gives up.
use mediasink.Prelude.{
  ℕ, zero, suc, ◌+◌, ◌≤◌, ◌≡◌, refl, ap, ◌∙◌, ◌⊎◌, inl, inr, true, false, some, List, [], ◌∷◌,
  length, ◌/◌, min, arith, nat_keys, bytes_keys,
}
use mediasink.Prelude.{is_zero}
use mediasink.Rtsp.Host.State.{HostState, failed, Error, set_state, set_error}
use mediasink.Rtsp.Host.Manager.{
  checking, stopped, Machine, Input, check, dial, started, retry, max_delay, next_delay, is_done,
  step, run,
}

-- The delay after a number of failed rounds.
unfoldable pub delay_after : ℕ → ℕ → ℕ
delay_after zero delay = delay
delay_after (suc n) delay = delay_after n (next_delay delay)

-- One failed attempt, and the wait behind it.
abbrev pub failed_round : Error → ℕ → ℕ → List Input
failed_round e client now = check ∷ dial client ∷ started (some e) now ∷ retry ∷ []

-- Attempts that fail, each with an error, a client and a time of its own.
abbrev pub failed_rounds : List (Error × ℕ × ℕ) → List Input
failed_rounds [] = []
failed_rounds ((e, client, now) ∷ attempts) =
    check ∷ dial client ∷ started (some e) now ∷ retry ∷ failed_rounds attempts

-- A delay in nanoseconds behind a number of attempts: three halves of it each time, rounded down, and
-- never more than thirty seconds.
unfoldable pub grown : ℕ → ℕ → ℕ
grown zero delay = delay
grown (suc n) delay = grown n (min 30_000_000_000 (delay + delay / 2))

next_delay-le : (d : ℕ) → next_delay d ≤ max_delay
unfolding next_delay
next_delay-le d = ground arith

next_delay_grows : (d : ℕ) → d ≤ max_delay → d ≤ next_delay d
unfolding next_delay
next_delay_grows d h = ground arith

next_delay_strict : (d : ℕ) → 2 ≤ d → (next_delay d ≡ max_delay) ⊎ (d + 1 ≤ next_delay d)
unfolding next_delay
next_delay_strict d h = ground arith

next_delay-max : next_delay max_delay ≡ max_delay
unfolding next_delay
next_delay-max = refl

delay_after-max : (n : ℕ) → delay_after n max_delay ≡ max_delay
unfolding delay_after
delay_after-max zero = refl
delay_after-max (suc n) = rw next_delay-max (delay_after-max n)

delay_after-suc-le : (n d : ℕ) → delay_after (suc n) d ≤ max_delay
unfolding delay_after
delay_after-suc-le zero d = next_delay-le d
delay_after-suc-le (suc n) d = delay_after-suc-le n (next_delay d)

delay_after_grows : (n d : ℕ) → d ≤ max_delay → delay_after n d ≤ delay_after (suc n) d
unfolding delay_after
delay_after_grows zero d h = next_delay_grows d h
delay_after_grows (suc n) d h = delay_after_grows n (next_delay d) (next_delay-le d)

-- A delay of two nanoseconds or more gets to the cap.
delay_after_reaches :
    (n d : ℕ) → 2 ≤ d → d ≤ max_delay → max_delay ≤ d + n → delay_after n d ≡ max_delay
unfolding delay_after
delay_after_reaches zero d low high enough = omega arith
delay_after_reaches (suc n) d low high enough = elim (next_delay_strict d low) [
  | inl capped ↦ rw capped (delay_after-max n)
  | inr longer ↦ delay_after_reaches n (next_delay d) (omega arith) (next_delay-le d) (omega arith)
]

failed_round-step :
    (m : Machine) (e : Error) (client now : ℕ)
    → m.phase ≡ checking
    → is_done m.host ≡ false
    → is_zero m.host.config.reconnect_attempts ≡ false
    → let t = run m (failed_round e client now) in
      (t.phase ≡ checking)
      × (is_done t.host ≡ false)
      × (is_zero t.host.config.reconnect_attempts ≡ false)
      × (t.host.state ≡ failed)
      × (t.host.last_error ≡ some e)
      × (t.current_delay ≡ next_delay m.current_delay)
unfolding run step set_state set_error
failed_round-step m e client now p d z = ground arith

still_failed :
    (attempts : List (Error × ℕ × ℕ)) (state : HostState)
    → state ≡ failed
    → (elim attempts [ [] ↦ state | a ∷ rest ↦ failed ]) ≡ failed
still_failed [] state e = e
still_failed (a ∷ rest) state e = refl

next_delay-grown : (d : ℕ) → next_delay d ≡ min 30_000_000_000 (d + d / 2)
unfolding next_delay
next_delay-grown d = ground arith

-- No number of failed attempts, whatever their errors, ends the loop while the context lasts, unless
-- `reconnect_attempts` is zero: it is back at its head, the host is in the error state if one has
-- failed, and the delay has grown by half for each of them, rounded down and capped at thirty
-- seconds.
pub failed_rounds_retry :
    (attempts : List (Error × ℕ × ℕ)) (m : Machine)
    → m.phase ≡ checking
    → is_done m.host ≡ false
    → is_zero m.host.config.reconnect_attempts ≡ false
    → let t = run m (failed_rounds attempts) in
      (t.phase ≡ checking)
      × (t.host.state ≡ (elim attempts [ [] ↦ m.host.state | a ∷ rest ↦ failed ]))
      × (t.current_delay ≡ grown (length attempts) m.current_delay)
unfolding run grown
failed_rounds_retry [] m p d z = (p, refl, refl)
failed_rounds_retry ((e, client, now) ∷ attempts) m p d z =
    let t = run m (failed_round e client now) in
    let f = failed_round-step m e client now p d z in
    let (q, state, delay) = failed_rounds_retry attempts t f.0 f.1 f.2 in
    (
      q,
      state ∙ still_failed attempts t.host.state f.3,
      delay ∙ ap (grown (length attempts)) (f.5 ∙ next_delay-grown m.current_delay),
    )

-- The delays never shrink from a start within the cap, never pass it after the first, and reach it
-- from a start of two nanoseconds or more.
pub delay_after_bounds :
    (n d : ℕ)
    → 2 ≤ d
    → d ≤ max_delay
    → max_delay ≤ d + n
    → (k : ℕ)
    → (delay_after k d ≤ delay_after (suc k) d)
      × (delay_after (suc k) d ≤ max_delay)
      × (delay_after n d ≡ max_delay)
delay_after_bounds n d low high enough k =
    (delay_after_grows k d high, delay_after-suc-le k d, delay_after_reaches n d low high enough)

-- With `reconnect_attempts` zero the first failure ends the loop, and the error is kept.
pub failed_attempt_stops :
    (m : Machine) (e : Error) (client now : ℕ)
    → m.phase ≡ checking
    → is_done m.host ≡ false
    → is_zero m.host.config.reconnect_attempts ≡ true
    → let t = run m (check ∷ dial client ∷ started (some e) now ∷ []) in
      (t.phase ≡ stopped) × (t.host.state ≡ failed) × (t.host.last_error ≡ some e)
unfolding run step set_state set_error
failed_attempt_stops m e client now p d z = ground arith
