-- ===== src/Rtsp/Host/Stats.antt =====
-- What the counters of pkg/rtsp/new_host.go count over the whole life of a host.
use mediasink.Prelude.{
  ℕ, ◌+◌, ◌%◌, ◌<◌, ◌≡◌, refl, sym, ap, ◌∙◌, subst, Bool, Option, none, some, List, [], ◌∷◌, ◌++◌,
  arith, nat_keys, bytes_keys, length, length-append, Bytes,
}
use mediasink.Rtsp.Host.State.{Packet, Host, get_stats, set_state, set_error}
use mediasink.Rtsp.Host.Write.{uint64_modulus, Written, write_failed, write_done, write_rtp}
use mediasink.Rtsp.Host.Manager.{
  Machine, Input, check, dial, started, retry, done, tick, write_packet, cancel, close,
  cancel_session, close_host, connect, step, run,
}

-- The payload of a write that has gone well.
abbrev pub accepted_payload : Written → List Bytes
accepted_payload w = elim w.error [
  | some e ↦ []
  | none ↦ (elim w.sent [ none ↦ [] | some packet ↦ packet.payload ∷ [] ])
]

abbrev pub accepted_by : Machine → Input → List Bytes
accepted_by m (write_packet packet written now) =
    accepted_payload (write_rtp packet written now m.host)
accepted_by m _ = []

-- The payloads that the clients have taken, over all connections.
unfoldable pub accepted : Machine → List Input → List Bytes
accepted m [] = []
accepted m (i ∷ is) = accepted_by m i ++ accepted (step m i) is

unfoldable pub total_bytes : List Bytes → ℕ
total_bytes [] = 0
total_bytes (payload ∷ rest) = length payload + total_bytes rest

total_bytes-append : (xs ys : List Bytes) → total_bytes (xs ++ ys) ≡ total_bytes xs + total_bytes ys
unfolding total_bytes
total_bytes-append [] ys = omega arith
total_bytes-append (x ∷ xs) ys = omega (arith, total_bytes-append xs ys)

-- A write, or anything else, of which the payloads are known.
abbrev Counted : Host → Host → List Bytes → Type 0
Counted h t payloads =
    (t.packets_written ≡ (h.packets_written + length payloads) % uint64_modulus)
    × (t.bytes_written ≡ (h.bytes_written + total_bytes payloads) % uint64_modulus)

abbrev Fits : Host → Type 0
Fits h = (h.packets_written < uint64_modulus) × (h.bytes_written < uint64_modulus)

write-Counted :
    (packet : Option Packet) (written : Bool) (now : ℕ) (h : Host)
    → Fits h
    → Counted h
        (write_rtp packet written now h).host
        (accepted_payload (write_rtp packet written now h))
unfolding write_rtp write_failed write_done set_state set_error total_bytes
write-Counted none written now h fits = ground (arith, fits)
write-Counted (some packet) written now h fits = ground (arith, fits)

step-Counted :
    (i : Input) (m : Machine) → Fits m.host → Counted m.host (step m i).host (accepted_by m i)
unfolding step set_state set_error cancel_session close_host total_bytes
step-Counted check m fits = ground (arith, fits)
step-Counted (dial client) m fits = ground (arith, fits)
step-Counted (started (some e) now) m fits = ground (arith, fits)
step-Counted (started none now) m fits = ground (arith, fits)
step-Counted retry m fits = ground (arith, fits)
step-Counted done m fits = ground (arith, fits)
step-Counted tick m fits = ground (arith, fits)
step-Counted (write_packet packet written now) m fits =
    let same : (step m (write_packet packet written now)).host
        ≡ (write_rtp packet written now m.host).host =
      ground arith in
    subst (λ (t : Host). Counted m.host t (accepted_by m (write_packet packet written now)))
      (sym same) (write-Counted packet written now m.host fits)
step-Counted cancel m fits = ground (arith, fits)
step-Counted close m fits = ground (arith, fits)

sum_up :
    (a b c x y : ℕ)
    → b ≡ (a + x) % uint64_modulus
    → c ≡ (b + y) % uint64_modulus
    → c ≡ (a + (x + y)) % uint64_modulus
sum_up a b c x y e f = omega (arith, e, f)

fits_modulo : (a b x : ℕ) → b ≡ (a + x) % uint64_modulus → b < uint64_modulus
fits_modulo a b x e = omega (arith, e)

run-Counted :
    (is : List Input) (m : Machine) → Fits m.host → Counted m.host (run m is).host (accepted m is)
unfolding run accepted total_bytes
run-Counted [] m fits = ground (arith, fits)
run-Counted (i ∷ is) m fits =
    let (packets, bytes) = step-Counted i m fits in
    let (later, later_bytes) =
      run-Counted is (step m i) (fits_modulo _ _ _ packets, fits_modulo _ _ _ bytes) in
    (
      sum_up _ _ _ _ _ packets later
          ∙ ap (λ (n : ℕ). (m.host.packets_written + n) % uint64_modulus)
              (sym (length-append (accepted_by m i) (accepted (step m i) is))),
      sum_up _ _ _ _ _ bytes later_bytes
          ∙ ap (λ (n : ℕ). (m.host.bytes_written + n) % uint64_modulus)
              (sym (total_bytes-append (accepted_by m i) (accepted (step m i) is))),
    )

-- Over the whole life of a host, through all its connections and whatever else happens, the numbers
-- of GetStats grow by exactly the packets whose WriteRTP handed them to a client without an error, and
-- by the bytes of their payloads, both modulo 2 ^ 64.
pub run-get_stats :
    (parent_done : Bool) (h : Host) (is : List Input)
    → h.packets_written < uint64_modulus
    → h.bytes_written < uint64_modulus
    → let m = connect parent_done h in
      ((get_stats (run m is).host).0
        ≡ (h.packets_written + length (accepted m is)) % uint64_modulus)
      × ((get_stats (run m is).host).1
          ≡ (h.bytes_written + total_bytes (accepted m is)) % uint64_modulus)
unfolding get_stats
run-get_stats parent_done h is packets_fit bytes_fit =
    let m = connect parent_done h in
    let packets : m.host.packets_written ≡ h.packets_written = unfold connect set_state in refl in
    let bytes : m.host.bytes_written ≡ h.bytes_written = unfold connect set_state in refl in
    let (a, b) = run-Counted is m (omega (arith, packets), omega (arith, bytes)) in
    (a ∙ omega (arith, packets), b ∙ omega (arith, bytes))
