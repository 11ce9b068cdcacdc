-- ===== src/Loopback/Rates.antt =====
-- The rates in the metrics of pkg/loopback/host.go. The float32 arithmetic is a parameter; an int64
-- counter is known by its bit pattern.
use mediasink.Prelude.{
  ℕ, ◌+◌, ◌-◌, ◌%◌, ◌^◌, ◌<◌, ◌≡◌, refl, ap, ◌∙◌, inl, inr, true, Option, none, some, List, [], ◌∷◌,
  arith, ltb, if◌then◌else◌, nat_keys, bytes_keys, Bool-cases, Option-cases,
}
use mediasink.Loopback.State.{int64, Metrics, add_sent, add_recvd}

-- float32 of an int64, float32 of a duration's seconds, and the division.
pub record FloatOps {ℓ} (F : Type ℓ) : Type ℓ where
  pub of_int64 : ℕ → F
  pub of_seconds : ℕ → F
  pub div : F → F → F

-- The metrics with their rates. A zero `last_update` is none; times are nanoseconds.
pub record Rates {ℓ} (F : Type ℓ) : Type ℓ where
  pub counts : Metrics
  pub data_sent_rate : F
  pub data_recvd_rate : F
  pub last_update : Option ℕ
  pub last_sent : ℕ
  pub last_recvd : ℕ

-- Subtraction of int64.
abbrev pub int64_sub : ℕ → ℕ → ℕ
int64_sub a b = (a + 2 ^ 64 - b) % 2 ^ 64

-- What the writes and the read loop do to the counters between two ticks.
pub data Traffic : Type 0 where
  sent recvd : ℕ → Traffic

unfoldable pub count : List Traffic → Metrics → Metrics
unfolding add_sent add_recvd
count [] m = m
count (sent bytes ∷ rest) m = count rest (add_sent bytes m)
count (recvd bytes ∷ rest) m = count rest (add_recvd bytes m)

unfoldable pub total_sent : List Traffic → ℕ
total_sent [] = 0
total_sent (sent bytes ∷ rest) = bytes + total_sent rest
total_sent (recvd bytes ∷ rest) = total_sent rest

unfoldable pub total_recvd : List Traffic → ℕ
total_recvd [] = 0
total_recvd (sent bytes ∷ rest) = total_recvd rest
total_recvd (recvd bytes ∷ rest) = bytes + total_recvd rest

count_lem :
    (traffic : List Traffic) (m : Metrics)
    → m.data_sent < 2 ^ 64
    → m.data_recvd < 2 ^ 64
    → ((count traffic m).data_sent ≡ int64 (m.data_sent + total_sent traffic))
      × ((count traffic m).data_recvd ≡ int64 (m.data_recvd + total_recvd traffic))
unfolding count total_sent total_recvd add_sent add_recvd
count_lem [] m sent_fits recvd_fits = (omega (arith, sent_fits), omega (arith, recvd_fits))
count_lem (sent bytes ∷ rest) m sent_fits recvd_fits =
    let (a, b) = count_lem rest (add_sent bytes m) (omega arith) recvd_fits in (a ∙ omega arith, b)
count_lem (recvd bytes ∷ rest) m sent_fits recvd_fits =
    let (a, b) = count_lem rest (add_recvd bytes m) sent_fits (omega arith) in (a, b ∙ omega arith)

wraps : (a n : ℕ) → a < 2 ^ 64 → int64_sub (int64 (a + n)) a ≡ int64 n
wraps a n h = omega (arith, h)

module _ {ℓ} {F : Type ℓ} (floats : FloatOps F) where
  abbrev pub rate : ℕ → ℕ → F
  rate count duration = floats.div (floats.of_int64 count) (floats.of_seconds duration)

  unfoldable pub update_rates : ℕ → Rates F → Rates F
  update_rates now m =
      let moved = record m {
        last_update = some now;
        last_sent = m.counts.data_sent;
        last_recvd = m.counts.data_recvd;
      } in
      elim m.last_update [
        | none ↦ moved
        | some last ↦
            if ltb 0 (now - last)
            then record moved {
              data_sent_rate = rate (int64_sub m.counts.data_sent m.last_sent) (now - last);
              data_recvd_rate = rate (int64_sub m.counts.data_recvd m.last_recvd) (now - last);
            }
            else moved
      ]

  unfoldable pub get_stats : Rates F → ℕ × ℕ × F × F
  get_stats m = (m.counts.data_sent, m.counts.data_recvd, m.data_sent_rate, m.data_recvd_rate)

  abbrev pub on_counts : (Metrics → Metrics) → Rates F → Rates F
  on_counts f m = record m { counts = f m.counts }

  -- What a tick leaves for the next one.
  marked :
      (now : ℕ) (m : Rates F)
      → let t = update_rates now m in
        (t.last_update ≡ some now)
        × (t.last_sent ≡ m.counts.data_sent)
        × (t.last_recvd ≡ m.counts.data_recvd)
        × (t.counts ≡ m.counts)
  unfolding update_rates
  marked now m = elim (Option-cases m.last_update) [
    | inl first ↦ rw (first, update_rates) (refl, refl, refl, refl)
    | inr (last, later) ↦ (elim (Bool-cases (ltb 0 (now - last))) [
      | inl moved ↦ rw (later, update_rates, moved) (refl, refl, refl, refl)
      | inr same ↦ rw (later, update_rates, same) (refl, refl, refl, refl)
    ])
  ]

  updated :
      (before now : ℕ) (m : Rates F)
      → m.last_update ≡ some before
      → before < now
      → let t = update_rates now m in
        (t.data_sent_rate ≡ rate (int64_sub m.counts.data_sent m.last_sent) (now - before))
        × (t.data_recvd_rate ≡ rate (int64_sub m.counts.data_recvd m.last_recvd) (now - before))
  unfolding update_rates
  updated before now m e later =
      let moved : ltb 0 (now - before) ≡ true = ground (arith, later) in
      rw (e, update_rates, moved) (refl, refl)

  -- The rates that a tick shows are the bytes that were counted since the tick in front of it, modulo
  -- 2 ^ 64, by the seconds between the two ticks, even if a counter wraps in between.
  pub rates_between_ticks :
      (before now : ℕ) (traffic : List Traffic) (m : Rates F)
      → m.counts.data_sent < 2 ^ 64
      → m.counts.data_recvd < 2 ^ 64
      → before < now
      → let t = update_rates now (on_counts (count traffic) (update_rates before m)) in
        (t.data_sent_rate ≡ rate (int64 (total_sent traffic)) (now - before))
        × (t.data_recvd_rate ≡ rate (int64 (total_recvd traffic)) (now - before))
  rates_between_ticks before now traffic m sent_fits recvd_fits later =
      let (when, sent_mark, recvd_mark, same) = marked before m in
      let (all_sent, all_recvd) = count_lem traffic m.counts sent_fits recvd_fits in
      let (by_sent, by_recvd) =
        updated before now (on_counts (count traffic) (update_rates before m)) when later in
      let counted = ap (count traffic) same in
      (
        by_sent
            ∙ ap (λ (n : ℕ). rate n (now - before))
                (ap (λ (c : Metrics). int64_sub c.data_sent (update_rates before m).last_sent)
                    counted
                  ∙ ap (int64_sub (count traffic m.counts).data_sent) sent_mark
                  ∙ ap (λ (n : ℕ). int64_sub n m.counts.data_sent) all_sent
                  ∙ wraps m.counts.data_sent (total_sent traffic) sent_fits),
        by_recvd
            ∙ ap (λ (n : ℕ). rate n (now - before))
                (ap (λ (c : Metrics). int64_sub c.data_recvd (update_rates before m).last_recvd)
                    counted
                  ∙ ap (int64_sub (count traffic m.counts).data_recvd) recvd_mark
                  ∙ ap (λ (n : ℕ). int64_sub n m.counts.data_recvd) all_recvd
                  ∙ wraps m.counts.data_recvd (total_recvd traffic) recvd_fits),
      )
