-- ===== src/WebrtcJs/AnyOrder.antt =====
-- The range of pkg/webrtc_js/host.go over the map of sessions takes them in any order.
use mediasink.Prelude.{
  ℕ, ◌≡◌, refl, sym, ap, ◌∙◌, subst, Bool, false, Option, some, ◌∷◌, arith, ltb, if◌then◌else◌,
  nat_keys, bytes_keys, Bytes, Map, lookup, contains, Distinct,
}
use mediasink.WebrtcJs.State.{ClientSession, Host}
use mediasink.WebrtcJs.Broadcast.{ids, write_each, write_rtp}
use mediasink.WebrtcJs.Fanout.{
  offer, Agree, Agree-self, lookup-write_each, write_each-counts, rooms, offer_absent, not_in_cons,
  differ, write_rtp_lem,
}
use mathlib.Core.List.{Perm, Permᴰ}
use mathlib.Core.Logic.{∥∥₁_elim}
use mathlib.Core.List.Permᴰ

abbrev Table : Type 0
Table = Map Bytes ClientSession

contains-head :
    (k : Bytes) (a b : Bytes × ClientSession) (m n : Table)
    → a ≡ b
    → contains k m ≡ contains k n
    → contains k (a ∷ m) ≡ contains k (b ∷ n)
unfolding contains
contains-head k a b m n same e = rw (same, e) refl

contains-swap :
    (k : Bytes) (a b : Bytes × ClientSession) (m : Table)
    → contains k (a ∷ b ∷ m) ≡ contains k (b ∷ a ∷ m)
unfolding contains
contains-swap k a b m = ground arith

rooms-head :
    (a b : Bytes × ClientSession) (m n : Table)
    → a ≡ b
    → rooms m ≡ rooms n
    → rooms (a ∷ m) ≡ rooms (b ∷ n)
unfolding rooms
rooms-head a b m n same e = rw (same, e) refl

rooms-swap : (a b : Bytes × ClientSession) (m : Table) → rooms (a ∷ b ∷ m) ≡ rooms (b ∷ a ∷ m)
unfolding rooms
rooms-swap a b m = ground arith

contains-perm : (k : Bytes) {m n : Table} → Permᴰ m n → contains k m ≡ contains k n
contains-perm k Permᴰ.nil = refl
contains-perm k (Permᴰ.cons {a = a} {b = b} {l₁ = m} {l₂ = n} same p) =
    contains-head k a b m n same (contains-perm k p)
contains-perm k (Permᴰ.swap {a = a} {b = b} {a' = c} {b' = d} {l = m} first second) =
    contains-swap k a b m
    ∙ contains-head k b c (a ∷ m) (d ∷ m) second (contains-head k a d m m first refl)
contains-perm k (Permᴰ.trans p q) = contains-perm k p ∙ contains-perm k q

rooms-perm : {m n : Table} → Permᴰ m n → rooms m ≡ rooms n
rooms-perm Permᴰ.nil = refl
rooms-perm (Permᴰ.cons {a = a} {b = b} {l₁ = m} {l₂ = n} same p) =
    rooms-head a b m n same (rooms-perm p)
rooms-perm (Permᴰ.swap {a = a} {b = b} {a' = c} {b' = d} {l = m} first second) =
    rooms-swap a b m ∙ rooms-head b c (a ∷ m) (d ∷ m) second (rooms-head a d m m first refl)
rooms-perm (Permᴰ.trans p q) = rooms-perm p ∙ rooms-perm q

Distinct-head :
    (a b : Bytes × ClientSession) (m n : Table)
    → a ≡ b
    → contains b.0 m ≡ contains b.0 n
    → (Distinct m → Distinct n)
    → Distinct (a ∷ m)
    → Distinct (b ∷ n)
Distinct-head a b m n same e f d =
    (sym e ∙ subst (λ (x : Bytes × ClientSession). contains x.0 m ≡ false) same d.0, f d.1)

Distinct-swap :
    (a b : Bytes × ClientSession) (m : Table) → Distinct (a ∷ b ∷ m) → Distinct (b ∷ a ∷ m)
unfolding contains
Distinct-swap a b m d =
    let apart = not_in_cons a.0 b.0 b.1 m d.0 in
    (rw (differ a.0 b.0 apart.0) d.1.0, (apart.1, d.1.1))

Distinct-perm : {m n : Table} → Permᴰ m n → Distinct m → Distinct n
Distinct-perm Permᴰ.nil d = d
Distinct-perm (Permᴰ.cons {a = a} {b = b} {l₁ = m} {l₂ = n} same p) d =
    Distinct-head a b m n same (contains-perm b.0 p) (Distinct-perm p) d
Distinct-perm (Permᴰ.swap {a = a} {b = b} {a' = c} {b' = d} {l = m} first second) e =
    subst (λ (x : Bytes × ClientSession). Distinct (x ∷ d ∷ m)) second
      (subst (λ (x : Bytes × ClientSession). Distinct (b ∷ x ∷ m)) first (Distinct-swap a b m e))
Distinct-perm (Permᴰ.trans p q) d = Distinct-perm q (Distinct-perm p d)

abbrev Found : Table → Bytes × ClientSession → Type 0
Found clients entry = lookup entry.0 clients ≡ some entry.1

Agree-perm : (clients : Table) {m n : Table} → Permᴰ m n → Agree n clients → Agree m clients
Agree-perm clients Permᴰ.nil h = h
Agree-perm clients (Permᴰ.cons same p) h =
    (subst (Found clients) (sym same) h.0, Agree-perm clients p h.1)
Agree-perm clients (Permᴰ.swap first second) h =
    (subst (Found clients) (sym first) h.1.0, (subst (Found clients) (sym second) h.0, h.1.1))
Agree-perm clients (Permᴰ.trans p q) h = Agree-perm clients p (Agree-perm clients q h)

outcomes_set : IsSet (Option ClientSession)
outcomes_set = hlevel

equations-prop : (b c : Bool) (o p : Option ClientSession) → IsProp ((b ≡ c) × (o ≡ p))
equations-prop b c o p = hlevel outcomes_set

ordered :
    (order : Map Bytes ClientSession) (k : Bytes) (packet now : ℕ) (h : Host)
    → Distinct h.clients
    → Permᴰ order h.clients
    → let r = write_each (ids order) packet now 0 h in
      (ltb 0 r.1 ≡ (write_rtp packet now h).1)
      × (lookup k r.0.clients ≡ lookup k (write_rtp packet now h).0.clients)
ordered order k packet now h d p =
    let there = Distinct-perm (Permᴰ.symm p) d in
    let (sent, queued) = write_rtp_lem k packet now h d in
    let counts =
      write_each-counts order packet now 0 h there
        (Agree-perm h.clients p (Agree-self h.clients d)) in
    (
      ap (λ n. ltb 0 n) (counts.0 ∙ omega arith ∙ rooms-perm p) ∙ sym sent,
      lookup-write_each k order packet now 0 h there
          ∙ ap
              (λ (b : Bool).
                if b then offer packet now (lookup k h.clients) else lookup k h.clients)
              (contains-perm k p)
          ∙ offer_absent k packet now h.clients
          ∙ sym queued,
    )

-- If no id stands twice in the table, the order in which a broadcast takes the sessions changes
-- neither its result nor what it does to any session.
pub write_rtp_any_order :
    (order : Map Bytes ClientSession) (k : Bytes) (packet now : ℕ) (h : Host)
    → Distinct h.clients
    → Perm order h.clients
    → let r = write_each (ids order) packet now 0 h in
      (ltb 0 r.1 ≡ (write_rtp packet now h).1)
      × (lookup k r.0.clients ≡ lookup k (write_rtp packet now h).0.clients)
write_rtp_any_order order k packet now h d p =
    ∥∥₁_elim p (equations-prop _ _ _ _) (ordered order k packet now h d)
