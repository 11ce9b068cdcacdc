-- ===== src/WebrtcJs/Fanout.antt =====
-- What a broadcast of pkg/webrtc_js/host.go does to the channels.
use mediasink.Prelude.{
  ℕ, suc, ◌+◌, ◌≡◌, refl, sym, ap, ◌∙◌, inl, inr, Bool, true, false, Option, none, some, [], ◌∷◌,
  arith, ltb, nat_beq, nat_beq_iff, if◌then◌else◌, ◌==◌, ==_refl, ==_sound, nat_keys, bytes_keys,
  list_beq_iff, Bool-cases, Option-cases, All, Bytes, Map, lookup, contains, Distinct,
  lookup-insert, lookup-ne_contains,
}
use mediasink.WebrtcJs.State.{ClientSession, Host}
use mediasink.WebrtcJs.Sessions.{has_room, enqueue}
use mediasink.WebrtcJs.Broadcast.{process_rtp_packet, ids, write_each, write_rtp}

-- A packet is offered to a session.
abbrev pub offer : ℕ → ℕ → Option ClientSession → Option ClientSession
offer packet now none = none
offer packet now (some cs) = if has_room cs then some (enqueue packet now cs) else some cs

pub if_yes {ℓ} : {A : Type ℓ} {b : Bool} {x : A} (y : A) → b ≡ true → (if b then x else y) ≡ x
if_yes y e = rw e refl

if_no {ℓ} : {A : Type ℓ} {b : Bool} {y : A} (x : A) → b ≡ false → (if b then x else y) ≡ y
if_no x e = rw e refl

process_other :
    (id k : Bytes) (packet now : ℕ) (h : Host)
    → (id == k) ≡ false
    → lookup k (process_rtp_packet id packet now h).0.clients
      ≡ (if id == k then offer packet now (lookup k h.clients) else lookup k h.clients)
unfolding process_rtp_packet
process_other id k packet now h other = elim (Option-cases (lookup id h.clients)) [
  | inl absent ↦ rw (absent, process_rtp_packet, other) refl
  | inr (cs, found) ↦ (elim (Bool-cases (has_room cs)) [
    | inl room ↦ rw (found, process_rtp_packet, room, lookup-insert, other) refl
    | inr full ↦ rw (found, process_rtp_packet, full, other) refl
  ])
]

process_at :
    (id k : Bytes) (packet now : ℕ) (h : Host)
    → (id == k) ≡ true
    → lookup k (process_rtp_packet id packet now h).0.clients
      ≡ (if id == k then offer packet now (lookup k h.clients) else lookup k h.clients)
unfolding process_rtp_packet
process_at id k packet now h same =
    let e = ap (λ (x : Bytes). lookup x h.clients) (==_sound id k same) in
    elim (Option-cases (lookup id h.clients)) [
      | inl absent ↦ rw (absent, process_rtp_packet, same, sym e ∙ absent) refl
      | inr (cs, found) ↦ (elim (Bool-cases (has_room cs)) [
        | inl room ↦
            rw (found, process_rtp_packet, room, lookup-insert, same, sym e ∙ found) (rw room refl)
        | inr full ↦ rw (found, process_rtp_packet, full, same, sym e ∙ found) (rw full refl)
      ])
    ]

lookup-process :
    (id k : Bytes) (packet now : ℕ) (h : Host)
    → lookup k (process_rtp_packet id packet now h).0.clients
      ≡ (if id == k then offer packet now (lookup k h.clients) else lookup k h.clients)
lookup-process id k packet now h = elim (Bool-cases (id == k)) [
  | inl same ↦ process_at id k packet now h same
  | inr other ↦ process_other id k packet now h other
]

pub lookup-write_each :
    (k : Bytes) (m : Map Bytes ClientSession) (packet now count : ℕ) (h : Host)
    → Distinct m
    → lookup k (write_each (ids m) packet now count h).0.clients
      ≡ (if contains k m then offer packet now (lookup k h.clients) else lookup k h.clients)
unfolding write_each contains
lookup-write_each k [] packet now count h d = refl
lookup-write_each k ((i, c) ∷ m) packet now count h d =
    let t = (process_rtp_packet i packet now h).0 in
    let sent = (process_rtp_packet i packet now h).1 in
    let later = lookup-write_each k m packet now (if sent then count + 1 else count) t d.1 in
    let first = lookup-process i k packet now h in
    elim (Bool-cases (i == k)) [
      | inl same ↦ rw same (
          later
          ∙ if_no _ (ap (λ (x : Bytes). contains x m) (sym (==_sound i k same)) ∙ d.0)
          ∙ first
          ∙ if_yes _ same)
      | inr other ↦ rw other (
          later
          ∙ ap (λ (o : Option ClientSession). if contains k m then offer packet now o else o)
              (first ∙ if_no _ other))
    ]

pub not_in_cons :
    (id i : Bytes) (c : ClientSession) (m : Map Bytes ClientSession)
    → contains id ((i, c) ∷ m) ≡ false
    → ((i == id) ≡ false) × (contains id m ≡ false)
unfolding contains
not_in_cons id i c m h = ground arith

pub differ : (i j : Bytes) → (j == i) ≡ false → (i == j) ≡ false
differ i j h = ground (arith, list_beq_iff i j, list_beq_iff j i)

nat_self : (n : ℕ) → nat_beq n n ≡ true
nat_self n = ground (arith, nat_beq_iff n n)

-- The sessions of a list of entries are those of the table.
abbrev pub Agree : Map Bytes ClientSession → Map Bytes ClientSession → Type 0
Agree m clients = All (λ (entry : Bytes × ClientSession). lookup entry.0 clients ≡ some entry.1) m

Agree-process :
    (id : Bytes) (m : Map Bytes ClientSession) (packet now : ℕ) (h : Host)
    → contains id m ≡ false
    → Agree m h.clients
    → Agree m (process_rtp_packet id packet now h).0.clients
unfolding contains
Agree-process id [] packet now h fresh agree = tt
Agree-process id ((i, c) ∷ m) packet now h fresh agree =
    let fresh_parts = not_in_cons id i c m fresh in
    (
      lookup-process id i packet now h ∙ if_no _ (differ id i fresh_parts.0) ∙ agree.0,
      Agree-process id m packet now h fresh_parts.1 agree.1,
    )

Agree-cons :
    (i : Bytes) (c : ClientSession) (m clients : Map Bytes ClientSession)
    → contains i m ≡ false
    → Agree m clients
    → Agree m ((i, c) ∷ clients)
unfolding contains lookup
Agree-cons i c [] clients fresh agree = tt
Agree-cons i c ((j, e) ∷ m) clients fresh agree =
    let fresh_parts = not_in_cons i j e m fresh in
    (rw (differ i j fresh_parts.0) agree.0, Agree-cons i c m clients fresh_parts.1 agree.1)

pub Agree-self : (m : Map Bytes ClientSession) → Distinct m → Agree m m
unfolding lookup
Agree-self [] d = tt
Agree-self ((i, c) ∷ m) d = (rw (==_refl i) refl, Agree-cons i c m m d.0 (Agree-self m d.1))

process-sent :
    (id : Bytes) (cs : ClientSession) (packet now : ℕ) (h : Host)
    → lookup id h.clients ≡ some cs
    → ((process_rtp_packet id packet now h).1 ≡ has_room cs)
      × (((process_rtp_packet id packet now h).0.packets packet).ssrc ≡ cs.primary_ssrc)
unfolding process_rtp_packet
process-sent id cs packet now h found = elim (Bool-cases (has_room cs)) [
  | inl room ↦ rw (found, process_rtp_packet, room) (refl, rw (nat_self packet) refl)
  | inr full ↦ rw (found, process_rtp_packet, full) (refl, rw (nat_self packet) refl)
]

unfoldable pub rooms : Map Bytes ClientSession → ℕ
rooms [] = 0
rooms ((i, c) ∷ m) = if has_room c then suc (rooms m) else rooms m

-- The SSRC of the last session, if there is one.
unfoldable pub last_ssrc : Map Bytes ClientSession → ℕ → ℕ
last_ssrc [] ssrc = ssrc
last_ssrc ((i, c) ∷ m) ssrc = last_ssrc m c.primary_ssrc

bump :
    (b : Bool) (count n : ℕ)
    → (if b then count + 1 else count) + n ≡ count + (if b then suc n else n)
bump b count n = ground arith

pub write_each-counts :
    (m : Map Bytes ClientSession) (packet now count : ℕ) (h : Host)
    → Distinct m
    → Agree m h.clients
    → let r = write_each (ids m) packet now count h in
      (r.1 ≡ count + rooms m) × ((r.0.packets packet).ssrc ≡ last_ssrc m (h.packets packet).ssrc)
unfolding write_each rooms last_ssrc
write_each-counts [] packet now count h d agree = (omega arith, refl)
write_each-counts ((i, c) ∷ m) packet now count h d agree =
    let t = (process_rtp_packet i packet now h).0 in
    let sent = (process_rtp_packet i packet now h).1 in
    let first = process-sent i c packet now h agree.0 in
    let later =
      write_each-counts m packet now (if sent then count + 1 else count) t d.1
        (Agree-process i m packet now h d.0 agree.1) in
    (
      later.0
          ∙ ap (λ (b : Bool). (if b then count + 1 else count) + rooms m) first.0
          ∙ bump (has_room c) count (rooms m),
      later.1 ∙ ap (last_ssrc m) first.1,
    )

pub offer_absent :
    (k : Bytes) (packet now : ℕ) (m : Map Bytes ClientSession)
    → (if contains k m then offer packet now (lookup k m) else lookup k m)
      ≡ offer packet now (lookup k m)
offer_absent k packet now m = elim (Bool-cases (contains k m)) [
  | inl here ↦ rw here refl
  | inr absent ↦ rw (absent, lookup-ne_contains k m absent) refl
]

of_table :
    (m : Map Bytes ClientSession) (h : Host) (w : Host × ℕ)
    → (m ≡ [] → w ≡ (h, 0))
    → let r : Host × Bool = elim m [ [] ↦ (h, false) | c ∷ cs ↦ (w.0, ltb 0 w.1) ] in
      (r.0 ≡ w.0) × (r.1 ≡ ltb 0 w.1)
of_table [] h w idle = (
  ap (λ (r : Host × ℕ). r.0) (sym (idle refl)),
  ap (λ (r : Host × ℕ). ltb 0 r.1) (sym (idle refl)),
)
of_table (c ∷ m) h w idle = (refl, refl)

pub write_rtp_runs :
    (packet now : ℕ) (h : Host)
    → let w = write_each (ids h.clients) packet now 0 h in
      ((write_rtp packet now h).0 ≡ w.0) × ((write_rtp packet now h).1 ≡ ltb 0 w.1)
unfolding write_rtp write_each
write_rtp_runs packet now h =
    of_table h.clients h (write_each (ids h.clients) packet now 0 h)
      (λ e. ap (λ (m : Map Bytes ClientSession). write_each (ids m) packet now 0 h) e)

-- If no id stands twice in the table, a broadcast goes well exactly if some session's channel has
-- room, and then every session whose channel has room gets the packet at the end of its channel and
-- counts as active now, while the others stay as they are.
pub write_rtp_lem :
    (k : Bytes) (packet now : ℕ) (h : Host)
    → Distinct h.clients
    → ((write_rtp packet now h).1 ≡ ltb 0 (rooms h.clients))
      × (lookup k (write_rtp packet now h).0.clients ≡ offer packet now (lookup k h.clients))
write_rtp_lem k packet now h d =
    let (table, result) = write_rtp_runs packet now h in
    let (counts, ssrc) = write_each-counts h.clients packet now 0 h d (Agree-self h.clients d) in
    (
      result ∙ ap (λ (n : ℕ). ltb 0 n) (counts ∙ omega arith),
      ap (λ (t : Host). lookup k t.clients) table
          ∙ lookup-write_each k h.clients packet now 0 h d
          ∙ offer_absent k packet now h.clients,
    )
