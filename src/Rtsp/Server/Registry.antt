-- ===== src/Rtsp/Server/Registry.antt =====
-- The abstract view of pkg/rtsp/new_server.go: which session publishes which stream at which path. It
-- has no clients, no connections and no descriptions.
use mediasink.Prelude.{
  ℕ, suc, ◌≡◌, refl, sym, ap, ◌∙◌, inl, inr, Bool, true, false, not, Option, none, some, List, [],
  ◌∷◌, arith, leb, if◌then◌else◌, KeyEq, ◌==◌, ==_sound, nat_keys, bytes_keys, Bool-cases, length,
  Bytes, Map, lookup, contains, insert, retain, map_values,
}
use mediasink.Rtsp.Server.State.{StreamInfo, UserData, Server, StatusCode, status_ok, not_found}
use mediasink.Rtsp.Server.Upkeep.{is_inactive}
use mediasink.Rtsp.Server.Trace.{Event, session_open, session_close, announce, packet, cleanup}

-- A map with its values changed into others.
unfoldable pub over {ℓ κ μ} : {K : Type ℓ} {V : Type κ} {W : Type μ} → (V → W) → Map K V → Map K W
over f [] = []
over f ((k, v) ∷ m) = (k, f v) ∷ over f m

abbrev pub option_map {κ μ} : {V : Type κ} {W : Type μ} → (V → W) → Option V → Option W
option_map f none = none
option_map f (some v) = some (f v)

module _ {ℓ κ μ} {K : Type ℓ} {V : Type κ} {W : Type μ} ⦃keys : KeyEq K⦄ (f : V → W) where
  pub lookup-over : (k : K) (m : Map K V) → lookup k (over f m) ≡ option_map f (lookup k m)
  unfolding over lookup
  lookup-over k [] = refl
  lookup-over k ((i, v) ∷ m) = elim (Bool-cases (i == k)) [
    | inl same ↦ rw same refl
    | inr other ↦ rw other (lookup-over k m)
  ]

  pub contains-over : (k : K) (m : Map K V) → contains k (over f m) ≡ contains k m
  unfolding over contains
  contains-over k [] = refl
  contains-over k ((i, v) ∷ m) = rw (contains-over k m) refl

  pub over-insert :
      (k : K) (v : V) (m : Map K V) → over f (insert k v m) ≡ insert k (f v) (over f m)
  unfolding over insert
  over-insert k v [] = refl
  over-insert k v ((i, w) ∷ m) = elim (Bool-cases (i == k)) [
    | inl same ↦ rw same refl
    | inr other ↦ rw other (ap (λ (r : Map K W). (i, f w) ∷ r) (over-insert k v m))
  ]

  pub length-over : (m : Map K V) → length (over f m) ≡ length m
  unfolding over
  length-over [] = refl
  length-over ((i, v) ∷ m) = ap suc (length-over m)

  -- A value that is overwritten by one with the same view.
  pub over-insert_same :
      (k : K) (v w : V) (m : Map K V)
      → lookup k m ≡ some v
      → f w ≡ f v
      → over f (insert k w m) ≡ over f m
  unfolding over insert lookup
  over-insert_same k v w [] e same = cc
  over-insert_same k v w ((i, u) ∷ m) e same = elim (Bool-cases (i == k)) [
    | inl here ↦
        let found : u ≡ v = ground (arith, e, here) in
        rw here (
          ap (λ (j : K). (j, f w) ∷ over f m) (sym (==_sound i k here))
          ∙ ap (λ (x : W). (i, x) ∷ over f m) (same ∙ ap f (sym found)))
    | inr other ↦
        rw other
          (ap (λ (r : Map K W). (i, f u) ∷ r) (over-insert_same k v w m (rw other at e) same))
  ]

-- What is published at a path.
pub record Published : Type 0 where
  pub stream : Option ℕ
  pub publisher : Option ℕ
  pub last_active : ℕ

abbrev pub published : StreamInfo → Published
published si = record {
  stream = si.stream;
  publisher = si.publisher;
  last_active = si.publisher_last_active;
}

pub record Registry : Type 0 where
  pub max_streams : ℕ
  pub timeout : ℕ
  pub entries : Map Bytes Published
  pub opened : Map ℕ Bool

abbrev pub registry : Server → Registry
registry s = record {
  max_streams = s.config.max_streams;
  timeout = s.config.publisher_session_timeout;
  entries = over published s.streams;
  opened = over (λ (user : UserData). true) s.user_data;
}

abbrev pub publishes : ℕ → Published → Bool
publishes session p = elim p.publisher [ none ↦ false | some q ↦ q == session ]

abbrev pub sent_at : ℕ → ℕ → Published → Published
sent_at stream now p = elim p.stream [
  | none ↦ p
  | some t ↦ if t == stream then record p { last_active = now } else p
]

-- Only announcements, packets, the end of a session and the cleanup matter.
unfoldable pub register : Registry → Event → Registry
register r (announce path session stream desc now) =
    if leb r.max_streams (length r.entries) then r else record r {
      entries =
          insert path (record { stream = some stream; publisher = some session; last_active = now })
            r.entries;
    }
register r (session_open session addr now) = record r { opened = insert session true r.opened }
register r (session_close session) =
    if contains session r.opened
    then record r { entries = retain (λ path p. not (publishes session p)) r.entries }
    else r
register r (packet stream now) = record r { entries = map_values (sent_at stream now) r.entries }
register r (cleanup now) = record r {
  entries = retain (λ path p. not (is_inactive now p.last_active r.timeout)) r.entries;
}
register r _ = r

unfoldable pub register_all : Registry → List Event → Registry
unfolding register
register_all r [] = r
register_all r (e ∷ es) = register_all (register r e) es

abbrev pub answered : Option ℕ → StatusCode × Option ℕ
answered none = (not_found, none)
answered (some stream) = (status_ok, some stream)

abbrev pub stream_at : Option Published → Option ℕ
stream_at none = none
stream_at (some p) = p.stream

unfoldable pub describe : Bytes → Registry → StatusCode × Option ℕ
describe path r = answered (stream_at (lookup path r.entries))
