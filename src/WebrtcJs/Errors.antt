-- ===== src/WebrtcJs/Errors.antt =====
-- Which errors the health report of pkg/webrtc_js/host.go shows.
use mediasink.Prelude.{
  suc, ◌-◌, ◌≤◌, ◌≡◌, refl, sym, ◌∙◌, inl, inr, true, false, List, [], ◌∷◌, ◌++◌, arith, ltb,
  if◌then◌else◌, nat_keys, bytes_keys, Bool-cases, length, drop, length-append, Bytes,
}
use mediasink.WebrtcJs.State.{Host, log_error}
use mathlib.Core.List.{append-nil, append_assoc}

-- The last ten of a list.
unfoldable pub last_ten : List Bytes → List Bytes
last_ten xs = drop (length xs - 10) xs

pub log_all : List Bytes → Host → Host
log_all [] h = h
log_all (text ∷ texts) h = log_all texts (log_error text h)

last_ten-cons : (x : Bytes) (xs : List Bytes) → 10 ≤ length xs → last_ten (x ∷ xs) ≡ last_ten xs
unfolding last_ten
last_ten-cons x xs h = let e : suc (length xs) - 10 ≡ suc (length xs - 10) = omega arith in rw e

last_ten_short : (xs : List Bytes) → length xs ≤ 10 → last_ten xs ≡ xs
unfolding last_ten
last_ten_short xs h = let e : length xs - 10 ≡ 0 = omega arith in rw e

abbrev next : Bytes → List Bytes → List Bytes
next text errors =
    if ltb 10 (length (errors ++ text ∷ []))
    then drop 1 (errors ++ text ∷ [])
    else errors ++ text ∷ []

shift_short :
    (text : Bytes) (texts errors : List Bytes)
    → ltb 10 (length (errors ++ text ∷ [])) ≡ false
    → (length (next text errors) ≤ 10)
      × (last_ten (next text errors ++ texts) ≡ last_ten (errors ++ text ∷ texts))
shift_short text texts errors fits = rw (fits, append_assoc) (ground (arith, fits), refl)

shift_full :
    (text : Bytes) (texts errors : List Bytes)
    → length errors ≤ 10
    → ltb 10 (length (errors ++ text ∷ [])) ≡ true
    → (length (next text errors) ≤ 10)
      × (last_ten (next text errors ++ texts) ≡ last_ten (errors ++ text ∷ texts))
shift_full text texts [] h over = ground (arith, over)
shift_full text texts (e ∷ errors) h over =
    rw (over, append_assoc)
      (
        ground (arith, length-append errors (text ∷ [])),
        sym (
            last_ten-cons e (errors ++ text ∷ texts) (
              ground (
                arith,
                over,
                length-append errors (text ∷ []),
                length-append errors (text ∷ texts),
              ))),
      )

shift :
    (text : Bytes) (texts errors : List Bytes)
    → length errors ≤ 10
    → (length (next text errors) ≤ 10)
      × (last_ten (next text errors ++ texts) ≡ last_ten (errors ++ text ∷ texts))
shift text texts errors h = elim (Bool-cases (ltb 10 (length (errors ++ text ∷ [])))) [
  | inl over ↦ shift_full text texts errors h over
  | inr fits ↦ shift_short text texts errors fits
]

pub log_error-recent :
    (text : Bytes) (h : Host)
    → length h.health.recent_errors ≤ 10
    → length (log_error text h).health.recent_errors ≤ 10
unfolding log_error
log_error-recent text h short = (shift text [] h.health.recent_errors short).0

-- After any run of errors the report has the last ten of all errors, oldest first.
pub log_all_lem :
    (texts : List Bytes) (h : Host)
    → length h.health.recent_errors ≤ 10
    → (log_all texts h).health.recent_errors ≡ last_ten (h.health.recent_errors ++ texts)
unfolding log_all log_error
log_all_lem [] h short = sym (rw append-nil (last_ten_short h.health.recent_errors short))
log_all_lem (text ∷ texts) h short =
    let (fits, same) = shift text texts h.health.recent_errors short in
    log_all_lem texts (log_error text h) fits ∙ same
