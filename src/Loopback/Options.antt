-- ===== src/Loopback/Options.antt =====
-- Which lists of options NewLoopBack of pkg/loopback/host.go takes, and what the writes count.
use mediasink.Prelude.{
  ℕ, ◌≡◌, refl, ap, ◌∙◌, inl, inr, Bool, true, false, ◌&&◌, Option, none, some, List, [], ◌∷◌,
  nat_keys, bytes_keys, Option-cases,
}
use mediasink.Loopback.State.{
  LoopBack, new, LoopBackOption, with_random_bind_port, with_bind_port, with_loop_back_port,
  with_callback, with_mav_proxy, apply_option, apply_options, new_loop_back,
}

abbrev pub is_some {ℓ} : {A : Type ℓ} → Option A → Bool
is_some none = false
is_some (some a) = true

-- Every port can be had, and MAVProxy has a port in front of it; `bound` is whether there has been
-- one.
unfoldable pub in_order : Bool → List LoopBackOption → Bool
in_order bound [] = true
in_order bound (with_random_bind_port port ∷ options) = is_some port && in_order true options
in_order bound (with_bind_port port ∷ options) = is_some port && in_order true options
in_order bound (with_loop_back_port port ∷ options) = in_order bound options
in_order bound (with_callback ∷ options) = in_order bound options
in_order bound (with_mav_proxy path device ∷ options) = bound && in_order bound options

apply_options-some :
    (options : List LoopBackOption) (l : LoopBack)
    → is_some (apply_options options l) ≡ in_order (is_some l.bind_port) options
unfolding apply_options apply_option in_order
apply_options-some [] l = refl
apply_options-some (with_random_bind_port none ∷ options) l = refl
apply_options-some (with_random_bind_port (some port) ∷ options) l =
    apply_options-some options (record l { bind_port = some port })
apply_options-some (with_bind_port none ∷ options) l = refl
apply_options-some (with_bind_port (some port) ∷ options) l =
    apply_options-some options (record l { bind_port = some port })
apply_options-some (with_loop_back_port port ∷ options) l = apply_options-some options _
apply_options-some (with_callback ∷ options) l = apply_options-some options _
apply_options-some (with_mav_proxy path device ∷ options) l = elim (Option-cases l.bind_port) [
  | inl unbound ↦ rw (unbound, apply_options, apply_option) refl
  | inr (port, bound) ↦
      rw (bound, apply_options, apply_option)
        (apply_options-some options _ ∙ ap (λ (o : Option ℕ). in_order (is_some o) options) bound)
]

-- NewLoopBack succeeds exactly if every port that an option asks for can be had and every MAVProxy
-- option has a bind option in front of it.
pub new_loop_back-some :
    (options : List LoopBackOption) → is_some (new_loop_back options) ≡ in_order false options
unfolding new_loop_back
new_loop_back-some options = apply_options-some options new
