-- ===== src/Net/Tests.antt =====
-- Addresses that pass and fail the admission test.
use mediasink.Prelude.{◌≡◌, refl, true, false, [], ◌∷◌, map, nat_keys, bytes_keys, list_beq, codes}
use mediasink.Net.{is_loop_back}

runs_on_loopback :
    (map is_loop_back (
      codes "127.0.0.1:9000"
      ∷ codes "[::1]:80"
      ∷ codes "LocalHost:1"
      ∷ codes "[::ffff:127.9.9.9]:1"
      ∷ codes "[0:0:0:0:0:0:0:1]:1"
      ∷ []))
    ≡ true ∷ true ∷ true ∷ true ∷ true ∷ []
unfolding is_loop_back list_beq
runs_on_loopback = refl

runs_elsewhere :
    (map is_loop_back (
      codes "10.0.0.1:9000"
      ∷ codes "[::2]:80"
      ∷ codes "127.0.0.1"
      ∷ codes "127.00.0.1:1"
      ∷ codes "::1:80"
      ∷ codes "[::1%lo]:1"
      ∷ codes "example.com:1"
      ∷ []))
    ≡ false ∷ false ∷ false ∷ false ∷ false ∷ false ∷ false ∷ []
unfolding is_loop_back list_beq
runs_elsewhere = refl
