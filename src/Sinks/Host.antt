-- ===== src/Sinks/Host.antt =====
-- The interface Host of pkg/host.go, as far as a stream drives it: the state is the host's own, and a
-- packet is a pointer.
use mediasink.Prelude.{ℕ, Bool}

-- WriteRTP answers whether there is no error.
pub record HostOps {ℓ} (H : Type ℓ) : Type ℓ where
  pub write_rtp : ℕ → H → H × Bool
  pub close : H → H
