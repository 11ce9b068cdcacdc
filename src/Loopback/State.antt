-- ===== src/Loopback/State.antt =====
-- The data of pkg/loopback/host.go with the options of pkg/loopback/options.go, and the methods
-- that only touch the data. A socket is known by its local port, a UDP address by its IP and port; the
-- float32 rates are left out. What the operating system answers comes with the call.
use mediasink.Prelude.{
  ℕ, ◌+◌, ◌%◌, ◌^◌, Bool, true, false, not, Option, none, some, List, [], ◌∷◌, ◌++◌, if◌then◌else◌,
  ◌==◌, nat_keys, bytes_keys, length, Bytes, codes, decimal,
}

abbrev pub int64 : ℕ → ℕ
int64 n = n % 2 ^ 64

pub record Metrics : Type 0 where
  pub data_sent : ℕ
  pub data_recvd : ℕ

unfoldable pub add_sent : ℕ → Metrics → Metrics
add_sent bytes m = record m { data_sent = int64 (m.data_sent + bytes) }

unfoldable pub add_recvd : ℕ → Metrics → Metrics
add_recvd bytes m = record m { data_recvd = int64 (m.data_recvd + bytes) }

pub record UdpAddr : Type 0 where
  pub ip : Bytes
  pub port : ℕ

pub record Command : Type 0 where
  pub path : Bytes
  pub args : List Bytes

-- `session` holds `cancel`, if it is set, as whether the context is done.
pub record LoopBack : Type 0 where
  pub bind_port : Option ℕ
  pub remote : Option UdpAddr
  pub has_callback : Bool
  pub metrics : Metrics
  pub cmd : Option Command
  pub session : Option Bool

abbrev pub new : LoopBack
new = record {
  bind_port = none;
  remote = none;
  has_callback = false;
  metrics = record { data_sent = 0; data_recvd = 0 };
  cmd = none;
  session = none;
}

abbrev pub local_ip : Bytes
local_ip = codes "127.0.0.1"

-- The port of a bind option is the one that ListenUDP gets, or none.
pub data LoopBackOption : Type 0 where
  with_random_bind_port : Option ℕ → LoopBackOption
  with_bind_port : Option ℕ → LoopBackOption
  with_loop_back_port : ℕ → LoopBackOption
  with_callback : LoopBackOption
  with_mav_proxy : Bytes → Bytes → LoopBackOption

abbrev pub bind : Option ℕ → LoopBack → Option LoopBack
bind none l = none
bind (some port) l = some (record l { bind_port = some port })

abbrev pub mav_proxy_args : Bytes → ℕ → List Bytes
mav_proxy_args device port =
    codes "--master"
    ∷ device
    ∷ codes "--out"
    ∷ (codes "udpout:127.0.0.1:" ++ decimal port)
    ∷ codes "--daemon"
    ∷ []

unfoldable pub apply_option : LoopBackOption → LoopBack → Option LoopBack
apply_option (with_random_bind_port port) l = bind port l
apply_option (with_bind_port port) l = bind port l
apply_option (with_loop_back_port port) l =
    some (record l { remote = some (record { ip = local_ip; port = port }) })
apply_option with_callback l = some (record l { has_callback = true })
apply_option (with_mav_proxy path device) l = elim l.bind_port [
  | none ↦ none
  | some port ↦
      some (record l { cmd = some (record { path = path; args = mav_proxy_args device port }) })
]

unfoldable pub apply_options : List LoopBackOption → LoopBack → Option LoopBack
unfolding apply_option
apply_options [] l = some l
apply_options (option ∷ options) l = elim (apply_option option l) [
  | none ↦ none
  | some t ↦ apply_options options t
]

unfoldable pub new_loop_back : List LoopBackOption → Option LoopBack
unfolding apply_options
new_loop_back options = apply_options options new

-- `written` is what WriteToUDP answers.
unfoldable pub write : Bytes → Option ℕ → LoopBack → LoopBack × Bool
unfolding add_sent
write payload written l = elim l.bind_port [
  | none ↦ (l, false)
  | some port ↦ (elim l.remote [
    | none ↦ (l, false)
    | some remote ↦ (elim written [
      | none ↦ (l, false)
      | some n ↦
          if n == length payload
          then (record l { metrics = add_sent n l.metrics }, true)
          else (l, false)
    ])
  ])
]

-- A packet: nil, one that Marshal refuses, or its bytes.
pub data Packet : Type 0 where
  nil_packet bad_packet : Packet
  marshalled : Bytes → Packet

unfoldable pub write_rtp : Packet → Option ℕ → LoopBack → LoopBack × Bool
unfolding write
write_rtp nil_packet written l = (l, false)
write_rtp bad_packet written l = (l, false)
write_rtp (marshalled payload) written l = write payload written l

-- `resolved` is what ResolveUDPAddr answers.
unfoldable pub set_remote_address : Option UdpAddr → LoopBack → LoopBack × Bool
set_remote_address none l = (l, false)
set_remote_address (some addr) l = (record l { remote = some addr }, true)

unfoldable pub is_connected : LoopBack → Bool
is_connected l = elim l.session [ none ↦ false | some done ↦ not done ]

-- The callback may be nil.
unfoldable pub set_on_payload_callback : Bool → LoopBack → LoopBack
set_on_payload_callback has_f l = record l { has_callback = has_f }
