-- ===== src/Sinks/Starting.antt =====
-- Which streams that CreateStream of pkg/stream.go makes can be started.
use mediasink.Loopback.State as Loopback
use mediasink.Loopback.Threads as Threads
use mediasink.Prelude.{
  ℕ, ◌≡◌, refl, sym, ap, ◌∙◌, inl, inr, Bool, true, false, none, some, List, [], ◌∷◌, arith,
  if◌then◌else◌, nat_keys, bytes_keys, Option-cases, Bytes,
}
use mediasink.Loopback.Options.{is_some}
use mediasink.Sinks.Options.{
  StreamHost, no_host, rtsp_host, socket_host, loopback_host, webrtc_host, StreamOption,
  with_rtsp_host, with_local_socket, with_loop_back_host, with_webrtc_restream, make_host, Stream,
  create_stream, start, all_made, last_host, apply_options_lem,
}

-- Whether a list of loopback options has one that binds a socket.
unfoldable pub binds : List Loopback.LoopBackOption → Bool
binds [] = false
binds (Loopback.with_random_bind_port port ∷ options) = true
binds (Loopback.with_bind_port port ∷ options) = true
binds (_ ∷ options) = binds options

-- Whether the last option there is can be started: any but a loopback without a bind option.
unfoldable pub last_starts : List StreamOption → Bool
last_starts [] = false
last_starts (option ∷ []) = elim option [ with_loop_back_host options ↦ binds options | _ ↦ true ]
last_starts (option ∷ next ∷ options) = last_starts (next ∷ options)

abbrev is_ready : StreamHost → Bool
is_ready no_host = false
is_ready (loopback_host l) = is_some l.bind_port
is_ready _ = true

start_ready :
    (host : StreamHost) (size : ℕ)
    → is_some (start (record { host = host; buffer_size = size })) ≡ is_ready host
unfolding start Threads.connect
start_ready no_host size = refl
start_ready (rtsp_host h) size = refl
start_ready (socket_host h) size = refl
start_ready (loopback_host l) size = ground arith
start_ready (webrtc_host h) size = refl

proxy_unbound :
    (path device : Bytes) (options : List Loopback.LoopBackOption) (l : Loopback.LoopBack)
    → l.bind_port ≡ none
    → Loopback.apply_options (Loopback.with_mav_proxy path device ∷ options) l ≡ none
unfolding Loopback.apply_options Loopback.apply_option
proxy_unbound path device options l unbound = ground (arith, unbound)

proxy_bound :
    (path device : Bytes) (options : List Loopback.LoopBackOption) (l : Loopback.LoopBack)
    (port : ℕ)
    → l.bind_port ≡ some port
    → Loopback.apply_options (Loopback.with_mav_proxy path device ∷ options) l
      ≡ Loopback.apply_options options (record l {
        cmd = some (record { path = path; args = Loopback.mav_proxy_args device port });
      })
unfolding Loopback.apply_options Loopback.apply_option
proxy_bound path device options l port bound = ground (arith, bound)

binds_port :
    (options : List Loopback.LoopBackOption) (l made : Loopback.LoopBack)
    → Loopback.apply_options options l ≡ some made
    → is_some made.bind_port ≡ (if is_some l.bind_port then true else binds options)
unfolding Loopback.apply_options Loopback.apply_option binds
binds_port [] l made e = ground (arith, e)
binds_port (Loopback.with_random_bind_port none ∷ options) l made e = cc
binds_port (Loopback.with_random_bind_port (some port) ∷ options) l made e =
    binds_port options (record l { bind_port = some port }) made e ∙ ground arith
binds_port (Loopback.with_bind_port none ∷ options) l made e = cc
binds_port (Loopback.with_bind_port (some port) ∷ options) l made e =
    binds_port options (record l { bind_port = some port }) made e ∙ ground arith
binds_port (Loopback.with_loop_back_port port ∷ options) l made e = binds_port options _ made e
binds_port (Loopback.with_callback ∷ options) l made e = binds_port options _ made e
binds_port (Loopback.with_mav_proxy path device ∷ options) l made e =
    elim (Option-cases l.bind_port) [
      | inl unbound ↦ cc (e, proxy_unbound path device options l unbound)
      | inr (port, bound) ↦
          binds_port options _ made (sym (proxy_bound path device options l port bound) ∙ e)
    ]

made_ready :
    (option : StreamOption) (host : StreamHost)
    → make_host option ≡ some host
    → is_ready host ≡ last_starts (option ∷ [])
unfolding make_host last_starts
made_ready (with_rtsp_host config medias options) host e = ground (arith, e)
made_ready (with_local_socket addr port config has_handler) host e = ground (arith, e)
made_ready (with_loop_back_host options) host e =
    elim (Option-cases (Loopback.new_loop_back options)) [
      | inl refused ↦ ground (arith, e, refused)
      | inr (l, made) ↦
          let same : host ≡ loopback_host l = ground (arith, e, made) in
          ap is_ready same
          ∙ binds_port options Loopback.new l (unfold Loopback.new_loop_back in made)
    ]
made_ready (with_webrtc_restream config now packets) host e = ground (arith, e)

picked : (b : Bool) (x y : Stream) → (if b then some x else none) ≡ some y → (b ≡ true) × (x ≡ y)
picked true x y e = (refl, cc)
picked false x y e = cc

last_host_ready :
    (option : StreamOption) (options : List StreamOption) (host : StreamHost)
    → all_made (option ∷ options) ≡ true
    → is_ready (last_host (option ∷ options) host) ≡ last_starts (option ∷ options)
unfolding last_host all_made last_starts
last_host_ready option [] host made = elim (Option-cases (make_host option)) [
  | inl refused ↦ cc
  | inr (h, e) ↦ rw (e, last_host) (made_ready option h e)
]
last_host_ready option (next ∷ options) host made =
    last_host_ready next options (elim (make_host option) [ none ↦ host | some made ↦ made ])
      (ground (arith, made))

any_ready :
    (options : List StreamOption)
    → all_made options ≡ true
    → is_ready (last_host options no_host) ≡ last_starts options
unfolding last_host last_starts
any_ready [] made = refl
any_ready (option ∷ options) made = last_host_ready option options no_host made

-- If CreateStream returns no error, then every option has made its host, the stream has the host that
-- the last option has made, and Start of the stream panics for want of a host or of a socket exactly
-- if there was no option, or the last one is WithLoopBackHost without an option that binds.
pub create_stream_starts :
    (size : ℕ) (options : List StreamOption) (stream : Stream)
    → create_stream size options ≡ some stream
    → (all_made options ≡ true)
      × (stream.host ≡ last_host options no_host)
      × (is_some (start stream) ≡ last_starts options)
unfolding create_stream
create_stream_starts size options stream e =
    let runs =
      sym (apply_options_lem options (record { host = no_host; buffer_size = size })) ∙ e in
    let (made, same) = picked (all_made options) _ stream runs in
    let host = ap (λ (t : Stream). t.host) (sym same) in
    (
      made,
      host,
      start_ready stream.host stream.buffer_size ∙ ap is_ready host ∙ any_ready options made,
    )
