-- ===== src/Sinks/Options.antt =====
-- pkg/stream_options.go with CreateStream and Start of pkg/stream.go: the four kinds of host that a
-- stream can have. What the operating system and the libraries answer comes with an option.
use mediasink.Rtsp.Host.State as RtspHost
use mediasink.Socket.Host.State as SocketHost
use mediasink.Loopback.State as Loopback
use mediasink.Loopback.Threads as Threads
use mediasink.WebrtcJs.State as Webrtc
use mediasink.Prelude.{
  ℕ, ◌≡◌, refl, inl, inr, Bool, true, false, ◌&&◌, Option, none, some, List, [], ◌∷◌, if◌then◌else◌,
  nat_keys, bytes_keys, Option-cases, Bytes,
}
use mediasink.Loopback.Options.{is_some}

-- The interface value of a stream; nil is `no_host`.
pub data StreamHost : Type 0 where
  no_host : StreamHost
  rtsp_host : RtspHost.Host → StreamHost
  socket_host : SocketHost.Host → StreamHost
  loopback_host : Loopback.LoopBack → StreamHost
  webrtc_host : Webrtc.Host → StreamHost

-- The WebRTC host comes with the time and the memory that it starts with.
pub data StreamOption : Type 0 where
  with_rtsp_host :
      Option RtspHost.HostConfig → List RtspHost.Media → List RtspHost.HostOption → StreamOption
  with_local_socket : Bytes → ℕ → SocketHost.HostConfig → Bool → StreamOption
  with_loop_back_host : List Loopback.LoopBackOption → StreamOption
  with_webrtc_restream : Webrtc.Config → ℕ → (ℕ → Webrtc.Packet) → StreamOption

-- The host that an option sets, if it returns no error.
unfoldable pub make_host : StreamOption → Option StreamHost
make_host (with_rtsp_host config medias options) = elim (RtspHost.new_host config medias options) [
  | RtspHost.ok h ↦ some (rtsp_host h)
  | RtspHost.err e ↦ none
]
make_host (with_local_socket addr port config has_handler) =
    some (socket_host (SocketHost.new_host addr port config has_handler))
make_host (with_loop_back_host options) = elim (Loopback.new_loop_back options) [
  | none ↦ none
  | some l ↦ some (loopback_host l)
]
make_host (with_webrtc_restream config now packets) =
    some (webrtc_host (Webrtc.new_host config now packets))

pub record Stream : Type 0 where
  pub host : StreamHost
  pub buffer_size : ℕ

-- The loop over the options.
unfoldable pub apply_options : List StreamOption → Stream → Option Stream
unfolding make_host
apply_options [] stream = some stream
apply_options (option ∷ options) stream = elim (make_host option) [
  | none ↦ none
  | some host ↦ apply_options options (record stream { host = host })
]

unfoldable pub create_stream : ℕ → List StreamOption → Option Stream
unfolding apply_options
create_stream buffer_size options =
    apply_options options (record { host = no_host; buffer_size = buffer_size })

-- Start calls Connect of the host, which panics if it is nil, and so does Connect of a loopback host
-- that has no socket; otherwise both goroutines run.
unfoldable pub start : Stream → Option StreamHost
unfolding Threads.connect
start stream = elim stream.host [
  | no_host ↦ none
  | loopback_host l ↦ (elim (Threads.connect false l) [
    | none ↦ none
    | some t ↦ some (loopback_host l)
  ])
  | host ↦ some host
]

-- SetOnPayloadCallback of a sink: only two of the hosts have the method.
unfoldable pub set_on_payload_callback : Bool → Stream → Stream
set_on_payload_callback has_f stream = elim stream.host [
  | socket_host h ↦ record stream {
    host = socket_host (SocketHost.set_on_payload_callback has_f h);
  }
  | loopback_host l ↦ record stream {
    host = loopback_host (Loopback.set_on_payload_callback has_f l);
  }
  | _ ↦ stream
]

-- Whether every option makes its host.
unfoldable pub all_made : List StreamOption → Bool
all_made [] = true
all_made (option ∷ options) = is_some (make_host option) && all_made options

-- The host that the last option makes.
unfoldable pub last_host : List StreamOption → StreamHost → StreamHost
last_host [] host = host
last_host (option ∷ options) host =
    last_host options (elim (make_host option) [ none ↦ host | some made ↦ made ])

pub apply_options_lem :
    (options : List StreamOption) (stream : Stream)
    → apply_options options stream ≡ (
        if all_made options
        then some (record stream { host = last_host options stream.host })
        else none)
unfolding apply_options all_made last_host
apply_options_lem [] stream = refl
apply_options_lem (option ∷ options) stream = elim (Option-cases (make_host option)) [
  | inl refused ↦ rw (refused, apply_options) refl
  | inr (host, made) ↦
      rw (made, apply_options) (apply_options_lem options (record stream { host = host }))
]
