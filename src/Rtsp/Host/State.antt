-- ===== src/Rtsp/Host/State.antt =====
-- The data of pkg/rtsp/new_host.go, with the media formats of pkg/rtsp/options.go. Clients are
-- pointers of gortsplib, known here by a number each; a packet has the fields that the host reads.
use mediasink.Prelude.{
  ℕ, ◌*◌, Bool, true, false, Option, none, some, List, [], ◌∷◌, ◌++◌, nat_keys, bytes_keys, Bytes,
  codes, decimal,
}
use mediasink.Prelude.{ℤ, pos}

pub data HostState : Type 0 where
  disconnected connecting connected recording failed : HostState

pub data Error : Type 0 where
  invalid_url start_recording_failed write_packet_failed : Error
  cannot_write : HostState → Error
  client_not_initialised no_media_formats no_media_options option_failed : Error

pub record HostConfig : Type 0 where
  pub server_addr : Bytes
  pub server_port : ℕ
  pub stream_path : Bytes
  pub read_timeout : ℕ
  pub write_timeout : ℕ
  pub dial_timeout : ℕ
  pub reconnect_attempts : ℤ
  pub reconnect_delay : ℕ
  pub user_agent : Bytes

abbrev pub second : ℕ
second = 1_000_000_000

unfoldable pub local_host_config : HostConfig
local_host_config = record {
  server_addr = codes "localhost";
  server_port = 8554;
  stream_path = codes "stream";
  read_timeout = 10 * second;
  write_timeout = 10 * second;
  dial_timeout = 10 * second;
  reconnect_attempts = pos 3;
  reconnect_delay = 2 * second;
  user_agent = codes "GoRTSP-Host/1.0";
}

-- A format of gortsplib; `other` is any that the host does not make itself.
pub data Format : Type 0 where
  h264 : ℕ → ℕ → Bytes → Bytes → Format
  vp8 : ℕ → Format
  opus : ℕ → ℕ → Format
  other : ℕ → Format

-- The format's PayloadType method.
abbrev pub payload_type_of : Format → ℕ
payload_type_of (h264 payload_typ mode sps pps) = payload_typ
payload_type_of (vp8 payload_typ) = payload_typ
payload_type_of (opus payload_typ channels) = payload_typ
payload_type_of (other payload_typ) = payload_typ

pub data MediaType : Type 0 where
  video audio : MediaType

pub record Media : Type 0 where
  pub media_type : MediaType
  pub formats : List Format

pub record Packet : Type 0 where
  pub payload_type : ℕ
  pub payload : Bytes

-- `session` holds `cancel`, if it is set, as whether the context is done. `reconnect_chan` is the
-- number of tokens in the channel, whose capacity is 1. The counters are uint64.
pub record Host : Type 0 where
  pub server_addr : Bytes
  pub stream_path : Bytes
  pub rtsp_url : Bytes
  pub client : Option ℕ
  pub medias : List Media
  pub state : HostState
  pub session : Option Bool
  pub config : HostConfig
  pub last_error : Option Error
  pub reconnect_chan : ℕ
  pub packets_written : ℕ
  pub bytes_written : ℕ
  pub last_write_time : ℕ

pub data Result {ℓ} (A : Type ℓ) : Type ℓ where
  ok : A → Result A
  err : Error → Result A

abbrev pub HostOption : Type 0
HostOption = Host → Result Host

-- The verb sequence "rtsp://%s:%d/%s".
unfoldable pub make_rtsp_url : HostConfig → Bytes
make_rtsp_url config =
    codes "rtsp://"
    ++ (config.server_addr ++ (b':' ∷ (decimal config.server_port ++ (b'/' ∷ config.stream_path))))

unfoldable pub apply_options : List HostOption → Host → Result Host
apply_options [] h = ok h
apply_options (option ∷ options) h = elim (option h) [
  | err e ↦ err option_failed
  | ok h' ↦ apply_options options h'
]

abbrev pub initial_host : HostConfig → List Media → Host
initial_host config medias = record {
  server_addr = config.server_addr;
  stream_path = config.stream_path;
  rtsp_url = make_rtsp_url config;
  client = none;
  medias = medias;
  state = disconnected;
  session = none;
  config = config;
  last_error = none;
  reconnect_chan = 0;
  packets_written = 0;
  bytes_written = 0;
  last_write_time = 0;
}

abbrev pub config_or_local : Option HostConfig → HostConfig
config_or_local none = local_host_config
config_or_local (some config) = config

-- A nil description is one with no medias.
unfoldable pub new_host : Option HostConfig → List Media → List HostOption → Result Host
unfolding local_host_config apply_options
new_host config medias options =
    elim (apply_options options (initial_host (config_or_local config) medias)) [
      | err e ↦ err e
      | ok h ↦ (elim h.medias [ [] ↦ err no_media_options | m ∷ ms ↦ ok h ])
    ]

unfoldable pub append_rtsp_media_description : Media → Host → Host
append_rtsp_media_description media h = record h { medias = h.medias ++ media ∷ [] }

abbrev pub is_recording_state : HostState → Bool
is_recording_state recording = true
is_recording_state _ = false

unfoldable pub is_connected : Host → Bool
is_connected h = elim h.state [ connected ↦ true | recording ↦ true | _ ↦ false ]

unfoldable pub is_recording : Host → Bool
is_recording h = is_recording_state h.state

unfoldable pub get_stats : Host → ℕ × ℕ × ℕ
get_stats h = (h.packets_written, h.bytes_written, h.last_write_time)

unfoldable pub set_state : HostState → Host → Host
set_state state h = record h { state = state }

unfoldable pub set_error : Error → Host → Host
set_error e h = record h { last_error = some e }
