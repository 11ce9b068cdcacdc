-- ===== src/WebrtcJs/Trace.antt =====
-- Histories of pkg/webrtc_js/host.go: the HTTP handlers, the callbacks of the WebRTC library, the
-- timers, the packet path, the rounds of Connect and Close in any order, with any arguments, each one
-- step.
use mediasink.Prelude.{ℕ, Bool, List, [], ◌∷◌, nat_keys, bytes_keys, Bytes}
use mediasink.WebrtcJs.State.{ConnectionState, Host}
use mediasink.WebrtcJs.Sessions.{Created, on_connection_state_change, parameter_set_tick}
use mediasink.WebrtcJs.Requests.{Body, Offered, request_handler, answer_handler, metrics_handler}
use mediasink.WebrtcJs.Broadcast.{write_rtp, forward_rtp_packet}
use mediasink.WebrtcJs.Upkeep.{cleanup_expired_clients, close, serve_round}

pub data Event : Type 0 where
  requesting :
      Bytes → Bytes → Bool → Body ℕ → Created → Offered → (List ℕ → List ℕ) → Bytes → ℕ → Event
  answering : Bytes → Bool → Body Bool → Bytes → ℕ → Event
  measuring : Bool → ℕ → Event
  state_changed : Bytes → ℕ → ConnectionState → ℕ → ℕ → ℕ → Event
  timer_ticked : Bytes → ℕ → ℕ → ℕ → Event
  rtp_written : ℕ → ℕ → Event
  rtp_forwarded : Bytes → Bool → Event
  expiring : ℕ → Event
  serving : Bool → Bytes → Event
  closing : Event

-- The state after an event. healthHandler and Write change nothing, and are left out.
unfoldable pub step : Host → Event → Host
step h (requesting id addr is_post body created offer order text now) =
    (request_handler id addr is_post body created offer order text now h).0
step h (answering id is_post body text now) = (answer_handler id is_post body text now h).0
step h (measuring is_get now) = (metrics_handler is_get now h).0
step h (state_changed id pc state sps pps now) =
    on_connection_state_change id pc state sps pps now h
step h (timer_ticked id sps pps now) = (parameter_set_tick id sps pps now h).0
step h (rtp_written packet now) = (write_rtp packet now h).0
step h (rtp_forwarded id written) = (forward_rtp_packet id written h).0
step h (expiring now) = (cleanup_expired_clients now h).0
step h (serving serving_failed text) = serve_round serving_failed text h
step h closing = (close h).0

unfoldable pub run : Host → List Event → Host
run h [] = h
run h (e ∷ es) = run (step h e) es
