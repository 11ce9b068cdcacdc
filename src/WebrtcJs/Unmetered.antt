-- ===== src/WebrtcJs/Unmetered.antt =====
-- The steps of pkg/webrtc_js/host.go that leave the counters alone: the HTTP handlers, the timer, a
-- broadcast and a round of Connect.
use mediasink.Prelude.{
  ℕ, ◌+◌, ◌≡◌, refl, ap, ◌∙◌, Bool, List, [], ◌∷◌, arith, if◌then◌else◌, nat_keys, bytes_keys,
  Bytes,
}
use mediasink.WebrtcJs.State.{ClientSession, Host, set_status, log_error}
use mediasink.WebrtcJs.Sessions.{Created, get_or_create_session, parameter_set_tick}
use mediasink.WebrtcJs.Requests.{
  Body, unreadable, invalid_json, decoded, Offered, send_offer, handle_offer_request,
  request_handler, handle_answer_response, answer_handler, on_client,
}
use mediasink.WebrtcJs.Broadcast.{process_rtp_packet, ids, write_each, write_rtp}
use mediasink.WebrtcJs.Upkeep.{serve_round}
use mediasink.WebrtcJs.Fanout.{write_rtp_runs}
use mediasink.WebrtcJs.Counting.{send_parameter_sets-metrics}

pub on_client-metrics :
    (id : Bytes) (f : ClientSession → ClientSession) (h : Host)
    → (on_client id f h).metrics ≡ h.metrics
on_client-metrics id f h = ground arith

pub get_or_create-metrics :
    (id : Bytes) (ttl : ℕ) (created : Created) (now : ℕ) (h : Host)
    → (get_or_create_session id ttl created now h).0.metrics ≡ h.metrics
unfolding get_or_create_session
get_or_create-metrics id ttl created now h = ground arith

pub send_offer-metrics :
    (id : Bytes) (offer : Offered) (order : List ℕ → List ℕ) (text : Bytes) (h : Host)
    → (send_offer id offer order text h).0.metrics ≡ h.metrics
unfolding send_offer log_error
send_offer-metrics id offer order text h = ground arith

pub offer_request-metrics :
    (id : Bytes) (body : Body ℕ) (created : Created) (offer : Offered) (order : List ℕ → List ℕ)
    (text : Bytes) (now : ℕ) (h : Host)
    → (handle_offer_request id body created offer order text now h).0.metrics ≡ h.metrics
unfolding handle_offer_request log_error
offer_request-metrics id unreadable created offer order text now h = refl
offer_request-metrics id invalid_json created offer order text now h = refl
offer_request-metrics id (decoded ttl) created offer order text now h =
    let t = (get_or_create_session id ttl created now h).0 in
    ground
      (arith, get_or_create-metrics id ttl created now h, send_offer-metrics id offer order text t)

pub request-metrics :
    (id addr : Bytes) (is_post : Bool) (body : Body ℕ) (created : Created) (offer : Offered)
    (order : List ℕ → List ℕ) (text : Bytes) (now : ℕ) (h : Host)
    → (request_handler id addr is_post body created offer order text now h).0.metrics ≡ h.metrics
unfolding request_handler
request-metrics id addr is_post body created offer order text now h =
    ground (arith, offer_request-metrics id body created offer order text now h)

pub answer-metrics :
    (id : Bytes) (is_post : Bool) (body : Body Bool) (text : Bytes) (now : ℕ) (h : Host)
    → (answer_handler id is_post body text now h).0.metrics ≡ h.metrics
unfolding answer_handler handle_answer_response log_error
answer-metrics id is_post body text now h = ground arith

pub tick-metrics :
    (id : Bytes) (sps pps now : ℕ) (h : Host)
    → (parameter_set_tick id sps pps now h).0.metrics ≡ h.metrics
unfolding parameter_set_tick
tick-metrics id sps pps now h = ground (arith, send_parameter_sets-metrics id sps pps now h)

pub process-metrics :
    (id : Bytes) (packet now : ℕ) (h : Host)
    → (process_rtp_packet id packet now h).0.metrics ≡ h.metrics
unfolding process_rtp_packet
process-metrics id packet now h = ground arith

pub write_each-metrics :
    (names : List Bytes) (packet now count : ℕ) (h : Host)
    → (write_each names packet now count h).0.metrics ≡ h.metrics
unfolding write_each
write_each-metrics [] packet now count h = refl
write_each-metrics (id ∷ rest) packet now count h =
    let (t, sent) = process_rtp_packet id packet now h in
    write_each-metrics rest packet now (if sent then count + 1 else count) t
    ∙ process-metrics id packet now h

pub write_rtp-metrics : (packet now : ℕ) (h : Host) → (write_rtp packet now h).0.metrics ≡ h.metrics
write_rtp-metrics packet now h =
    ap (λ (t : Host). t.metrics) (write_rtp_runs packet now h).0
    ∙ write_each-metrics (ids h.clients) packet now 0 h

pub serve_round-metrics :
    (serving_failed : Bool) (text : Bytes) (h : Host)
    → (serve_round serving_failed text h).metrics ≡ h.metrics
unfolding serve_round log_error set_status
serve_round-metrics serving_failed text h = ground arith
