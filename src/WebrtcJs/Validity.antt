-- ===== src/WebrtcJs/Validity.antt =====
-- What holds of the host of pkg/webrtc_js/host.go after any history of its steps.
use mediasink.Prelude.{
  ℕ, inl, inr, Bool, true, false, not, ◌&&◌, List, [], ◌∷◌, leb, if◌then◌else◌, nat_keys,
  bytes_keys, Bool-cases, Option-cases, Bytes, lookup,
}
use mediasink.Net.{is_loop_back}
use mediasink.WebrtcJs.State.{
  server_down, server_online, update_activity, Config, marshal_metrics, Packet, Host, new_host,
}
use mediasink.WebrtcJs.Sessions.{Created, get_or_create_session}
use mediasink.WebrtcJs.Requests.{
  Status, extract_ssrc_from_sdp, Body, unreadable, invalid_json, decoded, Offered, offer_failed,
  description_failed, offered, send_offer, handle_offer_request, request_handler,
  handle_answer_response, answer_handler, metrics_handler, is_empty, with_offer,
}
use mediasink.WebrtcJs.Upkeep.{close, serve_round}
use mediasink.WebrtcJs.Trace.{
  Event, requesting, answering, measuring, state_changed, timer_ticked, rtp_written, rtp_forwarded,
  expiring, serving, closing, step, run,
}
use mediasink.WebrtcJs.Invariant.{
  IsValid, new_host-IsValid, insert-IsValid, IsSane-lookup, on_metrics-IsValid, log_error-IsValid,
  set_status-IsValid, marshal-IsCounted,
}
use mediasink.WebrtcJs.Preservation.{
  change-IsValid, write_rtp-IsValid, forward-IsValid, expire-IsValid,
}
use mediasink.WebrtcJs.SessionValidity.{state_change-IsValid, tick-IsValid, create-IsValid}

send_offer-IsValid :
    (id : Bytes) (offer : Offered) (order : List ℕ → List ℕ) (text : Bytes) (h : Host)
    → IsValid h
    → IsValid (send_offer id offer order text h).0
unfolding send_offer
send_offer-IsValid id offer_failed order text h v = log_error-IsValid text h v
send_offer-IsValid id description_failed order text h v = log_error-IsValid text h v
send_offer-IsValid id (offered sdp true) order text h v =
    change-IsValid id (with_offer (extract_ssrc_from_sdp order sdp)) h (λ cs s. s) v
send_offer-IsValid id (offered sdp false) order text h v =
    log_error-IsValid text _
      (change-IsValid id (with_offer (extract_ssrc_from_sdp order sdp)) h (λ cs s. s) v)

offer_request-IsValid :
    (id : Bytes) (body : Body ℕ) (created : Created) (offer : Offered) (order : List ℕ → List ℕ)
    (text : Bytes) (now : ℕ) (h : Host)
    → IsValid h
    → IsValid (handle_offer_request id body created offer order text now h).0
unfolding handle_offer_request
offer_request-IsValid id unreadable created offer order text now h v = v
offer_request-IsValid id invalid_json created offer order text now h v = v
offer_request-IsValid id (decoded ttl) created offer order text now h v =
    let w = create-IsValid id ttl created now h v in
    elim (Bool-cases (get_or_create_session id ttl created now h).1) [
      | inl there ↦ rw there (send_offer-IsValid id offer order text _ w)
      | inr missing ↦ rw missing (log_error-IsValid text _ w)
    ]

if_first-IsValid :
    (b : Bool) (r t : Host × Status) → IsValid r.0 → IsValid t.0 → IsValid (if b then r else t).0
if_first-IsValid true r t first second = first
if_first-IsValid false r t first second = second

request-IsValid :
    (id addr : Bytes) (is_post : Bool) (body : Body ℕ) (created : Created) (offer : Offered)
    (order : List ℕ → List ℕ) (text : Bytes) (now : ℕ) (h : Host)
    → IsValid h
    → IsValid (request_handler id addr is_post body created offer order text now h).0
unfolding request_handler
request-IsValid id addr is_post body created offer order text now h v =
    if_first-IsValid (is_empty id) _ _ v (
      if_first-IsValid (h.config.allow_local_only && not (is_loop_back addr)) _ _ v (
        if_first-IsValid (leb h.config.total_connections h.metrics.active_connections) _ _ v (
          if_first-IsValid is_post _ _
            (offer_request-IsValid id body created offer order text now h v) v)))

answer_response-IsValid :
    (id : Bytes) (body : Body Bool) (text : Bytes) (now : ℕ) (h : Host)
    → IsValid h
    → IsValid (handle_answer_response id body text now h).0
unfolding handle_answer_response update_activity
answer_response-IsValid id unreadable text now h v = v
answer_response-IsValid id invalid_json text now h v = v
answer_response-IsValid id (decoded accepted) text now h v =
    elim (Option-cases (lookup id h.clients)) [
      | inl absent ↦ rw (absent, handle_answer_response) v
      | inr (cs, found) ↦
          rw (found, handle_answer_response)
            (if_first-IsValid accepted _ _ (insert-IsValid id _ h (IsSane-lookup id cs h found v) v)
              (log_error-IsValid text h v))
    ]

answer-IsValid :
    (id : Bytes) (is_post : Bool) (body : Body Bool) (text : Bytes) (now : ℕ) (h : Host)
    → IsValid h
    → IsValid (answer_handler id is_post body text now h).0
unfolding answer_handler
answer-IsValid id is_post body text now h v =
    if_first-IsValid (is_empty id) _ _ v
      (if_first-IsValid is_post _ _ (answer_response-IsValid id body text now h v) v)

metrics_handler-IsValid :
    (is_get : Bool) (now : ℕ) (h : Host) → IsValid h → IsValid (metrics_handler is_get now h).0
unfolding metrics_handler
metrics_handler-IsValid is_get now h v =
    if_first-IsValid is_get _ _
      (on_metrics-IsValid (marshal_metrics now) h (marshal-IsCounted now) v) v

serve_round-IsValid :
    (serving_failed : Bool) (text : Bytes) (h : Host)
    → IsValid h
    → IsValid (serve_round serving_failed text h)
unfolding serve_round
serve_round-IsValid true text h v = set_status-IsValid server_down _ (
    log_error-IsValid text _
      (set_status-IsValid server_down _ (set_status-IsValid server_online h v)))
serve_round-IsValid false text h v =
    set_status-IsValid server_down _ (set_status-IsValid server_online h v)

close-IsValid : (h : Host) → IsValid h → IsValid (close h).0
unfolding close
close-IsValid h v = record {
  distinct = tt;
  sane = tt;
  counted = v.counted;
  recent = v.recent;
  ttl = v.ttl;
}

step-IsValid : (h : Host) (e : Event) → IsValid h → IsValid (step h e)
unfolding step
step-IsValid h (requesting id addr is_post body created offer order text now) v =
    request-IsValid id addr is_post body created offer order text now h v
step-IsValid h (answering id is_post body text now) v = answer-IsValid id is_post body text now h v
step-IsValid h (measuring is_get now) v = metrics_handler-IsValid is_get now h v
step-IsValid h (state_changed id pc state sps pps now) v =
    state_change-IsValid id pc state sps pps now h v
step-IsValid h (timer_ticked id sps pps now) v = tick-IsValid id sps pps now h v
step-IsValid h (rtp_written packet now) v = write_rtp-IsValid packet now h v
step-IsValid h (rtp_forwarded id written) v = forward-IsValid id written h v
step-IsValid h (expiring now) v = expire-IsValid now h v
step-IsValid h (serving serving_failed text) v = serve_round-IsValid serving_failed text h v
step-IsValid h closing v = close-IsValid h v

run-IsValid : (h : Host) (es : List Event) → IsValid h → IsValid (run h es)
unfolding run
run-IsValid h [] v = v
run-IsValid h (e ∷ es) v = run-IsValid (step h e) es (step-IsValid h e v)

-- From a new host, any history of steps leaves one session for each id, each with at most 1000
-- packets in its channel and a time to live that is not zero, at most ten recent errors, and the
-- counters within the width of their types.
pub run-new_host-IsValid :
    (config : Config) (now : ℕ) (packets : ℕ → Packet) (es : List Event)
    → IsValid (run (new_host config now packets) es)
run-new_host-IsValid config now packets es = run-IsValid _ es (new_host-IsValid config now packets)
