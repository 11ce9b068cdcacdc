-- ===== src/WebrtcJs/Requests.antt =====
-- The HTTP handlers of pkg/webrtc_js/host.go, each run through as one step: requestHandler with
-- handleOfferRequest, answerHandler with handleAnswerResponse, metricsHandler and healthHandler, and
-- the reading of the SSRCs in the offer. What the WebRTC library and the JSON decoder answer, and
-- the text of an error, come with the call.
use mediasink.Prelude.{
  ℕ, ◌^◌, Bool, true, false, not, ◌&&◌, Option, none, some, List, [], ◌∷◌, map, leb, if◌then◌else◌,
  nat_keys, bytes_keys, Bytes, codes, Map, lookup, insert,
}
use mediasink.Net.{is_loop_back}
use mediasink.WebrtcJs.State.{
  offer_sent, waiting_for_answer, ClientSession, update_activity, marshal_metrics, Host, on_metrics,
  log_error,
}
use mediasink.Strings.{split, has_prefix, contains_text, trim_space, parse_below}
use mediasink.WebrtcJs.Sessions.{Created, get_or_create_session, with_status}

pub data Status : Type 0 where
  status_ok bad_request forbidden session_not_found : Status
  method_not_allowed too_many_requests internal_error : Status

-- The SSRC in a line of the SDP, if the line has one.
unfoldable pub ssrc_of_line : Bytes → Option ℕ
unfolding trim_space has_prefix contains_text split parse_below
ssrc_of_line raw =
    let line = trim_space raw in
    if has_prefix (codes "a=ssrc:") line && not (contains_text (codes "rtx") line)
    then (elim (split b' ' line) [
      | [] ↦ none
      | part ∷ parts ↦ (elim (split b':' part) [
        | a ∷ ssrc ∷ rest ↦ parse_below (2 ^ 32) ssrc
        | _ ↦ none
      ])
    ])
    else none

unfoldable pub collect_ssrcs : List Bytes → List ℕ
unfolding ssrc_of_line
collect_ssrcs [] = []
collect_ssrcs (line ∷ lines) =
    let rest = collect_ssrcs lines in
    elim (ssrc_of_line line) [ none ↦ rest | some ssrc ↦ ssrc ∷ rest ]

-- The keys of the map `uniqueSSRCs`.
unfoldable pub unique : List ℕ → Map ℕ Bool
unique [] = []
unique (ssrc ∷ ssrcs) = insert ssrc true (unique ssrcs)

-- The order of the range over the map is any: `order` puts its keys in that order.
unfoldable pub extract_ssrc_from_sdp : (List ℕ → List ℕ) → Bytes → ℕ × ℕ
unfolding split collect_ssrcs unique
extract_ssrc_from_sdp order sdp =
    elim (order (map (λ (entry : ℕ × Bool). entry.0) (unique (collect_ssrcs (split 10 sdp))))) [
      | [] ↦ (0, 0)
      | primary ∷ [] ↦ (primary, 0)
      | primary ∷ rtx ∷ rest ↦ (primary, rtx)
    ]

-- The body of a request.
pub data Body {ℓ} (A : Type ℓ) : Type ℓ where
  unreadable invalid_json : Body A
  decoded : A → Body A

-- How far the offer gets: the SDP of the local description, and whether the answer was encoded.
pub data Offered : Type 0 where
  offer_failed description_failed : Offered
  offered : Bytes → Bool → Offered

abbrev pub fail : Bytes → Host → Host × Status
fail text h = (log_error text h, internal_error)

abbrev pub with_offer : ℕ × ℕ → ClientSession → ClientSession
with_offer (primary, rtx) cs = record cs {
  primary_ssrc = primary;
  rtx_ssrc = rtx;
  sdp_status = offer_sent;
}

abbrev pub on_client : Bytes → (ClientSession → ClientSession) → Host → Host
on_client id f h = elim (lookup id h.clients) [
  | none ↦ h
  | some cs ↦ record h { clients = insert id (f cs) h.clients }
]

unfoldable pub send_offer : Bytes → Offered → (List ℕ → List ℕ) → Bytes → Host → Host × Status
unfolding extract_ssrc_from_sdp
send_offer id offer_failed order text h = fail text h
send_offer id description_failed order text h = fail text h
send_offer id (offered sdp encoded) order text h =
    let t = on_client id (with_offer (extract_ssrc_from_sdp order sdp)) h in
    if encoded then (t, status_ok) else fail text t

unfoldable pub handle_offer_request :
    Bytes → Body ℕ → Created → Offered → (List ℕ → List ℕ) → Bytes → ℕ → Host → Host × Status
unfolding send_offer
handle_offer_request id unreadable created offer order text now h = (h, bad_request)
handle_offer_request id invalid_json created offer order text now h = (h, bad_request)
handle_offer_request id (decoded ttl) created offer order text now h =
    let (t, there) = get_or_create_session id ttl created now h in
    if there then send_offer id offer order text t else fail text t

abbrev pub is_empty : Bytes → Bool
is_empty [] = true
is_empty (c ∷ s) = false

unfoldable pub request_handler :
    Bytes
    → Bytes
    → Bool
    → Body ℕ
    → Created
    → Offered
    → (List ℕ → List ℕ)
    → Bytes
    → ℕ
    → Host
    → Host × Status
request_handler id remote_addr is_post body created offer order text now h =
    if is_empty id
    then (h, bad_request)
    else (if h.config.allow_local_only && not (is_loop_back remote_addr)
        then (h, forbidden)
        else (if leb h.config.total_connections h.metrics.active_connections
            then (h, too_many_requests)
            else (if is_post
                then handle_offer_request id body created offer order text now h
                else (h, method_not_allowed))))

-- `accepted` is whether SetRemoteDescription takes the answer.
unfoldable pub handle_answer_response : Bytes → Body Bool → Bytes → ℕ → Host → Host × Status
unfolding update_activity
handle_answer_response id unreadable text now h = (h, bad_request)
handle_answer_response id invalid_json text now h = (h, bad_request)
handle_answer_response id (decoded accepted) text now h = elim (lookup id h.clients) [
  | none ↦ (h, session_not_found)
  | some cs ↦
      if accepted
      then (
        record h {
          clients = insert id (update_activity now (with_status waiting_for_answer cs)) h.clients;
        },
        status_ok,
      )
      else fail text h
]

unfoldable pub answer_handler : Bytes → Bool → Body Bool → Bytes → ℕ → Host → Host × Status
unfolding handle_answer_response
answer_handler id is_post body text now h =
    if is_empty id
    then (h, bad_request)
    else (if is_post then handle_answer_response id body text now h else (h, method_not_allowed))

unfoldable pub metrics_handler : Bool → ℕ → Host → Host × Status
unfolding marshal_metrics
metrics_handler is_get now h =
    if is_get then (on_metrics (marshal_metrics now) h, status_ok) else (h, method_not_allowed)

unfoldable pub health_handler : Bool → Host → Host × Status
health_handler is_get h = (h, if is_get then status_ok else method_not_allowed)
