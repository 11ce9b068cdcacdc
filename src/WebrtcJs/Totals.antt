-- ===== src/WebrtcJs/Totals.antt =====
-- What the counters of pkg/webrtc_js/host.go count over the whole life of a host.
use mediasink.Prelude.{
  ℕ, ◌+◌, ◌%◌, ◌^◌, ◌<◌, ◌≡◌, refl, sym, ap, subst, Bool, true, false, Option, none, some, List, [],
  ◌∷◌, arith, nat_keys, bytes_keys, length, Bytes, Map,
}
use mediasink.WebrtcJs.State.{
  ConnectionState, new, connecting, connected, disconnected, failed, closed, ClientSession, uint8,
  int64, Metrics, decrease_active_connections, marshal_metrics, Packet, Host, Config, new_host,
  increase_active_connections, increase_failed_connections, add_data_sent,
}
use mediasink.WebrtcJs.Requests.{metrics_handler}
use mediasink.WebrtcJs.Broadcast.{forward_rtp_packet}
use mediasink.WebrtcJs.Upkeep.{expire, cleanup_expired_clients, close}
use mediasink.WebrtcJs.Trace.{
  Event, requesting, answering, measuring, state_changed, timer_ticked, rtp_written, rtp_forwarded,
  expiring, serving, closing, step, run,
}
use mediasink.WebrtcJs.Unmetered.{
  request-metrics, answer-metrics, tick-metrics, write_rtp-metrics, serve_round-metrics,
}
use mediasink.WebrtcJs.Counting.{state_change-metrics, count_change}

-- The bytes that a track takes.
abbrev pub payload_length : Option Packet → ℕ
payload_length o = elim o [ none ↦ 0 | some packet ↦ length packet.payload ]

abbrev pub sent_by : Host → Event → ℕ
sent_by h (rtp_forwarded id true) = payload_length (forward_rtp_packet id true h).1
sent_by h _ = 0

abbrev pub is_loss : ConnectionState → ℕ
is_loss disconnected = 1
is_loss failed = 1
is_loss closed = 1
is_loss _ = 0

abbrev pub lost_by : Event → ℕ
lost_by (state_changed id pc state sps pps now) = is_loss state
lost_by _ = 0

-- The bytes that the tracks take in a history.
unfoldable pub bytes_sent : Host → List Event → ℕ
bytes_sent h [] = 0
bytes_sent h (e ∷ es) = sent_by h e + bytes_sent (step h e) es

-- The losses of connections in a history.
unfoldable pub losses : List Event → ℕ
losses [] = 0
losses (e ∷ es) = lost_by e + losses es

-- The two counters that only grow.
abbrev Counted : Metrics → Metrics → ℕ → ℕ → Type 0
Counted m n sent lost =
    (n.total_data_sent ≡ int64 (m.total_data_sent + sent))
    × (n.failed_connections ≡ uint8 (m.failed_connections + lost))

abbrev Fits : Metrics → Type 0
Fits m = (m.total_data_sent < 2 ^ 64) × (m.failed_connections < 256)

abbrev Same : Metrics → Metrics → Type 0
Same m n = (n.total_data_sent ≡ m.total_data_sent) × (n.failed_connections ≡ m.failed_connections)

still : (m n : Metrics) → Fits m → Same m n → Counted m n 0 0
still m n fits same = (omega (arith, fits, same), omega (arith, fits, same))

unchanged : (m n : Metrics) → Fits m → n ≡ m → Counted m n 0 0
unchanged m n fits e =
    still m n fits
      (ap (λ (m : Metrics). m.total_data_sent) e, ap (λ (m : Metrics). m.failed_connections) e)

expire-Same :
    (now : ℕ) (clients : Map Bytes ClientSession) (m : Metrics) → Same m (expire now clients m).1
unfolding expire decrease_active_connections
expire-Same now [] m = (refl, refl)
expire-Same now ((id, cs) ∷ clients) m =
    let kept = expire-Same now clients m in
    let dropped = expire-Same now clients (decrease_active_connections m) in
    ground (arith, kept, dropped)

count_change-Counted :
    (state : ConnectionState) (m : Metrics)
    → Fits m
    → Counted m (count_change state m) 0 (is_loss state)
unfolding count_change increase_active_connections decrease_active_connections
    increase_failed_connections
count_change-Counted new m fits = ground (arith, fits)
count_change-Counted connecting m fits = ground (arith, fits)
count_change-Counted connected m fits = ground (arith, fits)
count_change-Counted disconnected m fits = ground (arith, fits)
count_change-Counted failed m fits = ground (arith, fits)
count_change-Counted closed m fits = ground (arith, fits)

expire-Counted :
    (now : ℕ) (h : Host)
    → Fits h.metrics
    → Counted h.metrics (cleanup_expired_clients now h).0.metrics 0 0
unfolding cleanup_expired_clients
expire-Counted now h fits =
    still h.metrics (expire now h.clients h.metrics).1 fits (expire-Same now h.clients h.metrics)

forward-Counted :
    (id : Bytes) (written : Bool) (h : Host)
    → Fits h.metrics
    → Counted h.metrics
        (forward_rtp_packet id written h).0.metrics
        (sent_by h (rtp_forwarded id written))
        0
unfolding forward_rtp_packet add_data_sent
forward-Counted id true h fits = ground (arith, fits)
forward-Counted id false h fits = ground (arith, fits)

step-Counted :
    (e : Event) (h : Host)
    → Fits h.metrics
    → Counted h.metrics (step h e).metrics (sent_by h e) (lost_by e)
unfolding step close metrics_handler marshal_metrics
step-Counted (requesting id addr is_post body created offer order text now) h fits =
    unchanged h.metrics _ fits (request-metrics id addr is_post body created offer order text now h)
step-Counted (answering id is_post body text now) h fits =
    unchanged h.metrics _ fits (answer-metrics id is_post body text now h)
step-Counted (measuring is_get now) h fits = ground (arith, fits)
step-Counted (state_changed id pc state sps pps now) h fits =
    subst (λ (m : Metrics). Counted h.metrics m 0 (is_loss state))
      (sym (state_change-metrics id pc state sps pps now h))
      (count_change-Counted state h.metrics fits)
step-Counted (timer_ticked id sps pps now) h fits =
    unchanged h.metrics _ fits (tick-metrics id sps pps now h)
step-Counted (rtp_written packet now) h fits =
    unchanged h.metrics _ fits (write_rtp-metrics packet now h)
step-Counted (rtp_forwarded id written) h fits = forward-Counted id written h fits
step-Counted (expiring now) h fits = expire-Counted now h fits
step-Counted (serving serving_failed text) h fits =
    unchanged h.metrics _ fits (serve_round-metrics serving_failed text h)
step-Counted closing h fits = ground (arith, fits)

sum_up : (a b c x y : ℕ) → b ≡ (a + x) % 2 ^ 64 → c ≡ (b + y) % 2 ^ 64 → c ≡ (a + (x + y)) % 2 ^ 64
sum_up a b c x y e f = omega (arith, e, f)

sum_up_small : (a b c x y : ℕ) → b ≡ (a + x) % 256 → c ≡ (b + y) % 256 → c ≡ (a + (x + y)) % 256
sum_up_small a b c x y e f = omega (arith, e, f)

step-Fits : (e : Event) (h : Host) → Fits h.metrics → Fits (step h e).metrics
step-Fits e h fits =
    let (sent, lost) = step-Counted e h fits in (omega (arith, sent), omega (arith, lost))

run-Counted :
    (es : List Event) (h : Host)
    → Fits h.metrics
    → Counted h.metrics (run h es).metrics (bytes_sent h es) (losses es)
unfolding run bytes_sent losses
run-Counted [] h fits = (omega (arith, fits), omega (arith, fits))
run-Counted (e ∷ es) h fits =
    let (sent, lost) = step-Counted e h fits in
    let (later_sent, later_lost) = run-Counted es (step h e) (step-Fits e h fits) in
    (sum_up _ _ _ _ _ sent later_sent, sum_up_small _ _ _ _ _ lost later_lost)

-- From a new host, whatever happens, TotalDataSent is the number of bytes of the payloads that the
-- tracks took without an error, modulo 2 ^ 64, and FailedConnections the number of times that the
-- callback of a connection was told disconnected, failed or closed, modulo 256.
pub run-new_host-metrics :
    (config : Config) (now : ℕ) (packets : ℕ → Packet) (es : List Event)
    → let h = new_host config now packets in
      ((run h es).metrics.total_data_sent ≡ int64 (bytes_sent h es))
      × ((run h es).metrics.failed_connections ≡ uint8 (losses es))
unfolding new_host
run-new_host-metrics config now packets es =
    let (sent, lost) = run-Counted es (new_host config now packets) (omega arith, omega arith) in
    (omega (arith, sent), omega (arith, lost))
