-- ===== src/WebrtcJs/Invariant.antt =====
-- What holds of the host of pkg/webrtc_js/host.go between two steps, whatever the steps.
use mediasink.Prelude.{
  ℕ, ◌^◌, ◌≤◌, ◌<◌, ◌≡◌, inl, inr, some, arith, ltb, nat_keys, bytes_keys, Bool-cases, length,
  Bytes, Map, lookup, insert, Distinct, Entries, Distinct-insert,
}
use mediasink.Prelude.{Entries-insert, Entries-lookup}
use mediasink.WebrtcJs.State.{
  ServerStatus, ClientSession, chan_capacity, Config, Metrics, increase_active_connections,
  decrease_active_connections, increase_failed_connections, add_data_sent, marshal_metrics, Packet,
  Host, new_host, set_status, on_metrics, log_error,
}
use mediasink.WebrtcJs.Errors.{log_error-recent}

-- The channel of a session is within its capacity, and its time to live is not zero.
abbrev pub IsSane : ClientSession → Type 0
IsSane cs = (length cs.rtp_chan ≤ chan_capacity) × (1 ≤ cs.ttl)

abbrev pub AllSane : Map Bytes ClientSession → Type 0
AllSane = Entries (λ id cs. IsSane cs)

pub record IsCounted (m : Metrics) : Type 0 where
  pub active : m.active_connections < 256
  pub lost : m.failed_connections < 256
  pub sent : m.total_data_sent < 2 ^ 64

pub record IsValid (h : Host) : Type 0 where
  pub distinct : Distinct h.clients
  pub sane : AllSane h.clients
  pub counted : IsCounted h.metrics
  pub recent : length h.health.recent_errors ≤ 10
  pub ttl : 1 ≤ h.config.client_ttl

pub new_host-IsValid :
    (config : Config) (now : ℕ) (packets : ℕ → Packet) → IsValid (new_host config now packets)
unfolding new_host
new_host-IsValid config now packets = record {
  distinct = tt;
  sane = tt;
  counted = record { active = omega arith; lost = omega arith; sent = omega arith };
  recent = omega arith;
  ttl = ground arith;
}

-- A session that is written into the table.
pub insert-IsValid :
    (id : Bytes) (cs : ClientSession) (h : Host)
    → IsSane cs
    → IsValid h
    → IsValid (record h { clients = insert id cs h.clients })
insert-IsValid id cs h s v = record {
  distinct = Distinct-insert id cs h.clients v.distinct;
  sane = Entries-insert _ id cs h.clients s v.sane;
  counted = v.counted;
  recent = v.recent;
  ttl = v.ttl;
}

pub IsSane-lookup :
    (id : Bytes) (cs : ClientSession) (h : Host)
    → lookup id h.clients ≡ some cs
    → IsValid h
    → IsSane cs
IsSane-lookup id cs h found v = Entries-lookup _ id h.clients cs v.sane found

pub packets-IsValid :
    (packets : ℕ → Packet) (h : Host) → IsValid h → IsValid (record h { packets = packets })
packets-IsValid packets h v = record {
  distinct = v.distinct;
  sane = v.sane;
  counted = v.counted;
  recent = v.recent;
  ttl = v.ttl;
}

pub on_metrics-IsValid :
    (f : Metrics → Metrics) (h : Host)
    → ((m : Metrics) → IsCounted m → IsCounted (f m))
    → IsValid h
    → IsValid (on_metrics f h)
on_metrics-IsValid f h keep v = record {
  distinct = v.distinct;
  sane = v.sane;
  counted = keep h.metrics v.counted;
  recent = v.recent;
  ttl = v.ttl;
}

pub log_error-IsValid : (text : Bytes) (h : Host) → IsValid h → IsValid (log_error text h)
unfolding log_error
log_error-IsValid text h v = record {
  distinct = v.distinct;
  sane = v.sane;
  counted = v.counted;
  recent = log_error-recent text h v.recent;
  ttl = v.ttl;
}

pub set_status-IsValid :
    (status : ServerStatus) (h : Host) → IsValid h → IsValid (set_status status h)
unfolding set_status
set_status-IsValid status h v = record {
  distinct = v.distinct;
  sane = v.sane;
  counted = v.counted;
  recent = v.recent;
  ttl = v.ttl;
}

pub increase_active-IsCounted :
    (m : Metrics) → IsCounted m → IsCounted (increase_active_connections m)
unfolding increase_active_connections
increase_active-IsCounted m c = record { active = omega arith; lost = c.lost; sent = c.sent }

pub decrease_active-IsCounted :
    (m : Metrics) → IsCounted m → IsCounted (decrease_active_connections m)
unfolding decrease_active_connections
decrease_active-IsCounted m c = elim (Bool-cases (ltb 0 m.active_connections)) [
  | inl some_left ↦
      rw some_left (record { active = omega (arith, c.active); lost = c.lost; sent = c.sent })
  | inr none_left ↦ rw none_left c
]

pub increase_failed-IsCounted :
    (m : Metrics) → IsCounted m → IsCounted (increase_failed_connections m)
unfolding increase_failed_connections
increase_failed-IsCounted m c = record { active = c.active; lost = omega arith; sent = c.sent }

pub add_data-IsCounted : (len : ℕ) (m : Metrics) → IsCounted m → IsCounted (add_data_sent len m)
unfolding add_data_sent
add_data-IsCounted len m c = record { active = c.active; lost = c.lost; sent = omega arith }

pub marshal-IsCounted : (now : ℕ) (m : Metrics) → IsCounted m → IsCounted (marshal_metrics now m)
unfolding marshal_metrics
marshal-IsCounted now m c = record { active = c.active; lost = c.lost; sent = c.sent }
