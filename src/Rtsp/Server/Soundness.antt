-- ===== src/Rtsp/Server/Soundness.antt =====
-- One entry of the stream table, and what the callbacks do to it.
use mediasink.Prelude.{
  ℕ, ◌≡◌, refl, subst, ◌≢◌, inl, inr, false, Option, none, some, arith, ◌==◌, nat_keys, bytes_keys,
  Bool-cases, Option-cases, Bytes, lookup, map_values, Distinct, Entries, Distinct-insert,
  Distinct-erase, Distinct-retain, Distinct-map_values,
}
use mediasink.Prelude.{
  Entries-insert, Entries-erase, Entries-retain, Entries-map_values, Entries-lookup,
}
use mediasink.Rtsp.Server.State.{ClientSession, StreamInfo, add_client, remove_client, Config}
use mediasink.Rtsp.Server.Handlers.{is_publisher, leave_stream, seen_at, touch_client, touch_stream}
use mediasink.Rtsp.Server.Upkeep.{is_inactive, cleanup_stream}

-- An entry has its stream and publisher; each client stands under its own id, and the publisher is
-- none of them.
pub record IsSound (si : StreamInfo) : Type 0 where
  pub has_stream : si.stream ≢ none
  pub has_publisher : si.publisher ≢ none
  pub distinct : Distinct si.clients
  pub keyed : Entries (λ id client. client.id ≡ id) si.clients
  pub apart : Entries (λ id client. si.publisher ≢ some client.session) si.clients

abbrev pub Kept : Option StreamInfo → Type 0
Kept none = Unit
Kept (some si) = IsSound si

pub remove_client-IsSound :
    (id : Bytes) (si : StreamInfo) → IsSound si → IsSound (remove_client id si)
unfolding remove_client
remove_client-IsSound id si v = record {
  has_stream = v.has_stream;
  has_publisher = v.has_publisher;
  distinct = Distinct-erase id si.clients v.distinct;
  keyed = Entries-erase _ id si.clients v.keyed;
  apart = Entries-erase _ id si.clients v.apart;
}

pub leave_stream-Kept :
    (id : Bytes) (session : ℕ) (si : StreamInfo) → IsSound si → Kept (leave_stream id session si).0
unfolding leave_stream
leave_stream-Kept id session si v = elim (Bool-cases (is_publisher session si)) [
  | inl own ↦ rw own tt
  | inr other ↦ rw other (remove_client-IsSound id si v)
]

pub cleanup_stream-Kept :
    (config : Config) (now : ℕ) (si : StreamInfo)
    → IsSound si
    → Kept (cleanup_stream config now si).0
unfolding cleanup_stream
cleanup_stream-Kept config now si v =
    elim (Bool-cases (is_inactive now si.publisher_last_active config.publisher_session_timeout)) [
      | inl idle ↦ rw idle tt
      | inr busy ↦ rw busy (record {
        has_stream = v.has_stream;
        has_publisher = v.has_publisher;
        distinct = Distinct-retain _ si.clients v.distinct;
        keyed = Entries-retain _ _ si.clients v.keyed;
        apart = Entries-retain _ _ si.clients v.apart;
      })
    ]

not_publisher :
    (session : ℕ) (si : StreamInfo) → is_publisher session si ≡ false → si.publisher ≢ some session
not_publisher session si h e = ground arith

pub add_client-IsSound :
    (client : ClientSession) (si : StreamInfo)
    → is_publisher client.session si ≡ false
    → IsSound si
    → IsSound (add_client client si)
unfolding add_client
add_client-IsSound client si other v = record {
  has_stream = v.has_stream;
  has_publisher = v.has_publisher;
  distinct = Distinct-insert client.id client si.clients v.distinct;
  keyed = Entries-insert _ client.id client si.clients refl v.keyed;
  apart =
      Entries-insert _ client.id client si.clients (not_publisher client.session si other) v.apart;
}

pub touch_client-IsSound :
    (id : Bytes) (now : ℕ) (si : StreamInfo) → IsSound si → IsSound (touch_client id now si)
unfolding touch_client
touch_client-IsSound id now si v = elim (Option-cases (lookup id si.clients)) [
  | inl gone ↦ rw (gone, touch_client) v
  | inr (client, e) ↦
      rw (e, touch_client)
        (record {
          has_stream = v.has_stream;
          has_publisher = v.has_publisher;
          distinct = Distinct-insert id _ si.clients v.distinct;
          keyed =
              Entries-insert _ id _ si.clients (Entries-lookup _ id si.clients client v.keyed e)
                v.keyed;
          apart =
              Entries-insert _ id _ si.clients (Entries-lookup _ id si.clients client v.apart e)
                v.apart;
        })
]

pub seen_all-IsSound :
    (now : ℕ) (si : StreamInfo)
    → IsSound si
    → IsSound
        (record si { publisher_last_active = now; clients = map_values (seen_at now) si.clients })
seen_all-IsSound now si v = record {
  has_stream = v.has_stream;
  has_publisher = v.has_publisher;
  distinct = Distinct-map_values _ si.clients v.distinct;
  keyed = Entries-map_values _ (seen_at now) (λ id client h. h) si.clients v.keyed;
  apart = Entries-map_values _ (seen_at now) (λ id client h. h) si.clients v.apart;
}

pub touch_stream-IsSound :
    (stream now : ℕ) (si : StreamInfo) → IsSound si → IsSound (touch_stream stream now si)
unfolding touch_stream
touch_stream-IsSound stream now si v = elim (Option-cases si.stream) [
  | inl bare ↦ absurd (v.has_stream bare)
  | inr (t, e) ↦ (elim (Bool-cases (t == stream)) [
    | inl same ↦ subst IsSound (ground (arith, e, same)) (seen_all-IsSound now si v)
    | inr other ↦ subst IsSound (ground (arith, e, other)) v
  ])
]
