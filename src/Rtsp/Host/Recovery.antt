-- ===== src/Rtsp/Host/Recovery.antt =====
-- What a failed write leads to in pkg/rtsp/new_host.go, and how the loop ends.
use mediasink.Prelude.{
  ℕ, ◌≡◌, refl, ap, ◌∙◌, ◌≢◌, ◌⊎◌, true, false, Option, none, some, List, [], ◌∷◌, arith, nat_keys,
  bytes_keys, All,
}
use mediasink.Prelude.{is_zero}
use mediasink.Rtsp.Host.State.{disconnected, recording, failed, Error, Packet, set_state, set_error}
use mediasink.Rtsp.Host.Write.{expected_payload_type, write_rtp}
use mediasink.Rtsp.Host.Manager.{
  monitoring, stopped, Machine, Input, check, dial, started, retry, done, tick, write_packet,
  cancel, close, is_done, step, run,
}

-- Nobody ends the context, and nobody calls Close.
abbrev pub Undisturbed : Input → Type 0
Undisturbed cancel = ⊥
Undisturbed close = ⊥
Undisturbed _ = Unit

stuck-step :
    (m : Machine) (i : Input)
    → Undisturbed i
    → m.phase ≡ monitoring
    → m.host.state ≡ failed
    → m.host.client ≢ none
    → is_done m.host ≡ false
    → step m i ≡ m
unfolding step write_rtp
stuck-step m check u p f c d = ground arith
stuck-step m (dial x) u p f c d = ground arith
stuck-step m (started o now) u p f c d = ground arith
stuck-step m retry u p f c d = ground arith
stuck-step m done u p f c d = ground arith
stuck-step m tick u p f c d = ground arith
stuck-step m (write_packet none written now) u p f c d = ground arith
stuck-step m (write_packet (some packet) written now) u p f c d = ground arith
stuck-step m cancel u p f c d = elim u [ ]
stuck-step m close u p f c d = elim u [ ]

stuck-run :
    (is : List Input) (m : Machine)
    → All Undisturbed is
    → m.phase ≡ monitoring
    → m.host.state ≡ failed
    → m.host.client ≢ none
    → is_done m.host ≡ false
    → run m is ≡ m
unfolding run
stuck-run [] m u p f c d = refl
stuck-run (i ∷ is) m u p f c d =
    ap (λ (t : Machine). run t is) (stuck-step m i u.0 p f c d) ∙ stuck-run is m u.1 p f c d

failed_write-step :
    (m : Machine) (packet : Packet) (now expected c : ℕ)
    → m.phase ≡ monitoring
    → m.host.state ≡ recording
    → m.host.client ≡ some c
    → expected_payload_type m.host.medias ≡ some expected
    → let t = step m (write_packet (some packet) false now) in
      (t.phase ≡ monitoring)
      × (t.host.state ≡ failed)
      × (t.host.client ≡ some c)
      × (is_done t.host ≡ is_done m.host)
      × (t.host.reconnect_chan ≢ 0)
unfolding step write_rtp set_state set_error
failed_write-step m packet now expected c p r k x = ground arith

-- After a write that the client refused, nothing that happens short of a Close or the end of the
-- context changes the host again: it stays failed, every later write is turned away, and no
-- attempt to reconnect is made.
pub failed_write_is_final :
    (m : Machine) (packet : Packet) (now expected c : ℕ) (is : List Input)
    → m.phase ≡ monitoring
    → m.host.state ≡ recording
    → m.host.client ≡ some c
    → is_done m.host ≡ false
    → expected_payload_type m.host.medias ≡ some expected
    → All Undisturbed is
    → let t = step m (write_packet (some packet) false now) in
      (run t is ≡ t)
      × (t.phase ≡ monitoring)
      × (t.host.state ≡ failed)
      × (t.host.reconnect_chan ≢ 0)
failed_write_is_final m packet now expected c is p r k d x u =
    let (phase, state, client, same, token) = failed_write-step m packet now expected c p r k x in
    (stuck-run is _ u phase state (λ e. cc) (same ∙ d), phase, state, token)

-- Once its context is done, the loop ends by its next moves, wherever it stands and however a
-- running attempt turns out: disconnected, or failed if that attempt failed with no retries.
pub done_context_stops :
    (m : Machine) (client now : ℕ) (outcome : Option Error)
    → is_done m.host ≡ true
    → m.phase ≢ stopped
    → let t = run m (check ∷ dial client ∷ started outcome now ∷ done ∷ []) in
      (t.phase ≡ stopped)
      × ((t.host.state ≡ disconnected)
          ⊎ ((t.host.state ≡ failed) × (is_zero m.host.config.reconnect_attempts ≡ true)))
unfolding run step set_state set_error
done_context_stops m client now outcome d n = ground arith
