-- ===== src/Sinks/Stream.antt =====
-- pkg/stream.go: the loop that takes packets from the buffer and gives them to the host. The
-- buffer is another library's: what Pop answers comes with each round, and PutBack shows in a list.
use mediasink.Prelude.{
  ℕ, ◌≡◌, refl, sym, ◌∙◌, Bool, true, false, Option, none, some, List, [], ◌∷◌, ◌++◌, if◌then◌else◌,
  nat_keys, bytes_keys,
}
use mediasink.Sinks.Host.{HostOps}
use mathlib.Core.List.{append-nil, append_assoc}

-- What a round of the loop finds: that the context is done, or what Pop answers.
pub data Round : Type 0 where
  context_done : Round
  popped : Option ℕ → Round

pub record Fed {ℓ} (H : Type ℓ) : Type ℓ where
  pub host : H
  pub put_back : List ℕ

module _ {ℓ} {H : Type ℓ} (ops : HostOps H) where
  -- The loop, one item of the list a round; behind it the deferred `close`.
  unfoldable pub loop : List Round → Fed H → Fed H
  loop [] s = record s { host = ops.close s.host }
  loop (context_done ∷ rounds) s = record s { host = ops.close s.host }
  loop (popped none ∷ rounds) s = loop rounds s
  loop (popped (some packet) ∷ rounds) s =
      let (host, written) = ops.write_rtp packet s.host in
      loop rounds (record {
        host = host;
        put_back = if written then s.put_back ++ packet ∷ [] else s.put_back;
      })

  -- The packets that the loop pops, up to the end of the context.
  unfoldable pub packets : List Round → List ℕ
  packets [] = []
  packets (context_done ∷ rounds) = []
  packets (popped none ∷ rounds) = packets rounds
  packets (popped (some packet) ∷ rounds) = packet ∷ packets rounds

  -- A host that is written packet after packet.
  unfoldable pub write_all : List ℕ → H → H
  write_all [] h = h
  write_all (packet ∷ rest) h = write_all rest (ops.write_rtp packet h).0

  -- Those of the packets that are written without an error.
  unfoldable pub well_written : List ℕ → H → List ℕ
  well_written [] h = []
  well_written (packet ∷ rest) h =
      let later = well_written rest (ops.write_rtp packet h).0 in
      if (ops.write_rtp packet h).1 then packet ∷ later else later

  put-well_written :
      (b : Bool) (packet : ℕ) (done later : List ℕ)
      → (if b then done ++ packet ∷ [] else done) ++ later
        ≡ done ++ (if b then packet ∷ later else later)
  put-well_written true packet done later = append_assoc done (packet ∷ []) later
  put-well_written false packet done later = refl

  -- The stream gives its host every packet that it pops before the context is done, once and in
  -- order, and then closes it. It puts back exactly the packets that the host has written without
  -- an error.
  pub loop_lem :
      (rounds : List Round) (s : Fed H)
      → ((loop rounds s).host ≡ ops.close (write_all (packets rounds) s.host))
        × ((loop rounds s).put_back ≡ s.put_back ++ well_written (packets rounds) s.host)
  unfolding loop packets write_all well_written
  loop_lem [] s = (refl, sym (append-nil s.put_back))
  loop_lem (context_done ∷ rounds) s = (refl, sym (append-nil s.put_back))
  loop_lem (popped none ∷ rounds) s = loop_lem rounds s
  loop_lem (popped (some packet) ∷ rounds) s =
      let r = ops.write_rtp packet s.host in
      let (host, back) =
        loop_lem rounds (record {
          host = r.0;
          put_back = if r.1 then s.put_back ++ packet ∷ [] else s.put_back;
        }) in
      (host, back ∙ put-well_written r.1 packet s.put_back (well_written (packets rounds) r.0))
