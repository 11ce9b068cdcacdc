-- ===== src/Rtsp/Server/Shutdown.antt =====
-- The shutdown of pkg/rtsp/new_server.go.
use mediasink.Prelude.{
  ℕ, ◌≡◌, refl, subst, inl, inr, Bool, true, Option, none, some, List, [], ◌∷◌, ◌++◌, arith, ◌==◌,
  nat_keys, bytes_keys, Bool-cases, Bytes, Map, lookup,
}
use mediasink.Rtsp.Server.State.{
  StreamInfo, Server, Effect, close_stream, close_session, close_server,
}
use mediasink.Rtsp.Server.Handlers.{close_if, sweep}
use mediasink.Rtsp.Server.Upkeep.{close_all, close}
use mathlib.Core.List.{Mem, mem-append_left, mem-append_right, mem-cons_self}

mem-close_if : (f : ℕ → Effect) (x : ℕ) (o : Option ℕ) → o ≡ some x → Mem (f x) (close_if f o)
mem-close_if f x none e = cc
mem-close_if f x (some y) e = subst (λ z. Mem (f z) (f y ∷ [])) (ground (arith, e)) mem-cons_self

-- What the body does for an entry is done by the range.
mem-sweep :
    (body : StreamInfo → Option StreamInfo × List Effect) (e : Effect) (k : Bytes)
    (m : Map Bytes StreamInfo) (si : StreamInfo)
    → lookup k m ≡ some si
    → Mem e (body si).1
    → Mem e (sweep body m).1
unfolding sweep lookup
mem-sweep body e k [] si h i = cc
mem-sweep body e k ((path, w) ∷ m) si h i = elim (Bool-cases (path == k)) [
  | inl same ↦ mem-append_left _ (subst (λ z. Mem e (body z).1) (ground (arith, same)) i)
  | inr other ↦ mem-append_right (body w).1 (mem-sweep body e k m si (ground (arith, other)) i)
]

-- Close needs a session, and panics without one. With one it cancels the context, empties the
-- server and closes the listener, and the stream and the publisher of every path.
pub close_lem :
    (path : Bytes) (stream publisher : ℕ) (si : StreamInfo) (s : Server) (done : Bool)
    → s.session ≡ some done
    → lookup path s.streams ≡ some si
    → si.stream ≡ some stream
    → si.publisher ≡ some publisher
    → (t : Server) × (effects : List Effect) × (close s ≡ some (t, effects))
      × (t.streams ≡ [])
      × (t.session ≡ some true)
      × (t.routines ≡ 0)
      × Mem (close_stream stream) effects
      × Mem (close_session publisher) effects
      × Mem close_server effects
unfolding close close_all
close_lem path stream publisher si s done c e f g = (
  record s { session = some true; streams = []; routines = 0; total_connections = 0 },
  (sweep close_all s.streams).1 ++ close_server ∷ [],
  ground arith,
  refl,
  refl,
  refl,
  mem-append_left _ (
      mem-sweep close_all _ path s.streams si e
        (mem-append_left _ (mem-close_if close_stream stream si.stream f))),
  mem-append_left _ (
      mem-sweep close_all _ path s.streams si e
        (mem-append_right _ (mem-close_if close_session publisher si.publisher g))),
  mem-append_right _ mem-cons_self,
)
