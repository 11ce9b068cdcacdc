-- ===== src/Rtsp/SingleServer/Tests.antt =====
-- Concrete histories of the older RTSP server.
use mediasink.Prelude.{◌≡◌, some, List, [], ◌∷◌, ◌++◌, nat_keys, bytes_keys}
use mediasink.Rtsp.SingleServer.State.{create_server, on_describe}
use mediasink.Rtsp.SingleServer.History.{
  Event, announced, session_closed, run, announced_streams, shut_streams, open_stream,
  run-create_server, ends_of, closes,
}

abbrev history : List Event
history = announced 1 10 ∷ announced 2 20 ∷ session_closed 1 ∷ session_closed 2 ∷ []

run-create_server_example :
    let r = run (history ++ announced 3 30 ∷ ends_of (1 ∷ 2 ∷ [])) create_server [] in
    (on_describe r.0 ≡ some 30)
    × (shut_streams r.1 ++ open_stream (on_describe r.0) ≡ 10 ∷ 20 ∷ 30 ∷ [])
unfolding announced_streams closes
run-create_server_example = run-create_server history 3 30 (1 ∷ 2 ∷ [])
