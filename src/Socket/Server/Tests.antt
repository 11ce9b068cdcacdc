-- ===== src/Socket/Server/Tests.antt =====
-- The theorems about the WebSocket server at concrete inputs.
use mediasink.Prelude.{
  ◌≡◌, refl, Bool, false, not, none, some, List, [], ◌∷◌, ◌++◌, arith, ◌==◌, nat_keys, bytes_keys,
  list_beq, Bytes, codes, lookup, insert, erase,
}
use mediasink.Net.{is_loop_back}
use mediasink.Socket.Server.State.{
  Config, zero_metrics, zero_health, increase_active_connections, decrease_active_connections,
  increase_failed_connections, Server, new_server, set_host, add_client, remove_client,
}
use mediasink.Socket.Server.Requests.{
  Machine, serving_host, finished, Move, arrive, advance, ws_handler, start_machine, step, run,
}
use mediasink.Socket.Server.Accounting.{
  weights, IsAccounted, run-start_machine-IsAccounted, idle_server_refuses,
}
use mediasink.Socket.Server.HostSlot.{host_slot_race, spares}
use mediasink.Prelude.{inl, true}
use mediasink.Socket.Server.Requests.{counting}
use mediasink.Socket.Server.Overflow.{limit_wraps}
use mediasink.Prelude.{ℕ, ◌+◌, ◌*◌, length}
use mediasink.Socket.Server.State.{int64}
use mediasink.Socket.Server.Relay.{
  message_text, message_binary, Round, message, deadline_exceeded, broken, host_handler,
  client_handler, send_all_clients, send_host,
}
use mediasink.Socket.Server.Delivery.{take_while, all_of, send_all_clients_lem}
use mediasink.Socket.Server.Broadcast.{
  heard, messages_to, occurs, StaysReachable, after_round, host_handler_broadcasts,
}
use mediasink.Socket.Server.Upstream.{StaysRelaying, after_relay, client_handler_relays}

abbrev one_client : Config
one_client = record {
  addr = codes "localhost";
  port = 9000;
  read_timout = 5;
  write_timout = 5;
  total_connections = 2;
  keep_hosting = false;
}

abbrev local_addr : Bytes
local_addr = codes "127.0.0.1:5000"

abbrev remote_addr : Bytes
remote_addr = codes "10.0.0.7:5000"

-- Request r goes through all its places as a client with connection c.
abbrev visit : ℕ → ℕ → Bytes → List Move
visit r c id =
    arrive r remote_addr
    ∷ advance r none []
    ∷ advance r none []
    ∷ advance r none []
    ∷ advance r (some c) id
    ∷ advance r none []
    ∷ []

-- Two visits are within the limit of two, one after the other; a third client arrives.
abbrev visits : List Move
visits =
    visit 1 11 (codes "a")
    ++ (visit 2 12 (codes "b") ++ (arrive 3 remote_addr ∷ advance 3 none [] ∷ []))

visits_count : (run (start_machine one_client) visits).server.metrics.active_connections ≡ 2
unfolding run step ws_handler new_server add_client remove_client increase_active_connections
    decrease_active_connections increase_failed_connections set_host lookup insert erase list_beq
    is_loop_back
visits_count = refl

run-start_machine-IsAccounted_example :
    IsAccounted one_client (run (start_machine one_client) visits)
run-start_machine-IsAccounted_example = run-start_machine-IsAccounted one_client visits

idle_server_refuses_example :
    let m = run (start_machine one_client) visits in
    let t = step m (advance 3 (some 13) (codes "c")) in
    (lookup 3 t.requests ≡ some finished) × (t.server.clients ≡ m.server.clients)
unfolding run step ws_handler new_server add_client remove_client increase_active_connections
    decrease_active_connections increase_failed_connections set_host lookup insert erase list_beq
    is_loop_back weights
idle_server_refuses_example =
    idle_server_refuses one_client visits 3 (some 13) (codes "c") refl (omega arith) (omega arith)
      refl

abbrev both_there : Machine
both_there = run (start_machine one_client) (arrive 1 local_addr ∷ arrive 2 local_addr ∷ [])

abbrev third_comes : List Move
third_comes = arrive 3 remote_addr ∷ advance 3 none [] ∷ []

host_slot_race_example :
    let looks = advance 1 none [] ∷ advance 2 none [] ∷ [] in
    let t = run both_there (
      looks
      ++ (third_comes ++ ((advance 1 (some 11) [] ∷ []) ++ ([] ++ advance 2 none [] ∷ [])))) in
    (lookup 1 t.requests ≡ some (serving_host 11)) × (t.server.host ≡ none)
unfolding run step lookup insert new_server is_loop_back spares
host_slot_race_example =
    host_slot_race 1 2 11 local_addr local_addr third_comes [] both_there refl refl refl refl refl
      refl refl refl refl

abbrev hosting : Server
hosting = record {
  config = one_client;
  host = some 5;
  clients = (codes "a", 11) ∷ (codes "b", 12) ∷ (codes "c", 13) ∷ [];
  once = false;
  session = some false;
  metrics = zero_metrics;
  health = zero_health;
  http_closed = false;
}

-- The second client's connection fails.
abbrev writes : ℕ → Bool
writes conn = not (conn == 12)

send_all_clients_lem_example :
    let r = send_all_clients writes (1 ∷ 2 ∷ []) hosting in
    (r.delivered ≡ 11 ∷ [])
    × (r.succeeded ≡ false)
    × (r.server.metrics.total_data_sent ≡ int64 (0 + length r.delivered * 2))
    × (r.server.clients ≡ hosting.clients)
unfolding take_while all_of
send_all_clients_lem_example = send_all_clients_lem writes (1 ∷ 2 ∷ []) hosting (omega arith)

-- One client comes and another leaves while the host's messages come.
abbrev comings : List Round
comings =
    record {
      meanwhile = add_client (codes "d") 14;
      answer = message (message_binary, 1 ∷ []);
      writes = λ conn. true;
    }
    ∷ record { meanwhile = λ s. s; answer = deadline_exceeded; writes = λ conn. true }
    ∷ record {
      meanwhile = remove_client (codes "b");
      answer = message (message_text, 2 ∷ []);
      writes = λ conn. true;
    }
    ∷ record { meanwhile = λ s. s; answer = broken; writes = λ conn. true }
    ∷ []

host_handler_broadcasts_example :
    messages_to 11 (host_handler comings hosting).1
    ≡ (message_binary, 1 ∷ []) ∷ (message_text, 2 ∷ []) ∷ []
unfolding heard StaysReachable after_round occurs add_client remove_client insert erase list_beq
    send_all_clients
host_handler_broadcasts_example =
    host_handler_broadcasts 5 11 comings hosting (refl, refl, refl)
      (
        (refl, refl, refl),
        (λ conn. refl),
        (
          (refl, refl, refl),
          (λ conn. refl),
          ((refl, refl, refl), (λ conn. refl), ((refl, refl, refl), (λ conn. refl), tt)),
        ),
      )

abbrev widest : Config
widest = record one_client { total_connections = 255 }

limit_wraps_example :
    lookup 3 (step (run (start_machine widest) visits) (advance 3 none [])).requests ≡ some counting
unfolding run step ws_handler new_server add_client remove_client increase_active_connections
    decrease_active_connections increase_failed_connections set_host lookup insert erase list_beq
    is_loop_back
limit_wraps_example = limit_wraps widest visits 3 none [] (inl refl) refl

client_handler_relays_example :
    let r = client_handler (codes "c") comings hosting in
    (r.1 ≡ (5, (message_binary, 1 ∷ [])) ∷ (5, (message_text, 2 ∷ [])) ∷ [])
    × (lookup (codes "c") r.0.clients ≡ none)
unfolding heard StaysRelaying after_relay add_client remove_client insert erase lookup list_beq
    send_host
client_handler_relays_example =
    client_handler_relays 5 (codes "c") 13 comings hosting (refl, refl, refl)
      (
        (refl, refl, refl),
        refl,
        ((refl, refl, refl), refl, ((refl, refl, refl), refl, ((refl, refl, refl), refl, tt))),
      )
