-- ===== src/Tests/Program.antt =====
-- The receiver and the watcher, on concrete inputs.
use woeful.Base.{
  List, ◌≤◌, ℕ, ◌+◌, ◌≡◌, refl, true, false, none, some, [], ◌∷◌, Bytes, arith, length, Result, ok,
  fault, c_string, codes, copy_from, sub_size, bytes_eq,
}
use woeful.Base.Map.{Map, find}
use woeful.Packets.{WispPacket, max_ws_frame, parse_wisp, parse_connect}
use woeful.Packets.Hostname.{connect_frame}
use woeful.System.Calls.{Trace, is_open, socket_opened}
use woeful.System.{
  connect_socket, connect_stream, open_socket, open_stream, socket_type, match_members, is_refused,
}
use woeful.Manager.{WebSocketManager, Session, receive, dispatch, handle_connect, add_stream}
use woeful.Manager.Counting.{owners, IsOwned}
use woeful.Manager.Owned.{receive-IsOwned}
use woeful.Watcher.{
  Deferred, SystemWatcher, ReadOut, read_loop, run_deferred, deliver_managers, watch_round,
  watch_events, watch_event, defer_read,
}
use woeful.Watcher.Reading.{Reads, read_loop-Reads}
use woeful.Watcher.Owners.{held}
use woeful.Watcher.Relay.{recipients, relayed, deliver_managers-relays}
use woeful.Manager.Counting.{opened}
use woeful.Watcher.Once.{deliver_managers-once, watch_round-returns}
use woeful.Manager.Accepts.{receive-returns}
use woeful.Manager.Reconnect.{handle_connect-leaks}
use woeful.Watcher.Held.{IsHeld, run_deferred-IsHeld}
use woeful.Server.Threads.{Watched, watch_round-Watched}
use woeful.Tests.World.{
  calm_os, calm_read, calm_socket, calm_os-fresh, calm_os-segments, test_epoll,
}
use woeful.Tests.Streams.{black_list, good_host, busy_parent, dry_stream, test_manager}

-- A connect that succeeds.
abbrev pub connect_good_frame : Bytes
connect_good_frame = 1 ∷ 12 ∷ 0 ∷ 0 ∷ 0 ∷ connect_frame 1 80 0 good_host

abbrev dry_session : Session
dry_session = record {
  manager = record test_manager { streams = (11, dry_stream) ∷ [] };
  tasks = [];
  trace = socket_opened 1 8 ∷ [];
}

abbrev session_of : Result Session → Session
session_of (ok s) = s
session_of (fault _) = dry_session

abbrev connected : Session
connected = session_of (receive calm_os black_list busy_parent connect_good_frame dry_session)

receive-connected :
    receive calm_os black_list busy_parent connect_good_frame dry_session ≡ ok connected
unfolding receive parse_wisp copy_from sub_size dispatch handle_connect parse_connect open_stream
    socket_type match_members c_string is_refused bytes_eq
receive-connected = refl

dry_session-IsOwned : IsOwned (λ fd. 0) dry_session.manager.streams dry_session.trace
unfolding owners is_open find
dry_session-IsOwned = record { distinct = (refl, tt); bound = λ fd. ground arith }

test_connected-IsOwned : IsOwned (λ fd. 0) connected.manager.streams connected.trace
test_connected-IsOwned =
    receive-IsOwned (λ fd. 0) calm_os black_list busy_parent connect_good_frame dry_session
      connected calm_os-fresh receive-connected dry_session-IsOwned

read_loop-Reads_example :
    (out : ReadOut) × (read_loop calm_os (max_ws_frame + 2) 8 [] dry_session.trace ≡ some out)
    × Reads 8 [] dry_session.trace out
read_loop-Reads_example =
    read_loop-Reads calm_os calm_os-segments (max_ws_frame + 2) 8 [] dry_session.trace (omega arith)
      (omega arith)

abbrev one_manager : Map WebSocketManager
one_manager = (0, dry_session.manager) ∷ []

test_relayed :
    (deliver_managers calm_os 8 (codes "hi") one_manager none dry_session.trace).2
    ≡ relayed (codes "hi") (recipients 8 one_manager) dry_session.trace
test_relayed = deliver_managers-relays calm_os 8 (codes "hi") one_manager none dry_session.trace

abbrev test_watcher : SystemWatcher
test_watcher = record {
  watched_sockets = one_manager;
  epoll = test_epoll;
  send_queue_len = 1;
  deconstructing = false;
  deferred = [];
}

abbrev ended_read : Deferred
ended_read = record { combined_buffer = codes "hi"; to_close = true; fd = 8 }

one_manager-IsHeld : IsHeld one_manager dry_session.trace
unfolding held owners is_open find
one_manager-IsHeld = record {
  entries = ((refl, (refl, tt)), tt);
  distinct = (refl, tt);
  bound = λ fd. ground arith;
}

test_deferred-IsHeld :
    IsHeld
      (run_deferred calm_os ended_read test_watcher dry_session.trace).0.watched_sockets
      (run_deferred calm_os ended_read test_watcher dry_session.trace).1
test_deferred-IsHeld =
    run_deferred-IsHeld calm_os ended_read test_watcher dry_session.trace one_manager-IsHeld

abbrev round : SystemWatcher × Trace
round = elim (watch_round calm_os (8 ∷ []) test_watcher dry_session.trace) [
  | none ↦ (test_watcher, [])
  | some r ↦ r
]

round-watch_round : watch_round calm_os (8 ∷ []) test_watcher dry_session.trace ≡ some round
unfolding watch_round watch_events watch_event defer_read read_loop calm_read
round-watch_round = refl

test_round-Watched : Watched test_watcher dry_session.trace round.0 round.1
test_round-Watched =
    watch_round-Watched calm_os (8 ∷ []) test_watcher dry_session.trace round round-watch_round

test_sent_once :
    (to : List (ℕ × ℕ)) × (length to ≤ opened 8 dry_session.trace)
    × ((deliver_managers calm_os 8 (codes "hi") one_manager none dry_session.trace).2
        ≡ relayed (codes "hi") to dry_session.trace)
test_sent_once =
    deliver_managers-once calm_os 8 (codes "hi") one_manager dry_session.trace one_manager-IsHeld

watch_round-returns_example :
    (r : SystemWatcher × Trace) × (watch_round calm_os (4 ∷ 8 ∷ []) test_watcher dry_session.trace
      ≡ some r)
watch_round-returns_example =
    watch_round-returns calm_os calm_os-segments (4 ∷ 8 ∷ []) test_watcher dry_session.trace

-- A second connect with the id 11.
abbrev again_packet : WispPacket
again_packet = record { packet_type = 1; stream_id = 11; bytes = connect_frame 1 80 0 good_host }

abbrev again : Session
again = elim (handle_connect calm_os black_list busy_parent again_packet dry_session) [
  | ok r ↦ r.1
  | fault _ ↦ dry_session
]

again-handle_connect :
    handle_connect calm_os black_list busy_parent again_packet dry_session ≡ ok (some 11, again)
unfolding handle_connect parse_connect sub_size copy_from open_stream socket_type match_members
    c_string is_refused bytes_eq add_stream connect_stream open_socket calm_socket connect_socket
again-handle_connect = refl

dry_session-find : find 11 dry_session.manager.streams ≡ some dry_stream
unfolding find
dry_session-find = refl

handle_connect-leaks_example : (is_open 8 again.trace ≡ true) × (owners 8 again.manager.streams ≡ 0)
handle_connect-leaks_example =
    handle_connect-leaks calm_os black_list busy_parent again_packet dry_stream 11 dry_session again
      calm_os-fresh dry_session-find dry_session-IsOwned again-handle_connect

abbrev good_packet : WispPacket
good_packet = record { packet_type = 1; stream_id = 12; bytes = connect_frame 1 80 0 good_host }

connect_good_frame-parse_wisp : parse_wisp connect_good_frame ≡ ok good_packet
unfolding parse_wisp copy_from sub_size
connect_good_frame-parse_wisp = refl

test_receive_accepts :
    (s' : Session) × (receive calm_os black_list busy_parent connect_good_frame dry_session ≡ ok s')
test_receive_accepts =
    receive-returns calm_os black_list busy_parent connect_good_frame good_packet dry_session
      connect_good_frame-parse_wisp (λ _. omega arith) (omega arith)
