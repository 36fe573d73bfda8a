-- ===== src/Tests/Relay.antt =====
-- The relay of a stream in the run of the whole program.
use woeful.Base.{
  true, ◌||◌, ◌≡◌, refl, Option, some, none, [], ◌∷◌, c_string, arith, copy_from, sub_size,
  bytes_eq, read_u8, read_u16, read_u32, write, write_at,
}
use woeful.Base.Map.{find, insert}
use woeful.Packets.{parse_wisp, parse_connect}
use woeful.System.Calls.{is_open}
use woeful.System.{
  connect_socket, connect_stream, decimal, open_epoll, open_socket, open_typed, push_fd, erase_fd,
  resolve, to_string, unless_refused, wake, wait, open_stream, socket_type, match_members,
  is_refused,
}
use woeful.Manager.{
  SocketStreamData, WebSocketManager, receive, dispatch, handle_connect, construct, add_stream,
  close_info, count_message, handle_data, report_connect, send_close, send_continue, run_task,
  write_loop,
}
use woeful.Watcher.{
  Deferred, reported, read_loop, watch_round, watch_events, watch_event, defer_read,
}
use woeful.Server.{
  Server, init, on_open, on_message, on_events, on_task, take_task, manager_of, put_manager,
}
use woeful.Server.Steps.{receives, wakes, delivers, writes}
use woeful.Downlink.Faithful.{Lives, Relays}
use woeful.Downlink.Drain.{StaysOpen, Drained, turns-Drained}
use woeful.Watcher.Fed.{IsFed}
use woeful.Server.Watching.{Reach-watched}
use woeful.System.Watching.{is_watched}
use woeful.Watcher.Watching.{waits}
use woeful.Server.Credit.{turns, turns-IsFed}
use woeful.Server.Steps.{Reach, later}
use woeful.Base.{inl, length, All, codes, false}
use woeful.Downlink.Run.{Run, still, next, Run-Relays}
use woeful.Uplink.{Accounts}
use woeful.Uplink.Run.{came, Run-Accounts}
use woeful.Tests.World.{calm_os, calm_read, calm_socket, calm_os-fresh, test_epoll}
use woeful.Tests.Streams.{black_list, test_manager, dry_stream}
use woeful.Tests.Run.{s2, s3, s4, s5, s6, sends, written_out, reads, before_data}

abbrev manager_or : Option WebSocketManager → WebSocketManager
manager_or none = test_manager
manager_or (some m) = m

abbrev stream_or : Option SocketStreamData → SocketStreamData
stream_or none = dry_stream
stream_or (some stream) = stream

abbrev pub manager_in : Server → WebSocketManager
manager_in s = manager_or (find 0 s.watcher.watched_sockets)

abbrev pub stream_in : Server → SocketStreamData
stream_in s = stream_or (find 12 (manager_in s).streams)

lives2 : Lives 0 12 20 7 s2
unfolding find on_open insert init construct receive parse_wisp copy_from sub_size dispatch
    handle_connect parse_connect bytes_eq c_string read_u16 read_u32 read_u8 write write_at
    add_stream close_info count_message handle_data report_connect send_close send_continue
    manager_of put_manager connect_socket connect_stream decimal is_refused match_members open_epoll
    open_socket open_stream open_typed push_fd resolve socket_type to_string unless_refused wake
    calm_socket is_open on_message on_task take_task run_task write_loop on_events wait reported
    watch_round defer_read read_loop watch_event watch_events calm_read erase_fd
lives2 = record {
  manager = manager_in s2;
  stream = stream_in s2;
  found = refl;
  socket = refl;
  here = refl;
  descriptor = refl;
}

pub lives3 : Lives 0 12 20 7 s3
unfolding find on_open insert init construct receive parse_wisp copy_from sub_size dispatch
    handle_connect parse_connect bytes_eq c_string read_u16 read_u32 read_u8 write write_at
    add_stream close_info count_message handle_data report_connect send_close send_continue
    manager_of put_manager connect_socket connect_stream decimal is_refused match_members open_epoll
    open_socket open_stream open_typed push_fd resolve socket_type to_string unless_refused wake
    calm_socket is_open on_message on_task take_task run_task write_loop on_events wait reported
    watch_round defer_read read_loop watch_event watch_events calm_read erase_fd
lives3 = record {
  manager = manager_in s3;
  stream = stream_in s3;
  found = refl;
  socket = refl;
  here = refl;
  descriptor = refl;
}

lives4 : Lives 0 12 20 7 s4
unfolding find on_open insert init construct receive parse_wisp copy_from sub_size dispatch
    handle_connect parse_connect bytes_eq c_string read_u16 read_u32 read_u8 write write_at
    add_stream close_info count_message handle_data report_connect send_close send_continue
    manager_of put_manager connect_socket connect_stream decimal is_refused match_members open_epoll
    open_socket open_stream open_typed push_fd resolve socket_type to_string unless_refused wake
    calm_socket is_open on_message on_task take_task run_task write_loop on_events wait reported
    watch_round defer_read read_loop watch_event watch_events calm_read erase_fd
lives4 = record {
  manager = manager_in s4;
  stream = stream_in s4;
  found = refl;
  socket = refl;
  here = refl;
  descriptor = refl;
}

lives5 : Lives 0 12 20 7 s5
unfolding find on_open insert init construct receive parse_wisp copy_from sub_size dispatch
    handle_connect parse_connect bytes_eq c_string read_u16 read_u32 read_u8 write write_at
    add_stream close_info count_message handle_data report_connect send_close send_continue
    manager_of put_manager connect_socket connect_stream decimal is_refused match_members open_epoll
    open_socket open_stream open_typed push_fd resolve socket_type to_string unless_refused wake
    calm_socket is_open on_message on_task take_task run_task write_loop on_events wait reported
    watch_round defer_read read_loop watch_event watch_events calm_read erase_fd
lives5 = record {
  manager = manager_in s5;
  stream = stream_in s5;
  found = refl;
  socket = refl;
  here = refl;
  descriptor = refl;
}

relay-Run : Run calm_os black_list 0 12 20 7 s2 s6
relay-Run =
    next
      (next
        (next (next still lives2 (receives 20 _ (omega arith) (omega arith) sends)) lives3
          (writes 3 0 written_out))
        lives4 (wakes (some (7 ∷ [])) reads))
      lives5 delivers

Run-Relays_example : Relays 12 20 7 s2 s6
Run-Relays_example = Run-Relays calm_os black_list 0 12 20 7 calm_os-fresh before_data relay-Run

Run-Accounts_example : Accounts 0 12 7 (came relay-Run) s2 s6
Run-Accounts_example = Run-Accounts calm_os black_list 0 12 20 7 calm_os-fresh before_data relay-Run

before_turns : Reach calm_os black_list test_epoll s5
before_turns =
    later
      (later (later before_data (receives 20 _ (omega arith) (omega arith) sends))
        (writes 3 0 written_out))
      (wakes (some (7 ∷ [])) reads)

all_open : StaysOpen 7 s5.watcher.deferred
unfolding find on_open insert init construct receive parse_wisp copy_from sub_size dispatch
    handle_connect parse_connect bytes_eq c_string read_u16 read_u32 read_u8 write write_at
    add_stream close_info count_message handle_data report_connect send_close send_continue
    manager_of put_manager connect_socket connect_stream decimal is_refused match_members open_epoll
    open_socket open_stream open_typed push_fd resolve socket_type to_string unless_refused wake
    calm_socket is_open on_message on_task take_task run_task write_loop on_events wait reported
    watch_round defer_read read_loop watch_event watch_events calm_read erase_fd
all_open = (inl refl, tt)

turns-Drained_example :
    Drained 0 12 20 7 s5.watcher.deferred s5 (turns calm_os (length s5.watcher.deferred) s5)
turns-Drained_example =
    turns-Drained calm_os black_list 0 12 20 7 s5 calm_os-fresh before_turns all_open lives5

abbrev waiting : Deferred
waiting = record { combined_buffer = codes "hi"; to_close = false; fd = 7 }

s5_queue : s5.watcher.deferred ≡ waiting ∷ []
unfolding find on_open insert init construct receive parse_wisp copy_from sub_size dispatch
    handle_connect parse_connect bytes_eq c_string read_u16 read_u32 read_u8 write write_at
    add_stream close_info count_message handle_data report_connect send_close send_continue
    manager_of put_manager connect_socket connect_stream decimal is_refused match_members open_epoll
    open_socket open_stream open_typed push_fd resolve socket_type to_string unless_refused wake
    calm_socket is_open on_message on_task take_task run_task write_loop on_events wait reported
    watch_round defer_read read_loop watch_event watch_events calm_read erase_fd
s5_queue = refl

turns-IsFed_example : All IsFed (turns calm_os 1 s5).watcher.watched_sockets
turns-IsFed_example =
    turns-IsFed calm_os black_list waiting [] s5 calm_os-fresh before_turns s5_queue

manager5 : find 0 s5.watcher.watched_sockets ≡ some (manager_in s5)
unfolding find on_open insert init construct receive parse_wisp copy_from sub_size dispatch
    handle_connect parse_connect bytes_eq c_string read_u16 read_u32 read_u8 write write_at
    add_stream close_info count_message handle_data report_connect send_close send_continue
    manager_of put_manager connect_socket connect_stream decimal is_refused match_members open_epoll
    open_socket open_stream open_typed push_fd resolve socket_type to_string unless_refused wake
    calm_socket is_open on_message on_task take_task run_task write_loop on_events wait reported
    watch_round defer_read read_loop watch_event watch_events calm_read erase_fd
manager5 = refl

stream5 : find 12 (manager_in s5).streams ≡ some (stream_in s5)
unfolding find on_open insert init construct receive parse_wisp copy_from sub_size dispatch
    handle_connect parse_connect bytes_eq c_string read_u16 read_u32 read_u8 write write_at
    add_stream close_info count_message handle_data report_connect send_close send_continue
    manager_of put_manager connect_socket connect_stream decimal is_refused match_members open_epoll
    open_socket open_stream open_typed push_fd resolve socket_type to_string unless_refused wake
    calm_socket is_open on_message on_task take_task run_task write_loop on_events wait reported
    watch_round defer_read read_loop watch_event watch_events calm_read erase_fd
stream5 = refl

Reach-watched_example :
    (is_watched (stream_in s5).fd s5.trace || waits (stream_in s5).fd s5.watcher.deferred) ≡ true
Reach-watched_example =
    Reach-watched calm_os black_list s5 0 12 (manager_in s5) (stream_in s5) calm_os-fresh
      before_turns manager5 stream5
