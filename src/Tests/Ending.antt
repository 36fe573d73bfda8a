-- ===== src/Tests/Ending.antt =====
-- A run in which the target sends and closes its side.
use woeful.Base.{
  true, ok, ◌≡◌, refl, some, [], ◌∷◌, c_string, arith, copy_from, sub_size, bytes_eq, read_u8,
  read_u16, read_u32, write, write_at,
}
use woeful.Base.Map.{find, insert}
use woeful.Packets.{parse_wisp, parse_connect}
use woeful.System.Calls.{Os, Trace, ReadResult, fd_read, SocketIsFresh, is_open}
use woeful.Server.{on_deferred}
use woeful.Server.Steps.{Reach, start, later, opens, receives, wakes}
use woeful.Downlink.Faithful.{Lives}
use woeful.Downlink.Ends.{Ended, on_deferred-Ended}
use woeful.System.{
  connect_socket, connect_stream, decimal, open_epoll, open_socket, open_typed, push_fd, erase_fd,
  resolve, to_string, unless_refused, wake, wait, open_stream, socket_type, match_members,
  is_refused,
}
use woeful.Manager.{
  receive, dispatch, handle_connect, construct, add_stream, close_info, count_message, handle_data,
  report_connect, send_close, send_continue, run_task, write_loop,
}
use woeful.Watcher.{
  Deferred, reported, read_loop, watch_round, watch_events, watch_event, defer_read,
}
use woeful.Server.{
  Server, init, on_open, on_message, on_events, on_task, take_task, manager_of, put_manager,
}
use woeful.Base.{codes}
use woeful.Tests.World.{calm_os, calm_read, calm_socket, test_epoll}
use woeful.Tests.Streams.{black_list}
use woeful.Tests.Run.{server_of, server_or}
use woeful.Tests.Relay.{manager_in, stream_in}
use woeful.Tests.Program.{connect_good_frame}

-- The target says "hi" and closes.
abbrev ending_read : Trace → ReadResult
ending_read [] = ReadResult.again
ending_read (fd_read _ _ ∷ t) = ReadResult.count []
ending_read (_ ∷ t) = ReadResult.count (codes "hi")

abbrev ending_os : Os
ending_os = record calm_os { read = λ t fd. ending_read t }

ending_os-fresh : SocketIsFresh ending_os
unfolding calm_socket
ending_os-fresh t sock_type fd h = ground arith

abbrev e1 : Server
e1 = on_open 20 (init test_epoll)

abbrev e2 : Server
e2 = server_of e1 (on_message ending_os black_list 20 connect_good_frame e1)

abbrev e3 : Server
e3 = server_or e2 (on_events ending_os (some (7 ∷ [])) e2)

abbrev last : Deferred
last = record { combined_buffer = codes "hi"; to_close = true; fd = 7 }

connects : on_message ending_os black_list 20 connect_good_frame e1 ≡ ok e2
unfolding find on_open insert init construct receive parse_wisp copy_from sub_size dispatch
    handle_connect parse_connect bytes_eq c_string read_u16 read_u32 read_u8 write write_at
    add_stream close_info count_message handle_data report_connect send_close send_continue
    manager_of put_manager connect_socket connect_stream decimal is_refused match_members open_epoll
    open_socket open_stream open_typed push_fd resolve socket_type to_string unless_refused wake
    calm_socket is_open on_message on_task take_task run_task write_loop on_events wait reported
    watch_round defer_read read_loop watch_event watch_events calm_read erase_fd
connects = refl

hears : on_events ending_os (some (7 ∷ [])) e2 ≡ some e3
unfolding find on_open insert init construct receive parse_wisp copy_from sub_size dispatch
    handle_connect parse_connect bytes_eq c_string read_u16 read_u32 read_u8 write write_at
    add_stream close_info count_message handle_data report_connect send_close send_continue
    manager_of put_manager connect_socket connect_stream decimal is_refused match_members open_epoll
    open_socket open_stream open_typed push_fd resolve socket_type to_string unless_refused wake
    calm_socket is_open on_message on_task take_task run_task write_loop on_events wait reported
    watch_round defer_read read_loop watch_event watch_events calm_read erase_fd
hears = refl

e3_queue : e3.watcher.deferred ≡ last ∷ []
unfolding find on_open insert init construct receive parse_wisp copy_from sub_size dispatch
    handle_connect parse_connect bytes_eq c_string read_u16 read_u32 read_u8 write write_at
    add_stream close_info count_message handle_data report_connect send_close send_continue
    manager_of put_manager connect_socket connect_stream decimal is_refused match_members open_epoll
    open_socket open_stream open_typed push_fd resolve socket_type to_string unless_refused wake
    calm_socket is_open on_message on_task take_task run_task write_loop on_events wait reported
    watch_round defer_read read_loop watch_event watch_events calm_read erase_fd
e3_queue = refl

e3-Lives : Lives 0 12 20 7 e3
unfolding find on_open insert init construct receive parse_wisp copy_from sub_size dispatch
    handle_connect parse_connect bytes_eq c_string read_u16 read_u32 read_u8 write write_at
    add_stream close_info count_message handle_data report_connect send_close send_continue
    manager_of put_manager connect_socket connect_stream decimal is_refused match_members open_epoll
    open_socket open_stream open_typed push_fd resolve socket_type to_string unless_refused wake
    calm_socket is_open on_message on_task take_task run_task write_loop on_events wait reported
    watch_round defer_read read_loop watch_event watch_events calm_read erase_fd
e3-Lives = record {
  manager = manager_in e3;
  stream = stream_in e3;
  found = refl;
  socket = refl;
  here = refl;
  descriptor = refl;
}

before_end : Reach ending_os black_list test_epoll e3
unfolding init
before_end =
    later (later (later start (opens 20 tt)) (receives 20 _ (omega arith) (omega arith) connects))
      (wakes (some (7 ∷ [])) hears)

on_deferred-Ended_example :
    Ended 0 12 20 7
      (codes "hi")
      e3.trace
      (on_deferred ending_os e3).watcher.watched_sockets
      (on_deferred ending_os e3).trace
on_deferred-Ended_example =
    on_deferred-Ended ending_os black_list 0 12 20 e3 last [] ending_os-fresh before_end e3_queue
      refl e3-Lives
