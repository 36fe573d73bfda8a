-- ===== src/Tests/Gone.antt =====
-- A client leaves while a task of its manager is in the queue, and another comes.
use woeful.Base.{
  arith, ◌≡◌, refl, [], ok, fault, dangling, c_string, codes, copy_from, sub_size, bytes_eq,
  read_u8, read_u16, read_u32, write, write_at,
}
use woeful.Base.Map.{find, insert, erase, keys}
use woeful.Packets.{parse_wisp, parse_connect}
use woeful.System.Calls.{is_open}
use woeful.System.{
  connect_socket, connect_stream, decimal, open_epoll, open_socket, open_typed, push_fd, erase_fd,
  resolve, to_string, unless_refused, wake, wait, open_stream, socket_type, match_members,
  is_refused,
}
use woeful.Manager.{
  receive, dispatch, handle_connect, construct, add_stream, close_info, count_message, handle_data,
  report_connect, send_close, send_continue, run_task, write_loop, close_stream, close_streams,
  data_message, fd_of, force_close, refill_streams, send_data, update_streams,
}
use woeful.Watcher.{
  reported, read_loop, run_deferred, deliver_managers, watch_round, watch_events, watch_event,
  defer_read, close_found, deliver_one, deliver_streams, update_managers,
}
use woeful.Server.{
  Server, init, on_open, on_message, on_close, on_events, on_deferred, on_task, take_task,
  manager_of, put_manager,
}
use woeful.Server.Steps.{Reach, later, opens, receives}
use woeful.Tests.World.{calm_os, calm_read, calm_socket, calm_os-fresh, test_epoll}
use woeful.Tests.Streams.{black_list}
use woeful.Server.Steps.{now, then, extend}
use woeful.Server.Alive.{openings, openings_after}
use woeful.Server.Gone.{on_task-dangles}
use woeful.Tests.Relay.{manager_in}
use woeful.Manager.{WebSocketManager}
use woeful.Tests.Run.{s3, sends, before_data, server_of}

abbrev left : Server
left = server_of s3 (on_close 20 s3)

leaves_early : on_close 20 s3 ≡ ok left
unfolding find on_open insert init construct receive parse_wisp copy_from sub_size dispatch
    handle_connect parse_connect bytes_eq c_string read_u16 read_u32 read_u8 write write_at
    add_stream close_info count_message handle_data report_connect send_close send_continue
    manager_of put_manager connect_socket connect_stream decimal is_refused match_members open_epoll
    open_socket open_stream open_typed push_fd resolve socket_type to_string unless_refused wake
    calm_socket is_open on_message on_task take_task run_task write_loop on_events wait reported
    watch_round defer_read read_loop watch_event watch_events calm_read erase_fd on_close erase keys
    close_stream close_streams data_message fd_of force_close refill_streams send_data
    update_streams close_found deliver_managers deliver_one deliver_streams run_deferred
    update_managers on_deferred
leaves_early = refl

-- Its manager, and its task.
abbrev manager : WebSocketManager
manager = manager_in s3

has_manager : manager_of s3 20 ≡ ok manager
unfolding find on_open insert init construct receive parse_wisp copy_from sub_size dispatch
    handle_connect parse_connect bytes_eq c_string read_u16 read_u32 read_u8 write write_at
    add_stream close_info count_message handle_data report_connect send_close send_continue
    manager_of put_manager connect_socket connect_stream decimal is_refused match_members open_epoll
    open_socket open_stream open_typed push_fd resolve socket_type to_string unless_refused wake
    calm_socket is_open on_message on_task take_task run_task write_loop on_events wait reported
    watch_round defer_read read_loop watch_event watch_events calm_read erase_fd on_close erase keys
    close_stream close_streams data_message fd_of force_close refill_streams send_data
    update_streams close_found deliver_managers deliver_one deliver_streams run_deferred
    update_managers on_deferred
has_manager = refl

abbrev joined : Server
joined = on_open 21 left

abbrev pub before_leaving : Reach calm_os black_list test_epoll s3
before_leaving = later before_data (receives 20 _ (omega arith) (omega arith) sends)

on_task-dangles_example : on_task calm_os 3 0 joined ≡ fault dangling
unfolding openings openings_after extend find on_open insert init construct receive parse_wisp
    copy_from sub_size dispatch handle_connect parse_connect bytes_eq c_string read_u16 read_u32
    read_u8 write write_at add_stream close_info count_message handle_data report_connect send_close
    send_continue manager_of put_manager connect_socket connect_stream decimal is_refused
    match_members open_epoll open_socket open_stream open_typed push_fd resolve socket_type
    to_string unless_refused wake calm_socket is_open on_message on_task take_task run_task
    write_loop on_events wait reported watch_round defer_read read_loop watch_event watch_events
    calm_read erase_fd on_close erase keys close_stream close_streams data_message fd_of force_close
    refill_streams send_data update_streams close_found deliver_managers deliver_one deliver_streams
    run_deferred update_managers on_deferred
on_task-dangles_example =
    on_task-dangles calm_os black_list 20 3 0 manager
      (record {
        manager = 0;
        packet = record { packet_type = 2; stream_id = 12; bytes = codes "hi" };
      })
      [] calm_os-fresh before_leaving has_manager leaves_early (then now (opens 21 tt))
      (omega arith) refl refl
