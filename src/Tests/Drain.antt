-- ===== src/Tests/Drain.antt =====
-- The pool runs the task that waits.
use woeful.Base.{
  refl, ◌∷◌, c_string, copy_from, sub_size, bytes_eq, read_u8, read_u16, read_u32, write, write_at,
}
use woeful.Base.Map.{find, insert}
use woeful.Packets.{parse_wisp, parse_connect}
use woeful.System.Calls.{is_open}
use woeful.System.{
  connect_socket, connect_stream, decimal, open_epoll, open_socket, open_typed, push_fd, erase_fd,
  resolve, to_string, unless_refused, wake, wait, open_stream, socket_type, match_members,
  is_refused,
}
use woeful.Manager.{
  receive, dispatch, handle_connect, construct, add_stream, close_info, count_message, handle_data,
  report_connect, send_close, send_continue, run_task, write_loop,
}
use woeful.Watcher.{reported, read_loop, watch_round, watch_events, watch_event, defer_read}
use woeful.Server.{
  init, on_open, on_message, on_events, on_task, take_task, manager_of, put_manager,
}
use woeful.Tests.World.{calm_os, calm_read, calm_socket}
use woeful.Tests.Streams.{black_list}
use woeful.Tests.Run.{s3}
use woeful.Tests.Relay.{manager_in, stream_in}
use woeful.Base.{arith, All, length, []}
use woeful.Tests.World.{calm_os-fresh}
use woeful.Tests.Relay.{lives3}
use woeful.Tests.Gone.{before_leaving}
use woeful.Tests.Uplink.{calm_os-Relents}
use woeful.Uplink.Drain.{Order, over, first, HasStream, Drained, run_tasks-Drained}

one_task : Order (length s3.tasks) (0 ∷ [])
unfolding find on_open insert init construct receive parse_wisp copy_from sub_size dispatch
    handle_connect parse_connect bytes_eq c_string read_u16 read_u32 read_u8 write write_at
    add_stream close_info count_message handle_data report_connect send_close send_continue
    manager_of put_manager connect_socket connect_stream decimal is_refused match_members open_epoll
    open_socket open_stream open_typed push_fd resolve socket_type to_string unless_refused wake
    calm_socket is_open on_message on_task take_task run_task write_loop on_events wait reported
    watch_round defer_read read_loop watch_event watch_events calm_read erase_fd
one_task = first (omega arith) over

has_stream : All (HasStream s3.watcher.watched_sockets) s3.tasks
unfolding find on_open insert init construct receive parse_wisp copy_from sub_size dispatch
    handle_connect parse_connect bytes_eq c_string read_u16 read_u32 read_u8 write write_at
    add_stream close_info count_message handle_data report_connect send_close send_continue
    manager_of put_manager connect_socket connect_stream decimal is_refused match_members open_epoll
    open_socket open_stream open_typed push_fd resolve socket_type to_string unless_refused wake
    calm_socket is_open on_message on_task take_task run_task write_loop on_events wait reported
    watch_round defer_read read_loop watch_event watch_events calm_read erase_fd
has_stream = ((manager_in s3, stream_in s3, refl, refl), tt)

run_tasks-Drained_example : Drained calm_os 1 0 12 7 (0 ∷ []) s3
run_tasks-Drained_example =
    run_tasks-Drained calm_os black_list 0 0 12 20 7 (0 ∷ []) calm_os-fresh calm_os-Relents
      before_leaving one_task has_stream lives3
