-- ===== src/Tests/Uplink.antt =====
-- A message of a client on its way to the target.
use woeful.Base.{
  ok, ◌≡◌, refl, some, ◌∷◌, c_string, copy_from, sub_size, bytes_eq, read_u8, read_u16, read_u32,
  write, write_at,
}
use woeful.Base.Map.{find, insert}
use woeful.Packets.{parse_wisp, parse_connect}
use woeful.System.Calls.{is_open}
use woeful.System.{
  connect_socket, connect_stream, decimal, open_epoll, open_socket, open_typed, push_fd, erase_fd,
  resolve, to_string, unless_refused, wake, wait, open_stream, socket_type, match_members,
  is_refused,
}
use woeful.Manager.{
  receive, dispatch, handle_connect, construct, add_stream, close_info, count_message, handle_data,
  report_connect, send_close, send_continue, run_task, write_loop,
}
use woeful.Watcher.{reported, read_loop, watch_round, watch_events, watch_event, defer_read}
use woeful.Server.{
  init, on_open, on_message, on_events, on_task, take_task, manager_of, put_manager,
}
use woeful.Base.{codes}
use woeful.Tests.World.{calm_os, calm_read, calm_socket}
use woeful.Packets.{WispPacket}
use woeful.Manager.Writing.{Relents}
use woeful.Server.Uplink.{Delivered, on_message-Delivered}
use woeful.Tests.Streams.{black_list}
use woeful.Tests.Run.{s2}
use woeful.Tests.Relay.{manager_in, stream_in}

pub calm_os-Relents : Relents calm_os 0
calm_os-Relents t fd bytes h e = cc

abbrev greeting : WispPacket
greeting = record { packet_type = 2; stream_id = 12; bytes = codes "hi" }

manager2 : manager_of s2 20 ≡ ok (manager_in s2)
unfolding find on_open insert init construct receive parse_wisp copy_from sub_size dispatch
    handle_connect parse_connect bytes_eq c_string read_u16 read_u32 read_u8 write write_at
    add_stream close_info count_message handle_data report_connect send_close send_continue
    manager_of put_manager connect_socket connect_stream decimal is_refused match_members open_epoll
    open_socket open_stream open_typed push_fd resolve socket_type to_string unless_refused wake
    calm_socket is_open on_message on_task take_task run_task write_loop on_events wait reported
    watch_round defer_read read_loop watch_event watch_events calm_read erase_fd
manager2 = refl

stream2 : find 12 (manager_in s2).streams ≡ some (stream_in s2)
unfolding find on_open insert init construct receive parse_wisp copy_from sub_size dispatch
    handle_connect parse_connect bytes_eq c_string read_u16 read_u32 read_u8 write write_at
    add_stream close_info count_message handle_data report_connect send_close send_continue
    manager_of put_manager connect_socket connect_stream decimal is_refused match_members open_epoll
    open_socket open_stream open_typed push_fd resolve socket_type to_string unless_refused wake
    calm_socket is_open on_message on_task take_task run_task write_loop on_events wait reported
    watch_round defer_read read_loop watch_event watch_events calm_read erase_fd
stream2 = refl

greeting-parse : parse_wisp (2 ∷ 12 ∷ 0 ∷ 0 ∷ 0 ∷ codes "hi") ≡ ok greeting
unfolding parse_wisp copy_from sub_size read_u8 read_u32
greeting-parse = refl

on_message-Delivered_example :
    Delivered calm_os black_list 0 20
      (stream_in s2).fd
      (2 ∷ 12 ∷ 0 ∷ 0 ∷ 0 ∷ codes "hi")
      (codes "hi")
      s2
on_message-Delivered_example =
    on_message-Delivered calm_os black_list 0 20 (2 ∷ 12 ∷ 0 ∷ 0 ∷ 0 ∷ codes "hi") greeting
      (manager_in s2) (stream_in s2) s2 calm_os-Relents manager2 greeting-parse refl stream2
