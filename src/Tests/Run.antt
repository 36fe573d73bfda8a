-- ===== src/Tests/Run.antt =====
-- A run of the whole program.
use woeful.Base.{
  arith, ◌≡◌, refl, Option, none, some, [], ◌∷◌, Result, ok, fault, c_string, codes, copy_from,
  sub_size, bytes_eq, read_u8, read_u16, read_u32, write, write_at,
}
use woeful.Base.Map.{find, insert, erase, keys}
use woeful.Packets.{parse_wisp, parse_connect}
use woeful.System.Calls.{is_open}
use woeful.System.{
  connect_socket, connect_stream, decimal, open_epoll, open_socket, open_typed, push_fd, erase_fd,
  resolve, to_string, unless_refused, wake, wait, open_stream, socket_type, match_members,
  is_refused,
}
use woeful.Manager.{
  receive, dispatch, handle_connect, construct, add_stream, close_info, count_message, handle_data,
  report_connect, send_close, send_continue, run_task, write_loop, close_stream, close_streams,
  data_message, fd_of, force_close, refill_streams, send_data, update_streams,
}
use woeful.Watcher.{
  reported, read_loop, run_deferred, deliver_managers, watch_round, watch_events, watch_event,
  defer_read, close_found, deliver_one, deliver_streams, update_managers,
}
use woeful.Server.{
  Server, init, on_open, on_message, on_close, on_events, on_deferred, on_task, take_task,
  manager_of, put_manager,
}
use woeful.Server.Steps.{Reach, start, later, opens, receives, closes, wakes, delivers, writes}
use woeful.Server.Sound.{IsSound}
use woeful.Server.Invariant.{Reach-IsSound}
use woeful.Tests.World.{calm_os, calm_read, calm_socket, calm_os-fresh, test_epoll}
use woeful.Tests.Streams.{black_list}
use woeful.Tests.Program.{connect_good_frame}

-- A run of the program: a client comes, connects, sends, is answered, and goes.
abbrev pub server_of : Server → Result Server → Server
server_of old (ok s) = s
server_of old (fault _) = old

abbrev pub server_or : Server → Option Server → Server
server_or old (some s) = s
server_or old none = old

abbrev task_server : Server → Result (Option Server) → Server
task_server old (ok (some s)) = s
task_server old (ok none) = old
task_server old (fault _) = old

abbrev s0 : Server
s0 = init test_epoll

abbrev pub s1 : Server
s1 = on_open 20 s0

abbrev pub s2 : Server
s2 = server_of s1 (on_message calm_os black_list 20 connect_good_frame s1)

abbrev pub s3 : Server
s3 = server_of s2 (on_message calm_os black_list 20 (2 ∷ 12 ∷ 0 ∷ 0 ∷ 0 ∷ codes "hi") s2)

abbrev pub s4 : Server
s4 = task_server s3 (on_task calm_os 3 0 s3)

abbrev pub s5 : Server
s5 = server_or s4 (on_events calm_os (some (7 ∷ [])) s4)

abbrev pub s6 : Server
s6 = on_deferred calm_os s5

abbrev pub s7 : Server
s7 = server_of s6 (on_close 20 s6)

pub connects : on_message calm_os black_list 20 connect_good_frame s1 ≡ ok s2
unfolding find on_open insert init construct receive parse_wisp copy_from sub_size dispatch
    handle_connect parse_connect bytes_eq c_string read_u16 read_u32 read_u8 write write_at
    add_stream close_info count_message handle_data report_connect send_close send_continue
    manager_of put_manager connect_socket connect_stream decimal is_refused match_members open_epoll
    open_socket open_stream open_typed push_fd resolve socket_type to_string unless_refused wake
    calm_socket is_open on_message
connects = refl

pub sends : on_message calm_os black_list 20 (2 ∷ 12 ∷ 0 ∷ 0 ∷ 0 ∷ codes "hi") s2 ≡ ok s3
unfolding find on_open insert init construct receive parse_wisp copy_from sub_size dispatch
    handle_connect parse_connect bytes_eq c_string read_u16 read_u32 read_u8 write write_at
    add_stream close_info count_message handle_data report_connect send_close send_continue
    manager_of put_manager connect_socket connect_stream decimal is_refused match_members open_epoll
    open_socket open_stream open_typed push_fd resolve socket_type to_string unless_refused wake
    calm_socket is_open on_message
sends = refl

pub written_out : on_task calm_os 3 0 s3 ≡ ok (some s4)
unfolding find on_open insert init construct receive parse_wisp copy_from sub_size dispatch
    handle_connect parse_connect bytes_eq c_string read_u16 read_u32 read_u8 write write_at
    add_stream close_info count_message handle_data report_connect send_close send_continue
    manager_of put_manager connect_socket connect_stream decimal is_refused match_members open_epoll
    open_socket open_stream open_typed push_fd resolve socket_type to_string unless_refused wake
    calm_socket is_open on_message on_task take_task run_task write_loop
written_out = refl

pub reads : on_events calm_os (some (7 ∷ [])) s4 ≡ some s5
unfolding find on_open insert init construct receive parse_wisp copy_from sub_size dispatch
    handle_connect parse_connect bytes_eq c_string read_u16 read_u32 read_u8 write write_at
    add_stream close_info count_message handle_data report_connect send_close send_continue
    manager_of put_manager connect_socket connect_stream decimal is_refused match_members open_epoll
    open_socket open_stream open_typed push_fd resolve socket_type to_string unless_refused wake
    calm_socket is_open on_message on_task take_task run_task write_loop on_events wait reported
    watch_round defer_read read_loop watch_event watch_events calm_read erase_fd
reads = refl

leaves : on_close 20 s6 ≡ ok s7
unfolding find on_open insert init construct receive parse_wisp copy_from sub_size dispatch
    handle_connect parse_connect bytes_eq c_string read_u16 read_u32 read_u8 write write_at
    add_stream close_info count_message handle_data report_connect send_close send_continue
    manager_of put_manager connect_socket connect_stream decimal is_refused match_members open_epoll
    open_socket open_stream open_typed push_fd resolve socket_type to_string unless_refused wake
    calm_socket is_open on_message on_task take_task run_task write_loop on_events wait reported
    watch_round defer_read read_loop watch_event watch_events calm_read erase_fd on_close erase keys
    close_stream close_streams data_message fd_of force_close refill_streams send_data
    update_streams close_found deliver_managers deliver_one deliver_streams run_deferred
    update_managers on_deferred
leaves = refl

abbrev pub before_data : Reach calm_os black_list test_epoll s2
unfolding init
before_data = later (later start (opens 20 tt)) (receives 20 _ (omega arith) (omega arith) connects)

test_run : Reach calm_os black_list test_epoll s7
test_run =
    later
      (later
        (later
          (later (later before_data (receives 20 _ (omega arith) (omega arith) sends))
            (writes 3 0 written_out))
          (wakes (some (7 ∷ [])) reads))
        delivers)
      (closes 20 leaves)

Reach-IsSound_example : IsSound s7
Reach-IsSound_example = Reach-IsSound calm_os black_list calm_os-fresh test_run
