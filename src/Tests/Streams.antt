-- ===== src/Tests/Streams.antt =====
-- The block list, the opening of a stream and the methods of a manager, on concrete values.
use woeful.Base.{
  ℕ, ◌-◌, ◌^◌, ◌≡◌, ◌<◌, ◌↔◌, ◌++◌, refl, true, false, Option, none, some, List, [], ◌∷◌, Bytes,
  arith, ok, fault, out_of_bounds, bad_iterator, c_string, codes, u32_bytes, if◌then◌else◌, ◌==◌,
  copy_from, sub_size, inl, All, bytes_eq,
}
use mathlib.Core.Option
use woeful.Base.Map.{find}
use woeful.Packets.{WispPacket, ConnectPacket, packet_close, max_queue, parse_wisp, parse_connect}
use woeful.Packets.Hostname.{connect_frame}
use woeful.Config.{BlockType, member_hostname, member_port, WoefulConfig}
use woeful.System.Calls.{Trace, is_open, ws_sent, socket_opened}
use woeful.System.{
  Connection, open_stream, open_typed, connect_stream, socket_type, match_members, is_refused,
  unless_refused,
}
use woeful.System.Port.{IsDigit, read_decimal}
use woeful.System.Access.{Opening, open_stream_allowed, open_stream_refused}
use woeful.System.Descriptors.{Opens, open_stream-Opens}
use woeful.Manager.{
  SocketStreamData, WebSocketManager, Session, Parent, close_stream, force_close, handle_data,
  count_message, receive, update_streams, run_task,
}
use woeful.Manager.Counting.{owners}
use woeful.Manager.Flow.{
  count_message-reset, handle_all, tasks_of, handle_all-credit, handle_data-wraps, topped_up,
  starved, grants, update_streams-grants,
}
use woeful.Manager.Replies.{
  receive_short, receive_close, receive_connect_failed, force_close-shut, run_task-close_stream,
}
use woeful.Tests.World.{calm_os, calm_os-fresh, test_epoll}

abbrev pub black_list : WoefulConfig
black_list = record {
  pcap_capture = false;
  port_number = none;
  block_type = BlockType.block_black;
  block_members = member_hostname (codes "bad") ∷ member_port 25 ∷ [];
}

abbrev pub good_host : Bytes
good_host = codes "ok" ++ 0 ∷ []

abbrev pub bad_host : Bytes
bad_host = codes "bad" ++ 0 ∷ []

good_host-c_string : c_string good_host ≡ ok (codes "ok")
unfolding c_string
good_host-c_string = refl

bad_host-c_string : c_string bad_host ≡ ok (codes "bad")
unfolding c_string
bad_host-c_string = refl

socket_type-stream : socket_type 1 ≡ some 1
unfolding socket_type
socket_type-stream = refl

-- Port 80 of "ok" is looked up for a stream, and connected.
open_stream_allowed_example :
    (text : Bytes) × (result : Option Connection × Trace) × (All IsDigit text
      × (read_decimal 0 text ≡ 80)
      × (open_stream calm_os black_list [] good_host 1 80 ≡ ok result)
      × Opening calm_os [] (codes "ok") text 1 result)
open_stream_allowed_example =
    open_stream_allowed calm_os black_list [] good_host (codes "ok") 1 80 1 good_host-c_string
      (inl (refl, refl)) (omega arith) (ground arith)

open_stream_refused_example : open_stream calm_os black_list [] bad_host 1 80 ≡ ok (none, [])
open_stream_refused_example =
    open_stream_refused calm_os black_list [] bad_host (codes "bad") 1 80 1 bad_host-c_string
      socket_type-stream (λ a. a.0 (inl refl))

-- The call that opens the stream, and what it returns.
abbrev pub opened_stream : Option Connection × Trace
opened_stream = connect_stream calm_os [] (codes "ok") 1 80

good_host-opened : open_stream calm_os black_list [] good_host 1 80 ≡ ok opened_stream
unfolding open_stream open_typed unless_refused match_members is_refused socket_type bytes_eq
    c_string
good_host-opened = refl

open_stream-Opens_example : Opens [] opened_stream
open_stream-Opens_example =
    open_stream-Opens calm_os calm_os-fresh black_list [] good_host 1 80 opened_stream
      good_host-opened

abbrev pub busy_parent : Parent
busy_parent = record { epoll = test_epoll; send_queue_len = 3 }

abbrev pub one_stream : SocketStreamData
one_stream = record { stream_type = 1; id = 9; fd = 7; fd_info = 1; buffer = 2 }

abbrev pub dry_stream : SocketStreamData
dry_stream = record { stream_type = 1; id = 11; fd = 8; fd_info = 1; buffer = 0 }

abbrev pub test_manager : WebSocketManager
test_manager = record {
  streams = (9, one_stream) ∷ (11, dry_stream) ∷ [];
  has_backpressure = false;
  ws = 20;
  socket_id = 0;
  received_info = false;
  info_valid = true;
}

abbrev pub test_trace : Trace
test_trace = socket_opened 1 8 ∷ socket_opened 1 7 ∷ []

abbrev pub test_session : Session
test_session = record { manager = test_manager; tasks = []; trace = test_trace }

abbrev pub data_nine : WispPacket
data_nine = record { packet_type = 2; stream_id = 9; bytes = codes "x" }

abbrev pub data_eleven : WispPacket
data_eleven = record { packet_type = 2; stream_id = 11; bytes = codes "x" }

abbrev pub two_packets : List WispPacket
two_packets = data_nine ∷ data_nine ∷ []

find-nine : find 9 test_manager.streams ≡ some one_stream
unfolding find
find-nine = refl

find-eleven : find 11 test_manager.streams ≡ some dry_stream
unfolding find
find-eleven = refl

abbrev pub one_left : SocketStreamData
one_left = record one_stream { buffer = 1 }

test_count_reset :
    ((count_message busy_parent true one_left).1 ≡ true)
    ↔ ((one_left.buffer ≡ 1) × (true ≡ true) × (busy_parent.send_queue_len < max_queue))
test_count_reset = count_message-reset busy_parent true one_left (omega arith) (omega arith)

handle_all-credit_example :
    (find 9 (handle_all busy_parent two_packets test_session).manager.streams
      ≡ some (record one_stream { buffer = 0 }))
    × ((handle_all busy_parent two_packets test_session).tasks ≡ [] ++ tasks_of 0 two_packets)
    × ((handle_all busy_parent two_packets test_session).trace ≡ test_trace)
handle_all-credit_example =
    handle_all-credit busy_parent 9 two_packets test_session one_stream find-nine (omega arith) refl
      (refl, (refl, tt)) (omega arith) (omega arith)

handle_data-wraps_example :
    (find 11 (handle_data busy_parent data_eleven test_session).1.manager.streams
      ≡ some (record dry_stream { buffer = 2 ^ 32 - 1 }))
    × ((handle_data busy_parent data_eleven test_session).1.trace ≡ test_trace)
handle_data-wraps_example =
    handle_data-wraps busy_parent data_eleven test_session dry_stream find-eleven (omega arith) refl

update_streams-grants_example :
    ((j : ℕ)
      → find j (update_streams busy_parent test_manager test_trace).0.streams
        ≡ Option.map topped_up (find j test_manager.streams))
    × ((update_streams busy_parent test_manager test_trace).1
        ≡ grants 20 (starved test_manager.streams) test_trace)
update_streams-grants_example =
    update_streams-grants busy_parent test_manager test_trace refl (omega arith)

test_force_close :
    is_open 7 (force_close busy_parent test_manager test_trace).1
    ≡ (if owners 7 test_manager.streams == 0 then is_open 7 test_trace else false)
unfolding find
test_force_close = force_close-shut busy_parent 7 test_manager test_trace (refl, (refl, tt))

run_task-close_stream_example :
    run_task calm_os 5 data_nine
      (close_stream busy_parent 9 true test_manager test_trace).0
      test_trace
    ≡ fault bad_iterator
run_task-close_stream_example =
    run_task-close_stream calm_os 5 data_nine busy_parent true test_manager test_trace test_trace

receive-short_frame :
    receive calm_os black_list busy_parent (2 ∷ 9 ∷ []) test_session ≡ fault out_of_bounds
receive-short_frame =
    receive_short calm_os black_list busy_parent (2 ∷ 9 ∷ []) test_session (omega arith)

abbrev pub close_nine : WispPacket
close_nine = record { packet_type = 4; stream_id = 9; bytes = 2 ∷ [] }

close_nine-parse : parse_wisp (4 ∷ 9 ∷ 0 ∷ 0 ∷ 0 ∷ 2 ∷ []) ≡ ok close_nine
unfolding parse_wisp copy_from sub_size
close_nine-parse = refl

test_receive_close :
    (s' : Session) × (receive calm_os black_list busy_parent
        (4 ∷ 9 ∷ 0 ∷ 0 ∷ 0 ∷ 2 ∷ [])
        test_session
      ≡ ok s')
    × (s'.manager.streams ≡ test_manager.streams)
    × (s'.tasks ≡ [])
    × (s'.trace ≡ test_trace)
test_receive_close =
    receive_close calm_os black_list busy_parent (4 ∷ 9 ∷ 0 ∷ 0 ∷ 0 ∷ 2 ∷ []) close_nine
      test_session close_nine-parse refl

-- A connect to the host that the block list names.
abbrev pub connect_bad : WispPacket
connect_bad = record { packet_type = 1; stream_id = 12; bytes = connect_frame 1 80 0 bad_host }

abbrev pub connect_bad_frame : Bytes
connect_bad_frame = 1 ∷ 12 ∷ 0 ∷ 0 ∷ 0 ∷ connect_frame 1 80 0 bad_host

connect_bad-parse : parse_wisp connect_bad_frame ≡ ok connect_bad
unfolding parse_wisp copy_from sub_size
connect_bad-parse = refl

abbrev pub bad_packet : ConnectPacket
bad_packet = record { stream_type = 1; destination_port = 80; destination_hostname = bad_host }

bad_packet-parse : parse_connect connect_bad.bytes ≡ ok bad_packet
unfolding parse_connect copy_from sub_size
bad_packet-parse = refl

receive_connect_failed_example :
    (s' : Session) × (receive calm_os black_list busy_parent connect_bad_frame test_session ≡ ok s')
    × (s'.manager.streams ≡ test_manager.streams)
    × (s'.tasks ≡ [])
    × (s'.trace ≡ ws_sent 20 (packet_close ∷ u32_bytes 12 ++ 0x41 ∷ []) ∷ test_trace)
receive_connect_failed_example =
    receive_connect_failed calm_os black_list busy_parent connect_bad_frame connect_bad bad_packet
      test_session test_trace connect_bad-parse refl bad_packet-parse
      (open_stream_refused calm_os black_list test_trace bad_host (codes "bad") 1 80 1
        bad_host-c_string socket_type-stream (λ a. a.0 (inl refl)))
