-- ===== src/Manager.antt =====
-- `WebSocketManager` of src/websocketManager.h and src/websocketManager.cpp, as it is built without
-- PCAP. A method takes the state that it may change, `Session`, and what it reads of the watcher.
pub mod Flow
pub mod Replies
pub mod Accepts
pub mod Counting
pub mod Owned
pub mod Reconnect
pub mod Watching
pub mod Writing
pub mod Identity
use woeful.Base.{
  ℕ, zero, suc, ◌+◌, ◌-◌, ◌%◌, ◌^◌, Bool, true, false, not, ◌&&◌, ◌||◌, Option, none, some, List,
  [], ◌∷◌, ◌++◌, ◌==◌, ltb, if◌then◌else◌, Result, ok, ◌>>=◌, or_fault, bad_iterator, Bytes,
}
use woeful.Base.Map.{Map, find, insert, erase, keys}
use woeful.Packets.{
  WispPacket, ContinuePacket, ClosePacket, ConnectPacket, parse_wisp, serialize_wisp,
  serialize_continue, serialize_close, parse_connect, buffer_count, max_queue, packet_connect,
  packet_data, packet_continue, packet_close, packet_info,
}
use woeful.Config.{WoefulConfig}
use woeful.System.Calls.{
  Os, Trace, SendStatus, WriteResult, fd_closed, fd_polled, fd_written, ws_sent,
}
use woeful.System.{Connection, EpollWrapper, open_stream, push_fd, erase_fd, wake}

pub record SocketStreamData : Type 0 where
  pub stream_type : ℕ
  pub id : ℕ
  pub fd : ℕ
  pub fd_info : ℕ
  pub buffer : ℕ  -- uint32_t

-- `streams[id]` of a missing id is this entry.
abbrev pub default_stream : SocketStreamData
default_stream = record { stream_type = 0; id = 0; fd = 0; fd_info = 0; buffer = buffer_count }

pub record WebSocketManager : Type 0 where
  pub streams : Map SocketStreamData
  pub has_backpressure : Bool
  pub ws : ℕ
  pub socket_id : ℕ
  pub received_info : Bool
  pub info_valid : Bool

-- What the lambda of `handle_data` captures: the manager, by its id, and the packet.
pub record Task : Type 0 where
  pub manager : ℕ
  pub packet : WispPacket

-- What the methods read of `parent`.
pub record Parent : Type 0 where
  pub epoll : EpollWrapper
  pub send_queue_len : ℕ

-- The manager, the queue of the thread pool and the calls that were made.
pub record Session : Type 0 where
  pub manager : WebSocketManager
  pub tasks : List Task
  pub trace : Trace

-- `ws->send`, where its status is not looked at.
abbrev pub send : ℕ → Bytes → Trace → Trace
send ws message t = ws_sent ws message ∷ t

unfoldable pub close_message : ℕ → ℕ → Bytes
close_message reason stream_id = serialize_wisp (record {
  packet_type = packet_close;
  stream_id = stream_id;
  bytes = serialize_close (record { close_reason = reason });
})

unfoldable pub continue_message : ℕ → ℕ → Bytes
continue_message buffer stream_id = serialize_wisp (record {
  packet_type = packet_continue;
  stream_id = stream_id;
  bytes = serialize_continue (record { buffer_remaining = buffer });
})

unfoldable pub data_message : ℕ → Bytes → Bytes
data_message stream_id bytes =
    serialize_wisp (record { packet_type = packet_data; stream_id = stream_id; bytes = bytes })

unfoldable pub send_close : ℕ → ℕ → ℕ → Trace → Trace
send_close reason stream_id ws t = send ws (close_message reason stream_id) t

unfoldable pub send_continue : ℕ → ℕ → ℕ → Trace → Trace
send_continue buffer stream_id ws t = send ws (continue_message buffer stream_id) t

unfoldable pub send_data : Os → ℕ → Bytes → ℕ → Trace → SendStatus × Trace
send_data os stream_id bytes ws t =
    let message = data_message stream_id bytes in (os.send t ws message, send ws message t)

-- The constructor; the entry in `watched_sockets` and the user data are made in Server.antt.
unfoldable pub construct : ℕ → ℕ → Trace → WebSocketManager × Trace
unfolding send_continue
construct ws id t = (
  record {
    streams = [];
    has_backpressure = false;
    ws = ws;
    socket_id = id;
    received_info = false;
    info_valid = true;
  },
  send_continue buffer_count 0 ws t,
)

-- The loop of `update_streams`.
unfoldable pub refill_streams : ℕ → Map SocketStreamData → Trace → Map SocketStreamData × Trace
unfolding send_continue
refill_streams ws [] t = ([], t)
refill_streams ws ((k, stream) ∷ streams) t =
    let empty = stream.buffer == 0 in
    let rest = refill_streams ws streams (if empty then send_continue buffer_count k ws t else t) in
    ((k, if empty then record stream { buffer = buffer_count } else stream) ∷ rest.0, rest.1)

unfoldable pub update_streams : Parent → WebSocketManager → Trace → WebSocketManager × Trace
update_streams parent m t =
    if m.has_backpressure || ltb max_queue parent.send_queue_len
    then (m, t)
    else let (streams, t') = refill_streams m.ws m.streams t in (record m { streams = streams }, t')

-- `streams[stream_id].fd`. An entry that this makes is erased again before `close_stream` ends.
unfoldable pub fd_of : ℕ → Map SocketStreamData → ℕ
fd_of stream_id streams = elim (find stream_id streams) [
  | none ↦ default_stream.fd
  | some stream ↦ stream.fd
]

unfoldable pub close_stream :
    Parent → ℕ → Bool → WebSocketManager → Trace → WebSocketManager × Trace
unfolding send_close erase_fd
close_stream parent stream_id remove_poll m t =
    let fd = fd_of stream_id m.streams in
    let sent = send_close 0x02 stream_id m.ws t in
    (
      record m { streams = erase stream_id m.streams },
      fd_closed fd ∷ (if remove_poll then erase_fd parent.epoll fd sent else sent),
    )

-- The loop of `force_close` over the ids that it collected.
unfoldable pub close_streams : Parent → List ℕ → WebSocketManager → Trace → WebSocketManager × Trace
close_streams parent [] m t = (m, t)
close_streams parent (id ∷ ids) m t =
    let (m', t') = close_stream parent id true m t in close_streams parent ids m' t'

unfoldable pub force_close : Parent → WebSocketManager → Trace → WebSocketManager × Trace
force_close parent m t =
    close_streams parent (keys m.streams) (record m { has_backpressure = false }) t

-- `handle_connect` behind the call of `open_stream`.
unfoldable pub add_stream : Parent → ℕ → ℕ → Option Connection → Session → Option ℕ × Session
unfolding push_fd wake
add_stream parent stream_id stream_type none s = (none, s)
add_stream parent stream_id stream_type (some connection) s = (
  some stream_id,
  record s {
    manager = record (s.manager) {
      streams =
          insert stream_id
            (record {
              stream_type = stream_type;
              id = stream_id;
              fd = connection.fd;
              fd_info = connection.info;
              buffer = buffer_count;
            })
            s.manager.streams;
    };
    trace = wake parent.epoll (push_fd parent.epoll connection.fd s.trace);
  },
)

unfoldable pub handle_connect :
    Os → WoefulConfig → Parent → WispPacket → Session → Result (Option ℕ × Session)
handle_connect os conf parent packet s = do
  connect_packet ← parse_connect packet.bytes
  opened ←
      open_stream os conf s.trace connect_packet.destination_hostname connect_packet.stream_type
        connect_packet.destination_port
  ok (
      add_stream parent packet.stream_id connect_packet.stream_type opened.0
        (record s { trace = opened.1 }))

-- `buffer--` on a `uint32_t`
abbrev pub decrement : ℕ → ℕ
decrement n = (n + 2 ^ 32 - 1) % 2 ^ 32

-- The count of the messages of a stream that is not UDP: the new buffer and whether a CONTINUE is
-- sent.
unfoldable pub count_message : Parent → Bool → SocketStreamData → ℕ × Bool
count_message parent has_backpressure stream =
    let buffer = decrement stream.buffer in
    let reset = buffer == 0 && has_backpressure && ltb parent.send_queue_len max_queue in
    if stream.stream_type == 0x02
    then (stream.buffer, false)
    else (if reset then buffer_count else buffer, reset)

unfoldable pub handle_data : Parent → WispPacket → Session → Option ℕ × Session
unfolding send_continue
handle_data parent packet s = elim (find packet.stream_id s.manager.streams) [
  | none ↦ (none, s)
  | some stream ↦
      let m = s.manager in
      let (buffer, reset) = count_message parent m.has_backpressure stream in
      (
        some buffer,
        record {
          manager = record m {
            streams = insert packet.stream_id (record stream { buffer = buffer }) m.streams;
          };
          tasks = s.tasks ++ record { manager = m.socket_id; packet = packet } ∷ [];
          trace =
              if reset then send_continue buffer_count packet.stream_id m.ws s.trace else s.trace;
        },
      )
]

-- `send_close(0x41, …)` if the stream was not made.
unfoldable pub report_connect : ℕ → Option ℕ × Session → Session
unfolding send_close
report_connect stream_id (some id, s) = s
report_connect stream_id (none, s) = record s {
  trace = send_close 0x41 stream_id s.manager.ws s.trace;
}

-- The `switch` of `receive`.
unfoldable pub dispatch : Os → WoefulConfig → Parent → WispPacket → Session → Result Session
dispatch os conf parent packet s =
    if packet.packet_type == packet_connect
    then (handle_connect os conf parent packet s >>= λ r. ok (report_connect packet.stream_id r))
    else if packet.packet_type == packet_data
    then ok (handle_data parent packet s).1
    else ok s

-- `if (!received_info && info_valid) info_valid = false`
unfoldable pub close_info : WebSocketManager → WebSocketManager
close_info m = if not m.received_info && m.info_valid then record m { info_valid = false } else m

unfoldable pub receive : Os → WoefulConfig → Parent → Bytes → Session → Result Session
unfolding close_info
receive os conf parent view s = do
  packet ← parse_wisp view
  if packet.packet_type == packet_info
      then ok s
      else dispatch os conf parent packet (record s { manager = close_info s.manager })

-- The loop in the lambda of `handle_data`, on fuel: `poll`, then `write`, again on `EAGAIN`.
-- `none` means that the fuel ran out.
unfoldable pub write_loop : Os → ℕ → ℕ → Bytes → Trace → Option Trace
write_loop os zero fd bytes t = none
write_loop os (suc fuel) fd bytes t =
    let res = os.poll t fd in
    let polled = fd_polled fd res ∷ t in
    elim res [
      | false ↦ some polled
      | true ↦
          let answer = os.write polled fd bytes in
          let t' = fd_written fd bytes answer ∷ polled in
          elim answer [
            | WriteResult.again ↦ write_loop os fuel fd bytes t'
            | WriteResult.failed ↦ some t'
            | WriteResult.written n ↦ some t'
          ]
    ]

-- The lambda. It looks the stream up when it runs, and uses the iterator as it is.
unfoldable pub run_task : Os → ℕ → WispPacket → WebSocketManager → Trace → Result (Option Trace)
run_task os fuel packet m t = do
  stream ← or_fault (find packet.stream_id m.streams) bad_iterator
  ok (write_loop os fuel stream.fd packet.bytes t)
