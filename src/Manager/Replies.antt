-- ===== src/Manager/Replies.antt =====
-- What the client is sent, and what becomes of the descriptors, on connect and on close.
use woeful.Base.{
  ℕ, ◌<◌, ◌≡◌, refl, ap, ◌∙◌, Bool, true, false, none, [], ◌∷◌, ◌++◌, ◌==◌, ==_self, arith,
  if◌then◌else◌, length, Bytes, u32_bytes, ok, fault, out_of_bounds, bad_iterator,
}
use woeful.Base.Map.{Map, erase, keys, find-erase, IsDistinct, erase-head, find-head}
use woeful.Packets.{
  WispPacket, ConnectPacket, parse_wisp, parse_connect, packet_close, packet_connect,
  packet_continue, packet_data,
}
use woeful.Packets.Wire.{
  parse_wisp_fault, serialize_wisp_bytes, serialize_close_bytes, serialize_continue_bytes,
}
use woeful.Config.{WoefulConfig}
use woeful.System.Calls.{Os, Trace, is_open, ws_sent}
use woeful.System.{open_stream, erase_fd}
use woeful.Manager.{
  SocketStreamData, WebSocketManager, Session, Parent, close_message, continue_message,
  data_message, send_close, fd_of, close_stream, close_streams, force_close, add_stream,
  handle_connect, report_connect, dispatch, close_info, receive, run_task,
}
use woeful.Manager.Counting.{owners}

-- The three messages of the server, byte for byte.
pub close_message_bytes :
    (reason k : ℕ) → close_message reason k ≡ packet_close ∷ u32_bytes k ++ reason ∷ []
unfolding close_message
close_message_bytes reason k = rw (serialize_wisp_bytes, serialize_close_bytes) refl

pub continue_message_bytes :
    (buffer k : ℕ) → continue_message buffer k ≡ packet_continue ∷ u32_bytes k ++ u32_bytes buffer
unfolding continue_message
continue_message_bytes buffer k = rw (serialize_wisp_bytes, serialize_continue_bytes) refl

pub data_message_bytes :
    (k : ℕ) (bytes : Bytes) → data_message k bytes ≡ packet_data ∷ u32_bytes k ++ bytes
unfolding data_message
data_message_bytes k bytes = rw serialize_wisp_bytes refl

-- A frame that is too short for the header is read outside its bytes.
pub receive_short :
    (os : Os) (conf : WoefulConfig) (parent : Parent) (view : Bytes) (s : Session)
    → length view < 5
    → receive os conf parent view s ≡ fault out_of_bounds
unfolding receive
receive_short os conf parent view s h = rw ((parse_wisp_fault view (omega arith)).1 h) refl

-- A CLOSE from the client leaves the streams with their descriptors and the tasks as they are,
-- and nothing is sent or closed.
pub receive_close :
    (os : Os) (conf : WoefulConfig) (parent : Parent) (view : Bytes) (packet : WispPacket)
    (s : Session)
    → parse_wisp view ≡ ok packet
    → packet.packet_type ≡ packet_close
    → (s' : Session) × (receive os conf parent view s ≡ ok s')
      × (s'.manager.streams ≡ s.manager.streams)
      × (s'.tasks ≡ s.tasks)
      × (s'.trace ≡ s.trace)
unfolding receive dispatch close_info
receive_close os conf parent view packet s h c =
    (record s { manager = close_info s.manager }, rw (h, c) refl, ground arith, refl, refl)

close_info-streams : (m : WebSocketManager) → (close_info m).streams ≡ m.streams
unfolding close_info
close_info-streams m = ground arith

close_info-ws : (m : WebSocketManager) → (close_info m).ws ≡ m.ws
unfolding close_info
close_info-ws m = ground arith

pub send_close_bytes :
    (reason k ws : ℕ) (t : Trace)
    → send_close reason k ws t ≡ ws_sent ws (packet_close ∷ u32_bytes k ++ reason ∷ []) ∷ t
unfolding send_close
send_close_bytes reason k ws t = ap (λ b. ws_sent ws b ∷ t) (close_message_bytes reason k)

-- A CONNECT whose stream cannot be opened leaves the streams and the tasks as they are, and is
-- answered by one CLOSE of its stream with the reason 0x41.
pub receive_connect_failed :
    (os : Os) (conf : WoefulConfig) (parent : Parent) (view : Bytes) (packet : WispPacket)
    (c : ConnectPacket) (s : Session) (t : Trace)
    → parse_wisp view ≡ ok packet
    → packet.packet_type ≡ packet_connect
    → parse_connect packet.bytes ≡ ok c
    → open_stream os conf s.trace c.destination_hostname c.stream_type c.destination_port
      ≡ ok (none, t)
    → (s' : Session) × (receive os conf parent view s ≡ ok s')
      × (s'.manager.streams ≡ s.manager.streams)
      × (s'.tasks ≡ s.tasks)
      × (s'.trace
          ≡ ws_sent s.manager.ws (packet_close ∷ u32_bytes packet.stream_id ++ 0x41 ∷ []) ∷ t)
unfolding receive dispatch handle_connect add_stream report_connect
receive_connect_failed os conf parent view packet c s t h p d o = (
  record s {
    manager = close_info s.manager;
    trace = send_close 0x41 packet.stream_id (close_info s.manager).ws t;
  },
  rw (h, p, d, o) refl,
  close_info-streams s.manager,
  refl,
  send_close_bytes 0x41 packet.stream_id (close_info s.manager).ws t
      ∙ ap (λ ws. ws_sent ws (packet_close ∷ u32_bytes packet.stream_id ++ 0x41 ∷ []) ∷ t)
          (close_info-ws s.manager),
)

close_stream-head :
    (parent : Parent) (k : ℕ) (stream : SocketStreamData) (streams : Map SocketStreamData)
    (m : WebSocketManager) (t : Trace)
    → IsDistinct ((k, stream) ∷ streams)
    → m.streams ≡ (k, stream) ∷ streams
    → (close_stream parent k true m t).0.streams ≡ streams
unfolding close_stream
close_stream-head parent k stream streams m t d e = ap (erase k) e ∙ erase-head k stream streams d.0

fd_of-head :
    (k : ℕ) (stream : SocketStreamData) (streams : Map SocketStreamData)
    → fd_of k ((k, stream) ∷ streams) ≡ stream.fd
unfolding fd_of
fd_of-head k stream streams = rw (fd_of, find-head k stream streams) refl

close_stream-is_open :
    (parent : Parent) (fd k : ℕ) (stream : SocketStreamData) (streams : Map SocketStreamData)
    (m : WebSocketManager) (t : Trace)
    → m.streams ≡ (k, stream) ∷ streams
    → is_open fd (close_stream parent k true m t).1
      ≡ (if stream.fd == fd then false else is_open fd t)
unfolding close_stream is_open erase_fd
close_stream-is_open parent fd k stream streams m t e =
    ap (λ x. if x == fd then false else is_open fd t) (ap (fd_of k) e ∙ fd_of-head k stream streams)

-- The streams that `force_close` finds are closed one after the other: each descriptor is shut.
close_streams-shut :
    (parent : Parent) (fd : ℕ) (streams : Map SocketStreamData) (m : WebSocketManager) (t : Trace)
    → IsDistinct streams
    → m.streams ≡ streams
    → is_open fd (close_streams parent (keys streams) m t).1
      ≡ (if owners fd streams == 0 then is_open fd t else false)
unfolding close_streams keys owners
close_streams-shut parent fd [] m t d e = refl
close_streams-shut parent fd ((k, stream) ∷ streams) m t d e =
    let (m', t') = close_stream parent k true m t in
    let gone = close_stream-head parent k stream streams m t d e in
    let shut = close_stream-is_open parent fd k stream streams m t e in
    ground (arith, close_streams-shut parent fd streams m' t' d.1 gone)

-- After `force_close` of a manager whose streams have distinct ids, a descriptor is open exactly
-- if it was open before and no stream of the manager has it.
pub force_close-shut :
    (parent : Parent) (fd : ℕ) (m : WebSocketManager) (t : Trace)
    → IsDistinct m.streams
    → is_open fd (force_close parent m t).1
      ≡ (if owners fd m.streams == 0 then is_open fd t else false)
unfolding force_close
force_close-shut parent fd m t d = close_streams-shut parent fd m.streams _ t d refl

-- A task that runs after its stream was closed uses the end iterator of the map.
pub run_task-close_stream :
    (os : Os) (fuel : ℕ) (packet : WispPacket) (parent : Parent) (remove_poll : Bool)
    (m : WebSocketManager) (t t' : Trace)
    → run_task os fuel packet (close_stream parent packet.stream_id remove_poll m t).0 t'
      ≡ fault bad_iterator
unfolding run_task close_stream
run_task-close_stream os fuel packet parent remove_poll m t t' =
    rw (find-erase packet.stream_id packet.stream_id m.streams, ==_self packet.stream_id) refl
