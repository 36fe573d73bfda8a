-- ===== src/Manager/Identity.antt =====
-- The web socket and the id of a manager, under its methods.
use woeful.Base.{
  ℕ, ◌≡◌, refl, Bool, Option, none, some, ◌==◌, Bool-cases, inl, inr, arith, ok, >>=-eq-ok, Bytes,
}
use woeful.Packets.{WispPacket, parse_connect, parse_wisp, packet_connect}
use woeful.Config.{WoefulConfig}
use woeful.System.Calls.{Os, Trace}
use woeful.System.{Connection, open_stream}
use woeful.Manager.{
  WebSocketManager, Session, Parent, update_streams, close_stream, add_stream, handle_connect,
  handle_data, report_connect, dispatch, close_info, receive,
}

-- The id and the web socket.
abbrev pub Same : WebSocketManager → WebSocketManager → Type 0
Same m m' = (m'.socket_id ≡ m.socket_id) × (m'.ws ≡ m.ws)

pub update_streams-Same :
    (parent : Parent) (m : WebSocketManager) (t : Trace) → Same m (update_streams parent m t).0
unfolding update_streams
update_streams-Same parent m t = ground arith

pub close_stream-Same :
    (parent : Parent) (k : ℕ) (remove_poll : Bool) (m : WebSocketManager) (t : Trace)
    → Same m (close_stream parent k remove_poll m t).0
unfolding close_stream
close_stream-Same parent k remove_poll m t = (refl, refl)

add_stream-Same :
    (parent : Parent) (k type : ℕ) (c : Option Connection) (s : Session)
    → Same s.manager (add_stream parent k type c s).1.manager
unfolding add_stream
add_stream-Same parent k type none s = (refl, refl)
add_stream-Same parent k type (some c) s = (refl, refl)

handle_data-Same :
    (parent : Parent) (packet : WispPacket) (s : Session)
    → Same s.manager (handle_data parent packet s).1.manager
unfolding handle_data
handle_data-Same parent packet s = ground arith

report_connect-Same :
    (k : ℕ) (r : Option ℕ × Session) → Same r.1.manager (report_connect k r).manager
unfolding report_connect
report_connect-Same k (none, s) = (refl, refl)
report_connect-Same k (some id, s) = (refl, refl)

handle_connect-Same :
    (os : Os) (conf : WoefulConfig) (parent : Parent) (packet : WispPacket) (s : Session)
    (r : Option ℕ × Session)
    → handle_connect os conf parent packet s ≡ ok r
    → Same s.manager r.1.manager
unfolding handle_connect
handle_connect-Same os conf parent packet s r h =
    let (c, _, h1) = >>=-eq-ok (parse_connect packet.bytes) _ h in
    let (o, e, h2) =
      >>=-eq-ok
        (open_stream os conf s.trace c.destination_hostname c.stream_type c.destination_port) _
        h1 in
    ground (
      arith,
      h2,
      add_stream-Same parent packet.stream_id c.stream_type o.0 (record s { trace = o.1 }),
    )

dispatch-Same :
    (os : Os) (conf : WoefulConfig) (parent : Parent) (packet : WispPacket) (s s' : Session)
    → dispatch os conf parent packet s ≡ ok s'
    → Same s.manager s'.manager
unfolding dispatch
dispatch-Same os conf parent packet s s' h =
    elim (Bool-cases (packet.packet_type == packet_connect)) [
      | inl e ↦
          let (r, e1, h1) =
            >>=-eq-ok (handle_connect os conf parent packet s) _ (rw (e, dispatch) at h) in
          ground (
            arith,
            h1,
            report_connect-Same packet.stream_id r,
            handle_connect-Same os conf parent packet s r e1,
          )
      | inr e ↦ ground (arith, handle_data-Same parent packet s)
    ]

pub receive-Same :
    (os : Os) (conf : WoefulConfig) (parent : Parent) (view : Bytes) (s s' : Session)
    → receive os conf parent view s ≡ ok s'
    → Same s.manager s'.manager
unfolding receive
receive-Same os conf parent view s s' h =
    let (packet, _, h1) = >>=-eq-ok (parse_wisp view) _ h in
    ground (
      arith,
      h1,
      dispatch-Same os conf parent packet (record s { manager = close_info s.manager }) s',
    )
