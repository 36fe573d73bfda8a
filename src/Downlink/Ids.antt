-- ===== src/Downlink/Ids.antt =====
-- The ids of a manager's streams under its methods.
use woeful.Base.{
  ℕ, ◌≡◌, sym, ap, subst, ◌∙◌, Bool, ◌||◌, ltb, Bool-cases, Option-cases, inl, inr, Option, none,
  some, [], ◌∷◌, ◌==◌, arith, length, All, IsByte, IsU32, IsSize, Bytes, ok, >>=-eq-ok,
  ok-injective,
}
use woeful.Base.Map.{Map, find}
use woeful.Packets.{
  WispPacket, parse_wisp, parse_connect, packet_connect, packet_data, packet_info, max_queue,
}
use woeful.Packets.Wire.{parse_wisp_frame, parse_wisp_fault}
use woeful.Config.{WoefulConfig}
use woeful.System.Calls.{Os, Trace}
use woeful.System.{Connection, open_stream}
use woeful.Manager.{
  SocketStreamData, WebSocketManager, Session, Parent, refill_streams, update_streams, close_stream,
  add_stream, handle_connect, handle_data, report_connect, dispatch, receive,
}
use woeful.Manager.Counting.{close_info-streams}
use woeful.Downlink.Apart.{All-insert, All-erase}

abbrev pub StreamIds : Map SocketStreamData → Type 0
StreamIds = All (λ p. IsU32 p.0)

parse_wisp-IsU32 :
    (src : Bytes) (p : WispPacket)
    → IsSize (length src)
    → All IsByte src
    → parse_wisp src ≡ ok p
    → IsU32 p.stream_id
parse_wisp-IsU32 (a ∷ b ∷ c ∷ d ∷ e ∷ rest) p n bytes h =
    let parsed = ok-injective (sym h ∙ parse_wisp_frame a b c d e rest n) in
    let id = ap (λ (x : WispPacket). x.stream_id) parsed in omega arith
parse_wisp-IsU32 src p n bytes h = cc ((parse_wisp_fault src n).1 (omega arith), h)

refill_streams-ids :
    (ws : ℕ) (streams : Map SocketStreamData) (t : Trace)
    → StreamIds streams
    → StreamIds (refill_streams ws streams t).0
unfolding refill_streams
refill_streams-ids ws [] t a = tt
refill_streams-ids ws ((k, stream) ∷ streams) t a = (a.0, refill_streams-ids ws streams _ a.1)

pub update_streams-ids :
    (parent : Parent) (m : WebSocketManager) (t : Trace)
    → StreamIds m.streams
    → StreamIds (update_streams parent m t).0.streams
unfolding update_streams
update_streams-ids parent m t a =
    elim (Bool-cases (m.has_backpressure || ltb max_queue parent.send_queue_len)) [
      | inl e ↦ rw e a
      | inr e ↦ rw e (refill_streams-ids m.ws m.streams t a)
    ]

pub close_stream-ids :
    (parent : Parent) (k : ℕ) (remove_poll : Bool) (m : WebSocketManager) (t : Trace)
    → StreamIds m.streams
    → StreamIds (close_stream parent k remove_poll m t).0.streams
unfolding close_stream
close_stream-ids parent k remove_poll m t a = All-erase (λ p. IsU32 p.0) k m.streams a

add_stream-ids :
    (parent : Parent) (k type : ℕ) (c : Option Connection) (s : Session)
    → IsU32 k
    → StreamIds s.manager.streams
    → StreamIds (add_stream parent k type c s).1.manager.streams
unfolding add_stream
add_stream-ids parent k type none s u a = a
add_stream-ids parent k type (some c) s u a = All-insert (λ p. IsU32 p.0) k _ s.manager.streams a u

handle_data-ids :
    (parent : Parent) (packet : WispPacket) (s : Session)
    → IsU32 packet.stream_id
    → StreamIds s.manager.streams
    → StreamIds (handle_data parent packet s).1.manager.streams
unfolding handle_data
handle_data-ids parent packet s u a =
    elim (Option-cases (find packet.stream_id s.manager.streams)) [
      | inl e ↦ rw (handle_data, e) a
      | inr (stream, e) ↦
          rw (handle_data, e) (All-insert (λ p. IsU32 p.0) packet.stream_id _ s.manager.streams a u)
    ]

report_connect-ids :
    (k : ℕ) (r : Option ℕ × Session)
    → StreamIds r.1.manager.streams
    → StreamIds (report_connect k r).manager.streams
unfolding report_connect
report_connect-ids k (some id, s) a = a
report_connect-ids k (none, s) a = a

dispatch-ids :
    (os : Os) (conf : WoefulConfig) (parent : Parent) (packet : WispPacket) (s s' : Session)
    → IsU32 packet.stream_id
    → dispatch os conf parent packet s ≡ ok s'
    → StreamIds s.manager.streams
    → StreamIds s'.manager.streams
unfolding dispatch handle_connect
dispatch-ids os conf parent packet s s' u h a =
    elim (Bool-cases (packet.packet_type == packet_connect)) [
      | inl e ↦
          let (r, h1, h2) = >>=-eq-ok (handle_connect os conf parent packet s) _ (rw e at h) in
          let (c, _, h3) = >>=-eq-ok (parse_connect packet.bytes) _ h1 in
          let (o, _, h5) =
            >>=-eq-ok
              (open_stream os conf s.trace c.destination_hostname c.stream_type c.destination_port)
              _ h3 in
          let added =
            add_stream-ids parent packet.stream_id c.stream_type o.0 (record s { trace = o.1 }) u
              a in
          subst (λ x. StreamIds x.manager.streams) (ok-injective h2)
            (report_connect-ids packet.stream_id r
              (subst (λ x. StreamIds x.1.manager.streams) (ok-injective h5) added))
      | inr e ↦ elim (Bool-cases (packet.packet_type == packet_data)) [
        | inl d ↦
            subst (λ x. StreamIds x.manager.streams) (ok-injective (rw (e, d) at h))
              (handle_data-ids parent packet s u a)
        | inr d ↦ subst (λ x. StreamIds x.manager.streams) (ok-injective (rw (e, d) at h)) a
      ]
    ]

pub receive-ids :
    (os : Os) (conf : WoefulConfig) (parent : Parent) (view : Bytes) (s s' : Session)
    → All IsByte view
    → IsSize (length view)
    → receive os conf parent view s ≡ ok s'
    → StreamIds s.manager.streams
    → StreamIds s'.manager.streams
unfolding receive
receive-ids os conf parent view s s' bytes n h a =
    let (packet, parsed, h1) = >>=-eq-ok (parse_wisp view) _ h in
    let u = parse_wisp-IsU32 view packet n bytes parsed in
    elim (Bool-cases (packet.packet_type == packet_info)) [
      | inl e ↦ subst (λ x. StreamIds x.manager.streams) (ok-injective (rw e at h1)) a
      | inr e ↦
          dispatch-ids os conf parent packet _ s' u (rw e at h1)
            (subst StreamIds (sym (close_info-streams s.manager)) a)
    ]
