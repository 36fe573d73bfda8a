-- ===== src/Manager/Accepts.antt =====
-- Which frames `receive` takes.
use woeful.Base.{
  ℕ, ◌≤◌, ◌≡◌, refl, Bool-cases, Option, [], ◌∷◌, ◌==◌, inl, inr, arith, length, Bytes, IsSize, ok,
  c_string,
}
use woeful.Packets.{
  WispPacket, ConnectPacket, parse_wisp, parse_connect, packet_connect, packet_data, packet_info,
}
use woeful.Packets.Hostname.{parse_connect_terminated}
use woeful.Config.{WoefulConfig}
use woeful.System.Calls.{Os}
use woeful.System.Access.{open_stream-returns}
use woeful.Manager.{
  Session, Parent, add_stream, handle_connect, handle_data, report_connect, dispatch, close_info,
  receive,
}

parse_connect-returns :
    (src : Bytes)
    → 4 ≤ length src
    → IsSize (length src)
    → (p : ConnectPacket) × (text : Bytes) × (parse_connect src ≡ ok p)
      × (c_string p.destination_hostname ≡ ok text)
parse_connect-returns [] h n = absurd (omega arith)
parse_connect-returns (a ∷ []) h n = absurd (omega arith)
parse_connect-returns (a ∷ b ∷ []) h n = absurd (omega arith)
parse_connect-returns (a ∷ b ∷ c ∷ []) h n = absurd (omega arith)
parse_connect-returns (a ∷ b ∷ c ∷ d ∷ rest) h n = parse_connect_terminated a b c d rest n

handle_connect-returns :
    (os : Os) (conf : WoefulConfig) (parent : Parent) (packet : WispPacket) (s : Session)
    → 4 ≤ length packet.bytes
    → IsSize (length packet.bytes)
    → (r : Option ℕ × Session) × (handle_connect os conf parent packet s ≡ ok r)
unfolding handle_connect
handle_connect-returns os conf parent packet s h n =
    let (c, text, parsed, read) = parse_connect-returns packet.bytes h n in
    let (opened, e) =
      open_stream-returns os conf s.trace c.destination_hostname text c.stream_type
        c.destination_port read in
    (
      add_stream parent packet.stream_id c.stream_type opened.0 (record s { trace = opened.1 }),
      rw (parsed, e) refl,
    )

dispatch-returns :
    (os : Os) (conf : WoefulConfig) (parent : Parent) (packet : WispPacket) (s : Session)
    → (packet.packet_type ≡ packet_connect → 4 ≤ length packet.bytes)
    → IsSize (length packet.bytes)
    → (s' : Session) × (dispatch os conf parent packet s ≡ ok s')
unfolding dispatch
dispatch-returns os conf parent packet s h n =
    elim (Bool-cases (packet.packet_type == packet_connect)) [
      | inl e ↦
          let (r, done) = handle_connect-returns os conf parent packet s (h (ground arith)) n in
          (report_connect packet.stream_id r, rw (e, done) refl)
      | inr e ↦ elim (Bool-cases (packet.packet_type == packet_data)) [
        | inl d ↦ ((handle_data parent packet s).1, rw (e, d) refl)
        | inr d ↦ (s, rw (e, d) refl)
      ]
    ]

-- `receive` returns, without reading outside a buffer or using a missing entry, on every frame
-- that has the header, if a CONNECT has at least 4 bytes behind it: the type, the port and one
-- byte of host name. The condition is that what is behind the header fits a `size_t`.
pub receive-returns :
    (os : Os) (conf : WoefulConfig) (parent : Parent) (view : Bytes) (packet : WispPacket)
    (s : Session)
    → parse_wisp view ≡ ok packet
    → (packet.packet_type ≡ packet_connect → 4 ≤ length packet.bytes)
    → IsSize (length packet.bytes)
    → (s' : Session) × (receive os conf parent view s ≡ ok s')
unfolding receive
receive-returns os conf parent view packet s parsed h n =
    let (s', done) =
      dispatch-returns os conf parent packet (record s { manager = close_info s.manager }) h n in
    elim (Bool-cases (packet.packet_type == packet_info)) [
      | inl e ↦ (s, rw (parsed, e) refl)
      | inr e ↦ (s', rw (parsed, e) done)
    ]
