-- ===== src/Manager/Watching.antt =====
-- What epoll watches under the methods of a manager.
use woeful.Base.{
  ℕ, ◌≤◌, ◌≡◌, refl, ap, ◌∙◌, subst, ◌⊎◌, inl, inr, ◌==◌, Bool, Bool-cases, true, false, Option,
  Option-cases, none, some, [], ◌∷◌, arith, Bytes, ok, >>=-eq-ok, ok-injective, ◌||◌, ltb,
}
use woeful.Base.Map.{Map, find, erase, keys, find-head, erase-head, IsDistinct}
use woeful.Packets.{
  buffer_count, packet_connect, packet_data, packet_info, max_queue, WispPacket, parse_connect,
  parse_wisp,
}
use woeful.Config.{WoefulConfig}
use woeful.System.Calls.{Os, Trace, SocketIsFresh, is_open}
use woeful.System.{Connection, open_stream, push_fd, erase_fd, wake}
use woeful.System.Watching.{is_watched, Stays, open_stream-Stays}
use woeful.Manager.{
  SocketStreamData, WebSocketManager, Session, Parent, refill_streams, update_streams, fd_of,
  close_stream, close_streams, force_close, add_stream, handle_connect, handle_data, report_connect,
  dispatch, receive, count_message, send_close, send_continue,
}
use woeful.Manager.Counting.{owners, owners-insert-le, owners-insert_same, close_info-streams}

-- A descriptor of the manager's streams is watched, or it was one before and is watched as before.
abbrev pub Guarded : Session → Session → Type 0
Guarded s s' =
    (x : ℕ)
    → (is_watched x s'.trace ≡ true)
      ⊎ ((owners x s'.manager.streams ≤ owners x s.manager.streams)
          × (is_open x s.trace ≡ true → is_watched x s'.trace ≡ is_watched x s.trace))

Guarded-refl : (s : Session) → Guarded s s
Guarded-refl s x = inr (omega arith, λ o. refl)

add_stream-Guarded :
    (parent : Parent) (k type : ℕ) (r : Option Connection × Trace) (s : Session)
    → Stays s.trace r.1
    → Guarded s (add_stream parent k type r.0 (record s { trace = r.1 })).1
unfolding add_stream push_fd wake is_watched
add_stream-Guarded parent k type (none, t) s stays x = inr (omega arith, stays x)
add_stream-Guarded parent k type (some c, t) s stays x =
    let stream : SocketStreamData = record {
      stream_type = type;
      id = k;
      fd = c.fd;
      fd_info = c.info;
      buffer = buffer_count;
    } in
    elim (Bool-cases (c.fd == x)) [
      | inl e ↦ inl (rw e refl)
      | inr e ↦
          inr (
            ground (arith, e, owners-insert-le x k stream s.manager.streams),
            λ o. rw e (stays x o),
          )
    ]

handle_data-Guarded :
    (parent : Parent) (packet : WispPacket) (s : Session)
    → Guarded s (handle_data parent packet s).1
unfolding handle_data send_continue is_watched
handle_data-Guarded parent packet s x =
    elim (Option-cases (find packet.stream_id s.manager.streams)) [
      | inl e ↦ rw (e, handle_data) (Guarded-refl s x)
      | inr (stream, e) ↦
          let buffer = (count_message parent s.manager.has_backpressure stream).0 in
          rw (e, handle_data)
            (inr (
              ground (
                arith,
                owners-insert_same x packet.stream_id stream (record stream { buffer = buffer })
                    s.manager.streams e refl,
              ),
              λ o. ground arith,
            ))
    ]

report_connect-Guarded :
    (k : ℕ) (s : Session) (r : Option ℕ × Session) → Guarded s r.1 → Guarded s (report_connect k r)
unfolding report_connect send_close is_watched
report_connect-Guarded k s (some id, s1) g = g
report_connect-Guarded k s (none, s1) g = g

dispatch-Guarded :
    (os : Os) (conf : WoefulConfig) (parent : Parent) (packet : WispPacket) (s s' : Session)
    → SocketIsFresh os
    → dispatch os conf parent packet s ≡ ok s'
    → Guarded s s'
unfolding dispatch handle_connect
dispatch-Guarded os conf parent packet s s' fresh h =
    elim (Bool-cases (packet.packet_type == packet_connect)) [
      | inl e ↦
          let (r, h1, h2) = >>=-eq-ok (handle_connect os conf parent packet s) _ (rw e at h) in
          let (c, _, h3) = >>=-eq-ok (parse_connect packet.bytes) _ h1 in
          let (o, h4, h5) =
            >>=-eq-ok
              (open_stream os conf s.trace c.destination_hostname c.stream_type c.destination_port)
              _ h3 in
          let stays =
            open_stream-Stays os fresh conf s.trace c.destination_hostname c.stream_type
              c.destination_port o h4 in
          let added = add_stream-Guarded parent packet.stream_id c.stream_type o s stays in
          subst (Guarded s) (ok-injective h2) (
            report_connect-Guarded packet.stream_id s r
              (subst (λ x. Guarded s x.1) (ok-injective h5) added))
      | inr e ↦ elim (Bool-cases (packet.packet_type == packet_data)) [
        | inl d ↦
            subst (Guarded s) (ok-injective (rw (e, d) at h)) (handle_data-Guarded parent packet s)
        | inr d ↦ subst (Guarded s) (ok-injective (rw (e, d) at h)) (Guarded-refl s)
      ]
    ]

pub receive-Guarded :
    (os : Os) (conf : WoefulConfig) (parent : Parent) (view : Bytes) (s s' : Session)
    → SocketIsFresh os
    → receive os conf parent view s ≡ ok s'
    → Guarded s s'
unfolding receive
receive-Guarded os conf parent view s s' fresh h x =
    let (packet, _, h1) = >>=-eq-ok (parse_wisp view) _ h in
    elim (Bool-cases (packet.packet_type == packet_info)) [
      | inl e ↦ subst (λ y. Guarded s y) (ok-injective (rw e at h1)) (Guarded-refl s) x
      | inr e ↦
          let rest = dispatch-Guarded os conf parent packet _ s' fresh (rw e at h1) x in
          rw (close_info-streams s.manager) at rest
    ]

-- Closing a stream that does not have the descriptor.
pub close_stream-watched :
    (parent : Parent) (x k : ℕ) (remove_poll : Bool) (stream : SocketStreamData)
    (m : WebSocketManager) (t : Trace)
    → find k m.streams ≡ some stream
    → stream.fd == x ≡ false
    → is_watched x (close_stream parent k remove_poll m t).1 ≡ is_watched x t
unfolding close_stream erase_fd send_close fd_of is_watched
close_stream-watched parent x k remove_poll stream m t h e = ground (arith, h, e)

close_streams-watched :
    (parent : Parent) (x : ℕ) (streams : Map SocketStreamData) (m : WebSocketManager) (t : Trace)
    → m.streams ≡ streams
    → IsDistinct streams
    → owners x streams ≡ 0
    → is_watched x (close_streams parent (keys streams) m t).1 ≡ is_watched x t
unfolding close_streams keys close_stream owners
close_streams-watched parent x [] m t e d o = refl
close_streams-watched parent x ((k, stream) ∷ streams) m t e d o =
    close_streams-watched parent x streams _ _ (ap (erase k) e ∙ erase-head k stream streams d.0)
      d.1 (omega (arith, o))
    ∙ close_stream-watched parent x k true stream m t (rw e (find-head k stream streams))
        (ground (arith, o))

pub force_close-watched :
    (parent : Parent) (x : ℕ) (m : WebSocketManager) (t : Trace)
    → IsDistinct m.streams
    → owners x m.streams ≡ 0
    → is_watched x (force_close parent m t).1 ≡ is_watched x t
unfolding force_close
force_close-watched parent x m t d o = close_streams-watched parent x m.streams _ t refl d o

-- The renewal of credit.
refill_streams-watched :
    (x ws : ℕ) (streams : Map SocketStreamData) (t : Trace)
    → is_watched x (refill_streams ws streams t).1 ≡ is_watched x t
unfolding refill_streams send_continue is_watched
refill_streams-watched x ws [] t = refl
refill_streams-watched x ws ((k, stream) ∷ streams) t = ground (
  arith,
  refill_streams-watched x ws streams (send_continue buffer_count k ws t),
  refill_streams-watched x ws streams t,
)

pub update_streams-watched :
    (parent : Parent) (x : ℕ) (m : WebSocketManager) (t : Trace)
    → is_watched x (update_streams parent m t).1 ≡ is_watched x t
unfolding update_streams
update_streams-watched parent x m t =
    elim (Bool-cases (m.has_backpressure || ltb max_queue parent.send_queue_len)) [
      | inl e ↦ rw e refl
      | inr e ↦ rw e (refill_streams-watched x m.ws m.streams t)
    ]
