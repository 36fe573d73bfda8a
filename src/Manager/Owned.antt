-- ===== src/Manager/Owned.antt =====
-- The descriptors of a manager's streams under the methods of the manager.
use woeful.Base.{
  ℕ, ◌≡◌, refl, subst, ap, ◌∙◌, Bool, true, Option, none, some, [], ◌∷◌, ◌==◌, Bool-cases,
  Option-cases, inl, inr, arith, ok, >>=-eq-ok, ok-injective, Bytes,
}
use woeful.Base.Map.{
  Map, find, erase, keys, find-head, erase-head, insert-IsDistinct, erase-IsDistinct,
}
use woeful.Packets.{
  buffer_count, packet_connect, packet_data, packet_info, WispPacket, parse_connect, parse_wisp,
}
use woeful.Config.{WoefulConfig}
use woeful.System.Calls.{Os, Trace, SocketIsFresh, is_open}
use woeful.System.{Connection, open_stream, push_fd, wake}
use woeful.System.Descriptors.{Opens, open_stream-Opens}
use woeful.Manager.{
  SocketStreamData, WebSocketManager, Session, Parent, update_streams, fd_of, close_stream,
  close_streams, force_close, add_stream, handle_connect, handle_data, report_connect, dispatch,
  close_info, receive, count_message,
}
use woeful.Manager.Counting.{
  IsOwned, owners-insert-le, owners-insert_same, owners-erase-le, owners-erase,
  update_streams-owners, close_info-streams,
}

module _ (others : ℕ → ℕ) where
  -- The state of a manager and the calls made.
  abbrev Keeps : WebSocketManager × Trace → Type 0
  Keeps (m, t) = IsOwned others m.streams t

  pub update_streams-IsOwned :
      (parent : Parent) (m : WebSocketManager) (t : Trace)
      → IsOwned others m.streams t
      → Keeps (update_streams parent m t)
  update_streams-IsOwned parent m t v =
      let (same, calls, distinct) = update_streams-owners parent m t in
      record {
        distinct = distinct v.distinct;
        bound = λ fd. ground (arith, same fd, calls fd, v.bound fd);
      }

  -- A stream that is there takes its descriptor with it when it is closed.
  pub close_stream-IsOwned :
      (parent : Parent) (k : ℕ) (remove_poll : Bool) (stream : SocketStreamData)
      (m : WebSocketManager) (t : Trace)
      → find k m.streams ≡ some stream
      → IsOwned others m.streams t
      → Keeps (close_stream parent k remove_poll m t)
  unfolding close_stream fd_of is_open
  close_stream-IsOwned parent k remove_poll stream m t h v = record {
    distinct = erase-IsDistinct k m.streams v.distinct;
    bound = λ fd.
        ground
          (arith, v.bound fd, owners-erase k stream m.streams h, owners-erase-le fd k m.streams);
  }

  close_streams-IsOwned :
      (parent : Parent) (streams : Map SocketStreamData) (m : WebSocketManager) (t : Trace)
      → m.streams ≡ streams
      → IsOwned others streams t
      → Keeps (close_streams parent (keys streams) m t)
        × ((close_streams parent (keys streams) m t).0.streams ≡ [])
  unfolding close_streams keys
  close_streams-IsOwned parent [] m t e v = (rw e v, e)
  close_streams-IsOwned parent ((k, stream) ∷ streams) m t e v =
      close_streams-IsOwned parent streams _ _ gone (
        subst (λ x. IsOwned others x (close_stream parent k true m t).1) gone
          (close_stream-IsOwned parent k true stream m t (rw e (find-head k stream streams))
            (rw e v)))
    where
      gone : (close_stream parent k true m t).0.streams ≡ streams
      gone = unfold close_stream in ap (erase k) e ∙ erase-head k stream streams v.distinct.0

  pub force_close-IsOwned :
      (parent : Parent) (m : WebSocketManager) (t : Trace)
      → IsOwned others m.streams t
      → Keeps (force_close parent m t) × ((force_close parent m t).0.streams ≡ [])
  unfolding force_close
  force_close-IsOwned parent m t v = close_streams-IsOwned parent m.streams _ t refl v

  add_stream-IsOwned :
      (parent : Parent) (k type : ℕ) (t : Trace) (r : Option Connection × Trace) (s : Session)
      → Opens t r
      → IsOwned others s.manager.streams t
      → IsOwned others
          (add_stream parent k type r.0 (record s { trace = r.1 })).1.manager.streams
          (add_stream parent k type r.0 (record s { trace = r.1 })).1.trace
  unfolding add_stream push_fd wake is_open
  add_stream-IsOwned parent k type t (none, t') s o v = record {
    distinct = v.distinct;
    bound = λ fd. ground (arith, v.bound fd, o fd);
  }
  add_stream-IsOwned parent k type t (some c, t') s (closed, opens) v = record {
    distinct = insert-IsDistinct k _ s.manager.streams v.distinct;
    bound = λ fd. ground (
      arith,
      v.bound fd,
      v.bound c.fd,
      opens fd,
      closed,
      owners-insert-le fd k
          (record {
            stream_type = type;
            id = k;
            fd = c.fd;
            fd_info = c.info;
            buffer = buffer_count;
          })
          s.manager.streams,
    );
  }

  pub handle_data-IsOwned :
      (parent : Parent) (packet : WispPacket) (s : Session)
      → IsOwned others s.manager.streams s.trace
      → IsOwned others
          (handle_data parent packet s).1.manager.streams
          (handle_data parent packet s).1.trace
  unfolding handle_data is_open
  handle_data-IsOwned parent packet s v =
      elim (Option-cases (find packet.stream_id s.manager.streams)) [
        | inl e ↦ rw (e, handle_data) v
        | inr (stream, e) ↦
            let buffer = (count_message parent s.manager.has_backpressure stream).0 in
            rw (e, handle_data)
              (record {
                distinct = insert-IsDistinct packet.stream_id _ s.manager.streams v.distinct;
                bound = λ fd. ground (
                  arith,
                  v.bound fd,
                  owners-insert_same fd packet.stream_id stream (record stream { buffer = buffer })
                      s.manager.streams e refl,
                );
              })
      ]

  handle_connect-IsOwned :
      (os : Os) (conf : WoefulConfig) (parent : Parent) (packet : WispPacket) (s : Session)
      (r : Option ℕ × Session)
      → SocketIsFresh os
      → handle_connect os conf parent packet s ≡ ok r
      → IsOwned others s.manager.streams s.trace
      → IsOwned others r.1.manager.streams r.1.trace
  unfolding handle_connect
  handle_connect-IsOwned os conf parent packet s r fresh h v =
      let (c, _, h1) = >>=-eq-ok (parse_connect packet.bytes) _ h in
      let (o, e, h2) =
        >>=-eq-ok
          (open_stream os conf s.trace c.destination_hostname c.stream_type c.destination_port) _
          h1 in
      subst (λ x. IsOwned others x.1.manager.streams x.1.trace) (ok-injective h2)
        (add_stream-IsOwned parent packet.stream_id c.stream_type s.trace o s
          (open_stream-Opens os fresh conf s.trace _ _ _ o e) v)

  report_connect-IsOwned :
      (k : ℕ) (r : Option ℕ × Session)
      → IsOwned others r.1.manager.streams r.1.trace
      → IsOwned others (report_connect k r).manager.streams (report_connect k r).trace
  unfolding report_connect is_open
  report_connect-IsOwned k (some id, s) v = v
  report_connect-IsOwned k (none, s) v = record { distinct = v.distinct; bound = v.bound }

  dispatch-IsOwned :
      (os : Os) (conf : WoefulConfig) (parent : Parent) (packet : WispPacket) (s s' : Session)
      → SocketIsFresh os
      → dispatch os conf parent packet s ≡ ok s'
      → IsOwned others s.manager.streams s.trace
      → IsOwned others s'.manager.streams s'.trace
  unfolding dispatch
  dispatch-IsOwned os conf parent packet s s' fresh h v =
      elim (Bool-cases (packet.packet_type == packet_connect)) [
        | inl e ↦
            let (r, e1, h1) =
              >>=-eq-ok (handle_connect os conf parent packet s) _ (rw (e, dispatch) at h) in
            subst (λ x. IsOwned others x.manager.streams x.trace) (ok-injective h1)
              (report_connect-IsOwned packet.stream_id r
                (handle_connect-IsOwned os conf parent packet s r fresh e1 v))
        | inr e ↦ elim (Bool-cases (packet.packet_type == packet_data)) [
          | inl d ↦
              subst (λ x. IsOwned others x.manager.streams x.trace)
                (ok-injective (rw (e, dispatch, d, dispatch) at h))
                (handle_data-IsOwned parent packet s v)
          | inr d ↦
              subst (λ x. IsOwned others x.manager.streams x.trace)
                (ok-injective (rw (e, dispatch, d, dispatch) at h)) v
        ]
      ]

  -- Whatever frame `receive` accepts, the streams of the manager keep distinct ids, and with
  -- the descriptors that `others` counts every descriptor is held at most once, and only while
  -- it is open, if that was so before. The condition is that `socket` never returns a
  -- descriptor that is open.
  pub receive-IsOwned :
      (os : Os) (conf : WoefulConfig) (parent : Parent) (view : Bytes) (s s' : Session)
      → SocketIsFresh os
      → receive os conf parent view s ≡ ok s'
      → IsOwned others s.manager.streams s.trace
      → IsOwned others s'.manager.streams s'.trace
  unfolding receive
  receive-IsOwned os conf parent view s s' fresh h v =
      let (packet, _, h1) = >>=-eq-ok (parse_wisp view) _ h in
      elim (Bool-cases (packet.packet_type == packet_info)) [
        | inl e ↦
            subst (λ x. IsOwned others x.manager.streams x.trace) (ok-injective (rw e at h1)) v
        | inr e ↦
            dispatch-IsOwned os conf parent packet (record s { manager = close_info s.manager }) s'
              fresh (rw e at h1) (rw (close_info-streams s.manager) v)
      ]
