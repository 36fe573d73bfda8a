-- ===== src/Downlink/Methods.antt =====
-- What `receive`, the constructor and the tasks of the pool send and read: no data.
use woeful.Base.{
  ℕ, zero, suc, ◌≡◌, refl, subst, true, Bool-cases, Option-cases, inl, inr, Option, none, some, ◌∷◌,
  ◌==◌, arith, Bytes, ok, >>=-eq-ok, ok-injective,
}
use woeful.Base.Map.{find}
use woeful.Packets.{
  WispPacket, packet_data, packet_connect, packet_info, parse_wisp, parse_connect, buffer_count,
}
use woeful.Config.{WoefulConfig}
use woeful.System.Calls.{Os, Trace, attempts, WriteResult, fd_polled, fd_written}
use woeful.System.{Connection, open_stream, push_fd, wake}
use woeful.Manager.{
  Session, Parent, construct, add_stream, handle_connect, count_message, handle_data,
  report_connect, dispatch, receive, write_loop,
}
use woeful.Watcher.Reading.{bytes_read}
use woeful.Downlink.{sent, Silent, Mute}
use woeful.Downlink.Silence.{
  Mute-refl, Mute-trans, send_close-Mute, send_continue-Mute, open_stream-Mute,
}

pub construct-Mute : (ws id : ℕ) (t : Trace) → Mute t (construct ws id t).1
unfolding construct
construct-Mute ws id t = send_continue-Mute buffer_count 0 ws t

add_stream-Mute :
    (parent : Parent) (k type : ℕ) (c : Option Connection) (s : Session)
    → Mute s.trace (add_stream parent k type c s).1.trace
unfolding add_stream push_fd wake sent bytes_read attempts
add_stream-Mute parent k type none s = Mute-refl s.trace
add_stream-Mute parent k type (some c) s = record {
  sends = λ ws j. refl;
  reads = λ fd. refl;
  tries = refl;
}

report_connect-Mute : (k : ℕ) (r : Option ℕ × Session) → Mute r.1.trace (report_connect k r).trace
unfolding report_connect
report_connect-Mute k (some id, s) = Mute-refl s.trace
report_connect-Mute k (none, s) = send_close-Mute 0x41 k s.manager.ws s.trace

handle_data-Mute :
    (parent : Parent) (packet : WispPacket) (s : Session)
    → Mute s.trace (handle_data parent packet s).1.trace
unfolding handle_data
handle_data-Mute parent packet s = elim (Option-cases (find packet.stream_id s.manager.streams)) [
  | inl e ↦ rw (handle_data, e) (Mute-refl s.trace)
  | inr (stream, e) ↦ elim (Bool-cases (count_message parent s.manager.has_backpressure stream).1) [
    | inl b ↦
        rw (handle_data, e, handle_data, b)
          (send_continue-Mute buffer_count packet.stream_id s.manager.ws s.trace)
    | inr b ↦ rw (handle_data, e, handle_data, b) (Mute-refl s.trace)
  ]
]

dispatch-Mute :
    (os : Os) (conf : WoefulConfig) (parent : Parent) (packet : WispPacket) (s s' : Session)
    → dispatch os conf parent packet s ≡ ok s'
    → Mute s.trace s'.trace
unfolding dispatch handle_connect
dispatch-Mute os conf parent packet s s' h =
    elim (Bool-cases (packet.packet_type == packet_connect)) [
      | inl e ↦
          let (r, h1, h2) = >>=-eq-ok (handle_connect os conf parent packet s) _ (rw e at h) in
          let (c, _, h3) = >>=-eq-ok (parse_connect packet.bytes) _ h1 in
          let (o, h4, h5) =
            >>=-eq-ok
              (open_stream os conf s.trace c.destination_hostname c.stream_type c.destination_port)
              _ h3 in
          let opened =
            open_stream-Mute os conf s.trace c.destination_hostname c.stream_type c.destination_port
              o h4 in
          let added =
            add_stream-Mute parent packet.stream_id c.stream_type o.0 (record s { trace = o.1 }) in
          subst (λ x. Mute s.trace x.trace) (ok-injective h2)
            (Mute-trans
              (subst (λ x. Mute s.trace x.1.trace) (ok-injective h5) (Mute-trans opened added))
              (report_connect-Mute packet.stream_id r))
      | inr e ↦ elim (Bool-cases (packet.packet_type == packet_data)) [
        | inl d ↦
            subst (λ x. Mute s.trace x.trace) (ok-injective (rw (e, d) at h))
              (handle_data-Mute parent packet s)
        | inr d ↦
            subst (λ x. Mute s.trace x.trace) (ok-injective (rw (e, d) at h)) (Mute-refl s.trace)
      ]
    ]

pub receive-Mute :
    (os : Os) (conf : WoefulConfig) (parent : Parent) (view : Bytes) (s s' : Session)
    → receive os conf parent view s ≡ ok s'
    → Mute s.trace s'.trace
unfolding receive
receive-Mute os conf parent view s s' h =
    let (packet, _, h1) = >>=-eq-ok (parse_wisp view) _ h in
    elim (Bool-cases (packet.packet_type == packet_info)) [
      | inl e ↦ subst (λ x. Mute s.trace x.trace) (ok-injective (rw e at h1)) (Mute-refl s.trace)
      | inr e ↦ dispatch-Mute os conf parent packet _ s' (rw e at h1)
    ]

pub write_loop-Silent :
    (os : Os) (fuel fd : ℕ) (bytes : Bytes) (t t' : Trace)
    → write_loop os fuel fd bytes t ≡ some t'
    → Silent t t'
unfolding write_loop sent bytes_read
write_loop-Silent os zero fd bytes t t' h = cc
write_loop-Silent os (suc fuel) fd bytes t t' h = record {
  sends = λ ws k. ground (
    arith,
    λ (p : write_loop os fuel fd bytes
            (fd_written fd bytes WriteResult.again ∷ fd_polled fd true ∷ t)
          ≡ some t').
        (write_loop-Silent os fuel fd bytes
            (fd_written fd bytes WriteResult.again ∷ fd_polled fd true ∷ t) t' p).sends
          ws k,
  );
  reads = λ x. ground (
    arith,
    λ (p : write_loop os fuel fd bytes
            (fd_written fd bytes WriteResult.again ∷ fd_polled fd true ∷ t)
          ≡ some t').
        (write_loop-Silent os fuel fd bytes
            (fd_written fd bytes WriteResult.again ∷ fd_polled fd true ∷ t) t' p).reads
          x,
  );
}
