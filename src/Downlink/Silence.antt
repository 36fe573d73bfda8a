-- ===== src/Downlink/Silence.antt =====
-- The methods of a manager and the tasks of the pool: they read nothing and send no data.
use woeful.Base.{
  ℕ, ◌≡◌, refl, ◌∙◌, Bool, true, false, Bool-cases, inl, inr, Option, List, [], ◌∷◌, ◌==◌, arith,
  append-nil, Bytes, bytes_eq, ok, ◌||◌, ltb,
}
use woeful.Base.Map.{Map, keys}
use woeful.Packets.{packet_data, packet_close, packet_continue, buffer_count, max_queue}
use woeful.Config.{WoefulConfig}
use woeful.System.Calls.{Os, Trace, ws_sent, attempts}
use woeful.System.{
  Connection, resolve, open_socket, connect_socket, connect_stream, open_stream, erase_fd,
}
use woeful.System.Descriptors.{open_stream_inv}
use woeful.Manager.{
  SocketStreamData, WebSocketManager, Parent, send_close, send_continue, refill_streams,
  update_streams, close_stream, close_streams, force_close,
}
use woeful.Manager.Replies.{close_message_bytes, continue_message_bytes}
use woeful.Watcher.Reading.{bytes_read}
use woeful.Downlink.{payload, sent, Silent, Mute}

pub Silent-refl : (t : Trace) → Silent t t
Silent-refl t = record { sends = λ ws k. refl; reads = λ fd. refl }

pub Mute-refl : (t : Trace) → Mute t t
Mute-refl t = record { sends = λ ws k. refl; reads = λ fd. refl; tries = refl }

pub Mute-trans : {t u v : Trace} → Mute t u → Mute u v → Mute t v
Mute-trans a b = record {
  sends = λ ws k. b.sends ws k ∙ a.sends ws k;
  reads = λ fd. b.reads fd ∙ a.reads fd;
  tries = b.tries ∙ a.tries;
}

-- A message of another type carries nothing.
message-Mute :
    (to type : ℕ) (rest : Bytes) (t : Trace)
    → (type == packet_data) ≡ false
    → Mute t (ws_sent to (type ∷ rest) ∷ t)
unfolding sent payload bytes_read bytes_eq attempts
message-Mute to type rest t other = record {
  sends = λ ws k. ground (arith, append-nil (sent ws k t));
  reads = λ fd. refl;
  tries = refl;
}

pub send_close-Mute : (reason k ws : ℕ) (t : Trace) → Mute t (send_close reason k ws t)
unfolding send_close
send_close-Mute reason k ws t =
    rw (close_message_bytes reason k) (message-Mute ws packet_close _ t refl)

pub send_continue-Mute : (buffer k ws : ℕ) (t : Trace) → Mute t (send_continue buffer k ws t)
unfolding send_continue
send_continue-Mute buffer k ws t =
    rw (continue_message_bytes buffer k) (message-Mute ws packet_continue _ t refl)

connect_stream-Mute :
    (os : Os) (t : Trace) (host : Bytes) (sock_type port : ℕ)
    → Mute t (connect_stream os t host sock_type port).1
unfolding connect_stream resolve open_socket connect_socket sent bytes_read attempts
connect_stream-Mute os t host sock_type port = record {
  sends = λ ws k. ground arith;
  reads = λ fd. ground arith;
  tries = ground arith;
}

pub open_stream-Mute :
    (os : Os) (conf : WoefulConfig) (t : Trace) (hostname : Bytes) (type port : ℕ)
    (r : Option Connection × Trace)
    → open_stream os conf t hostname type port ≡ ok r
    → Mute t r.1
open_stream-Mute os conf t hostname type port r h =
    elim (open_stream_inv os conf t hostname type port r h) [
      | inl e ↦ rw e (Mute-refl t)
      | inr (host, sock_type, _, _, e) ↦ rw e (connect_stream-Mute os t host sock_type port)
    ]

refill_streams-Mute :
    (ws : ℕ) (streams : Map SocketStreamData) (t : Trace) → Mute t (refill_streams ws streams t).1
unfolding refill_streams
refill_streams-Mute ws [] t = Mute-refl t
refill_streams-Mute ws ((k, stream) ∷ streams) t = elim (Bool-cases (stream.buffer == 0)) [
  | inl e ↦
      rw (refill_streams, e)
        (Mute-trans (send_continue-Mute buffer_count k ws t)
          (refill_streams-Mute ws streams (send_continue buffer_count k ws t)))
  | inr e ↦ rw (refill_streams, e) (refill_streams-Mute ws streams t)
]

pub update_streams-Mute :
    (parent : Parent) (m : WebSocketManager) (t : Trace) → Mute t (update_streams parent m t).1
unfolding update_streams
update_streams-Mute parent m t =
    elim (Bool-cases (m.has_backpressure || ltb max_queue parent.send_queue_len)) [
      | inl e ↦ rw e (Mute-refl t)
      | inr e ↦ rw e (refill_streams-Mute m.ws m.streams t)
    ]

pub close_stream-Mute :
    (parent : Parent) (k : ℕ) (remove_poll : Bool) (m : WebSocketManager) (t : Trace)
    → Mute t (close_stream parent k remove_poll m t).1
unfolding close_stream erase_fd sent bytes_read attempts
close_stream-Mute parent k remove_poll m t =
    let shut = send_close-Mute 0x02 k m.ws t in
    record {
      sends = λ ws j. ground (arith, shut.sends ws j);
      reads = λ fd. ground (arith, shut.reads fd);
      tries = ground (arith, shut.tries);
    }

close_streams-Mute :
    (parent : Parent) (ids : List ℕ) (m : WebSocketManager) (t : Trace)
    → Mute t (close_streams parent ids m t).1
unfolding close_streams
close_streams-Mute parent [] m t = Mute-refl t
close_streams-Mute parent (id ∷ ids) m t =
    let (m', t') = close_stream parent id true m t in
    Mute-trans (close_stream-Mute parent id true m t) (close_streams-Mute parent ids m' t')

pub force_close-Mute :
    (parent : Parent) (m : WebSocketManager) (t : Trace) → Mute t (force_close parent m t).1
unfolding force_close
force_close-Mute parent m t = close_streams-Mute parent (keys m.streams) _ t
