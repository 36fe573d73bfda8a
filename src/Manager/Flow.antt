-- ===== src/Manager/Flow.antt =====
-- Flow control: how the credit of a stream runs down, and when it is renewed.
use mathlib.Core.Option
use woeful.Base.{
  ℕ, suc, ◌-◌, ◌^◌, ◌≤◌, ◌<◌, ◌≡◌, ◌≢◌, ◌↔◌, ◌⊎◌, refl, sym, ap, ◌∙◌, Bool, true, false, ◌||◌, some,
  List, [], ◌∷◌, ◌++◌, map, append-nil, append_assoc, ◌==◌, ==_self, ltb, arith, if◌then◌else◌,
  length, All,
}
use woeful.Base.Map.{Map, find, insert, find-insert}
use woeful.Packets.{WispPacket, buffer_count, max_queue}
use woeful.System.Calls.{Trace}
use woeful.Manager.{
  SocketStreamData, WebSocketManager, Session, Parent, Task, count_message, handle_data,
  refill_streams, update_streams, send_continue,
}

-- A message on a stream that is there: the count, the task and the CONTINUE.
pub handle_data-known :
    (parent : Parent) (packet : WispPacket) (s : Session) (stream : SocketStreamData)
    → find packet.stream_id s.manager.streams ≡ some stream
    → let m = s.manager in
      let c = count_message parent m.has_backpressure stream in
      handle_data parent packet s ≡ (
        some c.0,
        record {
          manager = record m {
            streams = insert packet.stream_id (record stream { buffer = c.0 }) m.streams;
          };
          tasks = s.tasks ++ record { manager = m.socket_id; packet = packet } ∷ [];
          trace = if c.1 then send_continue buffer_count packet.stream_id m.ws s.trace else s.trace;
        },
      )
unfolding handle_data
handle_data-known parent packet s stream e = rw (e, handle_data) refl

-- For a stream that is not UDP and has a `uint32_t` credit, `handle_data` sends a CONTINUE
-- exactly when the last of the credit is used, there is backpressure, and the queue is below
-- MAX_QUEUE.
pub count_message-reset :
    (parent : Parent) (has_backpressure : Bool) (stream : SocketStreamData)
    → stream.buffer < 2 ^ 32
    → stream.stream_type ≢ 0x02
    → ((count_message parent has_backpressure stream).1 ≡ true)
      ↔ ((stream.buffer ≡ 1) × (has_backpressure ≡ true) × (parent.send_queue_len < max_queue))
unfolding count_message
count_message-reset parent has_backpressure stream h n = (λ e. ground arith, λ e. ground arith)

sub_twice : (n m : ℕ) → n - 1 - m ≡ n - suc m
sub_twice n m = omega arith

-- The messages of one stream, one after the other.
pub handle_all : Parent → List WispPacket → Session → Session
handle_all parent [] s = s
handle_all parent (p ∷ ps) s = handle_all parent ps (handle_data parent p s).1

abbrev pub tasks_of : ℕ → List WispPacket → List Task
tasks_of manager = map (λ p. record { manager = manager; packet = p })

-- What is left after one message, with no backpressure.
count_message-calm :
    (parent : Parent) (stream : SocketStreamData)
    → stream.buffer < 2 ^ 32
    → 0 < stream.buffer
    → stream.stream_type ≢ 0x02
    → count_message parent false stream ≡ (stream.buffer - 1, false)
unfolding count_message
count_message-calm parent stream h p n = ground arith

count_message-wraps :
    (parent : Parent) (has_backpressure : Bool) (stream : SocketStreamData)
    → stream.stream_type ≢ 0x02
    → stream.buffer ≡ 0
    → count_message parent has_backpressure stream ≡ (2 ^ 32 - 1, false)
unfolding count_message
count_message-wraps parent has_backpressure stream n z = ground arith

record Counted (k : ℕ) (packet : WispPacket) (stream : SocketStreamData) (s s' : Session)
    : Type 0 where
  left : find k s'.manager.streams ≡ some (record stream { buffer = stream.buffer - 1 })
  calm : s'.manager.has_backpressure ≡ false
  named : s'.manager.socket_id ≡ s.manager.socket_id
  handed : s'.tasks ≡ s.tasks ++ record { manager = s.manager.socket_id; packet = packet } ∷ []
  silent : s'.trace ≡ s.trace

handle_data-Counted :
    (parent : Parent) (p : WispPacket) (s : Session) (stream : SocketStreamData)
    → find p.stream_id s.manager.streams ≡ some stream
    → stream.stream_type ≢ 0x02
    → s.manager.has_backpressure ≡ false
    → 0 < stream.buffer
    → stream.buffer < 2 ^ 32
    → Counted p.stream_id p stream s (handle_data parent p s).1
handle_data-Counted parent p s stream e n b pos u =
    let c : count_message parent s.manager.has_backpressure stream ≡ (stream.buffer - 1, false) =
      ap (λ x. count_message parent x stream) b ∙ count_message-calm parent stream u pos n in
    rw (handle_data-known parent p s stream e, c)
      (record {
        left =
            find-insert p.stream_id p.stream_id _ s.manager.streams ∙ rw (==_self p.stream_id) refl;
        calm = b;
        named = refl;
        handed = refl;
        silent = refl;
      })

-- While the client reads fast enough (no backpressure), each of at most `stream.buffer` messages
-- of a stream that is not UDP takes one off its credit and is handed to the pool in order, and
-- no CONTINUE is sent, not even when the last of the credit is used.
pub handle_all-credit :
    (parent : Parent) (k : ℕ) (ps : List WispPacket) (s : Session) (stream : SocketStreamData)
    → find k s.manager.streams ≡ some stream
    → stream.stream_type ≢ 0x02
    → s.manager.has_backpressure ≡ false
    → All (λ p. p.stream_id ≡ k) ps
    → length ps ≤ stream.buffer
    → stream.buffer < 2 ^ 32
    → (find k (handle_all parent ps s).manager.streams
        ≡ some (record stream { buffer = stream.buffer - length ps }))
      × ((handle_all parent ps s).tasks ≡ s.tasks ++ tasks_of s.manager.socket_id ps)
      × ((handle_all parent ps s).trace ≡ s.trace)
unfolding handle_all
handle_all-credit parent k [] s stream e n b a l u = (ground arith, sym (append-nil s.tasks), refl)
handle_all-credit parent k (p ∷ ps) s stream e n b a l u =
    let found : find p.stream_id s.manager.streams ≡ some stream = rw a.0 e in
    let c = handle_data-Counted parent p s stream found n b (omega arith) u in
    let next = (handle_data parent p s).1 in
    let rest : SocketStreamData = record stream { buffer = stream.buffer - 1 } in
    let left : find k next.manager.streams ≡ some rest = rw (← a.0) c.left in
    let (credit, handed, silent) =
      handle_all-credit parent k ps next rest left n c.calm a.1 (omega arith) (omega arith) in
    (
      credit ∙ ap (λ x. some (record stream { buffer = x })) (sub_twice stream.buffer (length ps)),
      handed ∙ rw (c.handed, c.named) (append_assoc s.tasks _ _),
      silent ∙ c.silent,
    )

-- A message on a stream that is not UDP and has no credit left brings its credit to 2 ^ 32 - 1,
-- and no CONTINUE is sent.
pub handle_data-wraps :
    (parent : Parent) (p : WispPacket) (s : Session) (stream : SocketStreamData)
    → find p.stream_id s.manager.streams ≡ some stream
    → stream.stream_type ≢ 0x02
    → stream.buffer ≡ 0
    → (find p.stream_id (handle_data parent p s).1.manager.streams
        ≡ some (record stream { buffer = 2 ^ 32 - 1 }))
      × ((handle_data parent p s).1.trace ≡ s.trace)
handle_data-wraps parent p s stream e n z =
    let c = count_message-wraps parent s.manager.has_backpressure stream n z in
    rw (handle_data-known parent p s stream e, c)
      (
        find-insert p.stream_id p.stream_id _ s.manager.streams ∙ rw (==_self p.stream_id) refl,
        refl,
      )

-- A stream with its credit renewed.
unfoldable pub topped_up : SocketStreamData → SocketStreamData
topped_up stream = if stream.buffer == 0 then record stream { buffer = buffer_count } else stream

-- The streams without credit, in the order of the map.
pub starved : Map SocketStreamData → List ℕ
starved [] = []
starved ((k, stream) ∷ streams) =
    if stream.buffer == 0 then k ∷ starved streams else starved streams

-- A CONTINUE for each.
pub grants : ℕ → List ℕ → Trace → Trace
grants ws [] t = t
grants ws (k ∷ ks) t = grants ws ks (send_continue buffer_count k ws t)

pub refill_streams-find :
    (ws j : ℕ) (streams : Map SocketStreamData) (t : Trace)
    → find j (refill_streams ws streams t).0 ≡ Option.map topped_up (find j streams)
unfolding refill_streams find topped_up
refill_streams-find ws j [] t = refl
refill_streams-find ws j ((k, stream) ∷ streams) t = ground (
  arith,
  refill_streams-find ws j streams (send_continue buffer_count k ws t),
  refill_streams-find ws j streams t,
)

refill_streams-grants :
    (ws : ℕ) (streams : Map SocketStreamData) (t : Trace)
    → (refill_streams ws streams t).1 ≡ grants ws (starved streams) t
unfolding refill_streams starved grants
refill_streams-grants ws [] t = refl
refill_streams-grants ws ((k, stream) ∷ streams) t = ground (
  arith,
  refill_streams-grants ws streams (send_continue buffer_count k ws t),
  refill_streams-grants ws streams t,
)

-- With no backpressure and a queue not above MAX_QUEUE, `update_streams` renews the credit of
-- exactly the streams that have none, with one CONTINUE for each in the order of the map, and
-- leaves the other streams alone.
pub update_streams-grants :
    (parent : Parent) (m : WebSocketManager) (t : Trace)
    → m.has_backpressure ≡ false
    → parent.send_queue_len ≤ max_queue
    → ((j : ℕ)
        → find j (update_streams parent m t).0.streams ≡ Option.map topped_up (find j m.streams))
      × ((update_streams parent m t).1 ≡ grants m.ws (starved m.streams) t)
unfolding update_streams
update_streams-grants parent m t b l =
    let off : (m.has_backpressure || ltb max_queue parent.send_queue_len) ≡ false = ground arith in
    rw off (λ j. refill_streams-find m.ws j m.streams t, refill_streams-grants m.ws m.streams t)

-- With backpressure, or a queue above its limit, it does nothing.
pub update_streams-waits :
    (parent : Parent) (m : WebSocketManager) (t : Trace)
    → (m.has_backpressure ≡ true) ⊎ (max_queue < parent.send_queue_len)
    → update_streams parent m t ≡ (m, t)
unfolding update_streams
update_streams-waits parent m t h = ground arith
