-- ===== src/Downlink/Ends.antt =====
-- The end of a stream whose target closed its side.
use woeful.Base.{
  ℕ, ◌+◌, ◌-◌, ◌%◌, ◌^◌, ◌≡◌, refl, sym, ap, ◌∙◌, subst, inl, inr, ◌==◌, ==_self, ◌||◌, Bool-cases,
  true, false, none, some, List, [], ◌∷◌, ◌++◌, append_assoc, ltb, arith, Bytes, u32_bytes,
}
use woeful.Base.Map.{Map, find, erase, find-insert, find-erase}
use woeful.Packets.{packet_data, packet_close, max_queue, buffer_count}
use woeful.System.Calls.{Os, Trace, ws_sent, fd_closed, is_open, SocketIsFresh}
use woeful.Config.{WoefulConfig}
use woeful.System.{EpollWrapper}
use woeful.Manager.{
  SocketStreamData, WebSocketManager, Parent, refill_streams, update_streams, send_close,
  send_continue, fd_of, close_stream,
}
use woeful.Manager.Counting.{refill-find-none}
use woeful.Manager.Replies.{send_close_bytes}
use woeful.Watcher.{
  Deferred, SystemWatcher, parent_of, deliver_managers, close_found, update_managers, run_deferred,
}
use woeful.Watcher.Held.{IsHeld}
use woeful.Watcher.Unique.{deliver_managers-one}
use woeful.Server.{Server, on_deferred}
use woeful.Server.Steps.{Reach}
use woeful.Server.Background.{on_deferred-first}
use woeful.Server.Invariant.{Reach-IsSound}
use woeful.Downlink.Faithful.{Lives}
use woeful.Watcher.Finds.{deliver_managers-find, update_managers-find}

-- Calls in front of others, that open and close nothing.
record Adds (t t' : Trace) : Type 0 where
  pub later : Trace
  pub front : t' ≡ later ++ t
  pub opens : (fd : ℕ) → is_open fd t' ≡ is_open fd t

Adds-refl : (t : Trace) → Adds t t
Adds-refl t = record { later = []; front = refl; opens = λ fd. refl }

Adds-trans : {t u v : Trace} → Adds t u → Adds u v → Adds t v
Adds-trans {t} a b = record {
  later = b.later ++ a.later;
  front = b.front ∙ ap (λ x. b.later ++ x) a.front ∙ sym (append_assoc b.later a.later t);
  opens = λ fd. b.opens fd ∙ a.opens fd;
}

send_continue-Adds : (buffer k ws : ℕ) (t : Trace) → Adds t (send_continue buffer k ws t)
unfolding send_continue is_open
send_continue-Adds buffer k ws t = record { later = _ ∷ []; front = refl; opens = λ fd. refl }

refill_streams-Adds :
    (ws : ℕ) (streams : Map SocketStreamData) (t : Trace) → Adds t (refill_streams ws streams t).1
unfolding refill_streams
refill_streams-Adds ws [] t = Adds-refl t
refill_streams-Adds ws ((k, stream) ∷ streams) t = elim (Bool-cases (stream.buffer == 0)) [
  | inl e ↦
      rw (refill_streams, e)
        (Adds-trans (send_continue-Adds buffer_count k ws t)
          (refill_streams-Adds ws streams (send_continue buffer_count k ws t)))
  | inr e ↦ rw (refill_streams, e) (refill_streams-Adds ws streams t)
]

-- The renewal of credit opens, closes and removes nothing, and adds no stream.
update_streams-Adds :
    (parent : Parent) (m : WebSocketManager) (t : Trace)
    → Adds t (update_streams parent m t).1
      × ((k : ℕ) → find k m.streams ≡ none → find k (update_streams parent m t).0.streams ≡ none)
unfolding update_streams
update_streams-Adds parent m t =
    elim (Bool-cases (m.has_backpressure || ltb max_queue parent.send_queue_len)) [
      | inl e ↦ rw e (Adds-refl t, λ k h. h)
      | inr e ↦
          rw e (refill_streams-Adds m.ws m.streams t, λ k h. refill-find-none k m.ws m.streams t h)
    ]

update_managers-Adds :
    (parent : Parent) (managers : Map WebSocketManager) (t : Trace)
    → Adds t (update_managers parent managers t).1
unfolding update_managers
update_managers-Adds parent [] t = Adds-refl t
update_managers-Adds parent ((id, m) ∷ managers) t =
    Adds-trans (update_streams-Adds parent m t).0 (update_managers-Adds parent managers _)

-- The messages that the client gets: the data, then a CLOSE.
abbrev pub farewell : ℕ → ℕ → Bytes → Trace → Trace
farewell ws k bytes t =
    ws_sent ws (packet_close ∷ u32_bytes k ++ 0x02 ∷ [])
    ∷ ws_sent ws (packet_data ∷ u32_bytes k ++ bytes)
    ∷ t

-- The stream is gone, its descriptor is closed, and the client has got the last data and a CLOSE.
pub record Ended (id k ws fd : ℕ) (bytes : Bytes) (t : Trace) (managers : Map WebSocketManager)
    (t' : Trace) : Type 0 where
  pub manager : WebSocketManager
  pub found : find id managers ≡ some manager
  pub gone : find k manager.streams ≡ none
  pub later : Trace
  pub told : t' ≡ later ++ fd_closed fd ∷ farewell ws k bytes t
  pub shut : is_open fd t' ≡ false

-- After the loop over the managers, before the renewal of credit.
closed-Ended :
    (parent : Parent) (id k fd : ℕ) (bytes : Bytes) (m : WebSocketManager)
    (stream : SocketStreamData) (managers : Map WebSocketManager) (t : Trace)
    → find id managers ≡ some m
    → find k m.streams ≡ some stream
    → stream.fd ≡ fd
    → let (m', t') =
        close_found parent true
          (some (id, k))
          managers
          (ws_sent m.ws (packet_data ∷ u32_bytes k ++ bytes) ∷ t) in
      Ended id k m.ws fd bytes t m' t'
unfolding close_found close_stream is_open fd_of
closed-Ended parent id k fd bytes m stream managers t h g e =
    let own : fd_of k m.streams ≡ fd = rw (fd_of, g) e in
    let t1 = ws_sent m.ws (packet_data ∷ u32_bytes k ++ bytes) ∷ t in
    rw (close_found, h)
      (record {
        manager = record m { streams = erase k m.streams };
        found = find-insert id id _ managers ∙ rw (==_self id) refl;
        gone = find-erase k k m.streams ∙ rw (==_self k) refl;
        later = [];
        told =
            ap (λ x. fd_closed x ∷ send_close 0x02 k m.ws t1) own
            ∙ ap (λ x. fd_closed fd ∷ x) (send_close_bytes 0x02 k m.ws t1);
        shut = rw own (rw (==_self fd) refl);
      })

update-Ended :
    (parent : Parent) (id k ws fd : ℕ) (bytes : Bytes) (managers : Map WebSocketManager)
    (t t1 : Trace)
    → Ended id k ws fd bytes t managers t1
    → Ended id k ws fd bytes t
        (update_managers parent managers t1).0
        (update_managers parent managers t1).1
update-Ended parent id k ws fd bytes managers t t1 v =
    let (t', f) = update_managers-find parent id v.manager managers t1 v.found in
    let a = update_managers-Adds parent managers t1 in
    record {
      manager = _;
      found = f;
      gone = (update_streams-Adds parent v.manager t').1 k v.gone;
      later = a.later ++ v.later;
      told = a.front ∙ ap (λ x. a.later ++ x) v.told ∙ sym (append_assoc a.later v.later _);
      shut = a.opens fd ∙ v.shut;
    }

run_deferred-Ended :
    (os : Os) (d : Deferred) (w : SystemWatcher) (t : Trace) (id k : ℕ) (m : WebSocketManager)
    (stream : SocketStreamData)
    → IsHeld w.watched_sockets t
    → d.to_close ≡ true
    → find id w.watched_sockets ≡ some m
    → find k m.streams ≡ some stream
    → stream.fd ≡ d.fd
    → Ended id k m.ws d.fd d.combined_buffer t
        (run_deferred os d w t).0.watched_sockets
        (run_deferred os d w t).1
unfolding run_deferred
run_deferred-Ended os d w t id k m stream v c h g e =
    let one =
      deliver_managers-one os d.fd id k d.combined_buffer m stream w.watched_sockets none t
        (ground (arith, v.bound d.fd)) h g e in
    let (b, f) = deliver_managers-find os d.fd id d.combined_buffer m w.watched_sockets none t h in
    let delivered = (deliver_managers os d.fd d.combined_buffer w.watched_sockets none t).0 in
    let closed =
      closed-Ended (parent_of w) id k d.fd d.combined_buffer _ stream delivered t f g e in
    let len = (w.send_queue_len + 2 ^ 64 - 1) % 2 ^ 64 in
    let after =
      close_found (parent_of w) true (some (id, k)) delivered
        (ws_sent m.ws (packet_data ∷ u32_bytes k ++ d.combined_buffer) ∷ t) in
    let w' : SystemWatcher = record w { watched_sockets = after.0; send_queue_len = len } in
    rw (c, one.0, one.1)
      (elim (Bool-cases (ltb len max_queue)) [
        | inl p ↦
            rw p (
              update-Ended (parent_of w') id k m.ws d.fd d.combined_buffer after.0 t after.1 closed)
        | inr p ↦ rw p closed
      ])

-- In a state that the program reaches, let the oldest callback that waits be one that closes the
-- descriptor of a stream that is there, as the watcher defers it when the target closed its
-- side. After the turn of the loop that runs it, the stream is gone from its manager, its
-- descriptor is closed, and the calls that were made are, in order, one DATA message to its
-- client with what the callback had read, one CLOSE with the reason 2, the closing of the
-- descriptor, and what else the turn then calls. The condition is that `socket` never returns a
-- descriptor that is open.
pub on_deferred-Ended :
    (os : Os) (conf : WoefulConfig) (id k ws : ℕ) {epoll : EpollWrapper} (s : Server) (d : Deferred)
    (ds : List Deferred)
    → SocketIsFresh os
    → Reach os conf epoll s
    → s.watcher.deferred ≡ d ∷ ds
    → d.to_close ≡ true
    → Lives id k ws d.fd s
    → Ended id k ws d.fd d.combined_buffer s.trace
        (on_deferred os s).watcher.watched_sockets
        (on_deferred os s).trace
on_deferred-Ended os conf id k ws s d ds fresh r e c l =
    let w : SystemWatcher = record (s.watcher) { deferred = ds } in
    let held = (Reach-IsSound os conf fresh r).streams in
    let after = run_deferred os d w s.trace in
    rw (on_deferred-first os s d ds e) (
      subst (λ x. Ended id k x d.fd d.combined_buffer s.trace after.0.watched_sockets after.1)
        l.socket
        (run_deferred-Ended os d w s.trace id k l.manager l.stream held c l.found l.here
          l.descriptor))
