-- ===== src/Watcher/Fed.antt =====
-- Which streams are left without credit.
use woeful.Base.{
  ℕ, ◌+◌, ◌-◌, ◌%◌, ◌^◌, ◌<◌, ◌≤◌, ◌≡◌, ◌≢◌, refl, sym, subst, inl, inr, true, false, Bool-cases,
  ◌==◌, ◌||◌, ltb, List, [], ◌∷◌, All, arith, if◌then◌else◌,
}
use woeful.Base.Map.{Map}
use woeful.Packets.{max_queue, buffer_count}
use woeful.System.Calls.{Os, Trace}
use woeful.Manager.{
  SocketStreamData, WebSocketManager, Parent, refill_streams, update_streams, send_continue,
}
use woeful.Watcher.{
  Deferred, SystemWatcher, parent_of, deliver_managers, close_found, update_managers, run_deferred,
}

-- Without backpressure, every stream of the manager has credit.
abbrev pub IsFed : ℕ × WebSocketManager → Type 0
IsFed e = e.1.has_backpressure ≡ false → All (λ p. p.1.buffer ≢ 0) e.1.streams

refill_streams-fed :
    (ws : ℕ) (streams : Map SocketStreamData) (t : Trace)
    → All (λ p. p.1.buffer ≢ 0) (refill_streams ws streams t).0
unfolding refill_streams
refill_streams-fed ws [] t = tt
refill_streams-fed ws ((k, stream) ∷ streams) t = elim (Bool-cases (stream.buffer == 0)) [
  | inl e ↦
      rw (refill_streams, e)
        ((λ p. omega arith), refill_streams-fed ws streams (send_continue buffer_count k ws t))
  | inr e ↦ rw (refill_streams, e) ((λ p. ground (arith, e)), refill_streams-fed ws streams t)
]

update_streams-IsFed :
    (parent : Parent) (id : ℕ) (m : WebSocketManager) (t : Trace)
    → parent.send_queue_len ≤ max_queue
    → IsFed (id, (update_streams parent m t).0)
unfolding update_streams
update_streams-IsFed parent id m t l =
    elim (Bool-cases (m.has_backpressure || ltb max_queue parent.send_queue_len)) [
      | inl e ↦ rw e (λ b. ground arith)
      | inr e ↦ rw e (λ b. refill_streams-fed m.ws m.streams t)
    ]

update_managers-IsFed :
    (parent : Parent) (managers : Map WebSocketManager) (t : Trace)
    → parent.send_queue_len ≤ max_queue
    → All IsFed (update_managers parent managers t).0
unfolding update_managers
update_managers-IsFed parent [] t l = tt
update_managers-IsFed parent ((id, m) ∷ managers) t l = (
  update_streams-IsFed parent id m t l,
  update_managers-IsFed parent managers (update_streams parent m t).1 l,
)

pub run_deferred-IsFed :
    (os : Os) (d : Deferred) (w : SystemWatcher) (t : Trace)
    → (w.send_queue_len + 2 ^ 64 - 1) % 2 ^ 64 < max_queue
    → All IsFed (run_deferred os d w t).0.watched_sockets
unfolding run_deferred
run_deferred-IsFed os d w t l =
    let r = deliver_managers os d.fd d.combined_buffer w.watched_sockets woeful.Base.none t in
    let closed = close_found (parent_of w) d.to_close r.1 r.0 r.2 in
    let len = (w.send_queue_len + 2 ^ 64 - 1) % 2 ^ 64 in
    let w' : SystemWatcher = record w { watched_sockets = closed.0; send_queue_len = len } in
    let low : ltb len max_queue ≡ true = ground arith in
    rw low (update_managers-IsFed (parent_of w') closed.0 closed.1 (omega (arith, l)))
