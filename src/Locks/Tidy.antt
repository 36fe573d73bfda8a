-- ===== src/Locks/Tidy.antt =====
-- A callback gives back every lock that it takes, and asks for none that it has.
use woeful.Base.{
  ℕ, ◌≡◌, refl, subst, sym, append_assoc, ==_self, Bool, Bool-cases, Result-cases, Bytes, inl, inr,
  true, false, none, some, List, [], ◌∷◌, ◌++◌, ◌==◌, if◌then◌else◌, ltb, ◌+◌, ◌-◌, ◌%◌, ◌^◌,
}
use woeful.Base.Map.{Map, keys}
use woeful.Config.{WoefulConfig}
use woeful.Packets.{WispPacket, parse_wisp, packet_connect, packet_data, packet_info, max_queue}
use woeful.System.Calls.{Os, Trace}
use woeful.Manager.{WebSocketManager, Session, Parent, handle_connect, close_info}
use woeful.Watcher.{Deferred, SystemWatcher, Found, parent_of, deliver_managers, close_found}
use woeful.Server.{Server, manager_of}
use woeful.Locks.{
  Lock, watched_sockets_lock, stream_lock, Mode, exclusive, shared, Action, destroy, guarded,
  construct_locks, destruct_locks, close_stream_locks, close_streams_locks, force_close_locks,
  handle_connect_locks, handle_data_locks, dispatch_locks, receive_locks, update_streams_locks,
  deliver_managers_locks, close_found_locks, update_managers_locks, run_deferred_locks, Callback,
  open_callback, message_callback, drain_callback, close_callback, deferred_callback,
  callback_locks,
}
use woeful.Locks.Threads.{
  Held, same_lock, conflicts, allows, drop_lock, after, serves, covers, covered,
}

-- The actions run through from what is held, use nothing without its lock, and end with nothing held.
abbrev pub IsTidy : Held → List Action → Type 0
IsTidy held [] = held ≡ []
IsTidy held (action ∷ rest) =
    ((allows held action ≡ true) × (covered held action ≡ true)) × IsTidy (after action held) rest

-- A block of actions that leaves the locks as they were.
abbrev IsBalanced : Held → List Action → Type 0
IsBalanced held block = (rest : List Action) → IsTidy held rest → IsTidy held (block ++ rest)

pub same_lock_self : (lock : Lock) → same_lock lock lock ≡ true
unfolding same_lock
same_lock_self watched_sockets_lock = refl
same_lock_self (stream_lock i) = ==_self i

append-IsBalanced :
    (held : Held) (a b : List Action)
    → IsBalanced held a
    → IsBalanced held b
    → IsBalanced held (a ++ b)
append-IsBalanced held a b p q rest t =
    subst (IsTidy held) (sym (append_assoc a b rest)) (p (b ++ rest) (q rest t))

guarded-IsBalanced :
    (held : Held) (mode to : Mode) (lock : Lock)
    → serves mode to ≡ true
    → conflicts mode lock held ≡ false
    → IsBalanced held (guarded mode to lock)
unfolding allows after drop_lock covered covers
guarded-IsBalanced held mode to lock enough h rest t = (
  (rw h refl, refl),
  ((refl, rw (same_lock_self lock, enough) refl), ((refl, refl), rw (same_lock_self lock) t)),
)

-- What the main thread holds where a manager is locked: nothing, or the lock of the map.
module _ (held : Held)
    (quiet : (mode : Mode) (id : ℕ) → conflicts mode (stream_lock id) held ≡ false) where
  close_streams-IsBalanced : (id : ℕ) (ids : List ℕ) → IsBalanced held (close_streams_locks id ids)
  unfolding close_streams_locks close_stream_locks
  close_streams-IsBalanced id [] rest t = t
  close_streams-IsBalanced id (i ∷ ids) rest t =
      guarded-IsBalanced held exclusive exclusive (stream_lock id) refl (quiet exclusive id) _
        (close_streams-IsBalanced id ids rest t)

  deliver_managers-IsBalanced :
      (managers : Map WebSocketManager) → IsBalanced held (deliver_managers_locks managers)
  unfolding deliver_managers_locks
  deliver_managers-IsBalanced [] rest t = t
  deliver_managers-IsBalanced ((id, m) ∷ managers) rest t =
      guarded-IsBalanced held shared shared (stream_lock id) refl (quiet shared id) _
        (deliver_managers-IsBalanced managers rest t)

  update_managers-IsBalanced :
      (managers : Map WebSocketManager) → IsBalanced held (update_managers_locks managers)
  unfolding update_managers_locks update_streams_locks
  update_managers-IsBalanced [] rest t = t
  update_managers-IsBalanced ((id, m) ∷ managers) rest t =
      guarded-IsBalanced held shared shared (stream_lock id) refl (quiet shared id) _
        (update_managers-IsBalanced managers rest t)

  close_found-IsBalanced :
      (to_close : Bool) (found : Found) → IsBalanced held (close_found_locks to_close found)
  unfolding close_found_locks close_stream_locks
  close_found-IsBalanced false found rest t = t
  close_found-IsBalanced true none rest t = t
  close_found-IsBalanced true (some (id, k)) rest t =
      guarded-IsBalanced held exclusive exclusive (stream_lock id) refl (quiet exclusive id) rest t

quiet_map :
    (mode : Mode) (id : ℕ)
    → conflicts mode (stream_lock id) ((exclusive, watched_sockets_lock) ∷ []) ≡ false
unfolding conflicts same_lock
quiet_map mode id = refl

quiet_free : (mode : Mode) (id : ℕ) → conflicts mode (stream_lock id) [] ≡ false
unfolding conflicts
quiet_free mode id = refl

updates-IsBalanced :
    (few : Bool) (managers : Map WebSocketManager)
    → IsBalanced
        ((exclusive, watched_sockets_lock) ∷ [])
        (if few then update_managers_locks managers else [])
updates-IsBalanced true managers =
    update_managers-IsBalanced ((exclusive, watched_sockets_lock) ∷ []) quiet_map managers
updates-IsBalanced false managers = λ rest t. t

run_deferred-IsTidy :
    (os : Os) (d : Deferred) (w : SystemWatcher) (t : Trace)
    → IsTidy [] (run_deferred_locks os d w t)
unfolding run_deferred_locks allows after conflicts drop_lock same_lock covered covers
run_deferred-IsTidy os d w t =
    let r = deliver_managers os d.fd d.combined_buffer w.watched_sockets none t in
    let closed = close_found (parent_of w) d.to_close r.1 r.0 r.2 in
    let len = (w.send_queue_len + 2 ^ 64 - 1) % 2 ^ 64 in
    let inside : Held = (exclusive, watched_sockets_lock) ∷ [] in
    let upto =
      append-IsBalanced inside (deliver_managers_locks w.watched_sockets)
        (close_found_locks d.to_close r.1)
        (deliver_managers-IsBalanced inside quiet_map w.watched_sockets)
        (close_found-IsBalanced inside quiet_map d.to_close r.1) in
    (
      (refl, refl),
      (
        (refl, refl),
        append-IsBalanced inside _ _ upto (updates-IsBalanced (ltb len max_queue) closed.0) _
            ((refl, refl), refl),
      ),
    )

guarded-IsTidy :
    (mode to : Mode) (lock : Lock) → serves mode to ≡ true → IsTidy [] (guarded mode to lock)
unfolding conflicts
guarded-IsTidy mode to lock enough = guarded-IsBalanced [] mode to lock enough refl [] refl

handle_connect-IsTidy :
    (os : Os) (conf : WoefulConfig) (parent : Parent) (packet : WispPacket) (s : Session)
    → IsTidy [] (handle_connect_locks os conf parent packet s)
unfolding handle_connect_locks
handle_connect-IsTidy os conf parent packet s =
    elim (Result-cases (handle_connect os conf parent packet s)) [
      | inl (f, e) ↦ rw (e, handle_connect_locks) refl
      | inr ((none, s'), e) ↦ rw (e, handle_connect_locks) refl
      | inr ((some k, s'), e) ↦
          rw (e, handle_connect_locks)
            (guarded-IsTidy exclusive exclusive (stream_lock s.manager.socket_id) refl)
    ]

dispatch-IsTidy :
    (os : Os) (conf : WoefulConfig) (parent : Parent) (packet : WispPacket) (s : Session)
    → IsTidy [] (dispatch_locks os conf parent packet s)
unfolding dispatch_locks handle_data_locks
dispatch-IsTidy os conf parent packet s = elim (Bool-cases (packet.packet_type == packet_connect)) [
  | inl e ↦ rw e (handle_connect-IsTidy os conf parent packet s)
  | inr e ↦ elim (Bool-cases (packet.packet_type == packet_data)) [
    | inl d ↦ rw (e, d) (guarded-IsTidy shared shared (stream_lock s.manager.socket_id) refl)
    | inr d ↦ rw (e, d) refl
  ]
]

receive-IsTidy :
    (os : Os) (conf : WoefulConfig) (parent : Parent) (view : Bytes) (s : Session)
    → IsTidy [] (receive_locks os conf parent view s)
unfolding receive_locks
receive-IsTidy os conf parent view s = elim (Result-cases (parse_wisp view)) [
  | inl (f, e) ↦ rw (e, receive_locks) refl
  | inr (packet, e) ↦ elim (Bool-cases (packet.packet_type == packet_info)) [
    | inl i ↦ rw (e, receive_locks, i) refl
    | inr i ↦
        rw (e, receive_locks, i)
          (dispatch-IsTidy os conf parent packet (record s { manager = close_info s.manager }))
  ]
]

force_close-IsBalanced : (m : WebSocketManager) → IsBalanced [] (force_close_locks m)
unfolding force_close_locks
force_close-IsBalanced m =
    append-IsBalanced [] (guarded exclusive shared (stream_lock m.socket_id)) _
      (guarded-IsBalanced [] exclusive shared (stream_lock m.socket_id) refl
        (quiet_free exclusive m.socket_id))
      (close_streams-IsBalanced [] quiet_free m.socket_id (keys m.streams))

-- A web socket closes, up to the end of the destructor's body.
pub close-IsTidy :
    (m : WebSocketManager)
    → IsTidy [] (force_close_locks m ++ guarded exclusive exclusive watched_sockets_lock)
close-IsTidy m =
    force_close-IsBalanced m _ (guarded-IsTidy exclusive exclusive watched_sockets_lock refl)

destruct-IsTidy : (manager : ℕ) → IsTidy [] (destruct_locks manager)
unfolding destruct_locks conflicts allows covered after
destruct-IsTidy manager =
    guarded-IsBalanced [] exclusive exclusive watched_sockets_lock refl refl
      (destroy (stream_lock manager) ∷ []) ((refl, refl), refl)

pub callback-IsTidy :
    (os : Os) (conf : WoefulConfig) (callback : Callback) (s : Server)
    → IsTidy [] (callback_locks os conf callback s)
unfolding callback_locks construct_locks update_streams_locks
callback-IsTidy os conf (open_callback ws) s =
    guarded-IsTidy exclusive exclusive watched_sockets_lock refl
callback-IsTidy os conf (message_callback ws message) s = elim (Result-cases (manager_of s ws)) [
  | inl (f, e) ↦ rw (e, callback_locks) refl
  | inr (m, e) ↦
      rw (e, callback_locks)
        (receive-IsTidy os conf (parent_of s.watcher) message
          (record { manager = m; tasks = s.tasks; trace = s.trace }))
]
callback-IsTidy os conf (drain_callback ws) s = elim (Result-cases (manager_of s ws)) [
  | inl (f, e) ↦ rw (e, callback_locks) refl
  | inr (m, e) ↦
      rw (e, callback_locks) (guarded-IsTidy shared shared (stream_lock m.socket_id) refl)
]
callback-IsTidy os conf (close_callback ws) s = elim (Result-cases (manager_of s ws)) [
  | inl (f, e) ↦ rw (e, callback_locks) refl
  | inr (m, e) ↦ rw (e, callback_locks) (force_close-IsBalanced m _ (destruct-IsTidy m.socket_id))
]
callback-IsTidy os conf deferred_callback s = go s.watcher.deferred refl
  where
    go :
        (queue : List Deferred)
        → s.watcher.deferred ≡ queue
        → IsTidy [] (callback_locks os conf deferred_callback s)
    go [] e = rw (e, callback_locks) refl
    go (d ∷ ds) e =
        rw (e, callback_locks)
          (run_deferred-IsTidy os d (record (s.watcher) { deferred = ds }) s.trace)
