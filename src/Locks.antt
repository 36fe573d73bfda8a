-- ===== src/Locks.antt =====
-- The locks of src/websocketManager.h and src/websocketManager.cpp: what each method locks, for how
-- long, and in which order, and where it uses what the lock is for. The program is built without
-- PCAP.
pub mod Threads
pub mod Tidy
pub mod Tasks
pub mod Progress
pub mod Blocks
pub mod Apart
pub mod Races
pub mod Deletion
use woeful.Base.{
  ℕ, zero, suc, Bool, true, false, Option, none, some, List, [], ◌∷◌, ◌++◌, ◌==◌, ltb, ◌+◌, ◌-◌,
  ◌%◌, ◌^◌, if◌then◌else◌, Result, ok, fault, Bytes,
}
use woeful.Base.Map.{Map, keys}
use woeful.Config.{WoefulConfig}
use woeful.Packets.{WispPacket, parse_wisp, packet_connect, packet_data, packet_info, max_queue}
use woeful.System.Calls.{Os, Trace}
use woeful.Manager.{WebSocketManager, Session, Parent, handle_connect, close_info}
use woeful.Watcher.{Deferred, SystemWatcher, Found, parent_of, deliver_managers, close_found}
use woeful.Server.{Server, manager_of}

-- `watched_sockets_lock`, and the `stream_lock` of the manager with an id.
pub data Lock : Type 0 where
  watched_sockets_lock : Lock
  stream_lock : ℕ → Lock

-- `std::lock_guard` and `std::unique_lock`, or `std::shared_lock`.
pub data Mode : Type 0 where
  exclusive : Mode
  shared : Mode

pub data Action : Type 0 where
  acquire : Mode → Lock → Action
  release : Lock → Action
  -- what the lock protects is changed, or only read: the map, not the fields of its entries
  access : Mode → Lock → Action
  -- what the lock protects is destroyed, and the lock with it: nothing is locked for that
  destroy : Lock → Action
  -- a task of a manager waits in `poll`, without a time limit
  poll : ℕ → Action

-- A lock that is held for a to of what it protects.
abbrev pub guarded : Mode → Mode → Lock → List Action
guarded mode to lock = acquire mode lock ∷ access to lock ∷ release lock ∷ []

-- The end of the constructor.
unfoldable pub construct_locks : List Action
construct_locks = guarded exclusive exclusive watched_sockets_lock

-- `delete` destroys the members behind the body of the destructor: the map of the streams, and
-- its lock.
unfoldable pub destruct_locks : ℕ → List Action
destruct_locks manager =
    guarded exclusive exclusive watched_sockets_lock ++ destroy (stream_lock manager) ∷ []

unfoldable pub close_stream_locks : ℕ → List Action
close_stream_locks manager = guarded exclusive exclusive (stream_lock manager)

-- `force_close`: the ids under the lock, then a `close_stream` for each.
unfoldable pub close_streams_locks : ℕ → List ℕ → List Action
unfolding close_stream_locks
close_streams_locks manager [] = []
close_streams_locks manager (id ∷ ids) =
    close_stream_locks manager ++ close_streams_locks manager ids

unfoldable pub force_close_locks : WebSocketManager → List Action
force_close_locks m =
    guarded exclusive shared (stream_lock m.socket_id)
    ++ close_streams_locks m.socket_id (keys m.streams)

-- `handle_connect` locks only once it has a socket, for the entry and the `wake`.
unfoldable pub handle_connect_locks :
    Os → WoefulConfig → Parent → WispPacket → Session → List Action
handle_connect_locks os conf parent packet s = elim (handle_connect os conf parent packet s) [
  | fault f ↦ []
  | ok (none, after) ↦ []
  | ok (some stream_id, after) ↦ guarded exclusive exclusive (stream_lock s.manager.socket_id)
]

unfoldable pub handle_data_locks : WebSocketManager → List Action
handle_data_locks m = guarded shared shared (stream_lock m.socket_id)

unfoldable pub dispatch_locks : Os → WoefulConfig → Parent → WispPacket → Session → List Action
dispatch_locks os conf parent packet s =
    if packet.packet_type == packet_connect
    then handle_connect_locks os conf parent packet s
    else if packet.packet_type == packet_data
    then handle_data_locks s.manager
    else []

unfoldable pub receive_locks : Os → WoefulConfig → Parent → Bytes → Session → List Action
receive_locks os conf parent view s = elim (parse_wisp view) [
  | fault f ↦ []
  | ok packet ↦
      if packet.packet_type == packet_info
      then []
      else dispatch_locks os conf parent packet (record s { manager = close_info s.manager })
]

unfoldable pub update_streams_locks : ℕ → List Action
update_streams_locks manager = guarded shared shared (stream_lock manager)

-- The lambda that `handle_data` submits: the lock is held over all rounds of the loop. Each looks
-- the stream up, and waits in `poll`. What `poll` and `write` answer decides whether another round
-- follows (Locks/Threads.antt) or the lock is given back.
unfoldable pub write_loop_locks : ℕ → List Action
write_loop_locks manager =
    access shared (stream_lock manager) ∷ poll manager ∷ release (stream_lock manager) ∷ []

-- The rest of a round behind a `poll` that succeeded, if `write` gives EAGAIN: the stream is looked
-- up for `write`, and the next round follows.
unfoldable pub write_again_locks : ℕ → List Action
unfolding write_loop_locks
write_again_locks manager = access shared (stream_lock manager) ∷ write_loop_locks manager

unfoldable pub run_task_locks : ℕ → List Action
run_task_locks manager = acquire shared (stream_lock manager) ∷ write_loop_locks manager

-- The loop of the deferred callback over the managers.
unfoldable pub deliver_managers_locks : Map WebSocketManager → List Action
deliver_managers_locks [] = []
deliver_managers_locks ((id, m) ∷ managers) =
    guarded shared shared (stream_lock id) ++ deliver_managers_locks managers

unfoldable pub close_found_locks : Bool → Found → List Action
close_found_locks false found = []
close_found_locks true none = []
close_found_locks true (some (id, stream_id)) = close_stream_locks id

unfoldable pub update_managers_locks : Map WebSocketManager → List Action
update_managers_locks [] = []
update_managers_locks ((id, m) ∷ managers) =
    update_streams_locks id ++ update_managers_locks managers

-- The lambda that `watch` defers holds `watched_sockets_lock` to its end.
unfoldable pub run_deferred_locks : Os → Deferred → SystemWatcher → Trace → List Action
run_deferred_locks os d w t =
    let (delivered, found, t1) =
      deliver_managers os d.fd d.combined_buffer w.watched_sockets none t in
    let (closed, t2) = close_found (parent_of w) d.to_close found delivered t1 in
    let len = (w.send_queue_len + 2 ^ 64 - 1) % 2 ^ 64 in
    acquire exclusive watched_sockets_lock
      ∷ access shared watched_sockets_lock
      ∷ deliver_managers_locks w.watched_sockets
    ++ close_found_locks d.to_close found
    ++ (if ltb len max_queue then update_managers_locks closed else [])
    ++ release watched_sockets_lock ∷ []

-- What the main thread runs.
pub data Callback : Type 0 where
  open_callback : ℕ → Callback
  message_callback : ℕ → Bytes → Callback
  drain_callback : ℕ → Callback
  close_callback : ℕ → Callback
  deferred_callback : Callback

unfoldable pub callback_locks : Os → WoefulConfig → Callback → Server → List Action
callback_locks os conf (open_callback ws) s = construct_locks
callback_locks os conf (message_callback ws message) s = elim (manager_of s ws) [
  | fault f ↦ []
  | ok m ↦
      receive_locks os conf (parent_of s.watcher) message
        (record { manager = m; tasks = s.tasks; trace = s.trace })
]
callback_locks os conf (drain_callback ws) s = elim (manager_of s ws) [
  | fault f ↦ []
  | ok m ↦ update_streams_locks m.socket_id
]
callback_locks os conf (close_callback ws) s = elim (manager_of s ws) [
  | fault f ↦ []
  | ok m ↦ force_close_locks m ++ destruct_locks m.socket_id
]
callback_locks os conf deferred_callback s = elim s.watcher.deferred [
  | [] ↦ []
  | d ∷ ds ↦ run_deferred_locks os d (record (s.watcher) { deferred = ds }) s.trace
]
