-- ===== src/Watcher.antt =====
-- `SystemWatcher` of src/websocketManager.h and src/websocketManager.cpp: the thread that reads the
-- target sockets, and the callbacks that it defers to the thread of the web sockets.
pub mod Reading
pub mod Owners
pub mod Held
pub mod Relay
pub mod Once
pub mod Fed
pub mod Unique
pub mod Watching
pub mod Deferring
pub mod Finds
pub mod Homes
use woeful.Base.{
  ℕ, zero, suc, ◌+◌, ◌-◌, ◌%◌, ◌^◌, Bool, true, false, not, ◌&&◌, ◌||◌, Option, none, some, List,
  [], ◌∷◌, ◌++◌, ◌==◌, ltb, if◌then◌else◌, Bytes, length,
}
use woeful.Base.Map.{Map, find, insert}
use woeful.Packets.{max_ws_frame, max_queue}
use woeful.System.Calls.{
  Os, Trace, SendStatus, backpressure, success, dropped, ReadResult, pipe_read, fd_read,
}
use woeful.System.{EpollWrapper, erase_fd, wake}
use woeful.Manager.{
  SocketStreamData, WebSocketManager, Parent, Task, send_data, close_stream, update_streams,
}

-- What the lambda of `watch` captures.
pub record Deferred : Type 0 where
  pub combined_buffer : Bytes
  pub to_close : Bool
  pub fd : ℕ

-- The object, with the queue of the loop that it defers to. A manager stands in `watched_sockets`
-- from its constructor to its destructor; the map holds its state.
pub record SystemWatcher : Type 0 where
  pub watched_sockets : Map WebSocketManager
  pub epoll : EpollWrapper
  pub send_queue_len : ℕ  -- size_t
  pub deconstructing : Bool
  pub deferred : List Deferred

abbrev pub parent_of : SystemWatcher → Parent
parent_of w = record { epoll = w.epoll; send_queue_len = w.send_queue_len }

-- The outcome of the inner loop of `watch`.
pub record ReadOut : Type 0 where
  pub combined_buffer : Bytes
  pub to_close : Bool
  pub trace : Trace

-- `do … while (true)` on fuel; `none` means that the fuel ran out.
unfoldable pub read_loop : Os → ℕ → ℕ → Bytes → Trace → Option ReadOut
read_loop os zero fd combined_buffer t = none
read_loop os (suc fuel) fd combined_buffer t =
    let answer = os.read t fd in
    let t' = fd_read fd answer ∷ t in
    elim answer [
      | ReadResult.count [] ↦
          some (record { combined_buffer = combined_buffer; to_close = true; trace = t' })
      | ReadResult.again ↦
          some (record { combined_buffer = combined_buffer; to_close = false; trace = t' })
      | ReadResult.failed ↦
          some (record { combined_buffer = combined_buffer; to_close = true; trace = t' })
      | ReadResult.count (b ∷ bs) ↦
          let combined = combined_buffer ++ b ∷ bs in
          elim (ltb max_ws_frame (length combined)) [
            | true ↦ some (record { combined_buffer = combined; to_close = false; trace = t' })
            | false ↦ read_loop os fuel fd combined t'
          ]
    ]

-- What follows the inner loop.
unfoldable pub defer_read : ℕ → ReadOut → SystemWatcher → SystemWatcher × Trace
unfolding erase_fd
defer_read fd out w = (
  record w {
    send_queue_len = (w.send_queue_len + 1) % 2 ^ 64;
    deferred =
        w.deferred
        ++ record { combined_buffer = out.combined_buffer; to_close = out.to_close; fd = fd } ∷ [];
  },
  if out.to_close then erase_fd w.epoll fd out.trace else out.trace,
)

-- The body of the loop over the events, for an event on `fd`.
unfoldable pub watch_event : Os → ℕ → ℕ → SystemWatcher → Trace → Option (SystemWatcher × Trace)
watch_event os fuel fd w t =
    if fd == w.epoll.read_pipe
    then some (w, pipe_read fd ∷ t)
    else elim (read_loop os fuel fd [] t) [ none ↦ none | some out ↦ some (defer_read fd out w) ]

unfoldable pub watch_events :
    Os → ℕ → List ℕ → SystemWatcher → Trace → Option (SystemWatcher × Trace)
watch_events os fuel [] w t = some (w, t)
watch_events os fuel (fd ∷ fds) w t = elim (watch_event os fuel fd w t) [
  | none ↦ none
  | some (w', t') ↦ watch_events os fuel fds w' t'
]

-- The events that the loop goes through: none if there is no count, and none if it is -1.
unfoldable pub reported : Option (Option (List ℕ)) → List ℕ
reported none = []
reported (some none) = []
reported (some (some fds)) = fds

-- One round of `while (true)` in `watch`, with the descriptors that were reported. A reading of one frame and a round per byte is fuel enough.
unfoldable pub watch_round : Os → List ℕ → SystemWatcher → Trace → Option (SystemWatcher × Trace)
watch_round os fds w t =
    if w.deconstructing then some (w, t) else watch_events os (max_ws_frame + 2) fds w t

-- The variables of the deferred callback, for the manager whose streams are looked through.
pub record Delivery : Type 0 where
  pub has_backpressure : Bool
  pub found_id : Option ℕ
  pub trace : Trace

-- The stream with the descriptor was found.
unfoldable pub deliver_one : Os → ℕ → ℕ → Bytes → Delivery → Delivery
unfolding send_data
deliver_one os ws stream_id bytes d =
    let (ret, t) = send_data os stream_id bytes ws d.trace in
    record {
      has_backpressure = elim ret [
        | backpressure ↦ true
        | success ↦ d.has_backpressure
        | dropped ↦ d.has_backpressure
      ];
      found_id = some stream_id;
      trace = t;
    }

-- The loop over the streams of a manager.
unfoldable pub deliver_streams : Os → ℕ → ℕ → Bytes → Map SocketStreamData → Delivery → Delivery
deliver_streams os ws fd bytes [] d = d
deliver_streams os ws fd bytes ((k, stream) ∷ streams) d =
    deliver_streams os ws fd bytes streams
      (if stream.fd == fd then deliver_one os ws k bytes d else d)

-- `found_manager` and `found_id`, which are set together.
abbrev pub Found : Type 0
Found = Option (ℕ × ℕ)

abbrev pub found_in : ℕ → Option ℕ → Found → Found
found_in manager none found = found
found_in manager (some stream_id) found = some (manager, stream_id)

-- The loop over the managers.
unfoldable pub deliver_managers :
    Os → ℕ → Bytes → Map WebSocketManager → Found → Trace → Map WebSocketManager × Found × Trace
deliver_managers os fd bytes [] found t = ([], found, t)
deliver_managers os fd bytes ((id, m) ∷ managers) found t =
    let d =
      deliver_streams os m.ws fd bytes m.streams
        (record { has_backpressure = m.has_backpressure; found_id = none; trace = t }) in
    let rest = deliver_managers os fd bytes managers (found_in id d.found_id found) d.trace in
    ((id, record m { has_backpressure = d.has_backpressure }) ∷ rest.0, rest.1, rest.2)

-- `close_stream` of the found manager, if the read asked for it.
unfoldable pub close_found :
    Parent → Bool → Found → Map WebSocketManager → Trace → Map WebSocketManager × Trace
close_found parent false found managers t = (managers, t)
close_found parent true none managers t = (managers, t)
close_found parent true (some (id, stream_id)) managers t = elim (find id managers) [
  | none ↦ (managers, t)
  | some m ↦ let (m', t') = close_stream parent stream_id false m t in (insert id m' managers, t')
]

-- `update_streams` of every manager.
unfoldable pub update_managers :
    Parent → Map WebSocketManager → Trace → Map WebSocketManager × Trace
update_managers parent [] t = ([], t)
update_managers parent ((id, m) ∷ managers) t =
    let (m', t') = update_streams parent m t in
    let rest = update_managers parent managers t' in ((id, m') ∷ rest.0, rest.1)

-- The lambda that `watch` defers.
unfoldable pub run_deferred : Os → Deferred → SystemWatcher → Trace → SystemWatcher × Trace
run_deferred os d w t =
    let (delivered, found, t1) =
      deliver_managers os d.fd d.combined_buffer w.watched_sockets none t in
    let (closed, t2) = close_found (parent_of w) d.to_close found delivered t1 in
    let len = (w.send_queue_len + 2 ^ 64 - 1) % 2 ^ 64 in
    let w' : SystemWatcher = record w { watched_sockets = closed; send_queue_len = len } in
    let updated = update_managers (parent_of w') closed t2 in
    if ltb len max_queue then (record w' { watched_sockets = updated.0 }, updated.1) else (w', t2)
