-- ===== src/Server.antt =====
-- src/server.cpp: the globals and the callbacks that uWebSockets calls.
pub mod Main
pub mod Steps
pub mod Start
pub mod Threads
pub mod Sound
pub mod Callbacks
pub mod Background
pub mod Invariant
pub mod Credit
pub mod Tasks
pub mod Uplink
pub mod Moves
pub mod Alive
pub mod Homing
pub mod Answers
pub mod Gone
pub mod Closing
pub mod Covered
pub mod Watching
use woeful.Base.{
  ℕ, zero, suc, ◌+◌, ◌-◌, ◌*◌, ◌%◌, ◌^◌, Bool, true, false, Option, none, some, List, [], ◌∷◌, ◌++◌,
  ◌==◌, ltb, ◌≡◌, if◌then◌else◌, Result, ok, fault, ◌>>=◌, or_fault, dangling, Bytes, bytes_eq,
  codes,
}
use woeful.Base.Map.{Map, find, insert, erase}
use woeful.Config.{
  BlockType, WoefulConfig, default_config, Expected, value, unexpected, Tinyxml, read_config,
  get_conf, set_conf,
}
use woeful.System.Calls.{Os, Trace}
use woeful.System.{EpollWrapper, wake, wait, open_epoll, close_epoll}
use woeful.Manager.{
  WebSocketManager, Task, Session, construct, receive, update_streams, force_close, run_task,
}
use woeful.Watcher.{Deferred, SystemWatcher, parent_of, reported, watch_round, run_deferred}

-- `PerSocketData`: the id of the manager, which stands for the pointer to it too.
abbrev pub PerSocketData : Type 0
PerSocketData = ℕ

-- The state of the process.
pub record Server : Type 0 where
  pub next_id : ℕ  -- `id`, a size_t
  pub watcher : SystemWatcher
  pub user_data : Map PerSocketData
  pub tasks : List Task
  pub interrupted : Bool
  pub closed : Bool
  pub trace : Trace

-- `ws->getUserData()->manager`
unfoldable pub manager_of : Server → ℕ → Result WebSocketManager
manager_of s ws = do
  id ← or_fault (find ws s.user_data) dangling
  or_fault (find id s.watcher.watched_sockets) dangling

-- The manager after a method: it is the entry of its id.
unfoldable pub put_manager : WebSocketManager → SystemWatcher → SystemWatcher
put_manager m w = record w { watched_sockets = insert m.socket_id m w.watched_sockets }

-- The destructor of the manager.
unfoldable pub remove_manager : WebSocketManager → SystemWatcher → SystemWatcher
remove_manager m w = record w { watched_sockets = erase m.socket_id w.watched_sockets }

-- `.open`
unfoldable pub on_open : ℕ → Server → Server
unfolding put_manager
on_open ws s =
    let (m, t) = construct ws s.next_id s.trace in
    record s {
      next_id = (s.next_id + 1) % 2 ^ 64;
      watcher = put_manager m s.watcher;
      user_data = insert ws s.next_id s.user_data;
      trace = t;
    }

-- `.message`
unfoldable pub on_message : Os → WoefulConfig → ℕ → Bytes → Server → Result Server
unfolding manager_of put_manager
on_message os conf ws message s = do
  m ← manager_of s ws
  after ←
      receive os conf (parent_of s.watcher) message
        (record { manager = m; tasks = s.tasks; trace = s.trace })
  ok (record s {
    watcher = put_manager after.manager s.watcher;
    tasks = after.tasks;
    trace = after.trace;
  })

-- `.drain`
unfoldable pub on_drain : ℕ → Server → Result Server
unfolding manager_of put_manager wake
on_drain ws s = do
  m ← manager_of s ws
  let updated = update_streams (parent_of s.watcher) (record m { has_backpressure = false }) s.trace
  ok (record s {
    watcher = put_manager updated.0 s.watcher;
    trace = wake s.watcher.epoll updated.1;
  })

-- `.close`: `force_close`, then `delete`.
unfoldable pub on_close : ℕ → Server → Result Server
unfolding manager_of remove_manager
on_close ws s = do
  m ← manager_of s ws
  let forced = force_close (parent_of s.watcher) m s.trace
  ok (record s { watcher = remove_manager m s.watcher; trace = forced.1 })

-- A round of the watcher thread, with what `epoll_wait` answers; `none` means that a loop ran out of fuel.
unfoldable pub on_events : Os → Option (List ℕ) → Server → Option Server
on_events os answer s = elim (watch_round os (reported (wait answer)) s.watcher s.trace) [
  | none ↦ none
  | some (w, t) ↦ some (record s { watcher = w; trace = t })
]

-- The loop runs the oldest deferred callback.
unfoldable pub on_deferred : Os → Server → Server
on_deferred os s = elim s.watcher.deferred [
  | [] ↦ s
  | d ∷ ds ↦
      let (w, t) = run_deferred os d (record (s.watcher) { deferred = ds }) s.trace in
      record s { watcher = w; trace = t }
]

-- The task in a place of the queue, and the queue without it.
unfoldable pub take_task : ℕ → List Task → Option (Task × List Task)
take_task i [] = none
take_task zero (task ∷ tasks) = some (task, tasks)
take_task (suc i) (task ∷ tasks) = elim (take_task i tasks) [
  | none ↦ none
  | some (taken, rest) ↦ some (taken, task ∷ rest)
]

-- A thread of the pool runs a task. The pool starts the tasks in the order of the queue, but its
-- threads run side by side, so any of them may come to write first: `i` is the place of the task.
-- The manager may be gone by then.
unfoldable pub on_task : Os → ℕ → ℕ → Server → Result (Option Server)
on_task os fuel i s = elim (take_task i s.tasks) [
  | none ↦ ok (some s)
  | some (task, tasks) ↦ do
    m ← or_fault (find task.manager s.watcher.watched_sockets) dangling
    t ← run_task os fuel task.packet m s.trace
    ok (elim t [ none ↦ none | some t' ↦ some (record s { tasks = tasks; trace = t' }) ])
]

-- `int_handler`, and the post handler, which closes the app once for each interrupt.
unfoldable pub int_handler : Server → Server
int_handler s = record s { interrupted = true }

unfoldable pub post_handler : Server → Server
post_handler s = if s.interrupted then record s { closed = true; interrupted = false } else s

-- The globals before `main`, with the descriptors that the epoll wrapper got.
unfoldable pub init : EpollWrapper → Server
unfolding open_epoll
init epoll = record {
  next_id = 0;
  watcher = record {
    watched_sockets = [];
    epoll = epoll;
    send_queue_len = 0;
    deconstructing = false;
    deferred = [];
  };
  user_data = [];
  tasks = [];
  interrupted = false;
  closed = false;
  trace = open_epoll epoll [];
}

-- `~SystemWatcher`, and then the members' destructors.
unfoldable pub shut_down : Server → Server
unfolding wake close_epoll
shut_down s = record s {
  watcher = record (s.watcher) { deconstructing = true };
  trace = close_epoll s.watcher.epoll (wake s.watcher.epoll s.trace);
}
