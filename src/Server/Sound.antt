-- ===== src/Server/Sound.antt =====
-- The invariant of the program's state.
use woeful.Base.{◌%◌, ◌^◌, ◌≡◌, arith, length}
use woeful.Base.Map.{Map}
use woeful.System.Calls.{Trace}
use woeful.Manager.{WebSocketManager}
use woeful.Watcher.Held.{IsHeld}
use woeful.Server.{Server}
use woeful.Server.Threads.{Quiet}

pub record IsSound (s : Server) : Type 0 where
  pub streams : IsHeld s.watcher.watched_sockets s.trace
  pub counted : s.watcher.send_queue_len ≡ length s.watcher.deferred % 2 ^ 64

pub Quiet-IsHeld :
    (managers : Map WebSocketManager) (t t' : Trace)
    → Quiet t t'
    → IsHeld managers t
    → IsHeld managers t'
Quiet-IsHeld managers t t' q v = record {
  entries = v.entries;
  distinct = v.distinct;
  bound = λ fd. ground (arith, q fd, v.bound fd);
}
