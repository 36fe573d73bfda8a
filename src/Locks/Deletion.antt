-- ===== src/Locks/Deletion.antt =====
-- `delete` of a manager, in the close callback of src/server.cpp, while a task of it runs.
use woeful.Base.{ℕ, ◌≡◌, List, [], ◌∷◌}
use woeful.Server.{Server}
use woeful.Locks.{stream_lock, shared, Action}
use woeful.Locks.Threads.{Held, Thread, Threads}
use woeful.Locks.Tasks.{LooksUp}

-- The main thread alone.
abbrev alone : Held → List Action → Threads
alone held todo = record { main = record { held = held; todo = todo }; pool = [] }

-- A task that holds the lock of its manager and is about to look its stream up.
abbrev pub Reads : ℕ → Thread → Type 0
Reads manager thread = (thread.held ≡ (shared, stream_lock manager) ∷ []) × LooksUp manager thread
