-- ===== src/Locks/Threads.antt =====
-- The main thread and the threads of the pool, by what they lock and where they wait. The thread of the watcher locks
-- nothing.
use woeful.Base.{
  ℕ, suc, ◌+◌, Bool, true, false, not, ◌&&◌, ◌||◌, List, [], ◌∷◌, ◌++◌, ◌==◌, ◌≡◌, if◌then◌else◌,
  length, All,
}
use woeful.Config.{WoefulConfig}
use woeful.System.Calls.{Os}
use woeful.Server.{Server}
use woeful.Locks.{
  Lock, watched_sockets_lock, stream_lock, Mode, exclusive, shared, Action, acquire, release,
  access, destroy, poll, write_again_locks, run_task_locks, Callback, callback_locks,
}

unfoldable pub same_lock : Lock → Lock → Bool
same_lock watched_sockets_lock watched_sockets_lock = true
same_lock watched_sockets_lock (stream_lock j) = false
same_lock (stream_lock i) watched_sockets_lock = false
same_lock (stream_lock i) (stream_lock j) = i == j

unfoldable pub both_shared : Mode → Mode → Bool
both_shared shared shared = true
both_shared shared exclusive = false
both_shared exclusive mode = false

abbrev pub Held : Type 0
Held = List (Mode × Lock)

-- Whether a lock that is held keeps another from being acquired.
unfoldable pub conflicts : Mode → Lock → Held → Bool
conflicts mode lock [] = false
conflicts mode lock ((m, l) ∷ held) =
    (same_lock lock l && not (both_shared mode m)) || conflicts mode lock held

-- Whether a thread can go on by itself. From `poll` it cannot.
unfoldable pub allows : Held → Action → Bool
unfolding conflicts
allows held (acquire mode lock) = not (conflicts mode lock held)
allows held (release lock) = true
allows held (access to lock) = true
allows held (destroy lock) = true
allows held (poll manager) = false

-- Whether a lock that is held is enough for a use.
abbrev pub serves : Mode → Mode → Bool
serves exclusive to = true
serves shared shared = true
serves shared exclusive = false

unfoldable pub covers : Mode → Lock → Held → Bool
covers to lock [] = false
covers to lock ((m, l) ∷ held) = (same_lock lock l && serves m to) || covers to lock held

unfoldable pub covered : Held → Action → Bool
unfolding covers
covered held (acquire mode lock) = true
covered held (release lock) = true
covered held (access to lock) = covers to lock held
covered held (destroy lock) = true
covered held (poll manager) = true

unfoldable pub drop_lock : Lock → Held → Held
drop_lock lock [] = []
drop_lock lock ((m, l) ∷ held) = if same_lock lock l then held else (m, l) ∷ drop_lock lock held

-- What is held after an action.
unfoldable pub after : Action → Held → Held
unfolding drop_lock
after (acquire mode lock) held = (mode, lock) ∷ held
after (release lock) held = drop_lock lock held
after (access to lock) held = held
after (destroy lock) held = held
after (poll manager) held = held

pub record Thread : Type 0 where
  pub held : Held
  pub todo : List Action

pub record Threads : Type 0 where
  pub main : Thread
  pub pool : List Thread

unfoldable pub pool_holds : List Thread → Held
pool_holds [] = []
pool_holds (thread ∷ threads) = thread.held ++ pool_holds threads

-- Everything that some thread holds.
unfoldable pub holds : Threads → Held
holds s = s.main.held ++ pool_holds s.pool

abbrev pub perform : Action → List Action → Thread → Thread
perform action rest thread = record { held = after action thread.held; todo = rest }

-- A thread performs its next action, if what the threads hold allows it. One that asks for a lock
-- that it holds itself waits for ever.
pub data Act (s : Threads) : Threads → Type 0 where
  main_acts :
      (action : Action) (rest : List Action)
      → s.main.todo ≡ action ∷ rest
      → allows (holds s) action ≡ true
      → Act s (record s { main = perform action rest s.main })
  pool_acts :
      (before : List Thread) (thread : Thread) (later : List Thread) (action : Action)
      (rest : List Action)
      → s.pool ≡ before ++ thread ∷ later
      → thread.todo ≡ action ∷ rest
      → allows (holds s) action ≡ true
      → Act s (record s { pool = before ++ perform action rest thread ∷ later })

-- The main thread begins a callback when it has ended the one before, and the pool begins tasks.
-- What happens outside the program ends a `poll`, and decides how the task goes on. If `poll`
-- succeeded, the task looks its stream up and calls `write`: another round follows if that gives
-- EAGAIN, and else the loop ends. If `poll` failed, the loop ends at once. Nothing bounds the
-- rounds, and a `poll` may never end. A lock that was destroyed is here as before.
pub data Step (os : Os) (conf : WoefulConfig) (s : Threads) : Threads → Type 0 where
  begins :
      (callback : Callback) (server : Server)
      → s.main.todo ≡ []
      → Step os conf s (record s {
        main = record { held = s.main.held; todo = callback_locks os conf callback server };
      })
  starts :
      (manager : ℕ)
      → Step os conf s
          (record s { pool = record { held = []; todo = run_task_locks manager } ∷ s.pool })
  polls_again :
      (before : List Thread) (thread : Thread) (later : List Thread) (manager : ℕ)
      (rest : List Action)
      → s.pool ≡ before ++ thread ∷ later
      → thread.todo ≡ poll manager ∷ rest
      → Step os conf s
          (record s { pool = before ++ record thread { todo = write_again_locks manager } ∷ later })
  polls_last :
      (before : List Thread) (thread : Thread) (later : List Thread) (manager : ℕ)
      (rest : List Action)
      → s.pool ≡ before ++ thread ∷ later
      → thread.todo ≡ poll manager ∷ rest
      → Step os conf s (record s {
        pool =
            before ++ record thread { todo = access shared (stream_lock manager) ∷ rest } ∷ later;
      })
  leaves_loop :
      (before : List Thread) (thread : Thread) (later : List Thread) (manager : ℕ)
      (rest : List Action)
      → s.pool ≡ before ++ thread ∷ later
      → thread.todo ≡ poll manager ∷ rest
      → Step os conf s (record s { pool = before ++ record thread { todo = rest } ∷ later })
  acts : {s' : Threads} → Act s s' → Step os conf s s'

abbrev pub idle : Threads
idle = record { main = record { held = []; todo = [] }; pool = [] }

pub data Reach (os : Os) (conf : WoefulConfig) : Threads → Type 0 where
  start : Reach os conf idle
  next : {s s' : Threads} → Reach os conf s → Step os conf s s' → Reach os conf s'

-- A run of the threads by themselves, with the number of its actions.
pub data Acts : ℕ → Threads → Threads → Type 0 where
  none : {s : Threads} → Acts 0 s s
  more : {n : ℕ} {s s' s'' : Threads} → Acts n s s' → Act s' s'' → Acts (suc n) s s''

-- The actions that are left.
unfoldable pub pool_size : List Thread → ℕ
pool_size [] = 0
pool_size (thread ∷ threads) = length thread.todo + pool_size threads

unfoldable pub size : Threads → ℕ
size s = length s.main.todo + pool_size s.pool

-- Every callback and every task has ended, and no lock is held.
pub record IsDone (s : Threads) : Type 0 where
  pub main : s.main.todo ≡ []
  pub pool : All (λ thread. thread.todo ≡ []) s.pool
  pub free : holds s ≡ []
