-- ===== src/Tests/Locks.antt =====
-- A web socket closes while a task writes for it.
use woeful.Base.{◌↔◌, true, false, ℕ, ◌+◌, ◌++◌, ◌≡◌, refl, [], ◌∷◌, ◌⊎◌}
use woeful.Locks.{
  exclusive, shared, guarded, watched_sockets_lock, force_close_locks, close_streams_locks,
  destruct_locks, acquire, release, access, destroy, poll, stream_lock, run_task_locks,
  write_loop_locks, callback_locks, close_callback, drain_callback, update_streams_locks,
}
use woeful.Locks.Threads.{
  Threads, begins, starts, acts, main_acts, Act, pool_acts, Reach, start, next, none, more, holds,
  allows, conflicts, pool_holds, after, same_lock, both_shared, size, IsDone,
}
use woeful.Locks.Progress.{Stalls, no_deadlock}
use woeful.Locks.Races.{no_race}
use woeful.Locks.Blocks.{main_waits}
use woeful.Locks.Tasks.{Has, Writes}
use woeful.Base.Map.{find, insert, keys}
use woeful.Manager.{WebSocketManager, construct}
use woeful.Server.{manager_of, on_open, init}
use woeful.Tests.World.{calm_os}
use woeful.Tests.Streams.{black_list}
use woeful.Tests.Run.{s1}

-- The task of the manager 0 has its lock.
abbrev working : Threads
unfolding write_loop_locks
working = record {
  main = record { held = []; todo = [] };
  pool =
      record {
        held = (shared, stream_lock 0) ∷ [];
        todo = access shared (stream_lock 0) ∷ poll 0 ∷ release (stream_lock 0) ∷ [];
      }
      ∷ [];
}

-- Its web socket closes.
abbrev closing : Threads
unfolding working
closing = record working {
  main = record { held = []; todo = callback_locks calm_os black_list (close_callback 20) s1 };
}

-- The task is in `poll`.
abbrev polled : Threads
unfolding closing
polled = record closing {
  pool =
      record { held = (shared, stream_lock 0) ∷ []; todo = poll 0 ∷ release (stream_lock 0) ∷ [] }
      ∷ [];
}

works : Reach calm_os black_list working
unfolding run_task_locks write_loop_locks allows holds pool_holds conflicts after working
works = next (next start (starts 0)) (acts (pool_acts [] _ [] _ _ refl refl refl))

closes : Reach calm_os black_list closing
unfolding working closing
closes = next works (begins (close_callback 20) s1 refl)

main_waits_example : (allows (holds closing) (acquire exclusive (stream_lock 0)) ≡ false) ↔ (
    (manager : ℕ) × (acquire exclusive (stream_lock 0) ≡ acquire exclusive (stream_lock manager))
    × Has (Writes manager) closing.pool)
unfolding closing working callback_locks manager_of find on_open insert init construct
    force_close_locks close_streams_locks destruct_locks keys holds pool_holds allows conflicts
    same_lock both_shared
main_waits_example =
    main_waits (acquire exclusive (stream_lock 0))
      (access shared (stream_lock 0)
          ∷ release (stream_lock 0)
          ∷ guarded exclusive exclusive watched_sockets_lock
        ++ destroy (stream_lock 0) ∷ [])
      closes refl

blocked : allows (holds closing) (acquire exclusive (stream_lock 0)) ≡ false
unfolding closing working allows holds pool_holds conflicts same_lock both_shared
blocked = refl

no_deadlock_example :
    (1 + size polled ≡ size closing)
    × (((s : Threads) × Act polled s) ⊎ (Stalls polled ⊎ IsDone polled))
unfolding closing working polled allows after
no_deadlock_example =
    no_deadlock closes
      (more none (pool_acts [] _ [] (access shared (stream_lock 0)) _ refl refl refl))

-- Another callback locks shared, beside the task.
abbrev draining : Threads
unfolding working
draining = record working {
  main = record {
    held = (shared, stream_lock 0) ∷ [];
    todo = access shared (stream_lock 0) ∷ release (stream_lock 0) ∷ [];
  };
}

drains : Reach calm_os black_list draining
unfolding working draining callback_locks manager_of find on_open insert init construct
    update_streams_locks holds pool_holds allows conflicts same_lock both_shared after
drains = next (next works (begins (drain_callback 20) s1 refl)) (acts (main_acts _ _ refl refl))

no_race_example : both_shared shared shared ≡ true
unfolding draining working
no_race_example =
    no_race shared shared (stream_lock 0) (release (stream_lock 0) ∷ [])
      (poll 0 ∷ release (stream_lock 0) ∷ []) [] _ [] drains refl refl refl

-- The manager of the web socket 20.
abbrev first_manager : WebSocketManager
unfolding construct
first_manager = (construct 20 0 []).0
