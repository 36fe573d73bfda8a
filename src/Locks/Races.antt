-- ===== src/Locks/Races.antt =====
-- No two threads use what a lock protects while one of them changes it.
use woeful.Base.{
  ◌≡◌, refl, sym, ap, subst, ◌∙◌, inl, inr, true, false, ◌&&◌, Bool-cases, List, [], ◌∷◌, ◌++◌,
  ==_iff, All, arith,
}
use woeful.Config.{WoefulConfig}
use woeful.System.Calls.{Os}
use woeful.Locks.{
  Lock, watched_sockets_lock, stream_lock, Mode, exclusive, shared, Action, access,
  write_loop_locks, write_again_locks, run_task_locks,
}
use woeful.Locks.Threads.{
  Held, same_lock, both_shared, conflicts, serves, covers, covered, Thread, Threads, pool_holds,
  Reach,
}
use woeful.Locks.Tidy.{IsTidy, same_lock_self}
use woeful.Locks.Tasks.{IsTask, Reach-IsOrderly, first_and_rest, All-middle}
use woeful.Locks.Blocks.{conflicts-append}
use woeful.Locks.Apart.{IsApart, Reach-IsApart}

same_lock-eq : (a b : Lock) → same_lock a b ≡ true → a ≡ b
unfolding same_lock
same_lock-eq watched_sockets_lock watched_sockets_lock h = refl
same_lock-eq watched_sockets_lock (stream_lock j) h = cc h
same_lock-eq (stream_lock i) watched_sockets_lock h = cc h
same_lock-eq (stream_lock i) (stream_lock j) h = ap stream_lock ((==_iff i j).0 h)

serves-conflicts :
    (m to : Mode) (lock : Lock) (held : Held)
    → serves m to ≡ true
    → conflicts m lock held ≡ false
    → conflicts to lock held ≡ false
unfolding conflicts both_shared
serves-conflicts shared exclusive lock held e h = cc e
serves-conflicts shared shared lock held e h = h
serves-conflicts exclusive to lock [] e h = refl
serves-conflicts exclusive to lock ((n, l) ∷ held) e h =
    ground (arith, serves-conflicts exclusive to lock held e)

-- A use that a lock covers does not meet a lock of another thread.
covered-apart :
    (to : Mode) (lock : Lock) (mine others : Held)
    → covers to lock mine ≡ true
    → IsApart mine others
    → conflicts to lock others ≡ false
unfolding covers
covered-apart to lock [] others h v = cc h
covered-apart to lock ((m, l) ∷ mine) others h v =
    elim (Bool-cases (same_lock lock l && serves m to)) [
      | inl e ↦
          let same : lock ≡ l = same_lock-eq lock l (ground (arith, e)) in
          serves-conflicts m to lock others (ground (arith, e))
            (subst (λ x. conflicts m x others ≡ false) (sym same) v.0)
      | inr e ↦ covered-apart to lock mine others (ground (arith, e)) v.1
    ]

thread-conflicts :
    (m : Mode) (l : Lock) (before : List Thread) (thread : Thread) (later : List Thread)
    → conflicts m l (pool_holds (before ++ thread ∷ later)) ≡ false
    → conflicts m l thread.held ≡ false
unfolding pool_holds
thread-conflicts m l [] thread later h =
    ground (arith, conflicts-append m l thread.held (pool_holds later))
thread-conflicts m l (t ∷ before) thread later h =
    thread-conflicts m l before thread later
      (ground (arith, conflicts-append m l t.held (pool_holds (before ++ thread ∷ later))))

-- What a task uses, it reads under the lock of its manager.
task_reads :
    (by : Mode) (lock : Lock) (rest : List Action) (thread : Thread)
    → IsTask thread
    → thread.todo ≡ access by lock ∷ rest
    → (by ≡ shared) × (thread.held ≡ (shared, lock) ∷ [])
unfolding run_task_locks write_loop_locks write_again_locks
task_reads by lock rest thread (inl (manager, h, t)) e = cc (e, t)
task_reads by lock rest thread (inr (inl (manager, (h, inl t)))) e =
    let (a, _) = first_and_rest e t in (cc a, h ∙ cc a)
task_reads by lock rest thread (inr (inl (manager, (h, inr (inl t))))) e = cc (e, t)
task_reads by lock rest thread (inr (inl (manager, (h, inr (inr (inl t)))))) e = cc (e, t)
task_reads by lock rest thread (inr (inl (manager, (h, inr (inr (inr (inl t))))))) e =
    let (a, _) = first_and_rest e t in (cc a, h ∙ cc a)
task_reads by lock rest thread (inr (inl (manager, (h, inr (inr (inr (inr t))))))) e =
    let (a, _) = first_and_rest e t in (cc a, h ∙ cc a)
task_reads by lock rest thread (inr (inr (h, t))) e = cc (e, t)

-- No race on the maps, but for the destruction of a manager: in every state that the locks let
-- the threads reach, when the main thread and a task are both about to use what the same lock
-- protects, the map of the managers or the map of the streams of one of them, both only read it.
-- The destruction of a map with its manager, which takes no lock, is not such a use.
pub no_race :
    {os : Os} {conf : WoefulConfig} {s : Threads} (to by : Mode) (lock : Lock)
    (rest rest' : List Action) (before : List Thread) (thread : Thread) (later : List Thread)
    → Reach os conf s
    → s.main.todo ≡ access to lock ∷ rest
    → s.pool ≡ before ++ thread ∷ later
    → thread.todo ≡ access by lock ∷ rest'
    → both_shared to by ≡ true
unfolding covered conflicts
no_race {s} to by lock rest rest' before thread later r e p f =
    let v = Reach-IsOrderly r in
    let covered_now = (subst (IsTidy s.main.held) e v.main).0.1 in
    let (read, held) =
      task_reads by lock rest' thread
        (All-middle IsTask before thread later (subst (All IsTask) p v.pool)).0 f in
    let free =
      covered-apart to lock s.main.held (pool_holds s.pool) covered_now (Reach-IsApart r) in
    let alone : conflicts to lock ((shared, lock) ∷ []) ≡ false =
      subst (λ x. conflicts to lock x ≡ false) held
        (thread-conflicts to lock before thread later
          (subst (λ x. conflicts to lock (pool_holds x) ≡ false) p free)) in
    rw read (ground (arith, alone, same_lock_self lock))
