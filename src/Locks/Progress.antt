-- ===== src/Locks/Progress.antt =====
-- Where the threads can go on.
use woeful.Base.{
  ℕ, suc, true, Bool-cases, ◌∙◌, ◌+◌, ◌≡◌, refl, ap, sym, subst, ◌⊎◌, inl, inr, List, [], ◌∷◌, ◌++◌,
  All, arith, length,
}
use woeful.Config.{WoefulConfig}
use woeful.System.Calls.{Os}
use woeful.Locks.{
  stream_lock, exclusive, shared, Action, acquire, write_loop_locks, write_again_locks,
  run_task_locks,
}
use woeful.Locks.Threads.{
  Held, conflicts, allows, Thread, Threads, pool_holds, holds, perform, Act, main_acts, pool_acts,
  Reach, Acts, none, more, pool_size, size, IsDone,
}
use woeful.Locks.Tidy.{IsTidy}
use woeful.Locks.Blocks.{main_conflict}
use woeful.Locks.Tasks.{
  Has, Has-cons, Waits, Writes, Polls, IsTask, IsOrderly, Reach-IsOrderly, Acts-IsOrderly,
}

-- A task whose next action no lock keeps it from.
abbrev IsFree : Thread → Type 0
IsFree thread =
    (action : Action) × (rest : List Action) × (thread.todo ≡ action ∷ rest)
    × ((held : Held) → allows held action ≡ true)

-- A task that is in `poll`, with the lock of its manager.
abbrev pub IsInPoll : ℕ → Thread → Type 0
IsInPoll manager thread = (thread.held ≡ (shared, stream_lock manager) ∷ []) × Polls manager thread

-- Of a task that holds a lock.
Writes-cases :
    (manager : ℕ) (thread : Thread)
    → Writes manager thread
    → IsFree thread ⊎ IsInPoll manager thread
unfolding write_loop_locks write_again_locks allows
Writes-cases manager thread (h, inl t) = inl (_, _, t, λ held. refl)
Writes-cases manager thread (h, inr (inl t)) = inr (h, t)
Writes-cases manager thread (h, inr (inr (inl t))) = inl (_, _, t, λ held. refl)
Writes-cases manager thread (h, inr (inr (inr (inl t)))) = inl (_, _, t, λ held. refl)
Writes-cases manager thread (h, inr (inr (inr (inr t)))) = inl (_, _, t, λ held. refl)

-- Some task goes on, or is in `poll`, or none holds a lock: then one waits to begin, or all ended.
abbrev PoolCases : List Thread → Type 0
PoolCases pool =
    Has IsFree pool
    ⊎ (((manager : ℕ) × Has (IsInPoll manager) pool)
        ⊎ ((pool_holds pool ≡ []) × (Has Waits pool ⊎ All (λ t. t.todo ≡ []) pool)))

-- A thread in front of them that holds no lock.
cons_cases :
    (t : Thread) (pool : List Thread)
    → t.held ≡ []
    → Waits t ⊎ (t.todo ≡ [])
    → PoolCases pool
    → PoolCases (t ∷ pool)
unfolding pool_holds
cons_cases t pool h own (inl x) = inl (Has-cons IsFree t pool x)
cons_cases t pool h own (inr (inl (manager, x))) =
    inr (inl (manager, Has-cons (IsInPoll manager) t pool x))
cons_cases t pool h own (inr (inr (free, rest))) = inr (
    inr (
      rw (h, free) refl,
      elim own [
        | inl w ↦ inl ([], t, pool, refl, w)
        | inr e ↦ elim rest [ inl w ↦ inl (Has-cons Waits t pool w) | inr ended ↦ inr (e, ended) ]
      ],
    ))

pool_cases : (pool : List Thread) → All IsTask pool → PoolCases pool
unfolding pool_holds
pool_cases [] v = inr (inr (refl, inr tt))
pool_cases (t ∷ pool) (inl w, v) = cons_cases t pool w.1 (inl w) (pool_cases pool v)
pool_cases (t ∷ pool) (inr (inl (manager, w)), v) = elim (Writes-cases manager t w) [
  | inl x ↦ inl ([], t, pool, refl, x)
  | inr x ↦ inr (inl (manager, ([], t, pool, refl, x)))
]
pool_cases (t ∷ pool) (inr (inr (h, e)), v) = cons_cases t pool h (inr e) (pool_cases pool v)

-- Where no thread can act: some task is in `poll`, and the main thread has no more to do, or it
-- asks for the lock of a manager whose task is in `poll`.
abbrev pub Stalls : Threads → Type 0
Stalls s =
    ((manager : ℕ) × Has (IsInPoll manager) s.pool)
    × ((s.main.todo ≡ [])
        ⊎ ((manager : ℕ) × (rest : List Action) × (s.main.todo
              ≡ acquire exclusive (stream_lock manager) ∷ rest)
            × Has (IsInPoll manager) s.pool))

abbrev pub CanGoOn : Threads → Type 0
CanGoOn s = ((s' : Threads) × Act s s') ⊎ (Stalls s ⊎ IsDone s)

-- The main thread behind a callback.
ended_cases : (s : Threads) → IsOrderly s → s.main.todo ≡ [] → PoolCases s.pool → CanGoOn s
unfolding run_task_locks allows conflicts holds
ended_cases s v done (inl (before, thread, later, e, (action, rest, t, free))) =
    inl (_, pool_acts before thread later action rest e t (free (holds s)))
ended_cases s v done (inr (inl x)) = inr (inl (x, inl done))
ended_cases s v done (inr (inr (free, rest))) =
    let none_held : s.main.held ≡ [] = subst (IsTidy s.main.held) done v.main in
    let all_free : s.main.held ++ pool_holds s.pool ≡ [] = rw (none_held, free) refl in
    elim rest [
      | inl (before, thread, later, e, (manager, h, t)) ↦
          inl (_, pool_acts before thread later _ _ e t (rw all_free refl))
      | inr ended ↦ inr (inr (record { main = done; pool = ended; free = all_free }))
    ]

-- The main thread in a callback.
busy_cases :
    (s : Threads) (action : Action) (rest : List Action)
    → IsOrderly s
    → s.main.todo ≡ action ∷ rest
    → CanGoOn s
busy_cases s action rest v e = elim (Bool-cases (allows (holds s) action)) [
  | inl allowed ↦ inl (_, main_acts action rest e allowed)
  | inr blocked ↦
      let own = (subst (IsTidy s.main.held) e v.main).0.0 in
      let (manager, asks, (before, thread, later, p, w)) = main_conflict s action v own blocked in
      elim (Writes-cases manager thread w) [
        | inl (next, todo, t, free) ↦
            inl (_, pool_acts before thread later next todo p t (free (holds s)))
        | inr polls ↦
            let there : Has (IsInPoll manager) s.pool = (before, thread, later, p, polls) in
            inr (inl ((manager, there), inr (manager, rest, e ∙ ap (λ a. a ∷ rest) asks, there)))
      ]
]

pub progress : (s : Threads) → IsOrderly s → CanGoOn s
progress s v = go s.main.todo refl
  where
    go : (todo : List Action) → s.main.todo ≡ todo → CanGoOn s
    go [] e = ended_cases s v e (pool_cases s.pool v.pool)
    go (action ∷ rest) e = busy_cases s action rest v e

pool_size-middle :
    (before : List Thread) (t u : Thread) (later : List Thread)
    → length t.todo ≡ suc (length u.todo)
    → pool_size (before ++ t ∷ later) ≡ suc (pool_size (before ++ u ∷ later))
unfolding pool_size
pool_size-middle [] t u later e = omega (arith, e)
pool_size-middle (b ∷ before) t u later e = omega (arith, pool_size-middle before t u later e)

Act-size : {s s' : Threads} → Act s s' → size s ≡ suc (size s')
unfolding size
Act-size {s} (main_acts action rest e allowed) = rw e (omega arith)
Act-size {s} (pool_acts before thread later action rest p e allowed) =
    let less = pool_size-middle before thread (perform action rest thread) later (rw e refl) in
    rw p (omega (arith, less))

Acts-size : {n : ℕ} {s s' : Threads} → Acts n s s' → size s ≡ n + size s'
Acts-size none = omega arith
Acts-size (more run a) = omega (arith, Acts-size run, Act-size a)

-- No deadlock but by a `poll`: whatever callbacks the main thread began and whatever tasks the
-- pool started, in every state that their locks let them reach, and after any further run of
-- actions that they perform by themselves, some thread can perform another; or every callback
-- and every task has ended and no lock is held; or a task is in `poll`, from which only what
-- happens outside the program takes it, and the main thread has ended its callback or asks for
-- the `stream_lock` of a manager of which a task is in `poll`. Each of these actions leaves one
-- action fewer, so that the threads by themselves come to one of the last two. Nothing is said
-- of how long a `poll` takes or of how many rounds a task has.
pub no_deadlock :
    {os : Os} {conf : WoefulConfig} {n : ℕ} {s s' : Threads}
    → Reach os conf s
    → Acts n s s'
    → (n + size s' ≡ size s) × CanGoOn s'
no_deadlock {s'} r run = (sym (Acts-size run), progress s' (Acts-IsOrderly run (Reach-IsOrderly r)))
