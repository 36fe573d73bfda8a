-- ===== src/Locks/Tasks.antt =====
-- What the threads hold, in every state that they reach.
use woeful.Base.{ℕ, ap, ◌∙◌, ◌≡◌, refl, sym, subst, ◌⊎◌, inl, inr, List, [], ◌∷◌, ◌++◌, All}
use woeful.Config.{WoefulConfig}
use woeful.System.Calls.{Os}
use woeful.Locks.{
  stream_lock, shared, Action, release, access, poll, write_loop_locks, write_again_locks,
  run_task_locks, callback_locks,
}
use woeful.Locks.Threads.{
  drop_lock, after, Thread, Threads, perform, Act, main_acts, pool_acts, Step, begins, starts,
  polls_again, polls_last, leaves_loop, acts, Reach, start, next, Acts, none, more,
}
use woeful.Locks.Tidy.{IsTidy, same_lock_self, callback-IsTidy}

-- A task that did not begin, one that is in its loop under the lock of its manager, where it looks
-- the stream up, is in `poll`, or gives the lock back, and one that ended.
abbrev pub Waits : Thread → Type 0
Waits thread = (manager : ℕ) × (thread.held ≡ []) × (thread.todo ≡ run_task_locks manager)

abbrev pub LooksUp : ℕ → Thread → Type 0
LooksUp manager thread = thread.todo ≡ write_loop_locks manager

abbrev pub Polls : ℕ → Thread → Type 0
Polls manager thread = thread.todo ≡ poll manager ∷ release (stream_lock manager) ∷ []

abbrev pub Leaves : ℕ → Thread → Type 0
Leaves manager thread = thread.todo ≡ release (stream_lock manager) ∷ []

-- At the lookup for `write`, in the last round or not.
abbrev pub Ends : ℕ → Thread → Type 0
Ends manager thread =
    thread.todo ≡ access shared (stream_lock manager) ∷ release (stream_lock manager) ∷ []

abbrev pub Repeats : ℕ → Thread → Type 0
Repeats manager thread = thread.todo ≡ write_again_locks manager

abbrev pub Writes : ℕ → Thread → Type 0
Writes manager thread =
    (thread.held ≡ (shared, stream_lock manager) ∷ [])
    × (LooksUp manager thread
        ⊎ (Polls manager thread
            ⊎ (Leaves manager thread ⊎ (Ends manager thread ⊎ Repeats manager thread))))

abbrev pub Ended : Thread → Type 0
Ended thread = (thread.held ≡ []) × (thread.todo ≡ [])

abbrev pub IsTask : Thread → Type 0
IsTask thread = Waits thread ⊎ (((manager : ℕ) × Writes manager thread) ⊎ Ended thread)

pub record IsOrderly (s : Threads) : Type 0 where
  pub main : IsTidy s.main.held s.main.todo
  pub pool : All IsTask s.pool

pub first_and_rest :
    {actions rest rest' : List Action} {action action' : Action}
    → actions ≡ action ∷ rest
    → actions ≡ action' ∷ rest'
    → (action ≡ action') × (rest ≡ rest')
first_and_rest e f = (cc (e, f), cc (e, f))

perform-IsTask :
    (action : Action) (rest : List Action) (thread : Thread)
    → thread.todo ≡ action ∷ rest
    → IsTask thread
    → IsTask (perform action rest thread)
unfolding run_task_locks write_loop_locks write_again_locks after drop_lock
perform-IsTask action rest thread e (inl (manager, h, t)) =
    let (a, r) = first_and_rest e t in inr (inl (manager, (rw (a, h) refl, inl r)))
perform-IsTask action rest thread e (inr (inl (manager, (h, inl t)))) =
    let (a, r) = first_and_rest e t in inr (inl (manager, (rw a h, inr (inl r))))
perform-IsTask action rest thread e (inr (inl (manager, (h, inr (inl t))))) =
    let (a, r) = first_and_rest e t in inr (inl (manager, (rw a h, inr (inr (inl r)))))
perform-IsTask action rest thread e (inr (inl (manager, (h, inr (inr (inl t)))))) =
    let (a, r) = first_and_rest e t in
    inr (inr (rw (a, h, same_lock_self (stream_lock manager)) refl, r))
perform-IsTask action rest thread e (inr (inl (manager, (h, inr (inr (inr (inl t))))))) =
    let (a, r) = first_and_rest e t in inr (inl (manager, (rw a h, inr (inr (inl r)))))
perform-IsTask action rest thread e (inr (inl (manager, (h, inr (inr (inr (inr t))))))) =
    let (a, r) = first_and_rest e t in inr (inl (manager, (rw a h, inl r)))
perform-IsTask action rest thread e (inr (inr (h, t))) = cc (e, t)

-- A task whose `poll` ended: with another round, with its last `write`, and without one.
again-IsTask :
    (thread : Thread) (manager : ℕ) (rest : List Action)
    → thread.todo ≡ poll manager ∷ rest
    → IsTask thread
    → IsTask (record thread { todo = write_again_locks manager })
      × IsTask (record thread { todo = access shared (stream_lock manager) ∷ rest })
      × IsTask (record thread { todo = rest })
unfolding run_task_locks write_loop_locks write_again_locks
again-IsTask thread manager rest e (inl (m, h, t)) = cc (e, t)
again-IsTask thread manager rest e (inr (inl (m, (h, inl t)))) = cc (e, t)
again-IsTask thread manager rest e (inr (inl (m, (h, inr (inl t))))) =
    let (a, r) = first_and_rest e t in
    let same : manager ≡ m = cc a in
    let holds_it = h ∙ ap (λ k. (shared, stream_lock k) ∷ []) (sym same) in
    (
      inr (inl (manager, (holds_it, inr (inr (inr (inr refl)))))),
      inr (inl (m, (h, inr (inr (inr (inl (cc (same, r)))))))),
      inr (inl (m, (h, inr (inr (inl r))))),
    )
again-IsTask thread manager rest e (inr (inl (m, (h, inr (inr (inl t)))))) = cc (e, t)
again-IsTask thread manager rest e (inr (inl (m, (h, inr (inr (inr (inl t))))))) = cc (e, t)
again-IsTask thread manager rest e (inr (inl (m, (h, inr (inr (inr (inr t))))))) = cc (e, t)
again-IsTask thread manager rest e (inr (inr (h, t))) = cc (e, t)

-- A thread of the pool with a property.
abbrev pub Has : (Thread → Type 0) → List Thread → Type 0
Has Good pool =
    (before : List Thread) × (thread : Thread) × (later : List Thread) × (pool
      ≡ before ++ thread ∷ later)
    × Good thread

pub Has-cons :
    (Good : Thread → Type 0) (t : Thread) (pool : List Thread) → Has Good pool → Has Good (t ∷ pool)
Has-cons Good t pool (before, thread, later, e, g) = (t ∷ before, thread, later, ap (◌∷◌ t) e, g)

-- A thread of the pool, and another in its place.
pub All-middle :
    (Good : Thread → Type 0) (before : List Thread) (thread : Thread) (later : List Thread)
    → All Good (before ++ thread ∷ later)
    → Good thread × ((u : Thread) → Good u → All Good (before ++ u ∷ later))
All-middle Good [] thread later (g, h) = (g, λ u x. (x, h))
All-middle Good (t ∷ before) thread later (g, h) =
    let (own, put) = All-middle Good before thread later h in (own, λ u x. (g, put u x))

Act-IsOrderly : {s s' : Threads} → Act s s' → IsOrderly s → IsOrderly s'
Act-IsOrderly {s} (main_acts action rest e allowed) v = record {
  main = (subst (IsTidy s.main.held) e v.main).1;
  pool = v.pool;
}
Act-IsOrderly {s} (pool_acts before thread later action rest p e allowed) v =
    let (own, put) = All-middle IsTask before thread later (subst (All IsTask) p v.pool) in
    record { main = v.main; pool = put _ (perform-IsTask action rest thread e own) }

Step-IsOrderly :
    {os : Os} {conf : WoefulConfig} {s s' : Threads}
    → Step os conf s s'
    → IsOrderly s
    → IsOrderly s'
Step-IsOrderly {os} {conf} {s} (begins callback server e) v =
    let free : s.main.held ≡ [] = subst (IsTidy s.main.held) e v.main in
    record {
      main =
          subst (λ held. IsTidy held (callback_locks os conf callback server)) (sym free)
            (callback-IsTidy os conf callback server);
      pool = v.pool;
    }
Step-IsOrderly (starts manager) v = record {
  main = v.main;
  pool = (inl (manager, refl, refl), v.pool);
}
Step-IsOrderly (polls_again before thread later manager rest p e) v =
    let (own, put) = All-middle IsTask before thread later (subst (All IsTask) p v.pool) in
    record { main = v.main; pool = put _ (again-IsTask thread manager rest e own).0 }
Step-IsOrderly (polls_last before thread later manager rest p e) v =
    let (own, put) = All-middle IsTask before thread later (subst (All IsTask) p v.pool) in
    record { main = v.main; pool = put _ (again-IsTask thread manager rest e own).1 }
Step-IsOrderly (leaves_loop before thread later manager rest p e) v =
    let (own, put) = All-middle IsTask before thread later (subst (All IsTask) p v.pool) in
    record { main = v.main; pool = put _ (again-IsTask thread manager rest e own).2 }
Step-IsOrderly (acts a) v = Act-IsOrderly a v

pub Reach-IsOrderly : {os : Os} {conf : WoefulConfig} {s : Threads} → Reach os conf s → IsOrderly s
Reach-IsOrderly start = record { main = refl; pool = tt }
Reach-IsOrderly (next r step) = Step-IsOrderly step (Reach-IsOrderly r)

pub Acts-IsOrderly : {n : ℕ} {s s' : Threads} → Acts n s s' → IsOrderly s → IsOrderly s'
Acts-IsOrderly none v = v
Acts-IsOrderly (more run a) v = Act-IsOrderly a (Acts-IsOrderly run v)
