-- ===== src/Locks/Apart.antt =====
-- The locks that the main thread holds go with those of the tasks.
use woeful.Base.{
  ◌≡◌, refl, ap, subst, ◌∙◌, inl, inr, true, false, Bool-cases, List, [], ◌∷◌, ◌++◌, All, arith,
}
use woeful.Config.{WoefulConfig}
use woeful.System.Calls.{Os}
use woeful.Locks.{
  Lock, watched_sockets_lock, stream_lock, Mode, exclusive, shared, Action, acquire, release,
  access, destroy, poll,
}
use woeful.Locks.Threads.{
  Held, same_lock, both_shared, conflicts, allows, drop_lock, after, Thread, Threads, pool_holds,
  holds, perform, Act, main_acts, pool_acts, begins, starts, polls_again, polls_last, leaves_loop,
  acts, Reach, start, next,
}
use woeful.Locks.Blocks.{conflicts-append}

-- What one thread holds goes with what others hold.
abbrev pub IsApart : Held → Held → Type 0
IsApart mine others = All (λ h. conflicts h.0 h.1 others ≡ false) mine

drop-IsApart :
    (lock : Lock) (mine others : Held) → IsApart mine others → IsApart (drop_lock lock mine) others
unfolding drop_lock
drop-IsApart lock [] others v = tt
drop-IsApart lock ((m, l) ∷ mine) others v = elim (Bool-cases (same_lock lock l)) [
  | inl e ↦ rw (drop_lock, e) v.1
  | inr e ↦ rw (drop_lock, e) (v.0, drop-IsApart lock mine others v.1)
]

-- The main thread after an action.
after-IsApart :
    (action : Action) (mine others : Held)
    → allows (mine ++ others) action ≡ true
    → IsApart mine others
    → IsApart (after action mine) others
unfolding after allows
after-IsApart (acquire mode lock) mine others h v =
    (ground (arith, conflicts-append mode lock mine others), v)
after-IsApart (release lock) mine others h v = drop-IsApart lock mine others v
after-IsApart (access to lock) mine others h v = v
after-IsApart (destroy lock) mine others h v = v
after-IsApart (poll manager) mine others h v = v

same_lock-sym : (a b : Lock) → same_lock a b ≡ same_lock b a
unfolding same_lock
same_lock-sym watched_sockets_lock watched_sockets_lock = refl
same_lock-sym watched_sockets_lock (stream_lock j) = refl
same_lock-sym (stream_lock i) watched_sockets_lock = refl
same_lock-sym (stream_lock i) (stream_lock j) = ground arith

both_shared-sym : (a b : Mode) → both_shared a b ≡ both_shared b a
unfolding both_shared
both_shared-sym shared shared = refl
both_shared-sym shared exclusive = refl
both_shared-sym exclusive shared = refl
both_shared-sym exclusive exclusive = refl

-- What goes with a thread's locks when another takes or gives back a lock.
met-IsApart :
    (mode : Mode) (lock : Lock) (mine : Held)
    → conflicts mode lock mine ≡ false
    → IsApart mine ((mode, lock) ∷ [])
unfolding conflicts
met-IsApart mode lock [] h = tt
met-IsApart mode lock ((m, l) ∷ mine) h = (
  ground (arith, same_lock-sym lock l, both_shared-sym mode m),
  met-IsApart mode lock mine (ground arith),
)

drop-conflicts :
    (mode : Mode) (lock dropped : Lock) (held : Held)
    → conflicts mode lock held ≡ false
    → conflicts mode lock (drop_lock dropped held) ≡ false
unfolding conflicts drop_lock
drop-conflicts mode lock dropped [] h = refl
drop-conflicts mode lock dropped ((m, l) ∷ held) h =
    ground (arith, drop-conflicts mode lock dropped held)

-- What an action takes goes with a lock that is held.
abbrev Meets : Mode → Lock → Action → Type 0
Meets m l (acquire mode lock) = conflicts m l ((mode, lock) ∷ []) ≡ false
Meets m l (release lock) = Unit
Meets m l (access to lock) = Unit
Meets m l (destroy lock) = Unit
Meets m l (poll manager) = Unit

after-conflicts :
    (m : Mode) (l : Lock) (action : Action) (held : Held)
    → Meets m l action
    → conflicts m l held ≡ false
    → conflicts m l (after action held) ≡ false
unfolding after conflicts
after-conflicts m l (acquire mode lock) held met h = ground (arith, met)
after-conflicts m l (release lock) held met h = drop-conflicts m l lock held h
after-conflicts m l (access to lock) held met h = h
after-conflicts m l (destroy lock) held met h = h
after-conflicts m l (poll manager) held met h = h

pool-conflicts :
    (m : Mode) (l : Lock) (before : List Thread) (thread : Thread) (later : List Thread)
    (action : Action) (rest : List Action)
    → Meets m l action
    → conflicts m l (pool_holds (before ++ thread ∷ later)) ≡ false
    → conflicts m l (pool_holds (before ++ perform action rest thread ∷ later)) ≡ false
unfolding pool_holds
pool-conflicts m l [] thread later action rest met h =
    let parts = conflicts-append m l thread.held (pool_holds later) in
    let own : conflicts m l thread.held ≡ false = ground (arith, parts) in
    let kept = after-conflicts m l action thread.held met own in
    conflicts-append m l (after action thread.held) (pool_holds later) ∙ ground (arith, kept, parts)
pool-conflicts m l (t ∷ before) thread later action rest met h =
    let parts = conflicts-append m l t.held (pool_holds (before ++ thread ∷ later)) in
    let tail : conflicts m l (pool_holds (before ++ thread ∷ later)) ≡ false =
      ground (arith, parts) in
    let kept = pool-conflicts m l before thread later action rest met tail in
    conflicts-append m l t.held (pool_holds (before ++ perform action rest thread ∷ later))
    ∙ ground (arith, kept, parts)

allowed-Meets :
    (action : Action) (mine others : Held)
    → allows (mine ++ others) action ≡ true
    → All (λ h. Meets h.0 h.1 action) mine
unfolding allows
allowed-Meets (acquire mode lock) mine others h =
    met-IsApart mode lock mine (ground (arith, conflicts-append mode lock mine others))
allowed-Meets (release lock) [] others h = tt
allowed-Meets (release lock) (x ∷ mine) others h = (tt, allowed-Meets (release lock) mine others h)
allowed-Meets (access to lock) [] others h = tt
allowed-Meets (access to lock) (x ∷ mine) others h =
    (tt, allowed-Meets (access to lock) mine others h)
allowed-Meets (destroy lock) [] others h = tt
allowed-Meets (destroy lock) (x ∷ mine) others h = (tt, allowed-Meets (destroy lock) mine others h)
allowed-Meets (poll manager) mine others h = absurd (cc h)

pool-IsApart :
    (mine : Held) (before : List Thread) (thread : Thread) (later : List Thread) (action : Action)
    (rest : List Action)
    → All (λ h. Meets h.0 h.1 action) mine
    → IsApart mine (pool_holds (before ++ thread ∷ later))
    → IsApart mine (pool_holds (before ++ perform action rest thread ∷ later))
pool-IsApart [] before thread later action rest met v = tt
pool-IsApart ((m, l) ∷ mine) before thread later action rest met v = (
  pool-conflicts m l before thread later action rest met.0 v.0,
  pool-IsApart mine before thread later action rest met.1 v.1,
)

Act-IsApart :
    {s s' : Threads}
    → Act s s'
    → IsApart s.main.held (pool_holds s.pool)
    → IsApart s'.main.held (pool_holds s'.pool)
unfolding holds
Act-IsApart {s} (main_acts action rest e allowed) v =
    after-IsApart action s.main.held (pool_holds s.pool) allowed v
Act-IsApart {s} (pool_acts before thread later action rest p e allowed) v =
    pool-IsApart s.main.held before thread later action rest
      (allowed-Meets action s.main.held (pool_holds s.pool) allowed)
      (subst (λ x. IsApart s.main.held (pool_holds x)) p v)

-- A thread that goes on elsewhere with the same locks.
same_holds :
    (before : List Thread) (thread : Thread) (later : List Thread) (todo : List Action)
    → pool_holds (before ++ thread ∷ later)
      ≡ pool_holds (before ++ record thread { todo = todo } ∷ later)
unfolding pool_holds
same_holds [] thread later todo = refl
same_holds (t ∷ before) thread later todo =
    ap (λ x. t.held ++ x) (same_holds before thread later todo)

pub Reach-IsApart :
    {os : Os} {conf : WoefulConfig} {s : Threads}
    → Reach os conf s
    → IsApart s.main.held (pool_holds s.pool)
unfolding pool_holds
Reach-IsApart start = tt
Reach-IsApart (next r (begins callback server e)) = Reach-IsApart r
Reach-IsApart (next r (starts manager)) = Reach-IsApart r
Reach-IsApart (next {s} r (polls_again before thread later manager rest p e)) =
    subst (IsApart s.main.held) (ap pool_holds p ∙ same_holds before thread later _)
      (Reach-IsApart r)
Reach-IsApart (next {s} r (polls_last before thread later manager rest p e)) =
    subst (IsApart s.main.held) (ap pool_holds p ∙ same_holds before thread later _)
      (Reach-IsApart r)
Reach-IsApart (next {s} r (leaves_loop before thread later manager rest p e)) =
    subst (IsApart s.main.held) (ap pool_holds p ∙ same_holds before thread later _)
      (Reach-IsApart r)
Reach-IsApart (next r (acts a)) = Act-IsApart a (Reach-IsApart r)
