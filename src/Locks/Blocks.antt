-- ===== src/Locks/Blocks.antt =====
-- What the main thread waits for.
use woeful.Base.{
  ℕ, ◌≡◌, refl, ap, ◌∙◌, sym, subst, inl, inr, true, false, Bool-cases, List, [], ◌∷◌, ◌++◌, All,
  ==_iff, ==_self, ◌↔◌, ◌||◌, arith,
}
use woeful.Config.{WoefulConfig}
use woeful.System.Calls.{Os}
use woeful.Locks.{
  Lock, watched_sockets_lock, stream_lock, Mode, exclusive, shared, Action, acquire, release,
  access, destroy, poll,
}
use woeful.Locks.Threads.{
  Held, same_lock, both_shared, conflicts, allows, Thread, Threads, pool_holds, holds, Reach,
}
use woeful.Locks.Tidy.{IsTidy}
use woeful.Locks.Tasks.{Has, Has-cons, Writes, IsTask, IsOrderly, Reach-IsOrderly}

pub conflicts-append :
    (mode : Mode) (lock : Lock) (a b : Held)
    → conflicts mode lock (a ++ b) ≡ (conflicts mode lock a || conflicts mode lock b)
unfolding conflicts
conflicts-append mode lock [] b = refl
conflicts-append mode lock ((m, l) ∷ a) b = ground (arith, conflicts-append mode lock a b)

-- A lock that a task keeps from being acquired.
shared_conflict :
    (mode : Mode) (lock : Lock) (manager : ℕ)
    → conflicts mode lock ((shared, stream_lock manager) ∷ []) ≡ true
    → (mode ≡ exclusive) × (lock ≡ stream_lock manager)
unfolding conflicts same_lock both_shared
shared_conflict exclusive watched_sockets_lock manager h = cc h
shared_conflict exclusive (stream_lock i) manager h =
    (refl, ap stream_lock ((==_iff i manager).0 (ground arith)))
shared_conflict shared watched_sockets_lock manager h = cc h
shared_conflict shared (stream_lock i) manager h = ground arith

pool_conflict :
    (mode : Mode) (lock : Lock) (pool : List Thread)
    → All IsTask pool
    → conflicts mode lock (pool_holds pool) ≡ true
    → (mode ≡ exclusive)
      × ((manager : ℕ) × (lock ≡ stream_lock manager) × Has (Writes manager) pool)
unfolding pool_holds conflicts
pool_conflict mode lock [] v h = cc h
pool_conflict mode lock (t ∷ pool) (own, v) h =
    let later : conflicts mode lock (pool_holds pool) ≡ true
        → (mode ≡ exclusive)
          × ((manager : ℕ) × (lock ≡ stream_lock manager) × Has (Writes manager) (t ∷ pool)) =
      λ c.
        let (m, (manager, l, w)) = pool_conflict mode lock pool v c in
        (m, (manager, l, Has-cons (Writes manager) t pool w)) in
    elim own [
      | inl (id, free, e) ↦ later (rw free at h)
      | inr (inl (manager, w)) ↦
          elim (Bool-cases (conflicts mode lock ((shared, stream_lock manager) ∷ []))) [
            | inl c ↦
                let (m, l) = shared_conflict mode lock manager c in
                (m, (manager, l, ([], t, pool, refl, w)))
            | inr c ↦
                let own_free : conflicts mode lock t.held ≡ false = rw w.0 c in
                later
                  (ground (arith, conflicts-append mode lock t.held (pool_holds pool), own_free))
          ]
      | inr (inr (free, e)) ↦ later (rw free at h)
    ]

pub main_conflict :
    (s : Threads) (action : Action)
    → IsOrderly s
    → allows s.main.held action ≡ true
    → allows (holds s) action ≡ false
    → (manager : ℕ) × (action ≡ acquire exclusive (stream_lock manager))
      × Has (Writes manager) s.pool
unfolding allows holds
main_conflict s (release lock) v own blocked = cc blocked
main_conflict s (access to lock) v own blocked = cc blocked
main_conflict s (destroy lock) v own blocked = cc blocked
main_conflict s (poll manager) v own blocked = cc own
main_conflict s (acquire mode lock) v own blocked =
    let (m, (manager, l, w)) =
      pool_conflict mode lock s.pool v.pool
        (ground (arith, conflicts-append mode lock s.main.held (pool_holds s.pool))) in
    (manager, cc (m, l), w)

Writes-conflicts :
    (manager : ℕ) (before : List Thread) (thread : Thread) (later : List Thread)
    → thread.held ≡ (shared, stream_lock manager) ∷ []
    → conflicts exclusive (stream_lock manager) (pool_holds (before ++ thread ∷ later)) ≡ true
unfolding pool_holds conflicts same_lock both_shared
Writes-conflicts manager [] thread later h = rw (h, ==_self manager) refl
Writes-conflicts manager (t ∷ before) thread later h =
    conflicts-append exclusive (stream_lock manager) t.held (pool_holds (before ++ thread ∷ later))
    ∙ ground (arith, Writes-conflicts manager before thread later h)

-- A task that writes keeps the main thread from locking its streams exclusively.
Writes-blocks :
    (s : Threads) (manager : ℕ)
    → Has (Writes manager) s.pool
    → allows (holds s) (acquire exclusive (stream_lock manager)) ≡ false
unfolding allows holds
Writes-blocks s manager (before, thread, later, e, (h, t)) =
    let busy : conflicts exclusive (stream_lock manager) (pool_holds s.pool) ≡ true =
      ap (λ x. conflicts exclusive (stream_lock manager) (pool_holds x)) e
      ∙ Writes-conflicts manager before thread later h in
    ground (
      arith,
      busy,
      conflicts-append exclusive (stream_lock manager) s.main.held (pool_holds s.pool),
    )

-- In every state that the locks let the threads reach, they keep the main thread from its next
-- action exactly if it asks for the `stream_lock` of a manager exclusively while a task of that
-- manager, which has only its loop of `poll` and `write` left before it gives the lock back,
-- holds it shared: it never waits for `watched_sockets_lock`, and never where it locks shared.
pub main_waits :
    {os : Os} {conf : WoefulConfig} {s : Threads} (action : Action) (rest : List Action)
    → Reach os conf s
    → s.main.todo ≡ action ∷ rest
    → (allows (holds s) action ≡ false) ↔ (
        (manager : ℕ) × (action ≡ acquire exclusive (stream_lock manager))
        × Has (Writes manager) s.pool)
main_waits {s} action rest r e =
    let v = Reach-IsOrderly r in
    (
      main_conflict s action v (subst (IsTidy s.main.held) e v.main).0.0,
      λ w. subst (λ x. allows (holds s) x ≡ false) (sym w.1) (Writes-blocks s w.0 w.2),
    )
