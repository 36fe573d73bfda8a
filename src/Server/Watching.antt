-- ===== src/Server/Watching.antt =====
-- The streams of all managers are watched by epoll.
use woeful.Base.{
  ℕ, ◌≤◌, ◌≡◌, refl, ap, subst, inl, inr, Bool-cases, true, ◌||◌, some, Option, List, [], ◌∷◌,
  arith, ok, Option-cases,
}
use mathlib.Core.Option.{some-injective}
use woeful.Base.Map.{find}
use woeful.Config.{WoefulConfig}
use woeful.System.Calls.{Os, Trace, SocketIsFresh}
use woeful.System.Watching.{is_watched}
use woeful.System.{EpollWrapper, wait}
use woeful.Manager.{SocketStreamData, WebSocketManager}
use woeful.Watcher.{Deferred, SystemWatcher, reported, watch_round}
use woeful.Watcher.Owners.{held, held-find}
use woeful.Watcher.Watching.{waits, run_deferred-Leaves}
use woeful.Watcher.Deferring.{watch_round-covered, write_loop-watched}
use woeful.Server.{Server, on_events, on_deferred, on_task, int_handler, post_handler}
use woeful.Server.Steps.{
  Step, opens, receives, drains, closes, wakes, delivers, writes, interrupts, posts, Reach, start,
  later,
}
use woeful.Server.Covered.{
  IsCovered, init-IsCovered, on_open-IsCovered, on_message-IsCovered, on_drain-IsCovered,
  on_close-IsCovered,
}
use woeful.Server.Tasks.{Wrote, on_task-Worked}
use woeful.Watcher.Unique.{owners-find}
use woeful.Server.Sound.{IsSound}
use woeful.Server.Background.{on_deferred-none, on_deferred-first, run_deferred-counted}
use woeful.Server.Threads.{watch_round-Watched}
use woeful.Server.Invariant.{Reach-IsSound}

on_events-IsCovered :
    (os : Os) (answer : Option (List ℕ)) (s s' : Server)
    → on_events os answer s ≡ some s'
    → IsCovered s
    → IsCovered s'
unfolding on_events
on_events-IsCovered os answer s s' h v =
    elim (Option-cases (watch_round os (reported (wait answer)) s.watcher s.trace)) [
      | inl n ↦ cc (rw (n, on_events) at h)
      | inr (r, e) ↦
          let w = watch_round-Watched os (reported (wait answer)) s.watcher s.trace r e in
          subst IsCovered (some-injective _ _ (rw (e, on_events) at h)) (λ x h3.
            watch_round-covered os (reported (wait answer)) x s.watcher s.trace r e
              (v x (subst (λ y. 1 ≤ held x y) w.managers h3)))
    ]

on_deferred-IsCovered :
    (os : Os) (s : Server) (queue : List Deferred)
    → s.watcher.deferred ≡ queue
    → IsSound s
    → IsCovered s
    → IsCovered (on_deferred os s)
unfolding waits
on_deferred-IsCovered os s [] e sound v = rw (on_deferred-none os s e) v
on_deferred-IsCovered os s (d ∷ ds) e sound v =
    let w : SystemWatcher = record (s.watcher) { deferred = ds } in
    let rest = (run_deferred-counted os d w s.trace).1 in
    rw (on_deferred-first os s d ds e) (λ x h.
      let (before, apart, kept) = run_deferred-Leaves os d w s.trace x sound.streams h in
      let was : (is_watched x s.trace || waits x (d ∷ ds)) ≡ true =
        subst (λ q. (is_watched x s.trace || waits x q) ≡ true) e (v x before) in
      rw (rest, kept) (rw apart at was))

Wrote-watched : (os : Os) (x : ℕ) (t t' : Trace) → Wrote os t t' → is_watched x t' ≡ is_watched x t
Wrote-watched os x t t' (inl e) = ap (is_watched x) e
Wrote-watched os x t t' (inr (fuel, fd, bytes, h)) = write_loop-watched os fuel fd x bytes t t' h

on_task-IsCovered :
    (os : Os) (fuel i : ℕ) (s s' : Server)
    → on_task os fuel i s ≡ ok (some s')
    → IsCovered s
    → IsCovered s'
on_task-IsCovered os fuel i s s' h v =
    let (tasks, t', e, w) = on_task-Worked os fuel i s s' h in
    subst IsCovered e (λ x h3. rw (Wrote-watched os x s.trace t' w) (v x h3))

Step-IsCovered :
    (os : Os) (conf : WoefulConfig) {s s' : Server}
    → SocketIsFresh os
    → Step os conf s s'
    → IsSound s
    → IsCovered s
    → IsCovered s'
unfolding int_handler post_handler
Step-IsCovered os conf {s} fresh (opens ws free) sound v = on_open-IsCovered ws s v
Step-IsCovered os conf {s} {s'} fresh (receives ws message bytes fits h) sound v =
    on_message-IsCovered os conf ws message s s' fresh h sound v
Step-IsCovered os conf {s} {s'} fresh (drains ws h) sound v = on_drain-IsCovered ws s s' h sound v
Step-IsCovered os conf {s} {s'} fresh (closes ws h) sound v = on_close-IsCovered ws s s' h sound v
Step-IsCovered os conf {s} {s'} fresh (wakes answer h) sound v =
    on_events-IsCovered os answer s s' h v
Step-IsCovered os conf {s} fresh delivers sound v =
    on_deferred-IsCovered os s s.watcher.deferred refl sound v
Step-IsCovered os conf {s} {s'} fresh (writes fuel i h) sound v =
    on_task-IsCovered os fuel i s s' h v
Step-IsCovered os conf fresh interrupts sound v = v
Step-IsCovered os conf {s} fresh posts sound v = elim (Bool-cases s.interrupted) [
  | inl e ↦ rw e v
  | inr e ↦ rw e v
]

Reach-IsCovered :
    (os : Os) (conf : WoefulConfig) {epoll : EpollWrapper} {s : Server}
    → SocketIsFresh os
    → Reach os conf epoll s
    → IsCovered s
Reach-IsCovered os conf {epoll} fresh start = init-IsCovered epoll
Reach-IsCovered os conf fresh (later r step) =
    Step-IsCovered os conf fresh step (Reach-IsSound os conf fresh r)
      (Reach-IsCovered os conf fresh r)

-- In every state that the program reaches, however its callbacks, the rounds of the watcher, the
-- deferred callbacks and the tasks interleave, the descriptor of each stream of each manager is
-- registered with epoll, or a callback waits that closes it: no stream that is there goes
-- unheard. The condition is that `socket` never returns a descriptor that is open.
pub Reach-watched :
    (os : Os) (conf : WoefulConfig) {epoll : EpollWrapper} (s : Server) (id k : ℕ)
    (m : WebSocketManager) (stream : SocketStreamData)
    → SocketIsFresh os
    → Reach os conf epoll s
    → find id s.watcher.watched_sockets ≡ some m
    → find k m.streams ≡ some stream
    → (is_watched stream.fd s.trace || waits stream.fd s.watcher.deferred) ≡ true
Reach-watched os conf s id k m stream fresh r h g =
    let managers = s.watcher.watched_sockets in
    Reach-IsCovered os conf fresh r stream.fd (
      omega (
        arith,
        held-find stream.fd id m managers h,
        owners-find stream.fd k stream m.streams g refl,
      ))
