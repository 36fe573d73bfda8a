-- ===== src/Downlink/Placed.antt =====
-- The web sockets and the stream ids stay apart in every state that the program reaches.
use woeful.Base.{
  sym, refl, subst, ◌≡◌, Option-cases, inl, inr, none, some, List, [], ◌∷◌, arith, ℕ, ok, >>=-eq-ok,
  ok-injective, or_fault, dangling, Option,
}
use mathlib.Core.Option.{some-injective}
use woeful.Config.{WoefulConfig}
use woeful.System.Calls.{Os, Trace, SocketIsFresh}
use woeful.System.{wait, EpollWrapper}
use woeful.Watcher.{Deferred, reported, watch_round}
use woeful.Server.{Server, init, on_events, on_deferred, on_task, int_handler, post_handler}
use woeful.Server.Steps.{
  Step, opens, receives, drains, closes, wakes, delivers, writes, interrupts, posts, Reach, start,
  later,
}
use woeful.Server.Sound.{IsSound}
use woeful.Server.Background.{on_deferred-none, on_deferred-first}
use woeful.Server.Threads.{watch_round-Watched}
use woeful.Server.Invariant.{Reach-IsSound}
use woeful.Downlink.Silence.{Silent-refl}
use woeful.Downlink.Methods.{write_loop-Silent}
use woeful.Server.Tasks.{Wrote, on_task-Worked}
use woeful.Downlink.Apart.{IsAddressed}
use woeful.Downlink.{Silent}
use woeful.Downlink.Addresses.{
  on_open-IsAddressed, on_message-IsAddressed, on_drain-IsAddressed, on_close-IsAddressed,
  run_deferred-IsAddressed,
}

init-IsAddressed : (epoll : EpollWrapper) → IsAddressed (init epoll).watcher.watched_sockets
unfolding init
init-IsAddressed epoll = record { apart = tt; ids = tt }

on_events-IsAddressed :
    (os : Os) (answer : Option (List ℕ)) (s s' : Server)
    → on_events os answer s ≡ some s'
    → IsAddressed s.watcher.watched_sockets
    → IsAddressed s'.watcher.watched_sockets
unfolding on_events
on_events-IsAddressed os answer s s' h v =
    elim (Option-cases (watch_round os (reported (wait answer)) s.watcher s.trace)) [
      | inl n ↦ cc (rw (n, on_events) at h)
      | inr (r, e) ↦
          let w = watch_round-Watched os (reported (wait answer)) s.watcher s.trace r e in
          subst (λ x. IsAddressed x.watcher.watched_sockets)
            (some-injective _ _ (rw (e, on_events) at h)) (rw w.managers v)
    ]

on_deferred-IsAddressed :
    (os : Os) (s : Server) (queue : List Deferred)
    → s.watcher.deferred ≡ queue
    → IsAddressed s.watcher.watched_sockets
    → IsAddressed (on_deferred os s).watcher.watched_sockets
on_deferred-IsAddressed os s [] e v = rw (on_deferred-none os s e) v
on_deferred-IsAddressed os s (d ∷ ds) e v =
    rw (on_deferred-first os s d ds e)
      (run_deferred-IsAddressed os d (record (s.watcher) { deferred = ds }) s.trace v)

-- A task leaves the watcher as it is, and sends and reads nothing.
pub record Idle (s s' : Server) : Type 0 where
  pub watcher : s'.watcher ≡ s.watcher
  pub mute : Silent s.trace s'.trace

Wrote-Silent : (os : Os) (t t' : Trace) → Wrote os t t' → Silent t t'
Wrote-Silent os t t' (inl e) = subst (Silent t) (sym e) (Silent-refl t)
Wrote-Silent os t t' (inr (fuel, fd, bytes, h)) = write_loop-Silent os fuel fd bytes t t' h

pub on_task-Idle :
    (os : Os) (fuel i : ℕ) (s s' : Server) → on_task os fuel i s ≡ ok (some s') → Idle s s'
on_task-Idle os fuel i s s' h =
    let (tasks, t', e, w) = on_task-Worked os fuel i s s' h in
    subst (Idle s) e (record { watcher = refl; mute = Wrote-Silent os s.trace t' w })

pub posts-Idle : (s : Server) → Idle s (post_handler s)
unfolding post_handler
posts-Idle s = elim (woeful.Base.Bool-cases s.interrupted) [
  | inl e ↦ rw e (record { watcher = refl; mute = Silent-refl s.trace })
  | inr e ↦ rw e (record { watcher = refl; mute = Silent-refl s.trace })
]

pub Step-IsAddressed :
    (os : Os) (conf : WoefulConfig) {s s' : Server}
    → Step os conf s s'
    → IsSound s
    → IsAddressed s.watcher.watched_sockets
    → IsAddressed s'.watcher.watched_sockets
unfolding int_handler
Step-IsAddressed os conf {s} (opens ws free) sound v = on_open-IsAddressed ws s free v
Step-IsAddressed os conf {s} {s'} (receives ws message bytes fits h) sound v =
    on_message-IsAddressed os conf ws message s s' bytes fits sound h v
Step-IsAddressed os conf {s} {s'} (drains ws h) sound v = on_drain-IsAddressed ws s s' sound h v
Step-IsAddressed os conf {s} {s'} (closes ws h) sound v = on_close-IsAddressed ws s s' h v
Step-IsAddressed os conf {s} {s'} (wakes answer h) sound v =
    on_events-IsAddressed os answer s s' h v
Step-IsAddressed os conf {s} delivers sound v =
    on_deferred-IsAddressed os s s.watcher.deferred refl v
Step-IsAddressed os conf {s} {s'} (writes fuel i h) sound v =
    rw (on_task-Idle os fuel i s s' h).watcher v
Step-IsAddressed os conf interrupts sound v = v
Step-IsAddressed os conf {s} posts sound v = rw (posts-Idle s).watcher v

pub Reach-IsAddressed :
    (os : Os) (conf : WoefulConfig) {epoll : EpollWrapper} {s : Server}
    → SocketIsFresh os
    → Reach os conf epoll s
    → IsAddressed s.watcher.watched_sockets
Reach-IsAddressed os conf {epoll} fresh start = init-IsAddressed epoll
Reach-IsAddressed os conf fresh (later r step) =
    Step-IsAddressed os conf step (Reach-IsSound os conf fresh r)
      (Reach-IsAddressed os conf fresh r)
