-- ===== src/Server/Invariant.antt =====
-- The invariant under the steps of the program.
use woeful.Base.{arith}
use woeful.Config.{WoefulConfig}
use woeful.System.Calls.{Os, SocketIsFresh}
use woeful.System.{EpollWrapper}
use woeful.Server.{Server, int_handler, post_handler}
use woeful.Server.Steps.{
  Step, opens, receives, drains, closes, wakes, delivers, writes, interrupts, posts, Reach, start,
  later,
}
use woeful.Server.Sound.{IsSound}
use woeful.Server.Callbacks.{
  init-IsSound, on_open-IsSound, on_message-IsSound, on_drain-IsSound, on_close-IsSound,
}
use woeful.Server.Background.{on_events-IsSound, on_deferred-IsSound, on_task-IsSound}

-- Each step keeps the invariant.
pub Step-IsSound :
    (os : Os) (conf : WoefulConfig) {s s' : Server}
    → SocketIsFresh os
    → Step os conf s s'
    → IsSound s
    → IsSound s'
unfolding int_handler post_handler
Step-IsSound os conf {s} fresh (opens ws free) v = on_open-IsSound ws s v
Step-IsSound os conf {s} {s'} fresh (receives ws message bytes fits h) v =
    on_message-IsSound os conf ws message s s' fresh h v
Step-IsSound os conf {s} {s'} fresh (drains ws h) v = on_drain-IsSound ws s s' h v
Step-IsSound os conf {s} {s'} fresh (closes ws h) v = on_close-IsSound ws s s' h v
Step-IsSound os conf {s} {s'} fresh (wakes answer h) v = on_events-IsSound os answer s s' h v
Step-IsSound os conf {s} fresh delivers v = on_deferred-IsSound os s v
Step-IsSound os conf {s} {s'} fresh (writes fuel i h) v = on_task-IsSound os fuel i s s' h v
Step-IsSound os conf fresh interrupts v = record { streams = v.streams; counted = v.counted }
Step-IsSound os conf {s} fresh posts v = ground arith

-- In every state that the program reaches by steps that return without a fault, however the
-- callbacks of the web sockets, the rounds of the watcher, the deferred callbacks and the tasks
-- of the pool interleave, the streams of all managers hold open descriptors, no two the same,
-- each manager stands under its own id, and `send_queue_len` is the number of callbacks that
-- wait, modulo 2 ^ 64. The condition is that `socket` never returns a descriptor that is open.
pub Reach-IsSound :
    (os : Os) (conf : WoefulConfig) {epoll : EpollWrapper} {s : Server}
    → SocketIsFresh os
    → Reach os conf epoll s
    → IsSound s
Reach-IsSound os conf {epoll} fresh start = init-IsSound epoll
Reach-IsSound os conf fresh (later r step) =
    Step-IsSound os conf fresh step (Reach-IsSound os conf fresh r)
