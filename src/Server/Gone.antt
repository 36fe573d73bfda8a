-- ===== src/Server/Gone.antt =====
-- A manager that was deleted does not come back, and its tasks have nothing to work on.
use woeful.Base.{
  ℕ, ◌^◌, ◌≤◌, ◌≡◌, refl, ◌∙◌, Bool, false, arith, ok, fault, dangling, ◌<◌, ◌==◌, ==_self, none,
  some, >>=-eq-ok, sym, subst, ok-injective, List,
}
use woeful.Base.Map.{find, find-insert, find-erase}
use woeful.Config.{WoefulConfig}
use woeful.System.Calls.{Os, SocketIsFresh}
use woeful.System.{EpollWrapper}
use woeful.Manager.{WebSocketManager, Task, construct}
use woeful.Server.{
  Server, manager_of, on_open, put_manager, remove_manager, take_task, on_task, on_close,
  int_handler,
}
use woeful.Server.Steps.{
  Step, opens, receives, drains, closes, wakes, delivers, writes, interrupts, posts, Reach, Future,
  now, then, extend, later,
}
use woeful.Server.Sound.{IsSound}
use woeful.Server.Alive.{openings_after, is_open_socket, openings, IsHome}
use woeful.Server.Invariant.{Reach-IsSound}
use woeful.Server.Moves.{
  on_message-Stays, on_drain-Stays, on_events-Stays, on_deferred-Stays, on_task-Stays,
  post_handler-Stays,
}
use woeful.Server.Homing.{manager_of-named, differs}
use woeful.Server.Answers.{before, Reach-IsHome}
use woeful.Watcher.Held.{find-IsOwned}

on_open-gone :
    (n at id : ℕ) (is_live : ℕ → Bool) (s : Server)
    → n < 2 ^ 64
    → IsHome n is_live s
    → id < n
    → find id s.watcher.watched_sockets ≡ none
    → find id (on_open at s).watcher.watched_sockets ≡ none
unfolding on_open put_manager construct
on_open-gone n at id is_live s small v l gone =
    let other : (s.next_id == id) ≡ false = differs s.next_id id (omega (arith, v.next)) in
    find-insert s.next_id id (construct at s.next_id s.trace).0 s.watcher.watched_sockets
    ∙ rw other gone

on_close-gone :
    (at id : ℕ) (s s' : Server)
    → on_close at s ≡ ok s'
    → find id s.watcher.watched_sockets ≡ none
    → find id s'.watcher.watched_sockets ≡ none
unfolding on_close remove_manager
on_close-gone at id s s' h gone =
    let (m, _, h1) = >>=-eq-ok (manager_of s at) _ h in
    subst (λ (x : Server). find id x.watcher.watched_sockets ≡ none) (ok-injective h1)
      (find-erase m.socket_id id s.watcher.watched_sockets ∙ ground arith)

Step-gone :
    (n id : ℕ) (is_live : ℕ → Bool) {os : Os} {conf : WoefulConfig} {s s' : Server}
    → IsSound s
    → IsHome n is_live s
    → (step : Step os conf s s') → openings_after step n ≤ 2 ^ 64
    → id < n
    → find id s.watcher.watched_sockets ≡ none
    → (id < openings_after step n) × (find id s'.watcher.watched_sockets ≡ none)
unfolding openings_after int_handler
Step-gone n id is_live {s} sound v (opens at free) small l gone =
    (omega arith, on_open-gone n at id is_live s (omega arith) v l gone)
Step-gone n id is_live {s} {s'} sound v (closes at h) small l gone =
    (l, on_close-gone at id s s' h gone)
Step-gone n id is_live {os} {conf} {s} {s'} sound v (receives at message bytes fits h) small l
      gone =
    (l, ((on_message-Stays os conf at message s s' sound h).homes id).1 gone)
Step-gone n id is_live {s} {s'} sound v (drains at h) small l gone =
    (l, ((on_drain-Stays at s s' sound h).homes id).1 gone)
Step-gone n id is_live {os} {s} {s'} sound v (wakes answer h) small l gone =
    (l, ((on_events-Stays os answer s s' h).homes id).1 gone)
Step-gone n id is_live {os} {s} sound v delivers small l gone =
    (l, ((on_deferred-Stays os s s.watcher.deferred refl).homes id).1 gone)
Step-gone n id is_live {os} {s} {s'} sound v (writes fuel i h) small l gone =
    (l, ((on_task-Stays os fuel i s s' h).homes id).1 gone)
Step-gone n id is_live sound v interrupts small l gone = (l, gone)
Step-gone n id is_live {s} sound v posts small l gone =
    (l, ((post_handler-Stays s).homes id).1 gone)

Future-gone :
    (os : Os) (conf : WoefulConfig) (id : ℕ) {epoll : EpollWrapper} {s s' : Server}
    → SocketIsFresh os
    → (r : Reach os conf epoll s) (future : Future os conf s s')
    → openings (extend r future) ≤ 2 ^ 64
    → id < openings r
    → find id s.watcher.watched_sockets ≡ none
    → (id < openings (extend r future)) × (find id s'.watcher.watched_sockets ≡ none)
unfolding extend openings
Future-gone os conf id fresh r now small l gone = (l, gone)
Future-gone os conf id fresh r (then future step) small l gone =
    let past = extend r future in
    let fits = before step (openings past) small in
    let (l', gone') = Future-gone os conf id fresh r future fits l gone in
    Step-gone (openings past) id (λ x. is_open_socket x past) (Reach-IsSound os conf fresh past)
      (Reach-IsHome os conf fresh past fits) step small l' gone'

past_fits :
    {os : Os} {conf : WoefulConfig} {epoll : EpollWrapper} {s s' : Server}
    (r : Reach os conf epoll s) (future : Future os conf s s')
    → openings (extend r future) ≤ 2 ^ 64
    → openings r ≤ 2 ^ 64
unfolding extend openings
past_fits r now small = small
past_fits r (then future step) small =
    past_fits r future (before step (openings (extend r future)) small)

-- The manager of a web socket that closes has an id that was given out, and is gone behind it.
on_close-erases :
    (n ws : ℕ) (is_live : ℕ → Bool) (m : WebSocketManager) (s s' : Server)
    → IsSound s
    → IsHome n is_live s
    → manager_of s ws ≡ ok m
    → on_close ws s ≡ ok s'
    → (m.socket_id < n) × (find m.socket_id s'.watcher.watched_sockets ≡ none)
unfolding on_close remove_manager
on_close-erases n ws is_live m s s' sound v e h =
    let (id, f, g) = manager_of-named s ws m e in
    let managers = s.watcher.watched_sockets in
    let (_, named) = find-IsOwned id m managers s.trace sound.streams g in
    let (m', e', h1) = >>=-eq-ok (manager_of s ws) _ h in
    let same : m' ≡ m = ok-injective (sym e' ∙ e) in
    (
      rw named (v.users ws id f).0,
      subst (λ (x : Server). find m.socket_id x.watcher.watched_sockets ≡ none) (ok-injective h1)
          (rw same (find-erase m.socket_id m.socket_id managers ∙ rw (==_self m.socket_id) refl)),
    )

-- A task outlives its manager: once a web socket closed, a task that its manager had submitted
-- and that is still in the queue uses the deleted manager, whatever the program did in between
-- and whichever web sockets opened, when it runs. The conditions are that the state before is
-- one that the program reaches, that no more than 2 ^ 64 web sockets opened, and that `socket`
-- never returns a descriptor that is open.
pub on_task-dangles :
    (os : Os) (conf : WoefulConfig) (ws fuel i : ℕ) (m : WebSocketManager) (task : Task)
    (rest : List Task) {epoll : EpollWrapper} {s s' s'' : Server}
    → SocketIsFresh os
    → (r : Reach os conf epoll s) → manager_of s ws ≡ ok m
    → (h : on_close ws s ≡ ok s') → (future : Future os conf s' s'')
    → openings (extend (later r (closes ws h)) future) ≤ 2 ^ 64
    → take_task i s''.tasks ≡ some (task, rest)
    → task.manager ≡ m.socket_id
    → on_task os fuel i s'' ≡ fault dangling
unfolding on_task openings openings_after
on_task-dangles os conf ws fuel i m task rest {s} {s'} {s''} fresh r e h future small t own =
    let past_small = past_fits (later r (closes ws h)) future small in
    let (l, gone) =
      on_close-erases (openings r) ws (λ x. is_open_socket x r) m s s'
        (Reach-IsSound os conf fresh r) (Reach-IsHome os conf fresh r past_small) e h in
    let (_, still) =
      Future-gone os conf m.socket_id fresh (later r (closes ws h)) future small l gone in
    rw (t, on_task) (rw (own, still) refl)
