-- ===== src/Downlink/Run.antt =====
-- The relay of a stream over the steps of the program.
use woeful.Base.{
  Option, ℕ, ◌≡◌, refl, subst, Option-cases, inl, inr, false, some, List, Bytes, ok, >>=-eq-ok,
  ok-injective,
}
use mathlib.Core.Option.{some-injective}
use woeful.Config.{WoefulConfig}
use woeful.System.Calls.{Os, attempts, SocketIsFresh}
use woeful.System.{wait, EpollWrapper, wake}
use woeful.Manager.{Session, WebSocketManager, receive}
use woeful.Watcher.{parent_of, reported, watch_round}
use woeful.Watcher.Reading.{bytes_read}
use woeful.Server.{
  Server, manager_of, put_manager, remove_manager, on_open, on_message, on_drain, on_close,
  on_events, int_handler,
}
use woeful.Server.Steps.{
  Step, opens, receives, drains, closes, wakes, delivers, writes, interrupts, posts, Reach, later,
}
use woeful.Server.Sound.{IsSound}
use woeful.Server.Invariant.{Reach-IsSound}
use woeful.Downlink.{sent, Mute}
use woeful.Downlink.Silence.{Mute-refl, Mute-trans, update_streams-Mute, force_close-Mute}
use woeful.Downlink.Methods.{construct-Mute, receive-Mute}
use woeful.Downlink.Apart.{IsAddressed}
use woeful.Downlink.Hear.{watch_round-Hears}
use woeful.Downlink.Faithful.{
  Lives, Relays, Relays-trans, Silent-Relays, Mute-Relays, Hears-Relays, delivered-Relays,
}
use woeful.Downlink.Placed.{Idle, on_task-Idle, posts-Idle, Reach-IsAddressed}

Idle-Relays : (k ws fd : ℕ) (s s' : Server) → Idle s s' → Relays k ws fd s s'
Idle-Relays k ws fd s s' q = Silent-Relays k ws fd s s' q.mute (rw q.watcher refl)

on_message-Relays :
    (os : Os) (conf : WoefulConfig) (k ws fd at : ℕ) (message : Bytes) (s s' : Server)
    → on_message os conf at message s ≡ ok s'
    → Relays k ws fd s s'
unfolding on_message put_manager
on_message-Relays os conf k ws fd at message s s' h =
    let (m, _, h1) = >>=-eq-ok (manager_of s at) _ h in
    let before : Session = record { manager = m; tasks = s.tasks; trace = s.trace } in
    let (after, e, h2) = >>=-eq-ok (receive os conf (parent_of s.watcher) message before) _ h1 in
    subst (Relays k ws fd s) (ok-injective h2) (
      Mute-Relays k ws fd s _ (receive-Mute os conf (parent_of s.watcher) message before after e)
        refl)

pub wake-Mute : (epoll : EpollWrapper) (t : woeful.System.Calls.Trace) → Mute t (wake epoll t)
unfolding wake sent bytes_read attempts
wake-Mute epoll t = record { sends = λ ws k. refl; reads = λ fd. refl; tries = refl }

on_drain-Relays : (k ws fd at : ℕ) (s s' : Server) → on_drain at s ≡ ok s' → Relays k ws fd s s'
unfolding on_drain put_manager
on_drain-Relays k ws fd at s s' h =
    let (m, _, h1) = >>=-eq-ok (manager_of s at) _ h in
    let eased : WebSocketManager = record m { has_backpressure = false } in
    subst (Relays k ws fd s) (ok-injective h1) (
      Mute-Relays k ws fd s _
        (Mute-trans (update_streams-Mute (parent_of s.watcher) eased s.trace)
          (wake-Mute s.watcher.epoll _))
        refl)

on_close-Relays : (k ws fd at : ℕ) (s s' : Server) → on_close at s ≡ ok s' → Relays k ws fd s s'
unfolding on_close remove_manager
on_close-Relays k ws fd at s s' h =
    let (m, _, h1) = >>=-eq-ok (manager_of s at) _ h in
    subst (Relays k ws fd s) (ok-injective h1)
      (Mute-Relays k ws fd s _ (force_close-Mute (parent_of s.watcher) m s.trace) refl)

on_events-Relays :
    (os : Os) (k ws fd : ℕ) (answer : Option (List ℕ)) (s s' : Server)
    → on_events os answer s ≡ some s'
    → Relays k ws fd s s'
unfolding on_events
on_events-Relays os k ws fd answer s s' h =
    elim (Option-cases (watch_round os (reported (wait answer)) s.watcher s.trace)) [
      | inl n ↦ cc (rw (n, on_events) at h)
      | inr (r, e) ↦ subst (Relays k ws fd s) (some-injective _ _ (rw (e, on_events) at h)) (
          Hears-Relays k ws fd s _
            (watch_round-Hears os fd (reported (wait answer)) s.watcher s.trace r e))
    ]

Step-Relays :
    (os : Os) (conf : WoefulConfig) (id k ws fd : ℕ) {s s' : Server}
    → Step os conf s s'
    → IsSound s
    → IsAddressed s.watcher.watched_sockets
    → Lives id k ws fd s
    → Relays k ws fd s s'
unfolding int_handler on_open put_manager
Step-Relays os conf id k ws fd {s} (opens at free) sound v l =
    Mute-Relays k ws fd s (on_open at s) (construct-Mute at s.next_id s.trace) refl
Step-Relays os conf id k ws fd {s} {s'} (receives at message bytes fits h) sound v l =
    on_message-Relays os conf k ws fd at message s s' h
Step-Relays os conf id k ws fd {s} {s'} (drains at h) sound v l = on_drain-Relays k ws fd at s s' h
Step-Relays os conf id k ws fd {s} {s'} (closes at h) sound v l = on_close-Relays k ws fd at s s' h
Step-Relays os conf id k ws fd {s} {s'} (wakes answer h) sound v l =
    on_events-Relays os k ws fd answer s s' h
Step-Relays os conf id k ws fd {s} delivers sound v l = delivered-Relays os id k ws fd s sound v l
Step-Relays os conf id k ws fd {s} {s'} (writes fuel i h) sound v l =
    Idle-Relays k ws fd s s' (on_task-Idle os fuel i s s' h)
Step-Relays os conf id k ws fd {s} interrupts sound v l =
    Mute-Relays k ws fd s (int_handler s) (Mute-refl s.trace) refl
Step-Relays os conf id k ws fd {s} {s'} posts sound v l = Idle-Relays k ws fd s s' (posts-Idle s)

-- Steps of the program that start in states in which the stream is there.
pub data Run (os : Os) (conf : WoefulConfig) (id k ws fd : ℕ) (s : Server) : Server → Type 0 where
  still : Run os conf id k ws fd s s
  next :
      {s1 s2 : Server}
      → Run os conf id k ws fd s s1
      → Lives id k ws fd s1
      → Step os conf s1 s2
      → Run os conf id k ws fd s s2

pub Run-Reach :
    (os : Os) (conf : WoefulConfig) (id k ws fd : ℕ) {epoll : EpollWrapper} {s s' : Server}
    → Reach os conf epoll s
    → Run os conf id k ws fd s s'
    → Reach os conf epoll s'
Run-Reach os conf id k ws fd r still = r
Run-Reach os conf id k ws fd r (next run l step) = later (Run-Reach os conf id k ws fd r run) step

-- Over any run of the program in whose states a stream is there, however the callbacks of the
-- web sockets, the rounds of the watcher, the deferred callbacks and the tasks interleave, what
-- was read from the descriptor of the stream is, byte for byte and in order, what was handed to
-- its client's web socket for it (also where the web socket then drops a message) and then what
-- waits in the callbacks, behind what waited before the run: nothing is lost, duplicated or
-- reordered. The conditions are that the run starts in a state that the program reaches, and
-- that `socket` never returns a descriptor that is open.
pub Run-Relays :
    (os : Os) (conf : WoefulConfig) (id k ws fd : ℕ) {epoll : EpollWrapper} {s s' : Server}
    → SocketIsFresh os
    → Reach os conf epoll s
    → Run os conf id k ws fd s s'
    → Relays k ws fd s s'
Run-Relays os conf id k ws fd {s = s} fresh r still =
    Mute-Relays k ws fd s s (Mute-refl s.trace) refl
Run-Relays os conf id k ws fd {s' = s'} fresh r (next {s1} run l step) =
    let r1 = Run-Reach os conf id k ws fd r run in
    Relays-trans (Run-Relays os conf id k ws fd fresh r run) (
      Step-Relays os conf id k ws fd step (Reach-IsSound os conf fresh r1)
        (Reach-IsAddressed os conf fresh r1) l)
