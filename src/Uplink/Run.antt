-- ===== src/Uplink/Run.antt =====
-- The accounts of a stream over the steps of the program.
use woeful.Base.{
  Option, ℕ, ◌≡◌, refl, sym, ap, subst, ◌∙◌, ◌==◌, Option-cases, inl, inr, false, some, List, [],
  ◌∷◌, ◌++◌, arith, Bytes, ok, >>=-eq-ok, ok-injective, if◌then◌else◌,
}
use mathlib.Core.Option.{some-injective}
use woeful.Base.Map.{find}
use woeful.Config.{WoefulConfig}
use woeful.Packets.{parse_wisp}
use woeful.System.Calls.{Os, SocketIsFresh}
use woeful.System.{wait, EpollWrapper}
use woeful.Manager.{SocketStreamData, Session, WebSocketManager, receive}
use woeful.Watcher.{Deferred, SystemWatcher, parent_of, reported, watch_round}
use woeful.Watcher.Held.{find-IsOwned}
use woeful.Server.{
  Server, manager_of, on_open, on_message, on_drain, on_close, on_events, on_deferred, int_handler,
  post_handler,
}
use woeful.Server.Steps.{
  Step, opens, receives, drains, closes, wakes, delivers, writes, interrupts, posts, Reach,
}
use woeful.Server.Sound.{IsSound}
use woeful.Server.Callbacks.{manager_of-find}
use woeful.Server.Background.{on_deferred-none, on_deferred-first}
use woeful.Server.Invariant.{Reach-IsSound}
use woeful.Downlink.Silence.{Mute-trans, update_streams-Mute, force_close-Mute}
use woeful.Downlink.Methods.{construct-Mute, receive-Mute}
use woeful.Downlink.Carry.{attempts-run_deferred}
use woeful.Downlink.Hear.{watch_round-Hears}
use woeful.Downlink.Faithful.{Lives}
use woeful.Downlink.Run.{Run, still, next, Run-Reach, wake-Mute}
use woeful.Uplink.{brought, arrived, Accounts}
use woeful.Uplink.Counts.{Accounts-trans, still-Accounts, quiet-Accounts}
use woeful.Uplink.Queue.{receive-waiting}
use woeful.Uplink.Tasks.{on_task-Accounts}

on_message-Accounts :
    (os : Os) (conf : WoefulConfig) (id k ws fd at : ℕ) (message : Bytes) (s s' : Server)
    → IsSound s
    → Lives id k ws fd s
    → on_message os conf at message s ≡ ok s'
    → Accounts id k fd (arrived id k at message s) s s'
unfolding on_message arrived
on_message-Accounts os conf id k ws fd at message s s' sound l h =
    let (m, f, h1) = >>=-eq-ok (manager_of s at) _ h in
    let (j, g) = manager_of-find s at m f in
    let named = (find-IsOwned j m s.watcher.watched_sockets s.trace sound.streams g).1 in
    let before : Session = record { manager = m; tasks = s.tasks; trace = s.trace } in
    let (after, e, h2) = >>=-eq-ok (receive os conf (parent_of s.watcher) message before) _ h1 in
    let there : m.socket_id ≡ id → (stream : SocketStreamData) × (find k m.streams ≡ some stream) =
      λ own.
        let one : l.manager ≡ m =
          some-injective _ _ (
            sym l.found ∙ ap (λ x. find x s.watcher.watched_sockets) (sym (sym named ∙ own)) ∙ g) in
        (l.stream, subst (λ (x : WebSocketManager). find k x.streams ≡ some l.stream) one l.here) in
    let queued = receive-waiting os conf (parent_of s.watcher) message id k before after e there in
    subst (Accounts id k fd (arrived id k at message s) s) (ok-injective h2) (
      rw (f, arrived)
        (still-Accounts id k fd (if m.socket_id == id then brought k (parse_wisp message) else []) s
          _ (receive-Mute os conf (parent_of s.watcher) message before after e).tries queued))

on_drain-Accounts :
    (id k fd at : ℕ) (s s' : Server) → on_drain at s ≡ ok s' → Accounts id k fd [] s s'
unfolding on_drain
on_drain-Accounts id k fd at s s' h =
    let (m, _, h1) = >>=-eq-ok (manager_of s at) _ h in
    let eased : WebSocketManager = record m { has_backpressure = false } in
    subst (Accounts id k fd [] s) (ok-injective h1) (
      quiet-Accounts id k fd s _
        (Mute-trans (update_streams-Mute (parent_of s.watcher) eased s.trace)
          (wake-Mute s.watcher.epoll _)).tries
        refl)

on_close-Accounts :
    (id k fd at : ℕ) (s s' : Server) → on_close at s ≡ ok s' → Accounts id k fd [] s s'
unfolding on_close
on_close-Accounts id k fd at s s' h =
    let (m, _, h1) = >>=-eq-ok (manager_of s at) _ h in
    subst (Accounts id k fd [] s) (ok-injective h1)
      (quiet-Accounts id k fd s _ (force_close-Mute (parent_of s.watcher) m s.trace).tries refl)

on_events-Accounts :
    (os : Os) (id k fd : ℕ) (answer : Option (List ℕ)) (s s' : Server)
    → on_events os answer s ≡ some s'
    → Accounts id k fd [] s s'
unfolding on_events
on_events-Accounts os id k fd answer s s' h =
    elim (Option-cases (watch_round os (reported (wait answer)) s.watcher s.trace)) [
      | inl n ↦ cc (rw (n, on_events) at h)
      | inr (r, e) ↦ subst (Accounts id k fd [] s) (some-injective _ _ (rw (e, on_events) at h)) (
          quiet-Accounts id k fd s _
            (watch_round-Hears os fd (reported (wait answer)) s.watcher s.trace r e).tries refl)
    ]

on_deferred-Accounts :
    (os : Os) (id k fd : ℕ) (s : Server) (queue : List Deferred)
    → s.watcher.deferred ≡ queue
    → Accounts id k fd [] s (on_deferred os s)
on_deferred-Accounts os id k fd s [] e =
    rw (on_deferred-none os s e) (quiet-Accounts id k fd s s refl refl)
on_deferred-Accounts os id k fd s (d ∷ ds) e =
    let w : SystemWatcher = record (s.watcher) { deferred = ds } in
    rw (on_deferred-first os s d ds e)
      (quiet-Accounts id k fd s _ (attempts-run_deferred os d w s.trace) refl)

posts-Accounts : (id k fd : ℕ) (s : Server) → Accounts id k fd [] s (post_handler s)
unfolding post_handler
posts-Accounts id k fd s = quiet-Accounts id k fd s (post_handler s) (ground arith) (ground arith)

-- What the step brings for the stream.
unfoldable pub came_by :
    {os : Os} {conf : WoefulConfig} {s s' : Server} → ℕ → ℕ → Step os conf s s' → List Bytes
unfolding arrived
came_by {s} id k (receives at message bytes fits h) = arrived id k at message s
came_by id k (opens at free) = []
came_by id k (drains at h) = []
came_by id k (closes at h) = []
came_by id k (wakes answer h) = []
came_by id k delivers = []
came_by id k (writes fuel i h) = []
came_by id k interrupts = []
came_by id k posts = []

-- What the run brings for the stream whose life it follows.
unfoldable pub came :
    {os : Os} {conf : WoefulConfig} {id k ws fd : ℕ} {s s' : Server}
    → Run os conf id k ws fd s s'
    → List Bytes
unfolding came_by
came still = []
came {id} {k} (next run l step) = came run ++ came_by id k step

Step-Accounts :
    {os : Os} {conf : WoefulConfig} (id k ws fd : ℕ) {s s' : Server} (step : Step os conf s s')
    → IsSound s
    → Lives id k ws fd s
    → Accounts id k fd (came_by id k step) s s'
unfolding came_by int_handler on_open
Step-Accounts id k ws fd {s} (opens at free) sound l =
    quiet-Accounts id k fd s (on_open at s) (construct-Mute at s.next_id s.trace).tries refl
Step-Accounts {os} {conf} id k ws fd {s} {s'} (receives at message bytes fits h) sound l =
    on_message-Accounts os conf id k ws fd at message s s' sound l h
Step-Accounts id k ws fd {s} {s'} (drains at h) sound l = on_drain-Accounts id k fd at s s' h
Step-Accounts id k ws fd {s} {s'} (closes at h) sound l = on_close-Accounts id k fd at s s' h
Step-Accounts {os} id k ws fd {s} {s'} (wakes answer h) sound l =
    on_events-Accounts os id k fd answer s s' h
Step-Accounts {os} id k ws fd {s} delivers sound l =
    on_deferred-Accounts os id k fd s s.watcher.deferred refl
Step-Accounts {os} id k ws fd {s} {s'} (writes fuel i h) sound l =
    on_task-Accounts os id k ws fd fuel i s s' h sound l
Step-Accounts id k ws fd {s} interrupts sound l = quiet-Accounts id k fd s (int_handler s) refl refl
Step-Accounts id k ws fd {s} posts sound l = posts-Accounts id k fd s

-- Over any run of the program in whose states a stream is there, however the callbacks of the
-- web sockets, the rounds of the watcher, the deferred callbacks and the tasks interleave, the
-- data of the DATA messages that its manager received for it, and of those whose tasks waited
-- before, is, each as often as it came, the data of the writes on the descriptor of the stream
-- that the system did not refuse, what still waits in the queue, and what was lost, one message
-- for each poll of the descriptor that failed: nothing else is written, and nothing twice. The
-- conditions are that the run starts in a state that the program reaches, and that `socket`
-- never returns a descriptor that is open.
pub Run-Accounts :
    (os : Os) (conf : WoefulConfig) (id k ws fd : ℕ) {epoll : EpollWrapper} {s s' : Server}
    → SocketIsFresh os
    → Reach os conf epoll s
    → (run : Run os conf id k ws fd s s') → Accounts id k fd (came run) s s'
unfolding came
Run-Accounts os conf id k ws fd {s = s} fresh r still = quiet-Accounts id k fd s s refl refl
Run-Accounts os conf id k ws fd {s' = s'} fresh r (next {s1} run l step) =
    let r1 = Run-Reach os conf id k ws fd r run in
    Accounts-trans (Run-Accounts os conf id k ws fd fresh r run)
      (Step-Accounts id k ws fd step (Reach-IsSound os conf fresh r1) l)
