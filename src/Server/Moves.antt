-- ===== src/Server/Moves.antt =====
-- The callbacks that open and close no web socket leave every manager where it is.
use woeful.Base.{
  ℕ, ◌≡◌, refl, sym, ◌∙◌, subst, inl, inr, false, Bool-cases, Option-cases, some, Option, List, [],
  ◌∷◌, Bytes, ok, >>=-eq-ok, ok-injective,
}
use mathlib.Core.Option.{some-injective}
use woeful.Base.Map.{find}
use woeful.Config.{WoefulConfig}
use woeful.System.Calls.{Os}
use woeful.System.{wait}
use woeful.Manager.{WebSocketManager, Session, receive, update_streams}
use woeful.Manager.Identity.{receive-Same, update_streams-Same}
use woeful.Watcher.{Deferred, SystemWatcher, parent_of, reported, watch_round}
use woeful.Watcher.Held.{find-IsOwned}
use woeful.Watcher.Homes.{Rehouses, Rehouses-refl, insert-Rehouses, run_deferred-Rehouses}
use woeful.Server.{
  Server, manager_of, put_manager, on_message, on_drain, on_events, on_deferred, on_task,
  post_handler,
}
use woeful.Server.Sound.{IsSound}
use woeful.Server.Callbacks.{manager_of-find}
use woeful.Server.Background.{on_deferred-none, on_deferred-first}
use woeful.Server.Threads.{watch_round-Watched}
use woeful.Server.Tasks.{on_task-Worked}

-- The next id and the user data stay, and the managers keep their ids and web sockets.
pub record Stays (s s' : Server) : Type 0 where
  pub next : s'.next_id ≡ s.next_id
  pub users : s'.user_data ≡ s.user_data
  pub homes : Rehouses s.watcher.watched_sockets s'.watcher.watched_sockets

pub Stays-refl : (s : Server) → Stays s s
Stays-refl s = record { next = refl; users = refl; homes = Rehouses-refl s.watcher.watched_sockets }

-- A method's result in its manager's place.
put-Rehouses :
    (s : Server) (ws : ℕ) (m m' : WebSocketManager)
    → IsSound s
    → manager_of s ws ≡ ok m
    → m'.socket_id ≡ m.socket_id
    → m'.ws ≡ m.ws
    → Rehouses s.watcher.watched_sockets (put_manager m' s.watcher).watched_sockets
unfolding put_manager
put-Rehouses s ws m m' sound e named same =
    let (id, f) = manager_of-find s ws m e in
    let managers = s.watcher.watched_sockets in
    let own = (find-IsOwned id m managers s.trace sound.streams f).1 in
    insert-Rehouses m'.socket_id m m' managers
      (subst (λ x. find x managers ≡ some m) (sym (named ∙ own)) f) same

pub on_message-Stays :
    (os : Os) (conf : WoefulConfig) (ws : ℕ) (message : Bytes) (s s' : Server)
    → IsSound s
    → on_message os conf ws message s ≡ ok s'
    → Stays s s'
unfolding on_message
on_message-Stays os conf ws message s s' sound h =
    let (m, e, h1) = >>=-eq-ok (manager_of s ws) _ h in
    let before : Session = record { manager = m; tasks = s.tasks; trace = s.trace } in
    let (after, e2, h2) = >>=-eq-ok (receive os conf (parent_of s.watcher) message before) _ h1 in
    let same = receive-Same os conf (parent_of s.watcher) message before after e2 in
    subst (Stays s) (ok-injective h2) (record {
      next = refl;
      users = refl;
      homes = put-Rehouses s ws m after.manager sound e same.0 same.1;
    })

pub on_drain-Stays : (ws : ℕ) (s s' : Server) → IsSound s → on_drain ws s ≡ ok s' → Stays s s'
unfolding on_drain
on_drain-Stays ws s s' sound h =
    let (m, e, h1) = >>=-eq-ok (manager_of s ws) _ h in
    let eased : WebSocketManager = record m { has_backpressure = false } in
    let same = update_streams-Same (parent_of s.watcher) eased s.trace in
    let m' = (update_streams (parent_of s.watcher) eased s.trace).0 in
    subst (Stays s) (ok-injective h1)
      (record { next = refl; users = refl; homes = put-Rehouses s ws m m' sound e same.0 same.1 })

pub on_events-Stays :
    (os : Os) (answer : Option (List ℕ)) (s s' : Server)
    → on_events os answer s ≡ some s'
    → Stays s s'
unfolding on_events
on_events-Stays os answer s s' h =
    elim (Option-cases (watch_round os (reported (wait answer)) s.watcher s.trace)) [
      | inl n ↦ cc (rw (n, on_events) at h)
      | inr (r, e) ↦
          let w = watch_round-Watched os (reported (wait answer)) s.watcher s.trace r e in
          subst (Stays s) (some-injective _ _ (rw (e, on_events) at h)) (record {
            next = refl;
            users = refl;
            homes =
                subst (Rehouses s.watcher.watched_sockets) (sym w.managers)
                  (Rehouses-refl s.watcher.watched_sockets);
          })
    ]

pub on_deferred-Stays :
    (os : Os) (s : Server) (queue : List Deferred)
    → s.watcher.deferred ≡ queue
    → Stays s (on_deferred os s)
on_deferred-Stays os s [] e = rw (on_deferred-none os s e) (Stays-refl s)
on_deferred-Stays os s (d ∷ ds) e =
    let w : SystemWatcher = record (s.watcher) { deferred = ds } in
    rw (on_deferred-first os s d ds e)
      (record { next = refl; users = refl; homes = run_deferred-Rehouses os d w s.trace })

pub on_task-Stays :
    (os : Os) (fuel i : ℕ) (s s' : Server) → on_task os fuel i s ≡ ok (some s') → Stays s s'
on_task-Stays os fuel i s s' h =
    let (tasks, t', e, _) = on_task-Worked os fuel i s s' h in
    subst (Stays s) e
      (record { next = refl; users = refl; homes = Rehouses-refl s.watcher.watched_sockets })

pub post_handler-Stays : (s : Server) → Stays s (post_handler s)
unfolding post_handler
post_handler-Stays s = elim (Bool-cases s.interrupted) [
  | inl e ↦
      rw e (record { next = refl; users = refl; homes = Rehouses-refl s.watcher.watched_sockets })
  | inr e ↦
      rw e (record { next = refl; users = refl; homes = Rehouses-refl s.watcher.watched_sockets })
]
