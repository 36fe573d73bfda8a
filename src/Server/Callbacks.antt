-- ===== src/Server/Callbacks.antt =====
-- The invariant under the callbacks of the web sockets.
use woeful.Base.{
  ℕ, ◌≡◌, refl, sym, ◌∙◌, subst, false, some, arith, Bytes, ok, >>=-eq-ok, ok-injective, or_fault,
  dangling,
}
use woeful.Base.Map.{find, erase}
use woeful.Config.{WoefulConfig}
use woeful.System.Calls.{Os, SocketIsFresh, is_open}
use woeful.System.{EpollWrapper, wake}
use woeful.Manager.{WebSocketManager, Session, receive, update_streams, force_close, construct}
use woeful.Manager.Counting.{owners, IsOwned}
use woeful.Manager.Owned.{receive-IsOwned, update_streams-IsOwned, force_close-IsOwned}
use woeful.Manager.Identity.{receive-Same, update_streams-Same}
use woeful.Watcher.{parent_of}
use woeful.Watcher.Owners.{held, others, others-le}
use woeful.Watcher.Held.{IsHeld, find-IsOwned, insert-IsHeld, erase-IsHeld}
use woeful.Server.{Server, manager_of, put_manager, on_open, on_message, on_drain, on_close, init}
use woeful.Server.Sound.{IsSound}

pub manager_of-find :
    (s : Server) (ws : ℕ) (m : WebSocketManager)
    → manager_of s ws ≡ ok m
    → (id : ℕ) × (find id s.watcher.watched_sockets ≡ some m)
unfolding manager_of
manager_of-find s ws m h =
    let (id, _, e) = >>=-eq-ok (or_fault (find ws s.user_data) dangling) _ h in (id, ground arith)

pub init-IsSound : (epoll : EpollWrapper) → IsSound (init epoll)
unfolding init held is_open
init-IsSound epoll = record {
  streams = record { entries = tt; distinct = tt; bound = λ fd. omega arith };
  counted = omega arith;
}

pub on_open-IsSound : (ws : ℕ) (s : Server) → IsSound s → IsSound (on_open ws s)
unfolding on_open construct owners is_open
on_open-IsSound ws s v = record {
  streams = insert-IsHeld s.next_id _ s.watcher.watched_sockets s.trace _ v.streams refl (record {
    distinct = tt;
    bound =
        λ fd. ground (arith, others-le fd s.next_id s.watcher.watched_sockets, v.streams.bound fd);
  });
  counted = v.counted;
}

pub on_message-IsSound :
    (os : Os) (conf : WoefulConfig) (ws : ℕ) (message : Bytes) (s s' : Server)
    → SocketIsFresh os
    → on_message os conf ws message s ≡ ok s'
    → IsSound s
    → IsSound s'
unfolding on_message
on_message-IsSound os conf ws message s s' fresh h v =
    let (m, e, h1) = >>=-eq-ok (manager_of s ws) _ h in
    let (id, f) = manager_of-find s ws m e in
    let before : Session = record { manager = m; tasks = s.tasks; trace = s.trace } in
    let (after, e2, h2) = >>=-eq-ok (receive os conf (parent_of s.watcher) message before) _ h1 in
    let managers = s.watcher.watched_sockets in
    let (owned, named) = find-IsOwned id m managers s.trace v.streams f in
    let same = receive-Same os conf (parent_of s.watcher) message before after e2 in
    subst IsSound (ok-injective h2) (record {
      streams = insert-IsHeld _ after.manager managers s.trace after.trace v.streams refl (
          subst (λ x. IsOwned (others x managers) after.manager.streams after.trace)
            (sym (same.0 ∙ named))
            (receive-IsOwned (others id managers) os conf (parent_of s.watcher) message before after
              fresh e2 owned));
      counted = v.counted;
    })

pub on_drain-IsSound : (ws : ℕ) (s s' : Server) → on_drain ws s ≡ ok s' → IsSound s → IsSound s'
unfolding on_drain put_manager wake is_open
on_drain-IsSound ws s s' h v =
    let (m, e, h1) = >>=-eq-ok (manager_of s ws) _ h in
    let (id, f) = manager_of-find s ws m e in
    let managers = s.watcher.watched_sockets in
    let parent = parent_of s.watcher in
    let eased : WebSocketManager = record m { has_backpressure = false } in
    let (owned, named) = find-IsOwned id m managers s.trace v.streams f in
    let same = update_streams-Same parent eased s.trace in
    let kept = update_streams-IsOwned (others id managers) parent eased s.trace owned in
    let t' = wake s.watcher.epoll (update_streams parent eased s.trace).1 in
    subst IsSound (ok-injective h1) (record {
      streams =
          insert-IsHeld _ (update_streams parent eased s.trace).0 managers s.trace t' v.streams refl
            (subst
              (λ x. IsOwned (others x managers) (update_streams parent eased s.trace).0.streams t')
              (sym (same.0 ∙ named)) (record { distinct = kept.distinct; bound = kept.bound }));
      counted = v.counted;
    })

pub on_close-IsSound : (ws : ℕ) (s s' : Server) → on_close ws s ≡ ok s' → IsSound s → IsSound s'
unfolding on_close
on_close-IsSound ws s s' h v =
    let (m, e, h1) = >>=-eq-ok (manager_of s ws) _ h in
    let (id, f) = manager_of-find s ws m e in
    let managers = s.watcher.watched_sockets in
    let (owned, named) = find-IsOwned id m managers s.trace v.streams f in
    let (kept, empty) =
      force_close-IsOwned (others id managers) (parent_of s.watcher) m s.trace owned in
    subst IsSound (ok-injective h1) (record {
      streams =
          subst (λ x. IsHeld (erase x managers) (force_close (parent_of s.watcher) m s.trace).1)
            (sym named) (erase-IsHeld id managers s.trace _ v.streams (rw empty at kept));
      counted = v.counted;
    })
