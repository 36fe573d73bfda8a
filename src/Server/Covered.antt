-- ===== src/Server/Covered.antt =====
-- What epoll watches under the callbacks of the web sockets.
use woeful.Base.{
  ℕ, ◌≤◌, ◌≡◌, ◌∙◌, subst, inl, inr, true, false, arith, Bytes, ok, >>=-eq-ok, ok-injective,
}
use woeful.Base.Map.{insert, erase}
use woeful.Config.{WoefulConfig}
use woeful.System.Calls.{Os, SocketIsFresh, is_open}
use woeful.System.Watching.{is_watched}
use woeful.System.{EpollWrapper, wake}
use woeful.Manager.{WebSocketManager, Session, construct, send_continue, receive, update_streams}
use woeful.Manager.Counting.{owners, update_streams-owners}
use woeful.Manager.Identity.{receive-Same, update_streams-Same}
use woeful.Manager.Watching.{receive-Guarded, force_close-watched, update_streams-watched}
use woeful.Watcher.{parent_of}
use woeful.Watcher.Owners.{held, held-find, held-insert, held-erase, others-le}
use woeful.Watcher.Held.{find-IsOwned}
use woeful.Watcher.Deferring.{covered}
use woeful.Server.{
  Server, manager_of, put_manager, remove_manager, init, on_open, on_message, on_drain, on_close,
}
use woeful.Server.Sound.{IsSound}
use woeful.Server.Callbacks.{manager_of-find}

-- A descriptor that a stream has is watched, or a callback that closes it waits.
abbrev pub IsCovered : Server → Type 0
IsCovered s = (x : ℕ) → 1 ≤ held x s.watcher.watched_sockets → covered x s.watcher s.trace ≡ true

pub init-IsCovered : (epoll : EpollWrapper) → IsCovered (init epoll)
unfolding init held
init-IsCovered epoll x h = ground arith

pub on_open-IsCovered : (ws : ℕ) (s : Server) → IsCovered s → IsCovered (on_open ws s)
unfolding on_open construct send_continue owners is_watched
on_open-IsCovered ws s v x h =
    let managers = s.watcher.watched_sockets in
    v x (
      omega (
        arith,
        h,
        held-insert x s.next_id (construct ws s.next_id s.trace).0 managers,
        others-le x s.next_id managers,
      ))

pub on_message-IsCovered :
    (os : Os) (conf : WoefulConfig) (ws : ℕ) (message : Bytes) (s s' : Server)
    → SocketIsFresh os
    → on_message os conf ws message s ≡ ok s'
    → IsSound s
    → IsCovered s
    → IsCovered s'
unfolding on_message
on_message-IsCovered os conf ws message s s' fresh h sound v =
    let (m, e, h1) = >>=-eq-ok (manager_of s ws) _ h in
    let (id, f) = manager_of-find s ws m e in
    let before : Session = record { manager = m; tasks = s.tasks; trace = s.trace } in
    let (after, e2, h2) = >>=-eq-ok (receive os conf (parent_of s.watcher) message before) _ h1 in
    let managers = s.watcher.watched_sockets in
    let (_, named) = find-IsOwned id m managers s.trace sound.streams f in
    let same = (receive-Same os conf (parent_of s.watcher) message before after e2).0 ∙ named in
    let guarded = receive-Guarded os conf (parent_of s.watcher) message before after fresh e2 in
    subst IsCovered (ok-injective h2) (λ x h3.
      let now : 1 ≤ held x (insert id after.manager managers) =
        subst (λ y. 1 ≤ held x (insert y after.manager managers)) same h3 in
      let sum = held-insert x id after.manager managers in
      let was = held-find x id m managers f in
      elim (guarded x) [
        | inl g ↦ ground (arith, g)
        | inr (less, kept) ↦
            let held_before : 1 ≤ held x managers = omega (arith, now, sum, was, less) in
            let opened : is_open x s.trace ≡ true =
              ground (arith, held_before, sound.streams.bound x) in
            ground (arith, kept opened, v x held_before)
      ])

pub on_drain-IsCovered :
    (ws : ℕ) (s s' : Server) → on_drain ws s ≡ ok s' → IsSound s → IsCovered s → IsCovered s'
unfolding on_drain put_manager wake is_watched
on_drain-IsCovered ws s s' h sound v =
    let (m, e, h1) = >>=-eq-ok (manager_of s ws) _ h in
    let (id, f) = manager_of-find s ws m e in
    let managers = s.watcher.watched_sockets in
    let parent = parent_of s.watcher in
    let eased : WebSocketManager = record m { has_backpressure = false } in
    let (_, named) = find-IsOwned id m managers s.trace sound.streams f in
    let same = (update_streams-Same parent eased s.trace).0 ∙ named in
    let m' = (update_streams parent eased s.trace).0 in
    subst IsCovered (ok-injective h1) (λ x h3.
      let now : 1 ≤ held x (insert id m' managers) =
        subst (λ y. 1 ≤ held x (insert y m' managers)) same h3 in
      let sum = held-insert x id m' managers in
      let was = held-find x id m managers f in
      let owned = (update_streams-owners parent eased s.trace).0 x in
      ground (
        arith,
        update_streams-watched parent x eased s.trace,
        v x (omega (arith, now, sum, was, owned)),
      ))

pub on_close-IsCovered :
    (ws : ℕ) (s s' : Server) → on_close ws s ≡ ok s' → IsSound s → IsCovered s → IsCovered s'
unfolding on_close remove_manager
on_close-IsCovered ws s s' h sound v =
    let (m, e, h1) = >>=-eq-ok (manager_of s ws) _ h in
    let (id, f) = manager_of-find s ws m e in
    let managers = s.watcher.watched_sockets in
    let (owned, named) = find-IsOwned id m managers s.trace sound.streams f in
    subst IsCovered (ok-injective h1) (λ x h3.
      let now : 1 ≤ held x (erase id managers) =
        subst (λ y. 1 ≤ held x (erase y managers)) named h3 in
      let less = held-erase x id managers in
      let before : 1 ≤ held x managers = omega (arith, now, less, others-le x id managers) in
      let alone : owners x m.streams ≡ 0 = ground (arith, now, less, owned.bound x) in
      ground (
        arith,
        v x before,
        force_close-watched (parent_of s.watcher) x m s.trace owned.distinct alone,
      ))
