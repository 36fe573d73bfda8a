-- ===== src/Downlink/Addresses.antt =====
-- The web sockets of the managers and the ids of their streams, under the steps of the program.
use woeful.Base.{
  ℕ, ◌+◌, ◌-◌, ◌%◌, ◌^◌, Bool, ◌≤◌, ◌≡◌, ◌≢◌, sym, subst, ◌∙◌, ltb, true, false, Bool-cases,
  Option-cases, inl, inr, none, some, [], ◌∷◌, arith, length, All, IsByte, Bytes, ok, >>=-eq-ok,
  ok-injective,
}
use woeful.Base.Map.{Map, find, insert, erase}
use woeful.Packets.{max_queue}
use woeful.Config.{WoefulConfig}
use woeful.System.Calls.{Os, Trace}
use woeful.Manager.{WebSocketManager, Session, Parent, construct, update_streams, receive}
use woeful.Manager.Identity.{update_streams-Same, close_stream-Same, receive-Same}
use woeful.Watcher.{
  Deferred, SystemWatcher, parent_of, Found, deliver_managers, close_found, update_managers,
  run_deferred,
}
use woeful.Watcher.Held.{find-IsOwned}
use woeful.Server.{
  Server, manager_of, put_manager, remove_manager, on_open, on_message, on_drain, on_close,
}
use woeful.Server.Main.{app_options}
use woeful.Server.Callbacks.{manager_of-find}
use woeful.Server.Sound.{IsSound}
use woeful.Downlink.Apart.{
  HasIds, IsAddressed, All-find, All-insert, All-erase, insert_free-IsApart, insert_same-IsApart,
  erase-IsApart,
}
use woeful.Downlink.Ids.{StreamIds, update_streams-ids, close_stream-ids, receive-ids}

put-IsAddressed :
    (id : ℕ) (old m : WebSocketManager) (managers : Map WebSocketManager)
    → IsAddressed managers
    → find id managers ≡ some old
    → m.ws ≡ old.ws
    → StreamIds m.streams
    → IsAddressed (insert id m managers)
put-IsAddressed id old m managers v h w u = record {
  apart = insert_same-IsApart id old m managers h w v.apart;
  ids = All-insert HasIds id m managers v.ids u;
}

erase-IsAddressed :
    (id : ℕ) (managers : Map WebSocketManager)
    → IsAddressed managers
    → IsAddressed (erase id managers)
erase-IsAddressed id managers v = record {
  apart = erase-IsApart id managers v.apart;
  ids = All-erase HasIds id managers v.ids;
}

-- The loops over the managers keep their web sockets and the ids.
deliver_managers-ws :
    (os : Os) (fd ws : ℕ) (bytes : Bytes) (managers : Map WebSocketManager) (found : Found)
    (t : Trace)
    → All (λ f. f.1.ws ≢ ws) managers
    → All (λ f. f.1.ws ≢ ws) (deliver_managers os fd bytes managers found t).0
unfolding deliver_managers
deliver_managers-ws os fd ws bytes [] found t a = a
deliver_managers-ws os fd ws bytes ((id, m) ∷ managers) found t a =
    (a.0, deliver_managers-ws os fd ws bytes managers _ _ a.1)

deliver_managers-IsAddressed :
    (os : Os) (fd : ℕ) (bytes : Bytes) (managers : Map WebSocketManager) (found : Found) (t : Trace)
    → IsAddressed managers
    → IsAddressed (deliver_managers os fd bytes managers found t).0
unfolding deliver_managers
deliver_managers-IsAddressed os fd bytes [] found t v = v
deliver_managers-IsAddressed os fd bytes ((id, m) ∷ managers) found t v =
    let rest =
      deliver_managers-IsAddressed os fd bytes managers _ _
        (record { apart = v.apart.1; ids = v.ids.1 }) in
    record {
      apart = (deliver_managers-ws os fd m.ws bytes managers _ _ v.apart.0, rest.apart);
      ids = (v.ids.0, rest.ids);
    }

update_managers-ws :
    (parent : Parent) (ws : ℕ) (managers : Map WebSocketManager) (t : Trace)
    → All (λ f. f.1.ws ≢ ws) managers
    → All (λ f. f.1.ws ≢ ws) (update_managers parent managers t).0
unfolding update_managers
update_managers-ws parent ws [] t a = a
update_managers-ws parent ws ((id, m) ∷ managers) t a = (
  (λ p. a.0 (sym (update_streams-Same parent m t).1 ∙ p)),
  update_managers-ws parent ws managers _ a.1,
)

update_managers-IsAddressed :
    (parent : Parent) (managers : Map WebSocketManager) (t : Trace)
    → IsAddressed managers
    → IsAddressed (update_managers parent managers t).0
unfolding update_managers
update_managers-IsAddressed parent [] t v = v
update_managers-IsAddressed parent ((id, m) ∷ managers) t v =
    let t' = (update_streams parent m t).1 in
    let rest =
      update_managers-IsAddressed parent managers t'
        (record { apart = v.apart.1; ids = v.ids.1 }) in
    record {
      apart = (
        subst (λ x. All (λ f. f.1.ws ≢ x) (update_managers parent managers t').0)
            (sym (update_streams-Same parent m t).1)
            (update_managers-ws parent m.ws managers t' v.apart.0),
        rest.apart,
      );
      ids = (update_streams-ids parent m t v.ids.0, rest.ids);
    }

close_found-IsAddressed :
    (parent : Parent) (to_close : Bool) (found : Found) (managers : Map WebSocketManager)
    (t : Trace)
    → IsAddressed managers
    → IsAddressed (close_found parent to_close found managers t).0
unfolding close_found
close_found-IsAddressed parent false found managers t v = v
close_found-IsAddressed parent true none managers t v = v
close_found-IsAddressed parent true (some (id, k)) managers t v =
    elim (Option-cases (find id managers)) [
      | inl e ↦ rw (close_found, e) v
      | inr (m, e) ↦
          rw (close_found, e)
            (put-IsAddressed id m _ managers v e (close_stream-Same parent k false m t).1
              (close_stream-ids parent k false m t (All-find HasIds id m managers v.ids e)))
    ]

pub run_deferred-IsAddressed :
    (os : Os) (d : Deferred) (w : SystemWatcher) (t : Trace)
    → IsAddressed w.watched_sockets
    → IsAddressed (run_deferred os d w t).0.watched_sockets
unfolding run_deferred
run_deferred-IsAddressed os d w t v =
    let (delivered, found, t1) =
      deliver_managers os d.fd d.combined_buffer w.watched_sockets none t in
    let first = deliver_managers-IsAddressed os d.fd d.combined_buffer w.watched_sockets none t v in
    let (closed, t2) = close_found (parent_of w) d.to_close found delivered t1 in
    let second = close_found-IsAddressed (parent_of w) d.to_close found delivered t1 first in
    let len = (w.send_queue_len + 2 ^ 64 - 1) % 2 ^ 64 in
    let w' : SystemWatcher = record w { watched_sockets = closed; send_queue_len = len } in
    elim (Bool-cases (ltb len max_queue)) [
      | inl e ↦ rw e (update_managers-IsAddressed (parent_of w') closed t2 second)
      | inr e ↦ rw e second
    ]

pub on_open-IsAddressed :
    (ws : ℕ) (s : Server)
    → All (λ e. e.1.ws ≢ ws) s.watcher.watched_sockets
    → IsAddressed s.watcher.watched_sockets
    → IsAddressed (on_open ws s).watcher.watched_sockets
unfolding on_open construct
on_open-IsAddressed ws s free v = record {
  apart = insert_free-IsApart s.next_id _ s.watcher.watched_sockets free v.apart;
  ids = All-insert HasIds s.next_id _ s.watcher.watched_sockets v.ids tt;
}

pub on_message-IsAddressed :
    (os : Os) (conf : WoefulConfig) (ws : ℕ) (message : Bytes) (s s' : Server)
    → All IsByte message
    → length message ≤ app_options.max_payload_length
    → IsSound s
    → on_message os conf ws message s ≡ ok s'
    → IsAddressed s.watcher.watched_sockets
    → IsAddressed s'.watcher.watched_sockets
unfolding on_message
on_message-IsAddressed os conf ws message s s' bytes fits sound h v =
    let (m, e, h1) = >>=-eq-ok (manager_of s ws) _ h in
    let (id, f) = manager_of-find s ws m e in
    let before : Session = record { manager = m; tasks = s.tasks; trace = s.trace } in
    let (after, e2, h2) = >>=-eq-ok (receive os conf (parent_of s.watcher) message before) _ h1 in
    let managers = s.watcher.watched_sockets in
    let (_, named) = find-IsOwned id m managers s.trace sound.streams f in
    let same = receive-Same os conf (parent_of s.watcher) message before after e2 in
    let kept =
      receive-ids os conf (parent_of s.watcher) message before after bytes (omega arith) e2
        (All-find HasIds id m managers v.ids f) in
    subst (λ x. IsAddressed x.watcher.watched_sockets) (ok-injective h2)
      (put-IsAddressed after.manager.socket_id m after.manager managers v
        (subst (λ x. find x managers ≡ some m) (sym (same.0 ∙ named)) f) same.1 kept)

pub on_drain-IsAddressed :
    (ws : ℕ) (s s' : Server)
    → IsSound s
    → on_drain ws s ≡ ok s'
    → IsAddressed s.watcher.watched_sockets
    → IsAddressed s'.watcher.watched_sockets
unfolding on_drain put_manager
on_drain-IsAddressed ws s s' sound h v =
    let (m, e, h1) = >>=-eq-ok (manager_of s ws) _ h in
    let (id, f) = manager_of-find s ws m e in
    let managers = s.watcher.watched_sockets in
    let (_, named) = find-IsOwned id m managers s.trace sound.streams f in
    let eased : WebSocketManager = record m { has_backpressure = false } in
    let parent = parent_of s.watcher in
    let same = update_streams-Same parent eased s.trace in
    subst (λ x. IsAddressed x.watcher.watched_sockets) (ok-injective h1)
      (put-IsAddressed _ m (update_streams parent eased s.trace).0 managers v
        (subst (λ x. find x managers ≡ some m) (sym (same.0 ∙ named)) f) same.1
        (update_streams-ids parent eased s.trace (All-find HasIds id m managers v.ids f)))

pub on_close-IsAddressed :
    (ws : ℕ) (s s' : Server)
    → on_close ws s ≡ ok s'
    → IsAddressed s.watcher.watched_sockets
    → IsAddressed s'.watcher.watched_sockets
unfolding on_close remove_manager
on_close-IsAddressed ws s s' h v =
    let (m, _, h1) = >>=-eq-ok (manager_of s ws) _ h in
    subst (λ x. IsAddressed x.watcher.watched_sockets) (ok-injective h1)
      (erase-IsAddressed m.socket_id s.watcher.watched_sockets v)
