-- ===== src/Server/Closing.antt =====
-- A web socket that closes gives back what its manager holds.
use woeful.Base.{ℕ, ◌^◌, ◌≤◌, ◌≡◌, refl, true, false, none, if◌then◌else◌, ◌==◌, ok}
use woeful.Base.Map.{find, find-erase}
use woeful.Config.{WoefulConfig}
use woeful.System.Calls.{Os, SocketIsFresh, is_open}
use woeful.System.{EpollWrapper}
use woeful.Manager.{WebSocketManager, force_close}
use woeful.Manager.Counting.{owners}
use woeful.Manager.Replies.{force_close-shut}
use woeful.Watcher.{parent_of}
use woeful.Watcher.Held.{find-IsOwned}
use woeful.Server.{Server, manager_of, remove_manager, on_close}
use woeful.Server.Steps.{Reach}
use woeful.Server.Alive.{is_open_socket, openings}
use woeful.Server.Callbacks.{manager_of-find}
use woeful.Server.Invariant.{Reach-IsSound}
use woeful.Server.Answers.{callbacks_return}

-- The close callback of a web socket, and what it leaves.
pub record Shut (ws : ℕ) (s : Server) : Type 0 where
  pub manager : WebSocketManager
  pub leads : manager_of s ws ≡ ok manager
  pub own : manager.ws ≡ ws
  pub after : Server
  pub returns : on_close ws s ≡ ok after
  pub managers :
      (id : ℕ)
      → find id after.watcher.watched_sockets
        ≡ (if manager.socket_id == id then none else find id s.watcher.watched_sockets)
  pub descriptors :
      (fd : ℕ)
      → is_open fd after.trace
        ≡ (if owners fd manager.streams == 0 then is_open fd s.trace else false)
  pub tasks : after.tasks ≡ s.tasks

-- The close callback of an open web socket, in every state that the program reaches, deletes the
-- manager that was made for this web socket and no other, leaves the queue of the pool as it is,
-- and closes the descriptors of the streams of this manager: behind it a descriptor is open
-- exactly if it was open before and no stream of the manager has it. The conditions are that no
-- more than 2 ^ 64 web sockets opened, and that `socket` never returns a descriptor that is
-- open.
pub on_close-Shut :
    (os : Os) (conf : WoefulConfig) (ws : ℕ) {epoll : EpollWrapper} {s : Server}
    → SocketIsFresh os
    → (r : Reach os conf epoll s) → openings r ≤ 2 ^ 64
    → is_open_socket ws r ≡ true
    → Shut ws s
unfolding on_close remove_manager
on_close-Shut os conf ws {s = s} fresh r l e =
    let ((m, leads, own), _, _) = callbacks_return os conf ws fresh r l e in
    let (id, f) = manager_of-find s ws m leads in
    let managers = s.watcher.watched_sockets in
    let sound = Reach-IsSound os conf fresh r in
    let owned = (find-IsOwned id m managers s.trace sound.streams f).0 in
    let forced = force_close (parent_of s.watcher) m s.trace in
    record {
      manager = m;
      leads = leads;
      own = own;
      after = record s { watcher = remove_manager m s.watcher; trace = forced.1 };
      returns = rw leads refl;
      managers = λ j. find-erase m.socket_id j managers;
      descriptors = λ fd. force_close-shut (parent_of s.watcher) fd m s.trace owned.distinct;
      tasks = refl;
    }
