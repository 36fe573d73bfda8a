-- ===== src/Downlink/Drain.antt =====
-- The turns of the loop until no callback waits.
use woeful.Base.{
  ℕ, ◌%◌, ◌^◌, ◌≡◌, ◌≢◌, refl, ap, sym, ◌∙◌, ◌⊎◌, false, List, [], ◌∷◌, ◌++◌, append-nil, All,
  length,
}
use woeful.Config.{WoefulConfig}
use woeful.System.Calls.{Os, SocketIsFresh}
use woeful.System.{EpollWrapper}
use woeful.Watcher.{Deferred, SystemWatcher}
use woeful.Server.{Server, on_deferred}
use woeful.Server.Steps.{Reach, later, delivers}
use woeful.Server.Background.{on_deferred-first, run_deferred-counted}
use woeful.Server.Credit.{turns}
use woeful.Server.Invariant.{Reach-IsSound}
use woeful.Downlink.{sent, pending}
use woeful.Downlink.Faithful.{Lives, on_deferred-Passes}
use woeful.Downlink.Keeps.{run_deferred-Has}
use woeful.Downlink.Placed.{Reach-IsAddressed}

-- No callback in the queue closes the descriptor.
abbrev pub StaysOpen : ℕ → List Deferred → Type 0
StaysOpen fd queue = All (λ d. (d.to_close ≡ false) ⊎ (d.fd ≢ fd)) queue

-- Nothing waits any more, and the stream was sent all that waited.
pub record Drained (id k ws fd : ℕ) (queue : List Deferred) (s s' : Server) : Type 0 where
  pub lives : Lives id k ws fd s'
  pub empty : s'.watcher.deferred ≡ []
  pub sends : sent ws k s'.trace ≡ sent ws k s.trace ++ pending fd queue
  pub count : s'.watcher.send_queue_len ≡ 0

on_deferred-Has :
    (os : Os) (conf : WoefulConfig) (id k ws fd : ℕ) {epoll : EpollWrapper} (s : Server)
    (d : Deferred) (ds : List Deferred)
    → SocketIsFresh os
    → Reach os conf epoll s
    → s.watcher.deferred ≡ d ∷ ds
    → (d.to_close ≡ false) ⊎ (d.fd ≢ fd)
    → Lives id k ws fd s
    → Lives id k ws fd (on_deferred os s) × ((on_deferred os s).watcher.deferred ≡ ds)
on_deferred-Has os conf id k ws fd s d ds fresh r e c l =
    let w : SystemWatcher = record (s.watcher) { deferred = ds } in
    rw (on_deferred-first os s d ds e) (
      run_deferred-Has id k ws fd os d w s.trace (Reach-IsSound os conf fresh r).streams c l,
      (run_deferred-counted os d w s.trace).1,
    )

turns-Drained_from :
    (os : Os) (conf : WoefulConfig) (id k ws fd : ℕ) {epoll : EpollWrapper} (queue : List Deferred)
    (s : Server)
    → SocketIsFresh os
    → Reach os conf epoll s
    → s.watcher.deferred ≡ queue
    → StaysOpen fd queue
    → Lives id k ws fd s
    → Drained id k ws fd queue s (turns os (length queue) s)
unfolding turns pending
turns-Drained_from os conf id k ws fd [] s fresh r e c l = record {
  lives = l;
  empty = e;
  sends = sym (append-nil _);
  count = (Reach-IsSound os conf fresh r).counted ∙ ap (λ q. length q % 2 ^ 64) e;
}
turns-Drained_from os conf id k ws fd (d ∷ ds) s fresh r e c l =
    let (l1, e1) = on_deferred-Has os conf id k ws fd s d ds fresh r e c.0 l in
    let rest =
      turns-Drained_from os conf id k ws fd ds (on_deferred os s) fresh (later r delivers) e1 c.1
        l1 in
    let p =
      on_deferred-Passes os id k ws fd s (d ∷ ds) e (Reach-IsSound os conf fresh r)
        (Reach-IsAddressed os conf fresh r) l in
    record {
      lives = rest.lives;
      empty = rest.empty;
      sends =
          rest.sends
          ∙ ap (λ q. sent ws k (on_deferred os s).trace ++ pending fd q) (sym e1)
          ∙ p.sends
          ∙ ap (λ q. sent ws k s.trace ++ pending fd q) e;
      count = rest.count;
    }

-- What was read is sent: in a state that the program reaches, let a stream be there whose
-- descriptor no callback that waits is to close. After as many turns of the loop as callbacks
-- wait, none waits, `send_queue_len` is 0, the stream is still there, and all that waited for it
-- was handed to its client's web socket, in order. The condition is that `socket` never returns
-- a descriptor that is open.
pub turns-Drained :
    (os : Os) (conf : WoefulConfig) (id k ws fd : ℕ) {epoll : EpollWrapper} (s : Server)
    → SocketIsFresh os
    → Reach os conf epoll s
    → StaysOpen fd s.watcher.deferred
    → Lives id k ws fd s
    → Drained id k ws fd s.watcher.deferred s (turns os (length s.watcher.deferred) s)
turns-Drained os conf id k ws fd s fresh r c l =
    turns-Drained_from os conf id k ws fd s.watcher.deferred s fresh r refl c l
