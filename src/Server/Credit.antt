-- ===== src/Server/Credit.antt =====
-- The credit of the streams when no callback waits.
use woeful.Base.{ℕ, zero, suc, ◌%◌, ◌^◌, ◌<◌, ◌≡◌, ap, ◌∙◌, List, [], ◌∷◌, All, length, arith}
use woeful.Config.{WoefulConfig}
use woeful.System.Calls.{Os, SocketIsFresh}
use woeful.System.{EpollWrapper}
use woeful.Packets.{max_queue}
use woeful.Watcher.{Deferred}
use woeful.Watcher.Fed.{IsFed, run_deferred-IsFed}
use woeful.Server.{Server, on_deferred}
use woeful.Server.Steps.{Reach, later, delivers}
use woeful.Server.Background.{on_deferred-first, run_deferred-counted}
use woeful.Server.Invariant.{Reach-IsSound}

-- As many turns of the loop, each of which runs the oldest callback.
unfoldable pub turns : Os → ℕ → Server → Server
turns os zero s = s
turns os (suc n) s = turns os n (on_deferred os s)

pub on_deferred-rest :
    (os : Os) (s : Server) (d : Deferred) (ds : List Deferred)
    → s.watcher.deferred ≡ d ∷ ds
    → (on_deferred os s).watcher.deferred ≡ ds
on_deferred-rest os s d ds e =
    rw (on_deferred-first os s d ds e)
      (run_deferred-counted os d (record (s.watcher) { deferred = ds }) s.trace).1

on_deferred-IsFed :
    (os : Os) (conf : WoefulConfig) {epoll : EpollWrapper} (s : Server) (d : Deferred)
    (ds : List Deferred)
    → SocketIsFresh os
    → Reach os conf epoll s
    → s.watcher.deferred ≡ d ∷ ds
    → length ds < max_queue
    → All IsFed (on_deferred os s).watcher.watched_sockets
on_deferred-IsFed os conf s d ds fresh r e low =
    let count : s.watcher.send_queue_len ≡ length (d ∷ ds) % 2 ^ 64 =
      (Reach-IsSound os conf fresh r).counted ∙ ap (λ q. length q % 2 ^ 64) e in
    rw (on_deferred-first os s d ds e) (
      run_deferred-IsFed os d (record (s.watcher) { deferred = ds }) s.trace
        (rw count (omega (arith, low))))

-- In a state that the program reaches in which a callback waits, after as many turns of the loop
-- as callbacks wait every stream of every manager without backpressure has credit. Nothing is
-- said of a state in which no callback waits. The condition is that `socket` never returns a
-- descriptor that is open.
pub turns-IsFed :
    (os : Os) (conf : WoefulConfig) {epoll : EpollWrapper} (d : Deferred) (ds : List Deferred)
    (s : Server)
    → SocketIsFresh os
    → Reach os conf epoll s
    → s.watcher.deferred ≡ d ∷ ds
    → All IsFed (turns os (length (d ∷ ds)) s).watcher.watched_sockets
unfolding turns
turns-IsFed os conf d [] s fresh r e = on_deferred-IsFed os conf s d [] fresh r e (omega arith)
turns-IsFed os conf d (c ∷ ds) s fresh r e =
    turns-IsFed os conf c ds (on_deferred os s) fresh (later r delivers)
      (on_deferred-rest os s d (c ∷ ds) e)
