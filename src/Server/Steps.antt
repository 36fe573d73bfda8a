-- ===== src/Server/Steps.antt =====
-- The program as interleaved steps: the callbacks of the web sockets, the rounds of the watcher,
-- the deferred callbacks and the tasks of the pool, in any order.
use woeful.Base.{ℕ, ◌≤◌, ◌≢◌, length, All, IsByte, ◌≡◌, some, Option, List, Bytes, ok}
use woeful.Config.{WoefulConfig}
use woeful.System.Calls.{Os}
use woeful.System.{EpollWrapper}
use woeful.Server.Main.{app_options}
use woeful.Server.{
  Server, on_open, on_message, on_drain, on_close, on_events, on_deferred, on_task, int_handler,
  post_handler, init,
}

-- A web socket that opens is not one that is open, and a message is bytes, no more of them than
-- the options allow: uWebSockets promises both. A step that runs into a fault, or whose loop ran
-- out of fuel, is none.
pub data Step (os : Os) (conf : WoefulConfig) (s : Server) : Server → Type 0 where
  opens :
      (ws : ℕ) → All (λ e. e.1.ws ≢ ws) s.watcher.watched_sockets → Step os conf s (on_open ws s)
  receives :
      (ws : ℕ) (message : Bytes) {s' : Server}
      → All IsByte message
      → length message ≤ app_options.max_payload_length
      → on_message os conf ws message s ≡ ok s'
      → Step os conf s s'
  drains : (ws : ℕ) {s' : Server} → on_drain ws s ≡ ok s' → Step os conf s s'
  closes : (ws : ℕ) {s' : Server} → on_close ws s ≡ ok s' → Step os conf s s'
  wakes :
      (answer : Option (List ℕ)) {s' : Server} → on_events os answer s ≡ some s' → Step os conf s s'
  delivers : Step os conf s (on_deferred os s)
  writes : (fuel i : ℕ) {s' : Server} → on_task os fuel i s ≡ ok (some s') → Step os conf s s'
  interrupts : Step os conf s (int_handler s)
  posts : Step os conf s (post_handler s)

pub data Reach (os : Os) (conf : WoefulConfig) (epoll : EpollWrapper) : Server → Type 0 where
  start : Reach os conf epoll (init epoll)
  later : {s s' : Server} → Reach os conf epoll s → Step os conf s s' → Reach os conf epoll s'

-- What may follow a state.
pub data Future (os : Os) (conf : WoefulConfig) (s : Server) : Server → Type 0 where
  now : Future os conf s s
  then : {s1 s2 : Server} → Future os conf s s1 → Step os conf s1 s2 → Future os conf s s2

unfoldable pub extend :
    {os : Os} {conf : WoefulConfig} {epoll : EpollWrapper} {s s' : Server}
    → Reach os conf epoll s
    → Future os conf s s'
    → Reach os conf epoll s'
extend r now = r
extend r (then future step) = later (extend r future) step
