-- ===== src/Server/Answers.antt =====
-- The callbacks of the web sockets that are open find their managers.
use woeful.Base.{
  ℕ, ◌^◌, ◌≤◌, ◌≡◌, refl, ap, ◌∙◌, Bool, true, arith, Bytes, IsSize, length, Result, ◌>>=◌, ok,
}
use woeful.Base.Map.{find}
use woeful.Config.{WoefulConfig}
use woeful.System.Calls.{Os, SocketIsFresh}
use woeful.System.{EpollWrapper}
use woeful.Manager.{WebSocketManager, Session}
use woeful.Watcher.Homes.{Rehouses-refl}
use woeful.Watcher.{parent_of}
use woeful.Server.{Server, manager_of, init, on_close, on_message, on_drain, int_handler}
use woeful.Server.Steps.{
  Step, opens, receives, drains, closes, wakes, delivers, writes, interrupts, posts, Reach, start,
  later,
}
use woeful.Server.Sound.{IsSound}
use woeful.Server.Alive.{open_after, openings_after, is_open_socket, openings, IsHome, Stays-IsHome}
use woeful.Packets.{WispPacket, parse_wisp, packet_connect}
use woeful.Manager.Accepts.{receive-returns}
use woeful.Server.Invariant.{Reach-IsSound}
use woeful.Server.Homing.{on_open-IsHome, on_close-IsHome}
use woeful.Server.Moves.{
  on_message-Stays, on_drain-Stays, on_events-Stays, on_deferred-Stays, on_task-Stays,
  post_handler-Stays,
}

Step-IsHome :
    (n : ℕ) (is_live : ℕ → Bool) {os : Os} {conf : WoefulConfig} {s s' : Server}
    → IsSound s
    → (step : Step os conf s s') → openings_after step n ≤ 2 ^ 64
    → IsHome n is_live s
    → IsHome (openings_after step n) (λ ws. open_after ws step (is_live ws)) s'
unfolding openings_after open_after int_handler
Step-IsHome n is_live {s} sound (opens at free) l v = on_open-IsHome n at is_live s (omega arith) v
Step-IsHome n is_live {s} {s'} sound (closes at h) l v = on_close-IsHome n at is_live s s' sound h v
Step-IsHome n is_live {os} {conf} {s} {s'} sound (receives at message bytes fits h) l v =
    Stays-IsHome n is_live s s' (on_message-Stays os conf at message s s' sound h) v
Step-IsHome n is_live {s} {s'} sound (drains at h) l v =
    Stays-IsHome n is_live s s' (on_drain-Stays at s s' sound h) v
Step-IsHome n is_live {os} {s} {s'} sound (wakes answer h) l v =
    Stays-IsHome n is_live s s' (on_events-Stays os answer s s' h) v
Step-IsHome n is_live {os} {s} {s'} sound delivers l v =
    Stays-IsHome n is_live s s' (on_deferred-Stays os s s.watcher.deferred refl) v
Step-IsHome n is_live {os} {s} {s'} sound (writes fuel i h) l v =
    Stays-IsHome n is_live s s' (on_task-Stays os fuel i s s' h) v
Step-IsHome n is_live {s} {s'} sound interrupts l v =
    Stays-IsHome n is_live s s'
      (record { next = refl; users = refl; homes = Rehouses-refl s.watcher.watched_sockets }) v
Step-IsHome n is_live {s} {s'} sound posts l v =
    Stays-IsHome n is_live s s' (post_handler-Stays s) v

pub before :
    {os : Os} {conf : WoefulConfig} {s s' : Server} (step : Step os conf s s') (n : ℕ)
    → openings_after step n ≤ 2 ^ 64
    → n ≤ 2 ^ 64
unfolding openings_after
before (opens at free) n l = omega arith
before (closes at h) n l = l
before (receives at message bytes fits h) n l = l
before (drains at h) n l = l
before (wakes answer h) n l = l
before delivers n l = l
before (writes fuel i h) n l = l
before interrupts n l = l
before posts n l = l

pub Reach-IsHome :
    (os : Os) (conf : WoefulConfig) {epoll : EpollWrapper} {s : Server}
    → SocketIsFresh os
    → (r : Reach os conf epoll s) → openings r ≤ 2 ^ 64
    → IsHome (openings r) (λ ws. is_open_socket ws r) s
unfolding openings is_open_socket init find
Reach-IsHome os conf fresh start l = record {
  next = refl;
  unused = λ id le. refl;
  users = λ ws id f. cc f;
  lodges = λ ws e. cc e;
}
Reach-IsHome os conf fresh (later r step) l =
    Step-IsHome (openings r) (λ ws. is_open_socket ws r) (Reach-IsSound os conf fresh r) step l
      (Reach-IsHome os conf fresh r (before step (openings r) l))

>>=-returns :
    {X Y : Type 0} {r : Result X} {x : X} (next : X → Result Y)
    → r ≡ ok x
    → (y : Y) × (next x ≡ ok y)
    → (y : Y) × ((r >>= next) ≡ ok y)
>>=-returns next e (y, f) = (y, ap (λ q. q >>= next) e ∙ f)

live-manager_of :
    (n ws : ℕ) (is_live : ℕ → Bool) (s : Server)
    → IsHome n is_live s
    → is_live ws ≡ true
    → (m : WebSocketManager) × (manager_of s ws ≡ ok m) × (m.ws ≡ ws)
unfolding manager_of
live-manager_of n ws is_live s v e =
    let (id, f, (m, g, own)) = v.lodges ws e in (m, rw (f, g) refl, own)

-- The pointer that a web socket keeps never dangles while it is open: in every state that the
-- program reaches, the pointer of a web socket that opened and did not close since leads to the
-- manager that was made for this web socket, and its drain and close callbacks return. The
-- conditions are that no more than 2 ^ 64 web sockets opened, and that `socket` never returns a
-- descriptor that is open.
pub callbacks_return :
    (os : Os) (conf : WoefulConfig) (ws : ℕ) {epoll : EpollWrapper} {s : Server}
    → SocketIsFresh os
    → (r : Reach os conf epoll s) → openings r ≤ 2 ^ 64
    → is_open_socket ws r ≡ true
    → ((m : WebSocketManager) × (manager_of s ws ≡ ok m) × (m.ws ≡ ws))
      × ((drained : Server) × (on_drain ws s ≡ ok drained))
      × ((closed : Server) × (on_close ws s ≡ ok closed))
unfolding on_drain on_close
callbacks_return os conf ws {s} fresh r l e =
    let (m, f, own) =
      live-manager_of (openings r) ws (λ x. is_open_socket x r) s (Reach-IsHome os conf fresh r l)
        e in
    ((m, f, own), >>=-returns _ f (_, refl), >>=-returns _ f (_, refl))

-- The message callback of an open web socket returns on every frame that has the header, if a
-- CONNECT has at least 4 bytes behind it, in every state that the program reaches, after
-- whatever the client sent and whatever the targets did before. The conditions are that what is
-- behind the header fits a `size_t`, that no more than 2 ^ 64 web sockets opened, and that
-- `socket` never returns a descriptor that is open.
pub on_message-returns :
    (os : Os) (conf : WoefulConfig) (ws : ℕ) (message : Bytes) (packet : WispPacket)
    {epoll : EpollWrapper} {s : Server}
    → SocketIsFresh os
    → (r : Reach os conf epoll s) → openings r ≤ 2 ^ 64
    → is_open_socket ws r ≡ true
    → parse_wisp message ≡ ok packet
    → (packet.packet_type ≡ packet_connect → 4 ≤ length packet.bytes)
    → IsSize (length packet.bytes)
    → (s' : Server) × (on_message os conf ws message s ≡ ok s')
unfolding on_message
on_message-returns os conf ws message packet {s} fresh r l e parsed long n =
    let (m, f, own) =
      live-manager_of (openings r) ws (λ x. is_open_socket x r) s (Reach-IsHome os conf fresh r l)
        e in
    let before : Session = record { manager = m; tasks = s.tasks; trace = s.trace } in
    let (after, done) =
      receive-returns os conf (parent_of s.watcher) message packet before parsed long n in
    >>=-returns _ f (>>=-returns _ done (_, refl))
