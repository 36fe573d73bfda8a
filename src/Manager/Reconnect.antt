-- ===== src/Manager/Reconnect.antt =====
-- A CONNECT with the id of a stream that is open.
use woeful.Base.{
  ℕ, ◌+◌, ◌≤◌, ◌≡◌, true, Option, none, some, [], ◌∷◌, subst, ok, >>=-eq-ok, ok-injective, arith,
}
use woeful.Base.Map.{Map, find, insert}
use woeful.Config.{WoefulConfig}
use woeful.System.Calls.{Os, Trace, SocketIsFresh, is_open}
use woeful.System.{Connection, push_fd, wake, open_stream}
use woeful.System.Descriptors.{Opens, open_stream-Opens}
use woeful.Packets.{WispPacket, parse_connect, buffer_count}
use woeful.Manager.{SocketStreamData, Session, Parent, add_stream, handle_connect}
use woeful.Manager.Counting.{owns, owners, IsOwned}

owners-insert-find :
    (fd k : ℕ) (old new : SocketStreamData) (streams : Map SocketStreamData)
    → find k streams ≡ some old
    → owners fd (insert k new streams) + owns fd old ≡ owners fd streams + owns fd new
unfolding owners insert find
owners-insert-find fd k old new [] h = cc
owners-insert-find fd k old new ((j, other) ∷ streams) h =
    ground (arith, owners-insert-find fd k old new streams)

owners-find :
    (k : ℕ) (old : SocketStreamData) (streams : Map SocketStreamData)
    → find k streams ≡ some old
    → 1 ≤ owners old.fd streams
unfolding owners find
owners-find k old [] h = cc
owners-find k old ((j, other) ∷ streams) h = ground (arith, owners-find k old streams)

add_stream-leaks :
    (parent : Parent) (k type : ℕ) (old : SocketStreamData) (o : Option Connection) (t : Trace)
    (s s' : Session) (id : ℕ)
    → find k s.manager.streams ≡ some old
    → IsOwned (λ fd. 0) s.manager.streams s.trace
    → Opens s.trace (o, t)
    → add_stream parent k type o (record s { trace = t }) ≡ (some id, s')
    → (is_open old.fd s'.trace ≡ true) × (owners old.fd s'.manager.streams ≡ 0)
unfolding add_stream is_open push_fd wake
add_stream-leaks parent k type old none t s s' id here v opens h = cc
add_stream-leaks parent k type old (some connection) t s s' id here v opens h =
    let new : SocketStreamData = record {
      stream_type = type;
      id = k;
      fd = connection.fd;
      fd_info = connection.info;
      buffer = buffer_count;
    } in
    let used = owners-find k old s.manager.streams here in
    let count = owners-insert-find old.fd k old new s.manager.streams here in
    let bound = v.bound old.fd in
    subst (λ r. (is_open old.fd r.1.trace ≡ true) × (owners old.fd r.1.manager.streams ≡ 0)) h
      (ground (arith, used, bound, opens.1 old.fd), ground (arith, used, bound, count, opens.0))

-- A CONNECT that succeeds with the id of a stream that is there leaves the descriptor of the old
-- stream open, and no stream of the manager has it any more. The conditions are that every
-- descriptor is held by at most one stream, and only while it is open, and that `socket` never
-- returns a descriptor that is open.
pub handle_connect-leaks :
    (os : Os) (conf : WoefulConfig) (parent : Parent) (packet : WispPacket) (old : SocketStreamData)
    (id : ℕ) (s s' : Session)
    → SocketIsFresh os
    → find packet.stream_id s.manager.streams ≡ some old
    → IsOwned (λ fd. 0) s.manager.streams s.trace
    → handle_connect os conf parent packet s ≡ ok (some id, s')
    → (is_open old.fd s'.trace ≡ true) × (owners old.fd s'.manager.streams ≡ 0)
unfolding handle_connect
handle_connect-leaks os conf parent packet old id s s' fresh here v h =
    let (c, _, h1) = >>=-eq-ok (parse_connect packet.bytes) _ h in
    let (r, e, h2) =
      >>=-eq-ok
        (open_stream os conf s.trace c.destination_hostname c.stream_type c.destination_port) _
        h1 in
    add_stream-leaks parent packet.stream_id c.stream_type old r.0 r.1 s s' id here v
      (open_stream-Opens os fresh conf s.trace c.destination_hostname c.stream_type
        c.destination_port r e)
      (ok-injective h2)
