-- ===== src/Tests/World.antt =====
-- A system that answers every call, for the instances of the theorems.
use woeful.Base.{ℕ, true, Option, none, some, [], ◌∷◌, arith, if◌then◌else◌, length}
use woeful.System.Calls.{
  Os, Trace, SendStatus, ReadResult, WriteResult, fd_read, is_open, SocketIsFresh,
}
use woeful.System.{EpollWrapper}
use woeful.Watcher.Reading.{ReadsSegments}

-- Two descriptors for sockets; a read gives two bytes, and the next one nothing yet.
unfoldable pub calm_socket : Trace → Option ℕ
unfolding is_open
calm_socket t = if is_open 7 t then (if is_open 8 t then none else some 8) else some 7

unfoldable pub calm_read : Trace → ReadResult
calm_read [] = ReadResult.again
calm_read (fd_read _ _ ∷ t) = ReadResult.again
calm_read (_ ∷ t) = ReadResult.count (104 ∷ 105 ∷ [])

abbrev pub calm_os : Os
calm_os = record {
  getaddrinfo = λ t hostname port sock_type. some 1;
  socket = λ t sock_type. calm_socket t;
  connect = λ t fd addr. true;
  read = λ t fd. calm_read t;
  poll = λ t fd. true;
  write = λ t fd bytes. WriteResult.written (length bytes);
  send = λ t ws message. SendStatus.success;
}

pub calm_os-fresh : SocketIsFresh calm_os
unfolding calm_socket
calm_os-fresh t sock_type fd h = ground arith

pub calm_os-segments : ReadsSegments calm_os
unfolding calm_read
calm_os-segments [] fd bs h = ground arith
calm_os-segments (c ∷ t) fd bs h = ground arith

abbrev pub test_epoll : EpollWrapper
test_epoll = record { epfd = 3; read_pipe = 4; write_pipe = 5 }
