-- ===== src/System/Calls.antt =====
-- The calls that the program makes of the operating system and of uWebSockets. The state of the
-- world is the list of the calls made, the latest first; what a call answers is a function of that
-- list and its arguments, and a parameter of every definition that makes one.
use woeful.Base.{ℕ, Bool, true, false, Option, some, List, [], ◌∷◌, ◌≡◌, ◌==◌, if◌then◌else◌, Bytes}

-- `WebSocket::SendStatus`
pub data SendStatus : Type 0 where
  backpressure success dropped : SendStatus

-- `read`: `count` bytes, none at the end of the stream; `EAGAIN`; another error.
pub data ReadResult : Type 0 where
  count : Bytes → ReadResult
  again failed : ReadResult

-- `write`: how many bytes were taken; `EAGAIN`; another error.
pub data WriteResult : Type 0 where
  written : ℕ → WriteResult
  again failed : WriteResult

-- An address, and a web socket, are known by numbers.
pub data Call : Type 0 where
  getaddrinfo_called : (hostname port : Bytes) (sock_type : ℕ) (answer : Option ℕ) → Call
  socket_opened : (sock_type fd : ℕ) → Call
  socket_failed : (sock_type : ℕ) → Call
  connect_called : (fd addr : ℕ) (answer : Bool) → Call
  -- the two calls of `fcntl`
  nonblock_set : (fd : ℕ) → Call
  fd_closed : (fd : ℕ) → Call
  epoll_added epoll_removed : (epfd fd : ℕ) → Call
  pipe_written : (fd : ℕ) (bytes : Bytes) → Call
  pipe_read : (fd : ℕ) → Call
  fd_read : (fd : ℕ) (answer : ReadResult) → Call
  fd_polled : (fd : ℕ) (answer : Bool) → Call
  fd_written : (fd : ℕ) (bytes : Bytes) (answer : WriteResult) → Call
  ws_sent : (ws : ℕ) (message : Bytes) → Call

abbrev pub Trace : Type 0
Trace = List Call

pub record Os : Type 0 where
  pub getaddrinfo : Trace → Bytes → Bytes → ℕ → Option ℕ
  pub socket : Trace → ℕ → Option ℕ
  pub connect : Trace → ℕ → ℕ → Bool
  pub read : Trace → ℕ → ReadResult
  pub poll : Trace → ℕ → Bool
  pub write : Trace → ℕ → Bytes → WriteResult
  pub send : Trace → ℕ → Bytes → SendStatus

-- Whether a descriptor that `socket` returned is open: it was not closed since.
unfoldable pub is_open : ℕ → Trace → Bool
is_open fd [] = false
is_open fd (socket_opened sock_type opened ∷ t) = if opened == fd then true else is_open fd t
is_open fd (fd_closed closed ∷ t) = if closed == fd then false else is_open fd t
is_open fd (_ ∷ t) = is_open fd t

-- POSIX: the descriptor that `socket` returns is not one that is open.
abbrev pub SocketIsFresh : Os → Type 0
SocketIsFresh os =
    (t : Trace) (sock_type fd : ℕ) → os.socket t sock_type ≡ some fd → is_open fd t ≡ false

-- The calls of `poll` and `write` on target sockets.
unfoldable pub attempts : Trace → Trace
attempts [] = []
attempts (fd_polled fd answer ∷ t) = fd_polled fd answer ∷ attempts t
attempts (fd_written fd bytes answer ∷ t) = fd_written fd bytes answer ∷ attempts t
attempts (_ ∷ t) = attempts t
