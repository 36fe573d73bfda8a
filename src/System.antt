-- ===== src/System.antt =====
-- src/systemInterface.h: `SystemInterface` and `EpollWrapper`, over the calls of the operating
-- system in System/Calls.antt.
pub mod Calls
pub mod Port
pub mod Access
pub mod Descriptors
pub mod Watching
use woeful.Base.{
  ℕ, zero, suc, ◌+◌, ◌/◌, ◌%◌, Bool, true, false, not, ◌&&◌, ◌||◌, Option, none, some, List, [],
  ◌∷◌, ◌==◌, if◌then◌else◌, Result, ok, ◌>>=◌, Bytes, bytes_eq, c_string, codes,
}
use woeful.Config.{BlockType, Member, member_hostname, member_port, WoefulConfig}
use Calls.{
  Os, Trace, getaddrinfo_called, socket_opened, socket_failed, connect_called, nonblock_set,
  fd_closed, epoll_added, epoll_removed, pipe_written,
}

-- `SOCK_STREAM` and `SOCK_DGRAM`
abbrev pub sock_stream : ℕ
sock_stream = 1

abbrev pub sock_dgram : ℕ
sock_dgram = 2

-- The `switch` at the head of `open_stream`.
unfoldable pub socket_type : ℕ → Option ℕ
socket_type type =
    if type == 0x01 then some sock_stream else if type == 0x02 then some sock_dgram else none

-- `std::to_string` of a number with at most `fuel` digits, in front of `acc`.
unfoldable pub decimal : ℕ → ℕ → Bytes → Bytes
decimal zero n acc = acc
decimal (suc fuel) n acc =
    let digits = (n % 10 + b'0') ∷ acc in
    let rest = decimal fuel (n / 10) digits in if n / 10 == 0 then digits else rest

-- A `uint16_t` has at most five.
unfoldable pub to_string : ℕ → Bytes
unfolding decimal
to_string port = decimal 5 port []

-- The loop over the block list, with its two flags. A host name is read as a C string each time
-- that it is compared.
unfoldable pub match_members : List Member → Bytes → ℕ → Bool → Bool → Result (Bool × Bool)
match_members [] hostname port is_matched_hostname is_matched_port =
    ok (is_matched_hostname, is_matched_port)
match_members (member_hostname listed ∷ members) hostname port is_matched_hostname is_matched_port =
    do
      text ← c_string hostname
      match_members members hostname port (bytes_eq listed text || is_matched_hostname)
          is_matched_port
match_members (member_port listed ∷ members) hostname port is_matched_hostname is_matched_port =
    match_members members hostname port is_matched_hostname (listed == port || is_matched_port)

-- The two tests that refuse a stream.
unfoldable pub is_refused : BlockType → Bool → Bool → Bool
is_refused BlockType.block_black is_matched_hostname is_matched_port =
    is_matched_hostname || is_matched_port
is_refused BlockType.block_white is_matched_hostname is_matched_port =
    not (is_matched_hostname && is_matched_port)
is_refused BlockType.block_none is_matched_hostname is_matched_port = false

-- What `open_stream` returns: the descriptor and the address.
pub record Connection : Type 0 where
  pub fd : ℕ
  pub info : ℕ

module _ (os : Os) where
  -- `SystemInterface::resolve`
  unfoldable pub resolve : Trace → Bytes → Bytes → ℕ → Option ℕ × Trace
  resolve t hostname port sock_type =
      let answer = os.getaddrinfo t hostname port sock_type in
      (answer, getaddrinfo_called hostname port sock_type answer ∷ t)

  -- `connect` and what follows it.
  unfoldable pub connect_socket : Trace → ℕ → ℕ → Option Connection × Trace
  connect_socket t fd dns =
      if os.connect t fd dns
      then (some (record { fd = fd; info = dns }), nonblock_set fd ∷ connect_called fd dns true ∷ t)
      else (none, fd_closed fd ∷ connect_called fd dns false ∷ t)

  -- `socket` and what follows it.
  unfoldable pub open_socket : Trace → ℕ → Option ℕ → Option Connection × Trace
  open_socket t sock_type none = (none, t)
  open_socket t sock_type (some dns) = elim (os.socket t sock_type) [
    | none ↦ (none, socket_failed sock_type ∷ t)
    | some fd ↦ connect_socket (socket_opened sock_type fd ∷ t) fd dns
  ]

  -- From the name lookup to the end.
  unfoldable pub connect_stream : Trace → Bytes → ℕ → ℕ → Option Connection × Trace
  unfolding resolve
  connect_stream t hostname sock_type port =
      let (dns, t') = resolve t hostname (to_string port) sock_type in open_socket t' sock_type dns

  -- The part of `open_stream` behind the tests of the block list, with their outcome.
  unfoldable pub unless_refused : Trace → Bytes → ℕ → ℕ → Bool → Result (Option Connection × Trace)
  unless_refused t hostname sock_type port true = ok (none, t)
  unless_refused t hostname sock_type port false = do
    text ← c_string hostname
    ok (connect_stream t text sock_type port)

  -- The part behind the `switch`, with the type of the socket.
  unfoldable pub open_typed :
      WoefulConfig → Trace → Bytes → ℕ → Option ℕ → Result (Option Connection × Trace)
  open_typed conf t hostname port none = ok (none, t)
  open_typed conf t hostname port (some sock_type) = do
    flags ← match_members conf.block_members hostname port false false
    unless_refused t hostname sock_type port (is_refused conf.block_type flags.0 flags.1)

  -- `SystemInterface::open_stream`. The host name is the buffer of a connect packet.
  unfoldable pub open_stream :
      WoefulConfig → Trace → Bytes → ℕ → ℕ → Result (Option Connection × Trace)
  unfolding unless_refused open_typed
  open_stream conf t hostname type port = open_typed conf t hostname port (socket_type type)

-- `EpollWrapper`: the descriptors that it holds. Registration is a call of the system.
pub record EpollWrapper : Type 0 where
  pub epfd : ℕ
  pub read_pipe : ℕ
  pub write_pipe : ℕ

unfoldable pub push_fd : EpollWrapper → ℕ → Trace → Trace
push_fd epoll fd t = epoll_added epoll.epfd fd ∷ t

unfoldable pub erase_fd : EpollWrapper → ℕ → Trace → Trace
erase_fd epoll fd t = epoll_removed epoll.epfd fd ∷ t

-- `wake` writes the two bytes of "w".
unfoldable pub wake : EpollWrapper → Trace → Trace
wake epoll t = pipe_written epoll.write_pipe (b'w' ∷ 0 ∷ []) ∷ t

-- `wait`, with what `epoll_wait` answers: the descriptors of the events, or nothing for -1. The
-- answer is wrapped, -1 too.
unfoldable pub wait : Option (List ℕ) → Option (Option (List ℕ))
wait answer = some answer

-- The constructor, with what `epoll_create1` and `pipe` gave, and the destructor.
unfoldable pub open_epoll : EpollWrapper → Trace → Trace
unfolding push_fd
open_epoll epoll t = push_fd epoll epoll.read_pipe t

unfoldable pub close_epoll : EpollWrapper → Trace → Trace
close_epoll epoll t =
    fd_closed epoll.write_pipe ∷ fd_closed epoll.read_pipe ∷ fd_closed epoll.epfd ∷ t
