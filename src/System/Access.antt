-- ===== src/System/Access.antt =====
-- Which streams the block list lets through, and the calls that open them.
use woeful.Base.{
  Option, Option-cases, ℕ, ◌≡◌, refl, ◌⊎◌, inl, inr, ap, ◌∙◌, Bool, true, false, ◌||◌, none, some,
  List, [], ◌∷◌, ok, Bytes, bytes_eq, bytes_eq→eq, bytes_eq_self, c_string, arith, ◌==◌, ==_iff,
  Bool-cases, All, IsU16,
}
use woeful.Config.{BlockType, Member, member_hostname, member_port, WoefulConfig}
use woeful.System.Calls.{
  Os, Trace, getaddrinfo_called, socket_opened, socket_failed, connect_called, nonblock_set,
  fd_closed,
}
use woeful.System.{
  Connection, socket_type, match_members, is_refused, open_stream, unless_refused, connect_stream,
  to_string, resolve, open_socket, connect_socket,
}
use woeful.System.Port.{IsDigit, to_string-IsDigit, read_decimal, read_decimal-to_string}

-- `m` stands in the block list.
abbrev pub IsListed : Member → List Member → Type 0
IsListed m [] = ⊥
IsListed m (x ∷ xs) = (x ≡ m) ⊎ IsListed m xs

-- What the modes promise of a host name and a port.
abbrev pub IsAllowed : BlockType → List Member → Bytes → ℕ → Type 0
IsAllowed BlockType.block_none ms host port = Unit {0}
IsAllowed BlockType.block_black ms host port =
    (¬ IsListed (member_hostname host) ms) × (¬ IsListed (member_port port) ms)
IsAllowed BlockType.block_white ms host port =
    IsListed (member_hostname host) ms × IsListed (member_port port) ms

-- The flags of the loop, as functions of the list.
lists_hostname : List Member → Bytes → Bool
lists_hostname [] host = false
lists_hostname (member_hostname listed ∷ ms) host = bytes_eq listed host || lists_hostname ms host
lists_hostname (member_port listed ∷ ms) host = lists_hostname ms host

lists_port : List Member → ℕ → Bool
lists_port [] port = false
lists_port (member_hostname listed ∷ ms) port = lists_port ms port
lists_port (member_port listed ∷ ms) port = listed == port || lists_port ms port

match_members_flags :
    (ms : List Member) (hostname host : Bytes) (port : ℕ) (h p : Bool)
    → c_string hostname ≡ ok host
    → match_members ms hostname port h p ≡ ok (lists_hostname ms host || h, lists_port ms port || p)
unfolding match_members lists_hostname lists_port
match_members_flags [] hostname host port h p e = refl
match_members_flags (member_hostname listed ∷ ms) hostname host port h p e =
    rw e (ground (arith, match_members_flags ms hostname host port (bytes_eq listed host || h) p e))
match_members_flags (member_port listed ∷ ms) hostname host port h p e =
    ground (arith, match_members_flags ms hostname host port h (listed == port || p) e)

hostname-IsListed :
    (ms : List Member) (host : Bytes)
    → lists_hostname ms host ≡ true
    → IsListed (member_hostname host) ms
unfolding lists_hostname
hostname-IsListed [] host e = absurd (cc)
hostname-IsListed (member_hostname listed ∷ ms) host e = elim (Bool-cases (bytes_eq listed host)) [
  | inl eq ↦ inl (ap member_hostname (bytes_eq→eq listed host eq))
  | inr ne ↦ inr (hostname-IsListed ms host (ground arith))
]
hostname-IsListed (member_port listed ∷ ms) host e = inr (hostname-IsListed ms host e)

hostname-not-IsListed :
    (ms : List Member) (host : Bytes)
    → lists_hostname ms host ≡ false
    → ¬ IsListed (member_hostname host) ms
unfolding lists_hostname
hostname-not-IsListed [] host e l = l
hostname-not-IsListed (member_hostname listed ∷ ms) host e (inl eq) =
    ground (arith, bytes_eq_self host)
hostname-not-IsListed (member_hostname listed ∷ ms) host e (inr l) =
    hostname-not-IsListed ms host (ground arith) l
hostname-not-IsListed (member_port listed ∷ ms) host e (inl eq) = cc
hostname-not-IsListed (member_port listed ∷ ms) host e (inr l) = hostname-not-IsListed ms host e l

port-IsListed :
    (ms : List Member) (port : ℕ) → lists_port ms port ≡ true → IsListed (member_port port) ms
unfolding lists_port
port-IsListed [] port e = absurd (cc)
port-IsListed (member_port listed ∷ ms) port e = elim (Bool-cases (listed == port)) [
  | inl eq ↦ inl (ap member_port ((==_iff listed port).0 eq))
  | inr ne ↦ inr (port-IsListed ms port (ground arith))
]
port-IsListed (member_hostname listed ∷ ms) port e = inr (port-IsListed ms port e)

port-not-IsListed :
    (ms : List Member) (port : ℕ) → lists_port ms port ≡ false → ¬ IsListed (member_port port) ms
unfolding lists_port
port-not-IsListed [] port e l = l
port-not-IsListed (member_port listed ∷ ms) port e (inl eq) = ground arith
port-not-IsListed (member_port listed ∷ ms) port e (inr l) =
    port-not-IsListed ms port (ground arith) l
port-not-IsListed (member_hostname listed ∷ ms) port e (inl eq) = cc
port-not-IsListed (member_hostname listed ∷ ms) port e (inr l) = port-not-IsListed ms port e l

refuses : BlockType → List Member → Bytes → ℕ → Bool
refuses mode ms host port =
    is_refused mode (lists_hostname ms host || false) (lists_port ms port || false)

refuses-IsAllowed :
    (mode : BlockType) (ms : List Member) (host : Bytes) (port : ℕ)
    → refuses mode ms host port ≡ false
    → IsAllowed mode ms host port
unfolding refuses is_refused
refuses-IsAllowed BlockType.block_none ms host port e = tt
refuses-IsAllowed BlockType.block_black ms host port e =
    (hostname-not-IsListed ms host (ground arith), port-not-IsListed ms port (ground arith))
refuses-IsAllowed BlockType.block_white ms host port e =
    (hostname-IsListed ms host (ground arith), port-IsListed ms port (ground arith))

refuses-not-IsAllowed :
    (mode : BlockType) (ms : List Member) (host : Bytes) (port : ℕ)
    → refuses mode ms host port ≡ true
    → ¬ IsAllowed mode ms host port
unfolding refuses is_refused
refuses-not-IsAllowed BlockType.block_none ms host port e a = cc
refuses-not-IsAllowed BlockType.block_black ms host port e (no_host, no_port) =
    elim (Bool-cases (lists_hostname ms host)) [
      | inl h ↦ no_host (hostname-IsListed ms host h)
      | inr h ↦ no_port (port-IsListed ms port (ground arith))
    ]
refuses-not-IsAllowed BlockType.block_white ms host port e (has_host, has_port) =
    elim (Bool-cases (lists_hostname ms host)) [
      | inl h ↦ port-not-IsListed ms port (ground arith) has_port
      | inr h ↦ hostname-not-IsListed ms host h has_host
    ]

unless_refused_read :
    (os : Os) (t : Trace) (hostname host : Bytes) (sock_type port : ℕ) (b : Bool)
    → c_string hostname ≡ ok host
    → unless_refused os t hostname sock_type port b
      ≡ (elim b [ true ↦ ok (none, t) | false ↦ ok (connect_stream os t host sock_type port) ])
unfolding unless_refused
unless_refused_read os t hostname host sock_type port true read = refl
unless_refused_read os t hostname host sock_type port false read = rw read refl

open_stream_cases :
    (os : Os) (conf : WoefulConfig) (t : Trace) (hostname host : Bytes) (type port sock_type : ℕ)
    → c_string hostname ≡ ok host
    → socket_type type ≡ some sock_type
    → open_stream os conf t hostname type port
      ≡ (elim (refuses conf.block_type conf.block_members host port) [
        | true ↦ ok (none, t)
        | false ↦ ok (connect_stream os t host sock_type port)
      ])
unfolding open_stream refuses
open_stream_cases os conf t hostname host type port sock_type read typed =
    rw (typed, match_members_flags conf.block_members hostname host port false false read)
      (unless_refused_read os t hostname host sock_type port _ read)

module _ (os : Os) (conf : WoefulConfig) (t : Trace) (hostname host : Bytes)
    (type port sock_type : ℕ) (read : c_string hostname ≡ ok host)
    (typed : socket_type type ≡ some sock_type) where
  open_stream_connects :
      IsAllowed conf.block_type conf.block_members host port
      → open_stream os conf t hostname type port ≡ ok (connect_stream os t host sock_type port)
  open_stream_connects allowed =
      open_stream_cases os conf t hostname host type port sock_type read typed
      ∙ elim (Bool-cases (refuses conf.block_type conf.block_members host port)) [
        | inl e ↦ absurd (refuses-not-IsAllowed _ _ _ _ e allowed)
        | inr e ↦ rw e refl
      ]

  -- A stream of a known type whose host name and port the block list does not allow is refused
  -- before any call of the system.
  pub open_stream_refused :
      ¬ IsAllowed conf.block_type conf.block_members host port
      → open_stream os conf t hostname type port ≡ ok (none, t)
  open_stream_refused banned =
      open_stream_cases os conf t hostname host type port sock_type read typed
      ∙ elim (Bool-cases (refuses conf.block_type conf.block_members host port)) [
        | inl e ↦ rw e refl
        | inr e ↦ absurd (banned (refuses-IsAllowed _ _ _ _ e))
      ]

-- The calls that open a stream, and what they give: the lookup, the socket of the type, its
-- connection, and the switch to calls that do not block, up to the first that fails. A socket that
-- is not connected is closed.
pub data Opening (os : Os) (t : Trace) (host text : Bytes) (sock_type : ℕ)
    : Option Connection × Trace → Type 0 where
  not_found :
      os.getaddrinfo t host text sock_type ≡ none
      → Opening os t host text sock_type (none, getaddrinfo_called host text sock_type none ∷ t)
  no_socket :
      (addr : ℕ)
      → os.getaddrinfo t host text sock_type ≡ some addr
      → os.socket (getaddrinfo_called host text sock_type (some addr) ∷ t) sock_type ≡ none
      → Opening os t host text sock_type
          (none, socket_failed sock_type ∷ getaddrinfo_called host text sock_type (some addr) ∷ t)
  not_connected :
      (addr fd : ℕ)
      → os.getaddrinfo t host text sock_type ≡ some addr
      → os.socket (getaddrinfo_called host text sock_type (some addr) ∷ t) sock_type ≡ some fd
      → os.connect
          (socket_opened sock_type fd ∷ getaddrinfo_called host text sock_type (some addr) ∷ t)
          fd
          addr
        ≡ false
      → Opening os t host text sock_type (
        none,
        fd_closed fd
            ∷ connect_called fd addr false
            ∷ socket_opened sock_type fd
            ∷ getaddrinfo_called host text sock_type (some addr)
            ∷ t,
      )
  connected :
      (addr fd : ℕ)
      → os.getaddrinfo t host text sock_type ≡ some addr
      → os.socket (getaddrinfo_called host text sock_type (some addr) ∷ t) sock_type ≡ some fd
      → os.connect
          (socket_opened sock_type fd ∷ getaddrinfo_called host text sock_type (some addr) ∷ t)
          fd
          addr
        ≡ true
      → Opening os t host text sock_type (
        some (record { fd = fd; info = addr }),
        nonblock_set fd
            ∷ connect_called fd addr true
            ∷ socket_opened sock_type fd
            ∷ getaddrinfo_called host text sock_type (some addr)
            ∷ t,
      )

open_socket-Opening :
    (os : Os) (t : Trace) (host text : Bytes) (sock_type : ℕ) (answer : Option ℕ)
    → os.getaddrinfo t host text sock_type ≡ answer
    → Opening os t host text sock_type
        (open_socket os (getaddrinfo_called host text sock_type answer ∷ t) sock_type answer)
unfolding open_socket connect_socket
open_socket-Opening os t host text sock_type none e = not_found e
open_socket-Opening os t host text sock_type (some addr) e =
    let t1 = getaddrinfo_called host text sock_type (some addr) ∷ t in
    elim (Option-cases (os.socket t1 sock_type)) [
      | inl f ↦ rw (open_socket, f) (no_socket addr e f)
      | inr (fd, f) ↦ elim (Bool-cases (os.connect (socket_opened sock_type fd ∷ t1) fd addr)) [
        | inl g ↦ rw (open_socket, f, connect_socket, g) (connected addr fd e f g)
        | inr g ↦ rw (open_socket, f, connect_socket, g) (not_connected addr fd e f g)
      ]
    ]

connect_stream-Opening :
    (os : Os) (t : Trace) (host : Bytes) (sock_type port : ℕ)
    → Opening os t host (to_string port) sock_type (connect_stream os t host sock_type port)
unfolding connect_stream resolve
connect_stream-Opening os t host sock_type port =
    open_socket-Opening os t host (to_string port) sock_type
      (os.getaddrinfo t host (to_string port) sock_type) refl

known_type :
    (type sock_type : ℕ)
    → ((type ≡ 1) × (sock_type ≡ 1)) ⊎ ((type ≡ 2) × (sock_type ≡ 2))
    → socket_type type ≡ some sock_type
unfolding socket_type
known_type type sock_type known = ground (arith, known)

-- A stream of type 1 or 2 whose host name and port the block list allows is looked up by its
-- host name, its port in decimal digits, and the type of its socket, SOCK_STREAM (1) or
-- SOCK_DGRAM (2); a socket of that type is opened, connected to the address that was found, and
-- set not to block. The first of these calls that fails ends it with no stream, and a socket
-- that cannot be connected is closed. The trace has these calls and no others. The conditions
-- are that the host name can be read as a C string and that the port fits a `uint16_t`.
pub open_stream_allowed :
    (os : Os) (conf : WoefulConfig) (t : Trace) (hostname host : Bytes) (type port sock_type : ℕ)
    → c_string hostname ≡ ok host
    → ((type ≡ 1) × (sock_type ≡ 1)) ⊎ ((type ≡ 2) × (sock_type ≡ 2))
    → IsU16 port
    → IsAllowed conf.block_type conf.block_members host port
    → (text : Bytes) × (result : Option Connection × Trace) × (All IsDigit text
        × (read_decimal 0 text ≡ port)
        × (open_stream os conf t hostname type port ≡ ok result)
        × Opening os t host text sock_type result)
open_stream_allowed os conf t hostname host type port sock_type read known small allowed = (
  to_string port,
  connect_stream os t host sock_type port,
  (
    to_string-IsDigit port,
    read_decimal-to_string port small,
    open_stream_connects os conf t hostname host type port sock_type read
        (known_type type sock_type known) allowed,
    connect_stream-Opening os t host sock_type port,
  ),
)

-- With a host name that can be read, `open_stream` returns.
pub open_stream-returns :
    (os : Os) (conf : WoefulConfig) (t : Trace) (hostname host : Bytes) (type port : ℕ)
    → c_string hostname ≡ ok host
    → (r : Option Connection × Trace) × (open_stream os conf t hostname type port ≡ ok r)
unfolding open_stream
open_stream-returns os conf t hostname host type port read =
    elim (Option-cases (socket_type type)) [
      | inl e ↦ ((none, t), rw e refl)
      | inr (sock_type, e) ↦
          let cases = open_stream_cases os conf t hostname host type port sock_type read e in
          elim (Bool-cases (refuses conf.block_type conf.block_members host port)) [
            | inl h ↦ ((none, t), cases ∙ rw h refl)
            | inr h ↦ (connect_stream os t host sock_type port, cases ∙ rw h refl)
          ]
    ]
