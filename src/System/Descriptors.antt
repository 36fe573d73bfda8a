-- ===== src/System/Descriptors.antt =====
-- The descriptors that `open_stream` leaves open.
use woeful.Base.{
  ℕ, ◌≡◌, refl, sym, ◌⊎◌, inl, inr, Bool, true, false, Option, none, some, ◌∷◌, ok, >>=-eq-ok,
  ok-injective, Bytes, c_string, arith, ◌==◌, Bool-cases, Option-cases, if◌then◌else◌,
}
use woeful.Config.{WoefulConfig}
use woeful.System.Calls.{Os, Trace, is_open, SocketIsFresh, socket_opened}
use woeful.System.{
  socket_type, is_refused, match_members, open_stream, unless_refused, connect_stream, open_socket,
  connect_socket, Connection,
}

-- What a call of `open_stream` does to the open descriptors: a stream that is returned has one that
-- was not open before, and no other changes; with no stream none does.
abbrev pub Opens : Trace → Option Connection × Trace → Type 0
Opens t (none, t') = (fd : ℕ) → is_open fd t' ≡ is_open fd t
Opens t (some c, t') =
    (is_open c.fd t ≡ false)
    × ((fd : ℕ) → is_open fd t' ≡ (if c.fd == fd then true else is_open fd t))

unless_refused_inv :
    (os : Os) (t : Trace) (hostname : Bytes) (type sock_type port : ℕ) (b : Bool)
    (r : Option Connection × Trace)
    → socket_type type ≡ some sock_type
    → unless_refused os t hostname sock_type port b ≡ ok r
    → (r ≡ (none, t))
      ⊎ ((host : Bytes) × (st : ℕ) × (c_string hostname ≡ ok host)
          × (socket_type type ≡ some st)
          × (r ≡ connect_stream os t host st port))
unfolding unless_refused
unless_refused_inv os t hostname type st port true r e h = inl (sym (ok-injective h))
unless_refused_inv os t hostname type st port false r e h =
    let (host, read, rest) = >>=-eq-ok (c_string hostname) _ h in
    inr (host, st, read, e, sym (ok-injective rest))

-- A call that returns made no call of the system, or looked up and connected a readable host name.
pub open_stream_inv :
    (os : Os) (conf : WoefulConfig) (t : Trace) (hostname : Bytes) (type port : ℕ)
    (r : Option Connection × Trace)
    → open_stream os conf t hostname type port ≡ ok r
    → (r ≡ (none, t))
      ⊎ ((host : Bytes) × (sock_type : ℕ) × (c_string hostname ≡ ok host)
          × (socket_type type ≡ some sock_type)
          × (r ≡ connect_stream os t host sock_type port))
unfolding open_stream
open_stream_inv os conf t hostname type port r h = elim (Option-cases (socket_type type)) [
  | inl e ↦ inl (sym (ok-injective (rw e at h)))
  | inr (st, e) ↦
      let (flags, _, rest) =
        >>=-eq-ok (match_members conf.block_members hostname port false false) _ (rw e at h) in
      unless_refused_inv os t hostname type st port (is_refused conf.block_type flags.0 flags.1) r e
        rest
]

module _ (os : Os) (fresh : SocketIsFresh os) where
  connect_socket-Opens :
      (t t' : Trace) (sock_type fd dns : ℕ)
      → is_open fd t ≡ false
      → ((x : ℕ) → is_open x t' ≡ is_open x t)
      → Opens t (connect_socket os (socket_opened sock_type fd ∷ t') fd dns)
  unfolding connect_socket is_open
  connect_socket-Opens t t' sock_type fd dns closed same =
      elim (Bool-cases (os.connect (socket_opened sock_type fd ∷ t') fd dns)) [
        | inl e ↦ rw e (closed, λ x. ground (arith, same x))
        | inr e ↦ rw e (λ x. ground (arith, same x, closed))
      ]

  open_socket-Opens :
      (t t' : Trace) (sock_type : ℕ) (dns : Option ℕ)
      → ((x : ℕ) → is_open x t' ≡ is_open x t)
      → Opens t (open_socket os t' sock_type dns)
  unfolding open_socket is_open
  open_socket-Opens t t' sock_type none same = same
  open_socket-Opens t t' sock_type (some dns) same = elim (Option-cases (os.socket t' sock_type)) [
    | inl e ↦ rw (e, open_socket) same
    | inr (fd, e) ↦
        rw (e, open_socket)
          (connect_socket-Opens t t' sock_type fd dns
            (ground (arith, fresh t' sock_type fd e, same fd)) same)
  ]

  pub connect_stream-Opens :
      (t : Trace) (host : Bytes) (sock_type port : ℕ)
      → Opens t (connect_stream os t host sock_type port)
  unfolding connect_stream is_open
  connect_stream-Opens t host sock_type port = open_socket-Opens t _ sock_type _ (λ x. refl)

  -- When `open_stream` returns, a stream that it gives has a descriptor that was not open
  -- before, and no other descriptor changed; if it gives none, no descriptor changed. The
  -- condition is that `socket` never returns a descriptor that is open.
  pub open_stream-Opens :
      (conf : WoefulConfig) (t : Trace) (hostname : Bytes) (type port : ℕ)
      (r : Option Connection × Trace)
      → open_stream os conf t hostname type port ≡ ok r
      → Opens t r
  open_stream-Opens conf t hostname type port r h =
      elim (open_stream_inv os conf t hostname type port r h) [
        | inl e ↦ rw e (λ x. refl)
        | inr (host, sock_type, _, _, e) ↦ rw e (connect_stream-Opens t host sock_type port)
      ]
