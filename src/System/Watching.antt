-- ===== src/System/Watching.antt =====
-- Which descriptors epoll watches.
use woeful.Base.{
  ℕ, ◌≡◌, refl, ◌==◌, Bool, true, false, Option, none, some, [], ◌∷◌, if◌then◌else◌, Bytes, ok,
  arith, inl, inr, Option-cases,
}
use woeful.Config.{WoefulConfig}
use woeful.System.Calls.{Os, Trace, SocketIsFresh, is_open, epoll_added, epoll_removed, fd_closed}
use woeful.System.{Connection, resolve, open_socket, connect_socket, connect_stream, open_stream}
use woeful.System.Descriptors.{open_stream_inv}

-- Whether the descriptor was added, and neither removed nor closed since. There is one epoll.
unfoldable pub is_watched : ℕ → Trace → Bool
is_watched fd [] = false
is_watched fd (epoll_added epfd added ∷ t) = if added == fd then true else is_watched fd t
is_watched fd (epoll_removed epfd removed ∷ t) = if removed == fd then false else is_watched fd t
is_watched fd (fd_closed closed ∷ t) = if closed == fd then false else is_watched fd t
is_watched fd (_ ∷ t) = is_watched fd t

-- What is open is watched as before.
abbrev pub Stays : Trace → Trace → Type 0
Stays t t' = (x : ℕ) → is_open x t ≡ true → is_watched x t' ≡ is_watched x t

module _ (os : Os) (fresh : SocketIsFresh os) where
  open_socket-Stays :
      (t t' : Trace) (sock_type : ℕ) (dns : Option ℕ)
      → ((x : ℕ) → is_open x t' ≡ is_open x t)
      → ((x : ℕ) → is_watched x t' ≡ is_watched x t)
      → Stays t (open_socket os t' sock_type dns).1
  unfolding open_socket connect_socket is_open is_watched
  open_socket-Stays t t' sock_type none same kept x o = kept x
  open_socket-Stays t t' sock_type (some dns) same kept x o =
      elim (Option-cases (os.socket t' sock_type)) [
        | inl e ↦ rw (e, open_socket) (kept x)
        | inr (fd, e) ↦
            rw (e, open_socket) (ground (arith, fresh t' sock_type fd e, same x, kept x, o))
      ]

  connect_stream-Stays :
      (t : Trace) (host : Bytes) (sock_type port : ℕ)
      → Stays t (connect_stream os t host sock_type port).1
  unfolding connect_stream resolve is_open is_watched
  connect_stream-Stays t host sock_type port =
      open_socket-Stays t _ sock_type _ (λ x. refl) (λ x. refl)

  pub open_stream-Stays :
      (conf : WoefulConfig) (t : Trace) (hostname : Bytes) (type port : ℕ)
      (r : Option Connection × Trace)
      → open_stream os conf t hostname type port ≡ ok r
      → Stays t r.1
  open_stream-Stays conf t hostname type port r h =
      elim (open_stream_inv os conf t hostname type port r h) [
        | inl e ↦ rw e (λ x o. refl)
        | inr (host, sock_type, _, _, e) ↦ rw e (connect_stream-Stays t host sock_type port)
      ]
