-- ===== src/Manager/Counting.antt =====
-- How often the streams of a manager have a descriptor.
use woeful.Base.{
  ℕ, ◌+◌, ◌≤◌, ◌≡◌, refl, ◌||◌, ltb, none, some, [], ◌∷◌, ◌==◌, Bool-cases, inl, inr, arith,
  if◌then◌else◌,
}
use woeful.Base.Map.{Map, find, insert, erase, IsDistinct}
use woeful.Packets.{buffer_count, max_queue}
use woeful.System.Calls.{Trace, is_open}
use woeful.Manager.{
  SocketStreamData, WebSocketManager, Parent, refill_streams, update_streams, send_continue,
  close_info,
}

abbrev pub owns : ℕ → SocketStreamData → ℕ
owns fd stream = if stream.fd == fd then 1 else 0

-- How many streams have the descriptor.
unfoldable pub owners : ℕ → Map SocketStreamData → ℕ
owners fd [] = 0
owners fd ((k, stream) ∷ streams) = owns fd stream + owners fd streams

abbrev pub opened : ℕ → Trace → ℕ
opened fd t = if is_open fd t then 1 else 0

-- The streams, and `others fd` more elsewhere, have each open descriptor at most once, and no
-- descriptor that is not open.
pub record IsOwned (others : ℕ → ℕ) (streams : Map SocketStreamData) (t : Trace) : Type 0 where
  pub distinct : IsDistinct streams
  pub bound : (fd : ℕ) → owners fd streams + others fd ≤ opened fd t

pub owners-insert-le :
    (fd k : ℕ) (stream : SocketStreamData) (streams : Map SocketStreamData)
    → owners fd (insert k stream streams) ≤ owns fd stream + owners fd streams
unfolding owners insert
owners-insert-le fd k stream [] = omega arith
owners-insert-le fd k stream ((j, other) ∷ streams) =
    ground (arith, owners-insert-le fd k stream streams)

-- A new value in the place of one with the same descriptor changes nothing.
pub owners-insert_same :
    (fd k : ℕ) (old new : SocketStreamData) (streams : Map SocketStreamData)
    → find k streams ≡ some old
    → old.fd ≡ new.fd
    → owners fd (insert k new streams) ≡ owners fd streams
unfolding owners insert find
owners-insert_same fd k old new [] h e = cc
owners-insert_same fd k old new ((j, other) ∷ streams) h e =
    ground (arith, owners-insert_same fd k old new streams)

pub owners-erase-le :
    (fd k : ℕ) (streams : Map SocketStreamData) → owners fd (erase k streams) ≤ owners fd streams
unfolding owners erase
owners-erase-le fd k [] = omega arith
owners-erase-le fd k ((j, other) ∷ streams) = ground (arith, owners-erase-le fd k streams)

pub owners-erase :
    (k : ℕ) (stream : SocketStreamData) (streams : Map SocketStreamData)
    → find k streams ≡ some stream
    → owners stream.fd (erase k streams) + 1 ≤ owners stream.fd streams
unfolding owners erase find
owners-erase k stream [] h = cc
owners-erase k stream ((j, other) ∷ streams) h =
    ground (arith, owners-erase k stream streams, owners-erase-le stream.fd k streams)

-- The loop of `update_streams` sends, and changes no descriptor.
pub refill-owners :
    (fd ws : ℕ) (streams : Map SocketStreamData) (t : Trace)
    → (owners fd (refill_streams ws streams t).0 ≡ owners fd streams)
      × (is_open fd (refill_streams ws streams t).1 ≡ is_open fd t)
unfolding owners refill_streams is_open
refill-owners fd ws [] t = (refl, refl)
refill-owners fd ws ((k, stream) ∷ streams) t = ground (
  arith,
  refill-owners fd ws streams (send_continue buffer_count k ws t),
  refill-owners fd ws streams t,
)

pub refill-find-none :
    (j ws : ℕ) (streams : Map SocketStreamData) (t : Trace)
    → find j streams ≡ none
    → find j (refill_streams ws streams t).0 ≡ none
unfolding find refill_streams
refill-find-none j ws [] t h = refl
refill-find-none j ws ((k, stream) ∷ streams) t h = ground (
  arith,
  refill-find-none j ws streams (send_continue buffer_count k ws t),
  refill-find-none j ws streams t,
)

pub refill-IsDistinct :
    (ws : ℕ) (streams : Map SocketStreamData) (t : Trace)
    → IsDistinct streams
    → IsDistinct (refill_streams ws streams t).0
unfolding refill_streams
refill-IsDistinct ws [] t d = tt
refill-IsDistinct ws ((k, stream) ∷ streams) t d =
    (refill-find-none k ws streams _ d.0, refill-IsDistinct ws streams _ d.1)

pub update_streams-owners :
    (parent : Parent) (m : WebSocketManager) (t : Trace)
    → ((fd : ℕ) → owners fd (update_streams parent m t).0.streams ≡ owners fd m.streams)
      × ((fd : ℕ) → is_open fd (update_streams parent m t).1 ≡ is_open fd t)
      × (IsDistinct m.streams → IsDistinct (update_streams parent m t).0.streams)
unfolding update_streams
update_streams-owners parent m t =
    elim (Bool-cases (m.has_backpressure || ltb max_queue parent.send_queue_len)) [
      | inl e ↦ rw e (λ fd. refl, λ fd. refl, λ d. d)
      | inr e ↦ rw e (
        λ fd. (refill-owners fd m.ws m.streams t).0,
        λ fd. (refill-owners fd m.ws m.streams t).1,
        refill-IsDistinct m.ws m.streams t,
      )
    ]

pub close_info-streams : (m : WebSocketManager) → (close_info m).streams ≡ m.streams
unfolding close_info
close_info-streams m = ground arith
