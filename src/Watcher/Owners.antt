-- ===== src/Watcher/Owners.antt =====
-- The loops of the deferred callback of `watch` over the managers and their streams.
use woeful.Base.{
  ℕ, ◌+◌, ◌≤◌, ◌≡◌, refl, ◌∙◌, ◌⊎◌, inl, inr, none, some, [], ◌∷◌, ◌==◌, ==_iff, Bool-cases, arith,
  if◌then◌else◌, length, All, Bytes,
}
use woeful.Base.Map.{Map, find, insert, erase, IsDistinct, find-head, find-tail}
use woeful.System.Calls.{Os, Trace, is_open}
use woeful.Manager.{SocketStreamData, WebSocketManager}
use woeful.Manager.Counting.{owners}
use woeful.Watcher.{Delivery, deliver_one, deliver_streams, deliver_managers, Found, found_in}

-- How many streams of all managers have the descriptor.
unfoldable pub held : ℕ → Map WebSocketManager → ℕ
held fd [] = 0
held fd ((id, m) ∷ managers) = owners fd m.streams + held fd managers

-- The same without the manager that an id finds.
unfoldable pub others : ℕ → Map WebSocketManager → ℕ → ℕ
others id [] fd = 0
others id ((j, m) ∷ managers) fd =
    if j == id then held fd managers else owners fd m.streams + others id managers fd

pub held-find :
    (fd id : ℕ) (m : WebSocketManager) (managers : Map WebSocketManager)
    → find id managers ≡ some m
    → held fd managers ≡ owners fd m.streams + others id managers fd
unfolding held others find
held-find fd id m [] h = cc
held-find fd id m ((j, n) ∷ managers) h = ground (arith, held-find fd id m managers)

pub held-insert :
    (fd id : ℕ) (m : WebSocketManager) (managers : Map WebSocketManager)
    → held fd (insert id m managers) ≡ owners fd m.streams + others id managers fd
unfolding held others insert
held-insert fd id m [] = refl
held-insert fd id m ((j, n) ∷ managers) = ground (arith, held-insert fd id m managers)

pub others-le :
    (fd id : ℕ) (managers : Map WebSocketManager) → others id managers fd ≤ held fd managers
unfolding held others
others-le fd id [] = omega arith
others-le fd id ((j, n) ∷ managers) = ground (arith, others-le fd id managers)

pub held-erase :
    (fd id : ℕ) (managers : Map WebSocketManager)
    → held fd (erase id managers) ≤ others id managers fd
unfolding held others erase
held-erase fd id [] = omega arith
held-erase fd id ((j, n) ∷ managers) =
    ground (arith, held-erase fd id managers, others-le fd id managers)

-- An entry of `watched_sockets`.
abbrev pub IsEntry : ℕ × WebSocketManager → Type 0
IsEntry e = (e.1.socket_id ≡ e.0) × IsDistinct e.1.streams

-- The loop over the streams leaves the descriptors, and a stream that it finds is there.
abbrev Finds : ℕ → Map SocketStreamData → Delivery → Delivery → Type 0
Finds fd streams d d' =
    (d'.found_id ≡ d.found_id)
    ⊎ ((k : ℕ) × (stream : SocketStreamData) × (d'.found_id ≡ some k)
        × (find k streams ≡ some stream)
        × (stream.fd ≡ fd))

deliver_streams-Finds :
    (os : Os) (ws fd : ℕ) (bytes : Bytes) (streams : Map SocketStreamData) (d : Delivery)
    → IsDistinct streams
    → Finds fd streams d (deliver_streams os ws fd bytes streams d)
unfolding deliver_streams find
deliver_streams-Finds os ws fd bytes [] d v = inl refl
deliver_streams-Finds os ws fd bytes ((k, stream) ∷ streams) d v =
    elim (Bool-cases (stream.fd == fd)) [
      | inl e ↦
          elim (deliver_streams-Finds os ws fd bytes streams (deliver_one os ws k bytes d) v.1) [
            | inl same ↦ inr (
              k,
              stream,
              rw (e, deliver_streams) (same ∙ found_one),
              find-head k stream streams,
              (==_iff _ fd).0 e,
            )
            | inr (j, other, f, h, o) ↦
                inr
                  (j, other, rw (e, deliver_streams) f, find-tail k j stream other streams v.0 h, o)
          ]
      | inr e ↦ elim (deliver_streams-Finds os ws fd bytes streams d v.1) [
        | inl same ↦ inl (rw (e, deliver_streams) same)
        | inr (j, other, f, h, o) ↦
            inr (j, other, rw (e, deliver_streams) f, find-tail k j stream other streams v.0 h, o)
      ]
    ]
  where
    found_one : (deliver_one os ws k bytes d).found_id ≡ some k
    found_one = unfold deliver_one in refl

deliver_one-calls :
    (os : Os) (ws k : ℕ) (bytes : Bytes) (d : Delivery)
    → (length (deliver_one os ws k bytes d).trace ≡ length d.trace + 1)
      × ((x : ℕ) → is_open x (deliver_one os ws k bytes d).trace ≡ is_open x d.trace)
unfolding deliver_one is_open
deliver_one-calls os ws k bytes d = (omega arith, λ x. refl)

-- One message for each stream with the descriptor.
deliver_streams-calls :
    (os : Os) (ws fd : ℕ) (bytes : Bytes) (streams : Map SocketStreamData) (d : Delivery)
    → (length (deliver_streams os ws fd bytes streams d).trace ≡ length d.trace + owners fd streams)
      × ((x : ℕ) → is_open x (deliver_streams os ws fd bytes streams d).trace ≡ is_open x d.trace)
unfolding deliver_streams owners
deliver_streams-calls os ws fd bytes [] d = (omega arith, λ x. refl)
deliver_streams-calls os ws fd bytes ((k, stream) ∷ streams) d =
    let one = deliver_one-calls os ws k bytes d in
    let hit = deliver_streams-calls os ws fd bytes streams (deliver_one os ws k bytes d) in
    let miss = deliver_streams-calls os ws fd bytes streams d in
    (ground (arith, one.0, hit.0, miss.0), λ x. ground (arith, one.1 x, hit.1 x, miss.1 x))

-- The deferred callback makes exactly as many calls, one message each, as there are streams with
-- the descriptor among all managers, and changes neither which descriptors are open nor how many
-- streams hold each.
pub deliver_managers-calls :
    (os : Os) (fd : ℕ) (bytes : Bytes) (managers : Map WebSocketManager) (found : Found) (t : Trace)
    → (length (deliver_managers os fd bytes managers found t).2 ≡ length t + held fd managers)
      × ((x : ℕ) → is_open x (deliver_managers os fd bytes managers found t).2 ≡ is_open x t)
      × ((x : ℕ) → held x (deliver_managers os fd bytes managers found t).0 ≡ held x managers)
unfolding deliver_managers held
deliver_managers-calls os fd bytes [] found t = (omega arith, λ x. refl, λ x. refl)
deliver_managers-calls os fd bytes ((id, m) ∷ managers) found t =
    let start : Delivery = record {
      has_backpressure = m.has_backpressure;
      found_id = none;
      trace = t;
    } in
    let d = deliver_streams os m.ws fd bytes m.streams start in
    let (n, o) = deliver_streams-calls os m.ws fd bytes m.streams start in
    let (n', o', h) =
      deliver_managers-calls os fd bytes managers (found_in id d.found_id found) d.trace in
    (omega (arith, n, n'), λ x. o' x ∙ o x, λ x. omega (arith, h x))

pub deliver_managers-find-none :
    (os : Os) (fd j : ℕ) (bytes : Bytes) (managers : Map WebSocketManager) (found : Found)
    (t : Trace)
    → find j managers ≡ none
    → find j (deliver_managers os fd bytes managers found t).0 ≡ none
unfolding deliver_managers find
deliver_managers-find-none os fd j bytes [] found t h = refl
deliver_managers-find-none os fd j bytes ((id, m) ∷ managers) found t h =
    elim (Bool-cases (id == j)) [
      | inl e ↦ cc (rw e at h)
      | inr e ↦ rw e (deliver_managers-find-none os fd j bytes managers _ _ (rw e at h))
    ]

pub deliver_managers-IsEntry :
    (os : Os) (fd : ℕ) (bytes : Bytes) (managers : Map WebSocketManager) (found : Found) (t : Trace)
    → All IsEntry managers
    → IsDistinct managers
    → All IsEntry (deliver_managers os fd bytes managers found t).0
      × IsDistinct (deliver_managers os fd bytes managers found t).0
unfolding deliver_managers
deliver_managers-IsEntry os fd bytes [] found t a d = (tt, tt)
deliver_managers-IsEntry os fd bytes ((id, m) ∷ managers) found t a d =
    let (a', d') = deliver_managers-IsEntry os fd bytes managers _ _ a.1 d.1 in
    ((a.0, a'), (deliver_managers-find-none os fd id bytes managers _ _ d.0, d'))

-- What `found_id` and `found_manager` say is true of the managers after the loop.
abbrev pub IsFound : ℕ → Map WebSocketManager → ℕ × ℕ → Type 0
IsFound fd managers f =
    (m : WebSocketManager) × (stream : SocketStreamData) × (find f.0 managers ≡ some m)
    × (find f.1 m.streams ≡ some stream)
    × (stream.fd ≡ fd)

pub deliver_managers-IsFound :
    (os : Os) (fd : ℕ) (bytes : Bytes) (managers : Map WebSocketManager) (found : Found) (t : Trace)
    → All IsEntry managers
    → IsDistinct managers
    → ((deliver_managers os fd bytes managers found t).1 ≡ found)
      ⊎ ((f : ℕ × ℕ) × ((deliver_managers os fd bytes managers found t).1 ≡ some f)
          × IsFound fd (deliver_managers os fd bytes managers found t).0 f)
unfolding deliver_managers
deliver_managers-IsFound os fd bytes [] found t a d = inl refl
deliver_managers-IsFound os fd bytes ((id, m) ∷ managers) found t a d =
    let start : Delivery = record {
      has_backpressure = m.has_backpressure;
      found_id = none;
      trace = t;
    } in
    let r = deliver_streams os m.ws fd bytes m.streams start in
    let away =
      deliver_managers-find-none os fd id bytes managers (found_in id r.found_id found) r.trace
        d.0 in
    elim (deliver_managers-IsFound os fd bytes managers (found_in id r.found_id found) r.trace a.1
      d.1) [
        | inr (f, e, (n, stream, h, g, o)) ↦
            inr (f, e, (n, stream, find-tail id f.0 _ n _ away h, g, o))
        | inl same ↦ elim (deliver_streams-Finds os m.ws fd bytes m.streams start a.0.1) [
          | inl none_found ↦ inl (same ∙ rw none_found refl)
          | inr (k, stream, f, h, o) ↦
              inr ((id, k), same ∙ rw f refl, (_, stream, find-head id _ _, h, o))
        ]
      ]
