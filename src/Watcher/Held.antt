-- ===== src/Watcher/Held.antt =====
-- The descriptors of all managers together, under the deferred callback of `watch`.
use woeful.Base.{
  ℕ, ◌+◌, ◌-◌, ◌%◌, ◌^◌, ◌≤◌, ◌≡◌, refl, sym, ◌∙◌, subst, ◌⊎◌, inl, inr, Bool, true, false, none,
  some, [], ◌∷◌, ◌==◌, Bool-cases, arith, All, Bytes, ltb,
}
use mathlib.Core.Option.{some-injective}
use woeful.Base.Map.{Map, find, insert, erase, IsDistinct, insert-IsDistinct, erase-IsDistinct}
use woeful.Packets.{max_queue}
use woeful.System.Calls.{Os, Trace, is_open}
use woeful.Manager.{WebSocketManager, Parent, update_streams}
use woeful.Manager.Counting.{owners, opened, IsOwned, update_streams-owners}
use woeful.Manager.Owned.{close_stream-IsOwned}
use woeful.Manager.Identity.{update_streams-Same, close_stream-Same}
use woeful.Watcher.{
  Deferred, SystemWatcher, parent_of, Found, deliver_managers, close_found, update_managers,
  run_deferred,
}
use woeful.Watcher.Owners.{
  held, others, held-find, held-insert, held-erase, IsEntry, IsFound, deliver_managers-calls,
  deliver_managers-IsEntry, deliver_managers-IsFound,
}

pub record IsHeld (managers : Map WebSocketManager) (t : Trace) : Type 0 where
  pub entries : All IsEntry managers
  pub distinct : IsDistinct managers
  pub bound : (fd : ℕ) → held fd managers ≤ opened fd t

find-IsEntry :
    (id : ℕ) (m : WebSocketManager) (managers : Map WebSocketManager)
    → All IsEntry managers
    → find id managers ≡ some m
    → IsEntry (id, m)
unfolding find
find-IsEntry id m [] a h = cc
find-IsEntry id m ((j, n) ∷ managers) a h = elim (Bool-cases (j == id)) [
  | inl e ↦ ground arith
  | inr e ↦ find-IsEntry id m managers a.1 (rw e at h)
]

insert-IsEntry :
    (id : ℕ) (m : WebSocketManager) (managers : Map WebSocketManager)
    → All IsEntry managers
    → IsEntry (id, m)
    → All IsEntry (insert id m managers)
unfolding insert
insert-IsEntry id m [] a e = (e, tt)
insert-IsEntry id m ((j, n) ∷ managers) a e = elim (Bool-cases (j == id)) [
  | inl h ↦ rw (h, insert) (e, a.1)
  | inr h ↦ rw (h, insert) (a.0, insert-IsEntry id m managers a.1 e)
]

erase-IsEntry :
    (id : ℕ) (managers : Map WebSocketManager)
    → All IsEntry managers
    → All IsEntry (erase id managers)
unfolding erase
erase-IsEntry id [] a = tt
erase-IsEntry id ((j, n) ∷ managers) a = elim (Bool-cases (j == id)) [
  | inl h ↦ rw (h, erase) (erase-IsEntry id managers a.1)
  | inr h ↦ rw (h, erase) (a.0, erase-IsEntry id managers a.1)
]

-- One manager, seen among the others.
pub find-IsOwned :
    (id : ℕ) (m : WebSocketManager) (managers : Map WebSocketManager) (t : Trace)
    → IsHeld managers t
    → find id managers ≡ some m
    → IsOwned (others id managers) m.streams t × (m.socket_id ≡ id)
find-IsOwned id m managers t v h =
    let (named, distinct) = find-IsEntry id m managers v.entries h in
    (
      record {
        distinct = distinct;
        bound = λ fd. ground (arith, v.bound fd, held-find fd id m managers h);
      },
      named,
    )

pub insert-IsHeld :
    (id : ℕ) (m : WebSocketManager) (managers : Map WebSocketManager) (t t' : Trace)
    → IsHeld managers t
    → m.socket_id ≡ id
    → IsOwned (others id managers) m.streams t'
    → IsHeld (insert id m managers) t'
insert-IsHeld id m managers t t' v named o = record {
  entries = insert-IsEntry id m managers v.entries (named, o.distinct);
  distinct = insert-IsDistinct id m managers v.distinct;
  bound = λ fd. ground (arith, o.bound fd, held-insert fd id m managers);
}

-- A manager without streams goes, and its id with it.
pub erase-IsHeld :
    (id : ℕ) (managers : Map WebSocketManager) (t t' : Trace)
    → IsHeld managers t
    → IsOwned (others id managers) [] t'
    → IsHeld (erase id managers) t'
unfolding owners
erase-IsHeld id managers t t' v o = record {
  entries = erase-IsEntry id managers v.entries;
  distinct = erase-IsDistinct id managers v.distinct;
  bound = λ fd. ground (arith, o.bound fd, held-erase fd id managers);
}

pub update_managers-find-none :
    (parent : Parent) (j : ℕ) (managers : Map WebSocketManager) (t : Trace)
    → find j managers ≡ none
    → find j (update_managers parent managers t).0 ≡ none
unfolding update_managers find
update_managers-find-none parent j [] t h = refl
update_managers-find-none parent j ((id, m) ∷ managers) t h = elim (Bool-cases (id == j)) [
  | inl e ↦ cc (rw e at h)
  | inr e ↦ rw e (update_managers-find-none parent j managers _ (rw e at h))
]

update_managers-kept :
    (parent : Parent) (managers : Map WebSocketManager) (t : Trace)
    → All IsEntry managers
    → IsDistinct managers
    → All IsEntry (update_managers parent managers t).0
      × IsDistinct (update_managers parent managers t).0
      × ((fd : ℕ) → held fd (update_managers parent managers t).0 ≡ held fd managers)
      × ((fd : ℕ) → is_open fd (update_managers parent managers t).1 ≡ is_open fd t)
unfolding update_managers held
update_managers-kept parent [] t a d = (tt, tt, λ fd. refl, λ fd. refl)
update_managers-kept parent ((id, m) ∷ managers) t a d =
    let (same, calls, distinct) = update_streams-owners parent m t in
    let t' = (update_streams parent m t).1 in
    let (a', d', h, o) = update_managers-kept parent managers t' a.1 d.1 in
    (
      (((update_streams-Same parent m t).0 ∙ a.0.0, distinct a.0.1), a'),
      (update_managers-find-none parent id managers t' d.0, d'),
      λ fd. omega (arith, same fd, h fd),
      λ fd. o fd ∙ calls fd,
    )

update_managers-IsHeld :
    (parent : Parent) (managers : Map WebSocketManager) (t : Trace)
    → IsHeld managers t
    → IsHeld (update_managers parent managers t).0 (update_managers parent managers t).1
update_managers-IsHeld parent managers t v =
    let (a, d, h, o) = update_managers-kept parent managers t v.entries v.distinct in
    record { entries = a; distinct = d; bound = λ fd. ground (arith, v.bound fd, h fd, o fd) }

close_found-IsHeld :
    (parent : Parent) (fd : ℕ) (to_close : Bool) (found : Found) (managers : Map WebSocketManager)
    (t : Trace)
    → (found ≡ none) ⊎ ((f : ℕ × ℕ) × (found ≡ some f) × IsFound fd managers f)
    → IsHeld managers t
    → IsHeld
        (close_found parent to_close found managers t).0
        (close_found parent to_close found managers t).1
unfolding close_found
close_found-IsHeld parent fd false found managers t f v = v
close_found-IsHeld parent fd true none managers t f v = v
close_found-IsHeld parent fd true (some (id, k)) managers t (inl e) v = cc
close_found-IsHeld parent fd true (some (id, k)) managers t (inr (f, e, (m, stream, h, g, o))) v =
    let p : (id, k) ≡ f = some-injective _ _ e in
    let here : find id managers ≡ some m = subst (λ x. find x.0 managers ≡ some m) (sym p) h in
    let there : find k m.streams ≡ some stream =
      subst (λ x. find x.1 m.streams ≡ some stream) (sym p) g in
    let (owned, named) = find-IsOwned id m managers t v here in
    rw (here, close_found)
      (insert-IsHeld id _ managers t _ v ((close_stream-Same parent k false m t).0 ∙ named)
        (close_stream-IsOwned (others id managers) parent k false stream m t there owned))

pub deliver_managers-IsHeld :
    (os : Os) (fd : ℕ) (bytes : Bytes) (managers : Map WebSocketManager) (t : Trace)
    → IsHeld managers t
    → IsHeld
        (deliver_managers os fd bytes managers none t).0
        (deliver_managers os fd bytes managers none t).2
deliver_managers-IsHeld os fd bytes managers t v =
    let (_, o, h) = deliver_managers-calls os fd bytes managers none t in
    let (a, d) = deliver_managers-IsEntry os fd bytes managers none t v.entries v.distinct in
    record { entries = a; distinct = d; bound = λ x. ground (arith, v.bound x, o x, h x) }

-- The deferred callback, whether it closes a stream or not, keeps the managers well formed: each
-- under its own id, its streams with distinct ids, and every descriptor held by at most one
-- stream, and only while it is open.
pub run_deferred-IsHeld :
    (os : Os) (d : Deferred) (w : SystemWatcher) (t : Trace)
    → IsHeld w.watched_sockets t
    → IsHeld (run_deferred os d w t).0.watched_sockets (run_deferred os d w t).1
unfolding run_deferred
run_deferred-IsHeld os d w t v =
    let r = deliver_managers os d.fd d.combined_buffer w.watched_sockets none t in
    let delivered = deliver_managers-IsHeld os d.fd d.combined_buffer w.watched_sockets t v in
    let found =
      deliver_managers-IsFound os d.fd d.combined_buffer w.watched_sockets none t v.entries
        v.distinct in
    let closed = close_found-IsHeld (parent_of w) d.fd d.to_close r.1 r.0 r.2 found delivered in
    let len = (w.send_queue_len + 2 ^ 64 - 1) % 2 ^ 64 in
    elim (Bool-cases (ltb len max_queue)) [
      | inl e ↦ rw e (update_managers-IsHeld _ _ _ closed)
      | inr e ↦ rw e closed
    ]
