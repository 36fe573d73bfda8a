-- ===== src/Watcher/Homes.antt =====
-- The ids and the web sockets of the managers under the deferred callback.
use woeful.Base.{
  ℕ, ◌+◌, ◌-◌, ◌%◌, ◌^◌, ◌≡◌, refl, sym, ap, ◌∙◌, inl, inr, ◌==◌, ==_iff, Bool, true, false,
  Bool-cases, Option-cases, none, some, ltb,
}
use mathlib.Core.Option.{some-injective}
use woeful.Base.Map.{Map, find, insert, find-insert}
use woeful.Packets.{max_queue}
use woeful.System.Calls.{Os, Trace}
use woeful.Manager.{WebSocketManager, Parent, close_stream}
use woeful.Manager.Identity.{update_streams-Same, close_stream-Same}
use woeful.Watcher.{
  Deferred, SystemWatcher, parent_of, Found, deliver_managers, close_found, update_managers,
  run_deferred,
}
use woeful.Watcher.Owners.{deliver_managers-find-none}
use woeful.Watcher.Held.{update_managers-find-none}
use woeful.Watcher.Finds.{deliver_managers-find, update_managers-find}

-- The manager of an id keeps its web socket.
abbrev pub Houses : ℕ → ℕ → Map WebSocketManager → Type 0
Houses id ws managers = (m : WebSocketManager) × (find id managers ≡ some m) × (m.ws ≡ ws)

-- The second map has the ids of the first, each with its web socket, and no other.
abbrev pub Rehouses : Map WebSocketManager → Map WebSocketManager → Type 0
Rehouses managers managers' =
    (id : ℕ)
    → ((ws : ℕ) → Houses id ws managers → Houses id ws managers')
      × (find id managers ≡ none → find id managers' ≡ none)

pub Rehouses-refl : (managers : Map WebSocketManager) → Rehouses managers managers
Rehouses-refl managers id = (λ ws h. h, λ h. h)

Rehouses-trans : (a b c : Map WebSocketManager) → Rehouses a b → Rehouses b c → Rehouses a c
Rehouses-trans a b c p q id = (λ ws h. (q id).0 ws ((p id).0 ws h), λ h. (q id).1 ((p id).1 h))

-- A method's result in its manager's place.
pub insert-Rehouses :
    (id : ℕ) (old m : WebSocketManager) (managers : Map WebSocketManager)
    → find id managers ≡ some old
    → m.ws ≡ old.ws
    → Rehouses managers (insert id m managers)
insert-Rehouses id old m managers h w j = elim (Bool-cases (id == j)) [
  | inl e ↦
      let same : id ≡ j = (==_iff id j).0 e in
      let here : find j managers ≡ some old = ap (λ x. find x managers) (sym same) ∙ h in
      (
        λ ws p.
            let (n, f, s) = p in
            let own : old ≡ n = some-injective _ _ (sym here ∙ f) in
            (
              m,
              find-insert id j m managers ∙ rw e refl,
              w ∙ ap (λ (x : WebSocketManager). x.ws) own ∙ s,
            ),
        λ p. cc (here, p),
      )
  | inr e ↦ (
    λ ws p. (p.0, find-insert id j m managers ∙ rw e p.1, p.2),
    λ p. find-insert id j m managers ∙ rw e p,
  )
]

deliver_managers-Rehouses :
    (os : Os) (d : Deferred) (managers : Map WebSocketManager) (t : Trace)
    → Rehouses managers (deliver_managers os d.fd d.combined_buffer managers none t).0
deliver_managers-Rehouses os d managers t id = (
  λ ws p.
      let (b, f) = deliver_managers-find os d.fd id d.combined_buffer p.0 managers none t p.1 in
      (_, f, p.2),
  λ p. deliver_managers-find-none os d.fd id d.combined_buffer managers none t p,
)

close_found-Rehouses :
    (parent : Parent) (to_close : Bool) (found : Found) (managers : Map WebSocketManager)
    (t : Trace)
    → Rehouses managers (close_found parent to_close found managers t).0
unfolding close_found
close_found-Rehouses parent false found managers t = Rehouses-refl managers
close_found-Rehouses parent true none managers t = Rehouses-refl managers
close_found-Rehouses parent true (some (id, k)) managers t =
    elim (Option-cases (find id managers)) [
      | inl e ↦ rw (close_found, e) (Rehouses-refl managers)
      | inr (m, e) ↦
          rw (close_found, e)
            (insert-Rehouses id m (close_stream parent k false m t).0 managers e
              (close_stream-Same parent k false m t).1)
    ]

update_managers-Rehouses :
    (parent : Parent) (managers : Map WebSocketManager) (t : Trace)
    → Rehouses managers (update_managers parent managers t).0
update_managers-Rehouses parent managers t id = (
  λ ws p.
      let (t', f) = update_managers-find parent id p.0 managers t p.1 in
      (_, f, (update_streams-Same parent p.0 t').1 ∙ p.2),
  λ p. update_managers-find-none parent id managers t p,
)

pub run_deferred-Rehouses :
    (os : Os) (d : Deferred) (w : SystemWatcher) (t : Trace)
    → Rehouses w.watched_sockets (run_deferred os d w t).0.watched_sockets
unfolding run_deferred
run_deferred-Rehouses os d w t =
    let r = deliver_managers os d.fd d.combined_buffer w.watched_sockets none t in
    let closed = close_found (parent_of w) d.to_close r.1 r.0 r.2 in
    let first =
      Rehouses-trans w.watched_sockets r.0 closed.0
        (deliver_managers-Rehouses os d w.watched_sockets t)
        (close_found-Rehouses (parent_of w) d.to_close r.1 r.0 r.2) in
    let len = (w.send_queue_len + 2 ^ 64 - 1) % 2 ^ 64 in
    let w' : SystemWatcher = record w { watched_sockets = closed.0; send_queue_len = len } in
    let updated = update_managers (parent_of w') closed.0 closed.1 in
    elim (Bool-cases (ltb len max_queue)) [
      | inl e ↦ rw e (
          Rehouses-trans w.watched_sockets closed.0 updated.0 first
            (update_managers-Rehouses (parent_of w') closed.0 closed.1))
      | inr e ↦ rw e first
    ]
