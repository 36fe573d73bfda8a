-- ===== src/Watcher/Finds.antt =====
-- The manager of an id after the loops of the deferred callback.
use woeful.Base.{ℕ, ◌≡◌, ap, inl, inr, ◌==◌, Bool, Bool-cases, none, some, [], ◌∷◌, Bytes}
use mathlib.Core.Option.{some-injective}
use woeful.Base.Map.{Map, find}
use woeful.System.Calls.{Os, Trace}
use woeful.Manager.{WebSocketManager, Parent, update_streams}
use woeful.Watcher.{Found, found_in, deliver_streams, deliver_managers, update_managers}

pub deliver_managers-find :
    (os : Os) (fd id : ℕ) (bytes : Bytes) (m : WebSocketManager) (managers : Map WebSocketManager)
    (found : Found) (t : Trace)
    → find id managers ≡ some m
    → (b : Bool) × (find id (deliver_managers os fd bytes managers found t).0
        ≡ some (record m { has_backpressure = b }))
unfolding deliver_managers find
deliver_managers-find os fd id bytes m [] found t h = cc
deliver_managers-find os fd id bytes m ((j, n) ∷ managers) found t h =
    let d =
      deliver_streams os n.ws fd bytes n.streams
        (record { has_backpressure = n.has_backpressure; found_id = none; trace = t }) in
    elim (Bool-cases (j == id)) [
      | inl e ↦
          let same : n ≡ m = some-injective _ _ (rw e at h) in
          (
            d.has_backpressure,
            rw e (
                ap
                  (λ (x : WebSocketManager).
                    some (record x { has_backpressure = d.has_backpressure }))
                  same),
          )
      | inr e ↦
          let (b, r) =
            deliver_managers-find os fd id bytes m managers (found_in j d.found_id found) d.trace
              (rw e at h) in
          (b, rw e r)
    ]

pub update_managers-find :
    (parent : Parent) (id : ℕ) (m : WebSocketManager) (managers : Map WebSocketManager) (t : Trace)
    → find id managers ≡ some m
    → (t' : Trace) × (find id (update_managers parent managers t).0
        ≡ some (update_streams parent m t').0)
unfolding update_managers find
update_managers-find parent id m [] t h = cc
update_managers-find parent id m ((j, n) ∷ managers) t h = elim (Bool-cases (j == id)) [
  | inl e ↦
      let same : n ≡ m = some-injective _ _ (rw e at h) in
      (t, rw e (ap (λ (x : WebSocketManager). some (update_streams parent x t).0) same))
  | inr e ↦
      let (t', r) =
        update_managers-find parent id m managers (update_streams parent n t).1 (rw e at h) in
      (t', rw e r)
]
