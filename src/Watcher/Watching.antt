-- ===== src/Watcher/Watching.antt =====
-- What epoll watches under the deferred callback and the watcher's thread.
use woeful.Base.{
  ℕ, ◌+◌, ◌-◌, ◌%◌, ◌^◌, ◌≤◌, ◌≡◌, refl, ap, sym, ◌∙◌, subst, ◌⊎◌, inl, inr, ◌==◌, ==_iff, Bool,
  Bool-cases, true, false, ◌&&◌, none, some, List, [], ◌∷◌, if◌then◌else◌, ltb, arith, Bytes,
  Option-cases,
}
use mathlib.Core.Option.{some-injective}
use woeful.Base.Map.{Map, insert, erase}
use woeful.Packets.{max_queue}
use woeful.System.Calls.{Os, Trace}
use woeful.System.Watching.{is_watched}
use woeful.Manager.{SocketStreamData, WebSocketManager, Parent, update_streams, close_stream}
use woeful.Manager.Counting.{owners, owners-erase, owners-erase-le, update_streams-owners}
use woeful.Manager.Watching.{close_stream-watched, update_streams-watched}
use woeful.Watcher.{
  Deferred, SystemWatcher, parent_of, Delivery, Found, found_in, deliver_one, deliver_streams,
  deliver_managers, close_found, update_managers, run_deferred,
}
use woeful.Watcher.Relay.{recipients, relayed, deliver_managers-relays}
use woeful.Watcher.Owners.{
  held, others, held-find, held-insert, IsFound, deliver_managers-calls, deliver_managers-IsFound,
}
use woeful.Watcher.Held.{IsHeld, deliver_managers-IsHeld}

-- A callback that closes the descriptor waits.
unfoldable pub waits : ℕ → List Deferred → Bool
waits x [] = false
waits x (d ∷ ds) = if d.to_close && (d.fd == x) then true else waits x ds

-- A loop that finds nothing leaves no stream with the descriptor.
deliver_streams-missed :
    (os : Os) (ws fd : ℕ) (bytes : Bytes) (streams : Map SocketStreamData) (d : Delivery)
    → (deliver_streams os ws fd bytes streams d).found_id ≡ none
    → (d.found_id ≡ none) × (owners fd streams ≡ 0)
unfolding deliver_streams deliver_one owners
deliver_streams-missed os ws fd bytes [] d h = (h, refl)
deliver_streams-missed os ws fd bytes ((k, stream) ∷ streams) d h =
    elim (Bool-cases (stream.fd == fd)) [
      | inl e ↦
          let (found, _) =
            deliver_streams-missed os ws fd bytes streams (deliver_one os ws k bytes d)
              (rw (deliver_streams, e) at h) in
          let absurd : some k ≡ none = found in cc
      | inr e ↦
          let (found, rest) =
            deliver_streams-missed os ws fd bytes streams d (rw (deliver_streams, e) at h) in
          (found, ground (arith, e, rest))
    ]

deliver_managers-missed :
    (os : Os) (fd : ℕ) (bytes : Bytes) (managers : Map WebSocketManager) (found : Found) (t : Trace)
    → (deliver_managers os fd bytes managers found t).1 ≡ none
    → (found ≡ none) × (held fd managers ≡ 0)
unfolding deliver_managers held
deliver_managers-missed os fd bytes [] found t h = (h, refl)
deliver_managers-missed os fd bytes ((id, m) ∷ managers) found t h =
    let start : Delivery = record {
      has_backpressure = m.has_backpressure;
      found_id = none;
      trace = t;
    } in
    let r = deliver_streams os m.ws fd bytes m.streams start in
    let (e, rest) =
      deliver_managers-missed os fd bytes managers (found_in id r.found_id found) r.trace h in
    elim (Option-cases r.found_id) [
      | inl n ↦ (
        rw n at e,
        omega (arith, rest, (deliver_streams-missed os m.ws fd bytes m.streams start n).1),
      )
      | inr (k, n) ↦ cc (rw n at e)
    ]

relayed-watched :
    (x : ℕ) (bytes : Bytes) (to : List (ℕ × ℕ)) (t : Trace)
    → is_watched x (relayed bytes to t) ≡ is_watched x t
unfolding relayed is_watched
relayed-watched x bytes [] t = refl
relayed-watched x bytes ((ws, k) ∷ to) t = relayed-watched x bytes to _

update_managers-watched :
    (parent : Parent) (x : ℕ) (managers : Map WebSocketManager) (t : Trace)
    → (held x (update_managers parent managers t).0 ≡ held x managers)
      × (is_watched x (update_managers parent managers t).1 ≡ is_watched x t)
unfolding update_managers held
update_managers-watched parent x [] t = (refl, refl)
update_managers-watched parent x ((id, m) ∷ managers) t =
    let t' = (update_streams parent m t).1 in
    let (h, w) = update_managers-watched parent x managers t' in
    (
      omega (arith, h, (update_streams-owners parent m t).0 x),
      w ∙ update_streams-watched parent x m t,
    )

-- What a stage leaves held was held before, is not what it closes, and is watched as before.
abbrev Leaves : ℕ → Bool → ℕ → Map WebSocketManager × Trace → Map WebSocketManager × Trace → Type 0
Leaves fd to_close x (managers, t) (managers', t') =
    1 ≤ held x managers'
    → (1 ≤ held x managers) × ((to_close && (fd == x)) ≡ false) × (is_watched x t' ≡ is_watched x t)

closed_one :
    (parent : Parent) (fd x : ℕ) (f : ℕ × ℕ) (managers : Map WebSocketManager) (t : Trace)
    → IsHeld managers t
    → IsFound fd managers f
    → Leaves fd true x (managers, t) (close_found parent true (some f) managers t)
unfolding close_found close_stream
closed_one parent fd x (id, k) managers t v (m, stream, h, g, o) held_after =
    let closed = close_stream parent k false m t in
    let after : 1 ≤ held x (insert id closed.0 managers) = rw (close_found, h) at held_after in
    let sum : held x (insert id closed.0 managers)
        ≡ owners x (erase k m.streams) + others id managers x =
      held-insert x id closed.0 managers in
    let before = held-find x id m managers h in
    let less = owners-erase-le x k m.streams in
    let gone = owners-erase k stream m.streams g in
    elim (Bool-cases (fd == x)) [
      | inl e ↦
          let same : stream.fd ≡ x = o ∙ (==_iff fd x).0 e in
          let gone_x : owners x (erase k m.streams) + 1 ≤ owners x m.streams =
            subst (λ y. owners y (erase k m.streams) + 1 ≤ owners y m.streams) same gone in
          ground (arith, after, sum, before, gone_x, v.bound x)
      | inr e ↦
          let other : stream.fd == x ≡ false = rw o e in
          (
            omega (arith, after, sum, before, less),
            rw e refl,
            rw (close_found, h) (close_stream-watched parent x k false stream m t g other),
          )
    ]

close_found-Leaves :
    (parent : Parent) (fd x : ℕ) (to_close : Bool) (found : Found) (managers : Map WebSocketManager)
    (t : Trace)
    → IsHeld managers t
    → ((found ≡ none) × (held fd managers ≡ 0))
      ⊎ ((f : ℕ × ℕ) × (found ≡ some f) × IsFound fd managers f)
    → Leaves fd to_close x (managers, t) (close_found parent to_close found managers t)
unfolding close_found
close_found-Leaves parent fd x false found managers t v f h = (h, refl, refl)
close_found-Leaves parent fd x true none managers t v (inl (_, n)) h = elim (Bool-cases (fd == x)) [
  | inl e ↦
      let none_held : held x managers ≡ 0 =
        subst (λ y. held y managers ≡ 0) ((==_iff fd x).0 e) n in
      ground (arith, h, none_held)
  | inr e ↦ (h, rw e refl, refl)
]
close_found-Leaves parent fd x true none managers t v (inr (f, e, _)) h = cc
close_found-Leaves parent fd x true (some f) managers t v (inl (e, _)) h = cc
close_found-Leaves parent fd x true (some f) managers t v (inr (g, e, i)) h =
    closed_one parent fd x f managers t v
      (subst (λ y. IsFound fd managers y) (sym (some-injective _ _ e)) i) h

deliver_managers-IsFound_or_missed :
    (os : Os) (d : Deferred) (managers : Map WebSocketManager) (t : Trace)
    → IsHeld managers t
    → let r = deliver_managers os d.fd d.combined_buffer managers none t in
      ((r.1 ≡ none) × (held d.fd r.0 ≡ 0)) ⊎ ((f : ℕ × ℕ) × (r.1 ≡ some f) × IsFound d.fd r.0 f)
deliver_managers-IsFound_or_missed os d managers t v =
    elim (deliver_managers-IsFound os d.fd d.combined_buffer managers none t v.entries v.distinct) [
      | inl e ↦
          let (_, _, held_same) =
            deliver_managers-calls os d.fd d.combined_buffer managers none t in
          inl (
            e,
            held_same d.fd
                ∙ (deliver_managers-missed os d.fd d.combined_buffer managers none t e).1,
          )
      | inr f ↦ inr f
    ]

pub run_deferred-Leaves :
    (os : Os) (d : Deferred) (w : SystemWatcher) (t : Trace) (x : ℕ)
    → IsHeld w.watched_sockets t
    → let (w', t') = run_deferred os d w t in
      Leaves d.fd d.to_close x (w.watched_sockets, t) (w'.watched_sockets, t')
unfolding run_deferred
run_deferred-Leaves os d w t x v h =
    let managers = w.watched_sockets in
    let r = deliver_managers os d.fd d.combined_buffer managers none t in
    let (_, _, held_same) = deliver_managers-calls os d.fd d.combined_buffer managers none t in
    let calls : is_watched x r.2 ≡ is_watched x t =
      ap (is_watched x) (deliver_managers-relays os d.fd d.combined_buffer managers none t)
      ∙ relayed-watched x d.combined_buffer (recipients d.fd managers) t in
    let closed = close_found (parent_of w) d.to_close r.1 r.0 r.2 in
    let leaves =
      close_found-Leaves (parent_of w) d.fd x d.to_close r.1 r.0 r.2
        (deliver_managers-IsHeld os d.fd d.combined_buffer managers t v)
        (deliver_managers-IsFound_or_missed os d managers t v) in
    let len = (w.send_queue_len + 2 ^ 64 - 1) % 2 ^ 64 in
    let w' : SystemWatcher = record w { watched_sockets = closed.0; send_queue_len = len } in
    elim (Bool-cases (ltb len max_queue)) [
      | inl p ↦
          let (same, watched) = update_managers-watched (parent_of w') x closed.0 closed.1 in
          let after : 1 ≤ held x (update_managers (parent_of w') closed.0 closed.1).0 = rw p at h in
          let (before, apart, kept) = leaves (omega (arith, after, same)) in
          rw p (omega (arith, before, held_same x), apart, watched ∙ kept ∙ calls)
      | inr p ↦
          let (before, apart, kept) = leaves (rw p at h) in
          rw p (omega (arith, before, held_same x), apart, kept ∙ calls)
    ]
