-- ===== src/Watcher/Once.antt =====
-- How often the deferred callback of `watch` delivers, and the rounds of the loop of `watch`.
use woeful.Base.{
  refl, List, ℕ, ◌+◌, ◌≤◌, ◌≡◌, refl, none, some, List, [], ◌∷◌, ◌==◌, Bool-cases, if_true,
  if_false, ◌∙◌, inl, inr, arith, length, Bytes,
}
use woeful.Base.Map.{Map}
use woeful.Packets.{max_ws_frame}
use woeful.System.Calls.{Os, Trace, pipe_read}
use woeful.Manager.{WebSocketManager}
use woeful.Watcher.{
  SystemWatcher, deliver_managers, defer_read, watch_event, watch_events, watch_round,
}
use woeful.Watcher.Reading.{ReadsSegments, read_loop-Reads}
use woeful.Watcher.Relay.{recipients, relayed, recipients-length, deliver_managers-relays}
use woeful.Manager.Counting.{opened}
use woeful.Watcher.Held.{IsHeld}

-- While the managers are well formed, what was read from a descriptor is sent unchanged in one
-- DATA message to at most one stream, and to none if the descriptor is not open; no other call
-- is made.
pub deliver_managers-once :
    (os : Os) (fd : ℕ) (bytes : Bytes) (managers : Map WebSocketManager) (t : Trace)
    → IsHeld managers t
    → (to : List (ℕ × ℕ)) × (length to ≤ opened fd t)
      × ((deliver_managers os fd bytes managers none t).2 ≡ relayed bytes to t)
deliver_managers-once os fd bytes managers t v = (
  recipients fd managers,
  ground (arith, v.bound fd, recipients-length fd managers),
  deliver_managers-relays os fd bytes managers none t,
)

module _ (os : Os) (segments : ReadsSegments os) where
  watch_event-returns :
      (fd : ℕ) (w : SystemWatcher) (t : Trace)
      → (r : SystemWatcher × Trace) × (watch_event os (max_ws_frame + 2) fd w t ≡ some r)
  unfolding watch_event
  watch_event-returns fd w t =
      let (out, e, _) =
        read_loop-Reads os segments (max_ws_frame + 2) fd [] t (omega arith) (omega arith) in
      elim (Bool-cases (fd == w.epoll.read_pipe)) [
        | inl h ↦ ((w, pipe_read fd ∷ t), rw h refl)
        | inr h ↦ (defer_read fd out w, rw (h, e) refl)
      ]

  watch_events-returns :
      (fds : List ℕ) (w : SystemWatcher) (t : Trace)
      → (r : SystemWatcher × Trace) × (watch_events os (max_ws_frame + 2) fds w t ≡ some r)
  unfolding watch_events
  watch_events-returns [] w t = (_, refl)
  watch_events-returns (fd ∷ fds) w t =
      let (first, e) = watch_event-returns fd w t in
      let (last, h) = watch_events-returns fds first.0 first.1 in (last, rw (e, watch_events) h)

  -- Every round of the watcher ends: its fuel is enough for whatever descriptors epoll
  -- reports, if `read` never returns more than SEGMENT_SIZE bytes.
  pub watch_round-returns :
      (fds : List ℕ) (w : SystemWatcher) (t : Trace)
      → (r : SystemWatcher × Trace) × (watch_round os fds w t ≡ some r)
  unfolding watch_round
  watch_round-returns fds w t = elim (Bool-cases w.deconstructing) [
    | inl h ↦ ((w, t), if_true _ _ h)
    | inr h ↦ let (r, e) = watch_events-returns fds w t in (r, if_false _ _ h ∙ e)
  ]
