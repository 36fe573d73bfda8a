-- ===== src/Downlink/Keeps.antt =====
-- A stream is still there after a deferred callback that does not close its descriptor.
use woeful.Base.{
  ℕ, ◌≡◌, ◌≢◌, refl, sym, ap, ◌∙◌, subst, ◌⊎◌, inl, inr, ◌==◌, ==_iff, Bool, true, false,
  Bool-cases, Option, none, some, List, [], ◌∷◌, ◌+◌, ◌-◌, ◌%◌, ◌^◌, if◌then◌else◌, ltb, arith, All,
  Bytes,
}
use mathlib.Core.Option.{some-injective}
use woeful.Base.Map.{Map, find, find-insert, find-erase}
use woeful.Packets.{max_queue}
use woeful.System.Calls.{Os, Trace}
use woeful.Manager.{SocketStreamData, WebSocketManager, Parent, update_streams, close_stream}
use woeful.Manager.Flow.{topped_up, refill_streams-find}
use woeful.Manager.Identity.{update_streams-Same}
use woeful.Watcher.{
  Deferred, SystemWatcher, parent_of, Found, deliver_managers, close_found, update_managers,
  run_deferred,
}
use woeful.Watcher.Owners.{IsFound, deliver_managers-IsFound}
use woeful.Watcher.Held.{IsHeld}
use woeful.Watcher.Finds.{deliver_managers-find, update_managers-find}
use woeful.Downlink.Faithful.{Has}

update_streams-find :
    (parent : Parent) (k : ℕ) (stream : SocketStreamData) (m : WebSocketManager) (t : Trace)
    → find k m.streams ≡ some stream
    → (kept : SocketStreamData) × (find k (update_streams parent m t).0.streams ≡ some kept)
      × (kept.fd ≡ stream.fd)
unfolding update_streams topped_up
update_streams-find parent k stream m t h =
    elim (Bool-cases (woeful.Base.◌||◌ m.has_backpressure (ltb max_queue parent.send_queue_len))) [
      | inl e ↦ rw e (stream, h, refl)
      | inr e ↦
          rw e (topped_up stream, refill_streams-find m.ws k m.streams t ∙ rw h refl, ground arith)
    ]

module _ (id k ws fd : ℕ) where
  deliver_managers-Has :
      (os : Os) (other : ℕ) (bytes : Bytes) (managers : Map WebSocketManager) (found : Found)
      (t : Trace)
      → Has id k ws fd managers
      → Has id k ws fd (deliver_managers os other bytes managers found t).0
  deliver_managers-Has os other bytes managers found t l =
      let (b, e) = deliver_managers-find os other id bytes l.manager managers found t l.found in
      record {
        manager = _;
        stream = l.stream;
        found = e;
        socket = l.socket;
        here = l.here;
        descriptor = l.descriptor;
      }

  update_managers-Has :
      (parent : Parent) (managers : Map WebSocketManager) (t : Trace)
      → Has id k ws fd managers
      → Has id k ws fd (update_managers parent managers t).0
  update_managers-Has parent managers t l =
      let (t', e) = update_managers-find parent id l.manager managers t l.found in
      let (kept, h, same) = update_streams-find parent k l.stream l.manager t' l.here in
      record {
        manager = _;
        stream = kept;
        found = e;
        socket = (update_streams-Same parent l.manager t').1 ∙ l.socket;
        here = h;
        descriptor = same ∙ l.descriptor;
      }

  -- The stream that is closed has another descriptor.
  close_other-Has :
      (parent : Parent) (other : ℕ) (f : ℕ × ℕ) (managers : Map WebSocketManager) (t : Trace)
      → IsFound other managers f
      → other ≢ fd
      → Has id k ws fd managers
      → Has id k ws fd (close_found parent true (some f) managers t).0
  unfolding close_found close_stream
  close_other-Has parent other (i, j) managers t (m, stream, h, g, o) apart l =
      rw (close_found, h)
        (elim (Bool-cases (i == id)) [
          | inl e ↦
              let own : m ≡ l.manager =
                some-injective _ _
                  (sym h ∙ ap (λ x. find x managers) ((==_iff i id).0 e) ∙ l.found) in
              let there : find j l.manager.streams ≡ some stream =
                subst (λ x. find j x.streams ≡ some stream) own g in
              let differs : j == k ≡ false = elim (Bool-cases (j == k)) [
                | inl p ↦
                    let same : stream ≡ l.stream = some-injective _ _ (
                      sym there ∙ ap (λ x. find x l.manager.streams) ((==_iff j k).0 p) ∙ l.here) in
                    elim (apart (sym o ∙ ap (λ x. x.fd) same ∙ l.descriptor)) [ ]
                | inr p ↦ p
              ] in
              record {
                manager = (close_stream parent j false m t).0;
                stream = l.stream;
                found = find-insert i id _ managers ∙ rw e refl;
                socket = ap (λ x. x.ws) own ∙ l.socket;
                here =
                    find-erase j k m.streams ∙ rw differs (ap (λ x. find k x.streams) own ∙ l.here);
                descriptor = l.descriptor;
              }
          | inr e ↦ record {
            manager = l.manager;
            stream = l.stream;
            found = find-insert i id _ managers ∙ rw e l.found;
            socket = l.socket;
            here = l.here;
            descriptor = l.descriptor;
          }
        ])

  close_found-Has :
      (parent : Parent) (other : ℕ) (to_close : Bool) (found : Found)
      (managers : Map WebSocketManager) (t : Trace)
      → (found ≡ none) ⊎ ((f : ℕ × ℕ) × (found ≡ some f) × IsFound other managers f)
      → (to_close ≡ false) ⊎ (other ≢ fd)
      → Has id k ws fd managers
      → Has id k ws fd (close_found parent to_close found managers t).0
  unfolding close_found
  close_found-Has parent other false found managers t f c l = l
  close_found-Has parent other true found managers t (inl e) c l = rw e l
  close_found-Has parent other true found managers t (inr (f, e, h)) (inl c) l = cc
  close_found-Has parent other true found managers t (inr (f, e, h)) (inr c) l =
      rw e (close_other-Has parent other f managers t h c l)

  pub run_deferred-Has :
      (os : Os) (d : Deferred) (w : SystemWatcher) (t : Trace)
      → IsHeld w.watched_sockets t
      → (d.to_close ≡ false) ⊎ (d.fd ≢ fd)
      → Has id k ws fd w.watched_sockets
      → Has id k ws fd (run_deferred os d w t).0.watched_sockets
  unfolding run_deferred
  run_deferred-Has os d w t v c l =
      let r = deliver_managers os d.fd d.combined_buffer w.watched_sockets none t in
      let delivered = deliver_managers-Has os d.fd d.combined_buffer w.watched_sockets none t l in
      let found =
        deliver_managers-IsFound os d.fd d.combined_buffer w.watched_sockets none t v.entries
          v.distinct in
      let closed = close_found-Has (parent_of w) d.fd d.to_close r.1 r.0 r.2 found c delivered in
      let len = (w.send_queue_len + 2 ^ 64 - 1) % 2 ^ 64 in
      elim (Bool-cases (ltb len max_queue)) [
        | inl e ↦ rw e (update_managers-Has _ _ _ closed)
        | inr e ↦ rw e closed
      ]
