-- ===== src/Downlink/Carry.antt =====
-- What the deferred callback sends.
use woeful.Base.{
  ℕ, ◌+◌, ◌-◌, ◌%◌, ◌^◌, Bool, ◌≡◌, refl, ap, ◌∙◌, ltb, ◌==◌, true, false, Bool-cases, Option-cases,
  inl, inr, none, some, List, [], ◌∷◌, ◌++◌, if◌then◌else◌, All, IsU32, Bytes,
}
use woeful.Base.Map.{Map, find, IsDistinct}
use woeful.Packets.{max_queue}
use woeful.System.Calls.{Os, Trace, attempts}
use woeful.Manager.{SocketStreamData, WebSocketManager, Parent}
use woeful.Watcher.{
  Deferred, SystemWatcher, parent_of, Found, deliver_managers, close_found, update_managers,
  run_deferred,
}
use woeful.Watcher.Reading.{bytes_read}
use woeful.Watcher.Relay.{recipients_of, recipients, relayed, deliver_managers-relays}
use woeful.Downlink.{sent, Mute}
use woeful.Downlink.Silence.{Mute-refl, Mute-trans, update_streams-Mute, close_stream-Mute}
use woeful.Downlink.Apart.{HasIds, IsAddressed, All-find}
use woeful.Downlink.Copies.{sent-relayed, copies-recipients}

relayed-reads :
    (fd : ℕ) (bytes : Bytes) (to : List (ℕ × ℕ)) (t : Trace)
    → bytes_read fd (relayed bytes to t) ≡ bytes_read fd t
unfolding relayed bytes_read
relayed-reads fd bytes [] t = refl
relayed-reads fd bytes ((ws, k) ∷ rest) t = relayed-reads fd bytes rest _

close_found-Mute :
    (parent : Parent) (to_close : Bool) (found : Found) (managers : Map WebSocketManager)
    (t : Trace)
    → Mute t (close_found parent to_close found managers t).1
unfolding close_found
close_found-Mute parent false found managers t = Mute-refl t
close_found-Mute parent true none managers t = Mute-refl t
close_found-Mute parent true (some (id, k)) managers t = elim (Option-cases (find id managers)) [
  | inl e ↦ rw (close_found, e) (Mute-refl t)
  | inr (m, e) ↦ rw (close_found, e) (close_stream-Mute parent k false m t)
]

update_managers-Mute :
    (parent : Parent) (managers : Map WebSocketManager) (t : Trace)
    → Mute t (update_managers parent managers t).1
unfolding update_managers
update_managers-Mute parent [] t = Mute-refl t
update_managers-Mute parent ((id, m) ∷ managers) t =
    Mute-trans (update_streams-Mute parent m t) (update_managers-Mute parent managers _)

-- Behind the loop over the managers the callback is mute.
run_deferred-rest :
    (os : Os) (d : Deferred) (w : SystemWatcher) (t : Trace)
    → Mute
        (deliver_managers os d.fd d.combined_buffer w.watched_sockets none t).2
        (run_deferred os d w t).1
unfolding run_deferred
run_deferred-rest os d w t =
    let (delivered, found, t1) =
      deliver_managers os d.fd d.combined_buffer w.watched_sockets none t in
    let (closed, t2) = close_found (parent_of w) d.to_close found delivered t1 in
    let first = close_found-Mute (parent_of w) d.to_close found delivered t1 in
    let len = (w.send_queue_len + 2 ^ 64 - 1) % 2 ^ 64 in
    let w' : SystemWatcher = record w { watched_sockets = closed; send_queue_len = len } in
    elim (Bool-cases (ltb len max_queue)) [
      | inl e ↦ rw e (Mute-trans first (update_managers-Mute (parent_of w') closed t2))
      | inr e ↦ rw e first
    ]

pub run_deferred-reads :
    (os : Os) (d : Deferred) (w : SystemWatcher) (t : Trace) (fd : ℕ)
    → bytes_read fd (run_deferred os d w t).1 ≡ bytes_read fd t
run_deferred-reads os d w t fd =
    (run_deferred-rest os d w t).reads fd
    ∙ ap (bytes_read fd)
        (deliver_managers-relays os d.fd d.combined_buffer w.watched_sockets none t)
    ∙ relayed-reads fd d.combined_buffer (recipients d.fd w.watched_sockets) t

relayed-attempts :
    (bytes : Bytes) (to : List (ℕ × ℕ)) (t : Trace) → attempts (relayed bytes to t) ≡ attempts t
unfolding relayed attempts
relayed-attempts bytes [] t = refl
relayed-attempts bytes ((ws, k) ∷ rest) t = relayed-attempts bytes rest _

pub attempts-run_deferred :
    (os : Os) (d : Deferred) (w : SystemWatcher) (t : Trace)
    → attempts (run_deferred os d w t).1 ≡ attempts t
attempts-run_deferred os d w t =
    (run_deferred-rest os d w t).tries
    ∙ ap attempts (deliver_managers-relays os d.fd d.combined_buffer w.watched_sockets none t)
    ∙ relayed-attempts d.combined_buffer (recipients d.fd w.watched_sockets) t

recipients_of-ids :
    (fd ws : ℕ) (streams : Map SocketStreamData)
    → All (λ p. IsU32 p.0) streams
    → (rest : List (ℕ × ℕ)) → All (λ p. IsU32 p.1) rest
    → All (λ p. IsU32 p.1) (recipients_of fd ws streams ++ rest)
unfolding recipients_of
recipients_of-ids fd ws [] a rest b = b
recipients_of-ids fd ws ((k, stream) ∷ streams) a rest b = elim (Bool-cases (stream.fd == fd)) [
  | inl e ↦ rw (recipients_of, e) (a.0, recipients_of-ids fd ws streams a.1 rest b)
  | inr e ↦ rw (recipients_of, e) (recipients_of-ids fd ws streams a.1 rest b)
]

recipients-ids :
    (fd : ℕ) (managers : Map WebSocketManager)
    → All HasIds managers
    → All (λ p. IsU32 p.1) (recipients fd managers)
unfolding recipients
recipients-ids fd [] a = tt
recipients-ids fd ((id, m) ∷ managers) a =
    recipients_of-ids fd m.ws m.streams a.0 (recipients fd managers)
      (recipients-ids fd managers a.1)

-- The callback sends a stream the data exactly if it has the descriptor.
pub run_deferred-sends :
    (os : Os) (d : Deferred) (w : SystemWatcher) (t : Trace) (id k : ℕ) (m : WebSocketManager)
    (stream : SocketStreamData)
    → IsAddressed w.watched_sockets
    → IsDistinct m.streams
    → find id w.watched_sockets ≡ some m
    → find k m.streams ≡ some stream
    → sent m.ws k (run_deferred os d w t).1
      ≡ sent m.ws k t ++ (if stream.fd == d.fd then d.combined_buffer else [])
run_deferred-sends os d w t id k m stream v distinct h s =
    let managers = w.watched_sockets in
    let ids = All-find HasIds id m managers v.ids h in
    (run_deferred-rest os d w t).sends m.ws k
    ∙ ap (sent m.ws k) (deliver_managers-relays os d.fd d.combined_buffer managers none t)
    ∙ sent-relayed m.ws k d.combined_buffer (recipients d.fd managers) t
        (All-find (λ p. IsU32 p.0) k stream m.streams ids s) (recipients-ids d.fd managers v.ids)
    ∙ ap (λ x. sent m.ws k t ++ x)
        (copies-recipients id m.ws k d.fd d.combined_buffer managers m stream v.apart distinct h
          refl s)
