-- ===== src/Downlink/Faithful.antt =====
-- The relay of a stream, and what the steps of the program that are mute, the rounds of the watcher
-- and the deferred callbacks do to it.
use woeful.Base.{
  ℕ, ◌≡◌, refl, sym, ap, subst, ◌∙◌, ◌==◌, ==_self, ==_iff, true, false, Bool-cases, inl, inr, some,
  List, [], ◌∷◌, ◌++◌, append-nil, append_assoc, arith, if◌then◌else◌, Bytes,
}
use woeful.Base.Map.{Map, find}
use woeful.System.Calls.{Os}
use woeful.Manager.{SocketStreamData, WebSocketManager}
use woeful.Watcher.{Deferred, SystemWatcher}
use woeful.Watcher.Reading.{bytes_read}
use woeful.Watcher.Held.{find-IsOwned}
use woeful.Server.{Server, on_deferred}
use woeful.Server.Sound.{IsSound}
use woeful.Server.Background.{on_deferred-none, on_deferred-first, delivered, run_deferred-counted}
use woeful.Downlink.{sent, pending, Silent, Mute}
use woeful.Downlink.Apart.{IsAddressed}
use woeful.Downlink.Hear.{Hears}
use woeful.Downlink.Carry.{run_deferred-reads, run_deferred-sends}

-- The stream `k` of the manager `id` is there, and has the web socket and the descriptor.
pub record Has (id k ws fd : ℕ) (managers : Map WebSocketManager) : Type 0 where
  pub manager : WebSocketManager
  pub stream : SocketStreamData
  pub found : find id managers ≡ some manager
  pub socket : manager.ws ≡ ws
  pub here : find k manager.streams ≡ some stream
  pub descriptor : stream.fd ≡ fd

abbrev pub Lives : ℕ → ℕ → ℕ → ℕ → Server → Type 0
Lives id k ws fd s = Has id k ws fd s.watcher.watched_sockets

-- From `s` to `s'`: what was read from the descriptor is what was sent for the stream and what
-- waits, in order, together with what waited before.
pub record Relays (k ws fd : ℕ) (s s' : Server) : Type 0 where
  pub heard : Bytes
  pub reads : bytes_read fd s'.trace ≡ bytes_read fd s.trace ++ heard
  pub sends :
      sent ws k s'.trace ++ pending fd s'.watcher.deferred
      ≡ (sent ws k s.trace ++ pending fd s.watcher.deferred) ++ heard

pub Relays-trans :
    {k ws fd : ℕ} {s s1 s2 : Server}
    → Relays k ws fd s s1
    → Relays k ws fd s1 s2
    → Relays k ws fd s s2
Relays-trans a b = record {
  heard = a.heard ++ b.heard;
  reads = b.reads ∙ ap (λ x. x ++ b.heard) a.reads ∙ append_assoc _ a.heard b.heard;
  sends = b.sends ∙ ap (λ x. x ++ b.heard) a.sends ∙ append_assoc _ a.heard b.heard;
}

-- A step that sends and reads nothing and leaves the deferred callbacks alone.
pub Silent-Relays :
    (k ws fd : ℕ) (s s' : Server)
    → Silent s.trace s'.trace
    → s'.watcher.deferred ≡ s.watcher.deferred
    → Relays k ws fd s s'
Silent-Relays k ws fd s s' q d = record {
  heard = [];
  reads = q.reads fd ∙ sym (append-nil _);
  sends =
      ap (λ x. sent ws k s'.trace ++ pending fd x) d
      ∙ ap (λ x. x ++ pending fd s.watcher.deferred) (q.sends ws k)
      ∙ sym (append-nil _);
}

pub Mute-Relays :
    (k ws fd : ℕ) (s s' : Server)
    → Mute s.trace s'.trace
    → s'.watcher.deferred ≡ s.watcher.deferred
    → Relays k ws fd s s'
Mute-Relays k ws fd s s' q =
    Silent-Relays k ws fd s s' (record { sends = q.sends; reads = q.reads })

pub Hears-Relays :
    (k ws fd : ℕ) (s s' : Server)
    → Hears fd s.watcher s.trace s'.watcher s'.trace
    → Relays k ws fd s s'
Hears-Relays k ws fd s s' h = record {
  heard = h.heard;
  reads = h.reads;
  sends =
      ap (λ x. x ++ pending fd s'.watcher.deferred) (h.sends ws k)
      ∙ ap (λ x. sent ws k s.trace ++ x) h.defers
      ∙ sym (append_assoc (sent ws k s.trace) (pending fd s.watcher.deferred) h.heard);
}

-- A callback for the descriptor leaves the queue and its data is sent; another one leaves only the
-- queue.
passed_on :
    (fd : ℕ) (d : Deferred) (ds : List Deferred) (before after : Bytes)
    → after ≡ before ++ (if fd == d.fd then d.combined_buffer else [])
    → after ++ pending fd ds ≡ before ++ pending fd (d ∷ ds)
unfolding pending
passed_on fd d ds before after h = elim (Bool-cases (d.fd == fd)) [
  | inl e ↦
      let same : d.fd ≡ fd = (==_iff d.fd fd).0 e in
      let own : fd == d.fd ≡ true = rw (sym same) (==_self d.fd) in
      let sent_now : after ≡ before ++ d.combined_buffer = rw own at h in
      rw e (
        ap (λ x. x ++ pending fd ds) sent_now
        ∙ append_assoc before d.combined_buffer (pending fd ds))
  | inr e ↦
      let own : fd == d.fd ≡ false = ground (arith, e) in
      let same : after ≡ before ++ [] = rw own at h in
      rw e (ap (λ x. x ++ pending fd ds) (same ∙ append-nil before))
]

-- The oldest deferred callback: what it takes from the queue is sent, and nothing is read.
pub record Passes (k ws fd : ℕ) (s s' : Server) : Type 0 where
  pub sends :
      sent ws k s'.trace ++ pending fd s'.watcher.deferred
      ≡ sent ws k s.trace ++ pending fd s.watcher.deferred
  pub reads : bytes_read fd s'.trace ≡ bytes_read fd s.trace

pub on_deferred-Passes :
    (os : Os) (id k ws fd : ℕ) (s : Server) (queue : List Deferred)
    → s.watcher.deferred ≡ queue
    → IsSound s
    → IsAddressed s.watcher.watched_sockets
    → Lives id k ws fd s
    → Passes k ws fd s (on_deferred os s)
on_deferred-Passes os id k ws fd s [] e sound v l =
    rw (on_deferred-none os s e) (record { sends = refl; reads = refl })
on_deferred-Passes os id k ws fd s (d ∷ ds) e sound v l =
    let w : SystemWatcher = record (s.watcher) { deferred = ds } in
    let owned = (find-IsOwned id l.manager w.watched_sockets s.trace sound.streams l.found).0 in
    let carried =
      run_deferred-sends os d w s.trace id k l.manager l.stream v owned.distinct l.found l.here in
    let rest = (run_deferred-counted os d w s.trace).1 in
    let now = (delivered os s d ds).1 in
    rw (on_deferred-first os s d ds e) (record {
      reads = run_deferred-reads os d w s.trace fd;
      sends =
          ap (λ x. sent ws k now ++ pending fd x) rest
          ∙ passed_on fd d ds (sent ws k s.trace) (sent ws k now) (
              subst
                (λ x.
                  sent x k now ≡ sent x k s.trace ++ (if fd == d.fd then d.combined_buffer else []))
                l.socket
                (subst
                  (λ x.
                    sent l.manager.ws k now
                    ≡ sent l.manager.ws k s.trace ++ (if x == d.fd then d.combined_buffer else []))
                  l.descriptor carried))
          ∙ ap (λ x. sent ws k s.trace ++ pending fd x) (sym e);
    })

pub delivered-Relays :
    (os : Os) (id k ws fd : ℕ) (s : Server)
    → IsSound s
    → IsAddressed s.watcher.watched_sockets
    → Lives id k ws fd s
    → Relays k ws fd s (on_deferred os s)
delivered-Relays os id k ws fd s sound v l =
    let p = on_deferred-Passes os id k ws fd s s.watcher.deferred refl sound v l in
    record {
      heard = [];
      reads = p.reads ∙ sym (append-nil _);
      sends = p.sends ∙ sym (append-nil _);
    }
