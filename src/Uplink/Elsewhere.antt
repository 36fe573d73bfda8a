-- ===== src/Uplink/Elsewhere.antt =====
-- A descriptor has one stream.
use woeful.Base.{
  ℕ, ◌≤◌, ◌≡◌, ◌≢◌, sym, ap, subst, ◌∙◌, inl, inr, false, ◌&&◌, Bool-cases, some, [], ◌∷◌, ◌==◌,
  ==_iff, arith,
}
use mathlib.Core.Option.{some-injective}
use woeful.Base.Map.{Map, find}
use woeful.System.Calls.{Trace, is_open}
use woeful.Manager.{SocketStreamData, WebSocketManager}
use woeful.Manager.Counting.{owners, opened}
use woeful.Watcher.Owners.{held, held-find, others}
use woeful.Watcher.Unique.{owners-find}
use woeful.Server.{Server}
use woeful.Server.Sound.{IsSound}
use woeful.Downlink.Faithful.{Lives}

owners-two :
    (fd j k : ℕ) (a b : SocketStreamData) (streams : Map SocketStreamData)
    → find j streams ≡ some a
    → find k streams ≡ some b
    → j ≢ k
    → a.fd ≡ fd
    → b.fd ≡ fd
    → 2 ≤ owners fd streams
unfolding owners find
owners-two fd j k a b [] f g apart p q = cc
owners-two fd j k a b ((i, stream) ∷ streams) f g apart p q =
    ground
      (arith, owners-two fd j k a b streams, owners-find fd j a streams, owners-find fd k b streams)

others-find :
    (fd j id : ℕ) (m : WebSocketManager) (managers : Map WebSocketManager)
    → find j managers ≡ some m
    → j ≢ id
    → owners fd m.streams ≤ others id managers fd
unfolding others held find
others-find fd j id m [] f apart = cc
others-find fd j id m ((i, n) ∷ managers) f apart =
    ground (arith, others-find fd j id m managers, held-find fd j m managers)

opened-le : (fd : ℕ) (t : Trace) → opened fd t ≤ 1
opened-le fd t = elim (Bool-cases (is_open fd t)) [
  | inl e ↦ rw e (omega arith)
  | inr e ↦ rw e (omega arith)
]

-- Another stream has another descriptor.
pub elsewhere :
    (id k ws fd j i : ℕ) (m : WebSocketManager) (stream : SocketStreamData) (s : Server)
    → IsSound s
    → Lives id k ws fd s
    → find j s.watcher.watched_sockets ≡ some m
    → find i m.streams ≡ some stream
    → (j == id && i == k) ≡ false
    → stream.fd ≢ fd
elsewhere id k ws fd j i m stream s sound l f g other same =
    let managers = s.watcher.watched_sockets in
    let most : held fd managers ≤ 1 = omega (arith, opened-le fd s.trace, sound.streams.bound fd) in
    let parts = held-find fd id l.manager managers l.found in
    elim (Bool-cases (j == id)) [
      | inl e ↦
          let one : l.manager ≡ m =
            some-injective _ _
              (sym l.found ∙ sym (ap (λ x. find x managers) ((==_iff j id).0 e)) ∙ f) in
          let two =
            owners-two fd i k stream l.stream m.streams g
              (subst (λ (x : WebSocketManager). find k x.streams ≡ some l.stream) one l.here)
              (λ p. cc (rw (e, (==_iff i k).1 p) at other)) same l.descriptor in
          omega (
            arith,
            most,
            parts,
            subst (λ (x : WebSocketManager). 2 ≤ owners fd x.streams) (sym one) two,
          )
      | inr e ↦ omega (
        arith,
        most,
        parts,
        owners-find fd k l.stream l.manager.streams l.here l.descriptor,
        owners-find fd i stream m.streams g same,
        others-find fd j id m managers f (λ p. cc (e, (==_iff j id).1 p)),
      )
    ]
