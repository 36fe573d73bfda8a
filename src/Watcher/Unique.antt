-- ===== src/Watcher/Unique.antt =====
-- The deferred callback for a descriptor that one stream has.
use woeful.Base.{
  ℕ, ◌≤◌, ◌≡◌, refl, ap, ◌∙◌, inl, inr, ◌==◌, ==_iff, ==_self, Bool-cases, true, none, some, [],
  ◌∷◌, ◌++◌, arith, Bytes, u32_bytes,
}
use mathlib.Core.Option.{some-injective}
use woeful.Base.Map.{Map, find}
use woeful.Packets.{packet_data}
use woeful.System.Calls.{Os, Trace, ws_sent}
use woeful.Manager.{SocketStreamData, WebSocketManager}
use woeful.Manager.Counting.{owners}
use woeful.Watcher.{Delivery, Found, deliver_one, deliver_streams, deliver_managers}
use woeful.Watcher.Relay.{deliver_one-trace}
use woeful.Watcher.Owners.{held, held-find}

-- One stream that has the descriptor is counted.
pub owners-find :
    (fd k : ℕ) (stream : SocketStreamData) (streams : Map SocketStreamData)
    → find k streams ≡ some stream
    → stream.fd ≡ fd
    → 1 ≤ owners fd streams
unfolding owners find
owners-find fd k stream [] h e = cc
owners-find fd k stream ((j, other) ∷ streams) h e = ground (arith, owners-find fd k stream streams)

deliver_streams-none :
    (os : Os) (ws fd : ℕ) (bytes : Bytes) (streams : Map SocketStreamData) (d : Delivery)
    → owners fd streams ≡ 0
    → deliver_streams os ws fd bytes streams d ≡ d
unfolding deliver_streams owners
deliver_streams-none os ws fd bytes [] d h = refl
deliver_streams-none os ws fd bytes ((k, stream) ∷ streams) d h =
    elim (Bool-cases (stream.fd == fd)) [
      | inl e ↦ ground arith
      | inr e ↦
          rw (deliver_streams, e) (deliver_streams-none os ws fd bytes streams d (ground arith))
    ]

deliver_streams-one :
    (os : Os) (ws fd k : ℕ) (bytes : Bytes) (stream : SocketStreamData)
    (streams : Map SocketStreamData) (d : Delivery)
    → owners fd streams ≡ 1
    → find k streams ≡ some stream
    → stream.fd ≡ fd
    → deliver_streams os ws fd bytes streams d ≡ deliver_one os ws k bytes d
unfolding deliver_streams owners find
deliver_streams-one os ws fd k bytes stream [] d h f e = cc
deliver_streams-one os ws fd k bytes stream ((j, other) ∷ streams) d h f e =
    elim (Bool-cases (other.fd == fd)) [
      | inl p ↦ elim (Bool-cases (j == k)) [
        | inl q ↦
            rw (deliver_streams, p, (==_iff j k).0 q)
              (deliver_streams-none os ws fd bytes streams (deliver_one os ws k bytes d)
                (ground arith))
        | inr q ↦
            let there : find k streams ≡ some stream = rw q at f in
            ground (arith, owners-find fd k stream streams there e)
      ]
      | inr p ↦ elim (Bool-cases (j == k)) [
        | inl q ↦
            let same : other ≡ stream = some-injective _ _ (rw q at f) in
            let hit : other.fd == fd ≡ true = rw (ap (λ x. x.fd) same ∙ e) (==_self fd) in cc
        | inr q ↦
            let there : find k streams ≡ some stream = rw q at f in
            rw (deliver_streams, p)
              (deliver_streams-one os ws fd k bytes stream streams d (ground arith) there e)
      ]
    ]

deliver_managers-none :
    (os : Os) (fd : ℕ) (bytes : Bytes) (managers : Map WebSocketManager) (found : Found) (t : Trace)
    → held fd managers ≡ 0
    → ((deliver_managers os fd bytes managers found t).1 ≡ found)
      × ((deliver_managers os fd bytes managers found t).2 ≡ t)
unfolding deliver_managers held
deliver_managers-none os fd bytes [] found t h = (refl, refl)
deliver_managers-none os fd bytes ((id, m) ∷ managers) found t h =
    let start : Delivery = record {
      has_backpressure = m.has_backpressure;
      found_id = none;
      trace = t;
    } in
    let rest = deliver_managers-none os fd bytes managers found t (omega (arith, h)) in
    rw (deliver_streams-none os m.ws fd bytes m.streams start (omega (arith, h))) rest

-- The one stream with the descriptor is found, and is sent the data.
pub deliver_managers-one :
    (os : Os) (fd id k : ℕ) (bytes : Bytes) (m : WebSocketManager) (stream : SocketStreamData)
    (managers : Map WebSocketManager) (found : Found) (t : Trace)
    → held fd managers ≤ 1
    → find id managers ≡ some m
    → find k m.streams ≡ some stream
    → stream.fd ≡ fd
    → ((deliver_managers os fd bytes managers found t).1 ≡ some (id, k))
      × ((deliver_managers os fd bytes managers found t).2
          ≡ ws_sent m.ws (packet_data ∷ u32_bytes k ++ bytes) ∷ t)
unfolding deliver_managers deliver_one held find
deliver_managers-one os fd id k bytes m stream [] found t h f g e = cc
deliver_managers-one os fd id k bytes m stream ((j, n) ∷ managers) found t h f g e =
    let start : Delivery = record {
      has_backpressure = n.has_backpressure;
      found_id = none;
      trace = t;
    } in
    elim (Bool-cases (j == id)) [
      | inl q ↦
          let same : n ≡ m = some-injective _ _ (rw q at f) in
          let there : find k n.streams ≡ some stream =
            ap (λ (x : WebSocketManager). find k x.streams) same ∙ g in
          let here = owners-find fd k stream n.streams there e in
          let one =
            deliver_streams-one os n.ws fd k bytes stream n.streams start (omega (arith, h, here))
              there e in
          let rest =
            deliver_managers-none os fd bytes managers (some (j, k))
              (deliver_one os n.ws k bytes start).trace (omega (arith, h, here)) in
          let message = packet_data ∷ u32_bytes k ++ bytes in
          rw one (
            rest.0 ∙ ap (λ x. some (x, k)) ((==_iff j id).0 q),
            rest.1
                ∙ deliver_one-trace os n.ws k bytes start
                ∙ ap (λ (x : WebSocketManager). ws_sent x.ws message ∷ t) same,
          )
      | inr q ↦
          let there : find id managers ≡ some m = rw q at f in
          let here = owners-find fd k stream m.streams g e in
          let others = held-find fd id m managers there in
          let rest =
            deliver_managers-one os fd id k bytes m stream managers found t (omega (arith, h)) there
              g e in
          rw
            (deliver_streams-none os n.ws fd bytes n.streams start (omega (arith, h, here, others)))
            rest
    ]
