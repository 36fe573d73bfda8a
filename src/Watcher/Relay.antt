-- ===== src/Watcher/Relay.antt =====
-- The messages of the deferred callback.
use woeful.Base.{
  ℕ, length, length-append, arith, ◌≡◌, refl, sym, ap, ◌∙◌, Bool-cases, none, List, [], ◌∷◌, ◌++◌,
  ◌==◌, inl, inr, if◌then◌else◌, Bytes, u32_bytes,
}
use woeful.Base.Map.{Map}
use woeful.Packets.{packet_data}
use woeful.System.Calls.{Os, Trace, ws_sent}
use woeful.Manager.{SocketStreamData, WebSocketManager}
use woeful.Manager.Counting.{owners}
use woeful.Watcher.Owners.{held}
use woeful.Manager.Replies.{data_message_bytes}
use woeful.Watcher.{Delivery, Found, found_in, deliver_one, deliver_streams, deliver_managers}

-- The web socket and the stream id of each stream that has the descriptor.
unfoldable pub recipients_of : ℕ → ℕ → Map SocketStreamData → List (ℕ × ℕ)
recipients_of fd ws [] = []
recipients_of fd ws ((k, stream) ∷ streams) =
    if stream.fd == fd then (ws, k) ∷ recipients_of fd ws streams else recipients_of fd ws streams

unfoldable pub recipients : ℕ → Map WebSocketManager → List (ℕ × ℕ)
recipients fd [] = []
recipients fd ((id, m) ∷ managers) = recipients_of fd m.ws m.streams ++ recipients fd managers

-- A DATA message with the bytes for each.
unfoldable pub relayed : Bytes → List (ℕ × ℕ) → Trace → Trace
relayed bytes [] t = t
relayed bytes ((ws, k) ∷ rest) t =
    relayed bytes rest (ws_sent ws (packet_data ∷ u32_bytes k ++ bytes) ∷ t)

relayed-append :
    (bytes : Bytes) (xs ys : List (ℕ × ℕ)) (t : Trace)
    → relayed bytes (xs ++ ys) t ≡ relayed bytes ys (relayed bytes xs t)
unfolding relayed
relayed-append bytes [] ys t = refl
relayed-append bytes ((ws, k) ∷ xs) ys t = relayed-append bytes xs ys _

pub deliver_one-trace :
    (os : Os) (ws k : ℕ) (bytes : Bytes) (d : Delivery)
    → (deliver_one os ws k bytes d).trace
      ≡ ws_sent ws (packet_data ∷ u32_bytes k ++ bytes) ∷ d.trace
unfolding deliver_one
deliver_one-trace os ws k bytes d = ap (λ m. ws_sent ws m ∷ d.trace) (data_message_bytes k bytes)

deliver_streams-relayed :
    (os : Os) (ws fd : ℕ) (bytes : Bytes) (streams : Map SocketStreamData) (d : Delivery)
    → (deliver_streams os ws fd bytes streams d).trace
      ≡ relayed bytes (recipients_of fd ws streams) d.trace
unfolding deliver_streams recipients_of relayed
deliver_streams-relayed os ws fd bytes [] d = refl
deliver_streams-relayed os ws fd bytes ((k, stream) ∷ streams) d =
    elim (Bool-cases (stream.fd == fd)) [
      | inl e ↦
          rw (deliver_streams, e)
            (deliver_streams-relayed os ws fd bytes streams (deliver_one os ws k bytes d)
              ∙ ap (relayed bytes (recipients_of fd ws streams))
                  (deliver_one-trace os ws k bytes d))
      | inr e ↦ rw (deliver_streams, e) (deliver_streams-relayed os ws fd bytes streams d)
    ]

-- For each stream with the descriptor, in the order of the maps, the deferred callback sends one
-- DATA message on the web socket of its manager, with the id of the stream and the bytes that
-- were read unchanged, and makes no other call.
pub deliver_managers-relays :
    (os : Os) (fd : ℕ) (bytes : Bytes) (managers : Map WebSocketManager) (found : Found) (t : Trace)
    → (deliver_managers os fd bytes managers found t).2 ≡ relayed bytes (recipients fd managers) t
unfolding deliver_managers recipients relayed
deliver_managers-relays os fd bytes [] found t = refl
deliver_managers-relays os fd bytes ((id, m) ∷ managers) found t =
    let before : Delivery = record {
      has_backpressure = m.has_backpressure;
      found_id = none;
      trace = t;
    } in
    let d = deliver_streams os m.ws fd bytes m.streams before in
    deliver_managers-relays os fd bytes managers (found_in id d.found_id found) d.trace
    ∙ ap (relayed bytes (recipients fd managers))
        (deliver_streams-relayed os m.ws fd bytes m.streams before)
    ∙ sym (relayed-append bytes (recipients_of fd m.ws m.streams) (recipients fd managers) t)

recipients_of-length :
    (fd ws : ℕ) (streams : Map SocketStreamData)
    → length (recipients_of fd ws streams) ≡ owners fd streams
unfolding recipients_of owners
recipients_of-length fd ws [] = refl
recipients_of-length fd ws ((k, stream) ∷ streams) =
    ground (arith, recipients_of-length fd ws streams)

pub recipients-length :
    (fd : ℕ) (managers : Map WebSocketManager) → length (recipients fd managers) ≡ held fd managers
unfolding recipients held
recipients-length fd [] = refl
recipients-length fd ((id, m) ∷ managers) = omega (
  arith,
  length-append (recipients_of fd m.ws m.streams) (recipients fd managers),
  recipients_of-length fd m.ws m.streams,
  recipients-length fd managers,
)
