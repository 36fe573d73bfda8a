-- ===== src/Downlink/Copies.antt =====
-- What one deferred callback adds to what a stream was sent.
use woeful.Base.{
  ℕ, ◌≡◌, ◌≢◌, refl, sym, ap, ◌∙◌, subst, ◌==◌, ==_iff, ==_self, ==_ne, Bool-cases, inl, inr, false,
  none, some, List, [], ◌∷◌, ◌++◌, append-nil, append_assoc, arith, if◌then◌else◌, All, IsU32,
  Bytes, bytes_eq, bytes_eq_self, bytes_eq→eq, drop, u32_bytes,
}
use mathlib.Core.Option.{some-injective}
use woeful.Base.Map.{Map, find, IsDistinct}
use woeful.Packets.{packet_data}
use woeful.System.Calls.{Trace, ws_sent}
use woeful.Manager.{SocketStreamData, WebSocketManager}
use woeful.Watcher.Relay.{recipients_of, recipients, relayed}
use woeful.Downlink.{payload, sent}
use woeful.Downlink.Apart.{IsApart, All-find}

u32_bytes-injective : (j k : ℕ) → IsU32 j → IsU32 k → u32_bytes j ≡ u32_bytes k → j ≡ k
u32_bytes-injective j k hj hk e = ground arith

-- A DATA message carries its bytes for the stream with its id, and nothing for another.
payload-message :
    (j k : ℕ) (bytes : Bytes)
    → IsU32 j
    → IsU32 k
    → payload k (packet_data ∷ u32_bytes j ++ bytes) ≡ (if j == k then bytes else [])
unfolding payload
payload-message j k bytes hj hk = elim (Bool-cases (j == k)) [
  | inl e ↦ rw (e, (==_iff j k).0 e, bytes_eq_self (packet_data ∷ u32_bytes k)) refl
  | inr e ↦ elim (Bool-cases (bytes_eq (packet_data ∷ u32_bytes j) (packet_data ∷ u32_bytes k))) [
    | inl same ↦
        let eq : j ≡ k = u32_bytes-injective j k hj hk (ap (drop 1) (bytes_eq→eq _ _ same)) in
        ground arith
    | inr other ↦ rw (e, other) refl
  ]
]

-- What the messages carry for one stream.
pub copies : ℕ → ℕ → Bytes → List (ℕ × ℕ) → Bytes
copies ws k bytes [] = []
copies ws k bytes ((to, j) ∷ rest) =
    (if to == ws then (if j == k then bytes else []) else []) ++ copies ws k bytes rest

pub sent-relayed :
    (ws k : ℕ) (bytes : Bytes) (to : List (ℕ × ℕ)) (t : Trace)
    → IsU32 k
    → All (λ p. IsU32 p.1) to
    → sent ws k (relayed bytes to t) ≡ sent ws k t ++ copies ws k bytes to
unfolding sent relayed copies
sent-relayed ws k bytes [] t hk a = sym (append-nil _)
sent-relayed ws k bytes ((to, j) ∷ rest) t hk a =
    sent-relayed ws k bytes rest (ws_sent to (packet_data ∷ u32_bytes j ++ bytes) ∷ t) hk a.1
    ∙ elim (Bool-cases (to == ws)) [
      | inl e ↦ rw e (
          ap (λ x. (sent ws k t ++ x) ++ copies ws k bytes rest) (payload-message j k bytes a.0 hk)
          ∙ append_assoc (sent ws k t) _ (copies ws k bytes rest))
      | inr e ↦ rw e refl
    ]

copies-append :
    (ws k : ℕ) (bytes : Bytes) (xs ys : List (ℕ × ℕ))
    → copies ws k bytes (xs ++ ys) ≡ copies ws k bytes xs ++ copies ws k bytes ys
unfolding copies
copies-append ws k bytes [] ys = refl
copies-append ws k bytes ((to, j) ∷ xs) ys =
    ap (λ x. (if to == ws then (if j == k then bytes else []) else []) ++ x)
      (copies-append ws k bytes xs ys)
    ∙ sym (append_assoc _ (copies ws k bytes xs) (copies ws k bytes ys))

-- The streams of another manager.
copies-other :
    (ws k to fd : ℕ) (bytes : Bytes) (streams : Map SocketStreamData)
    → (to == ws) ≡ false
    → copies ws k bytes (recipients_of fd to streams) ≡ []
unfolding copies recipients_of
copies-other ws k to fd bytes [] o = refl
copies-other ws k to fd bytes ((j, stream) ∷ streams) o =
    ground (arith, copies-other ws k to fd bytes streams)

copies-none :
    (ws k fd : ℕ) (bytes : Bytes) (streams : Map SocketStreamData)
    → find k streams ≡ none
    → copies ws k bytes (recipients_of fd ws streams) ≡ []
unfolding copies recipients_of find
copies-none ws k fd bytes [] o = refl
copies-none ws k fd bytes ((j, stream) ∷ streams) o =
    ground (arith, copies-none ws k fd bytes streams)

copies-one :
    (ws k fd : ℕ) (bytes : Bytes) (streams : Map SocketStreamData) (stream : SocketStreamData)
    → IsDistinct streams
    → find k streams ≡ some stream
    → copies ws k bytes (recipients_of fd ws streams) ≡ (if stream.fd == fd then bytes else [])
unfolding copies recipients_of find
copies-one ws k fd bytes [] stream d h = cc
copies-one ws k fd bytes ((j, other) ∷ streams) stream d h = elim (Bool-cases (j == k)) [
  | inl e ↦
      let gone : find k streams ≡ none = rw ((==_iff j k).0 e) at d.0 in
      let here : some other ≡ some stream = rw e at h in
      ground (arith, copies-none ws k fd bytes streams gone, append-nil bytes, ==_self ws)
  | inr e ↦ ground (arith, copies-one ws k fd bytes streams stream)
]

-- Managers with other web sockets.
copies-away :
    (ws k fd : ℕ) (bytes : Bytes) (managers : Map WebSocketManager)
    → All (λ f. f.1.ws ≢ ws) managers
    → copies ws k bytes (recipients fd managers) ≡ []
unfolding recipients copies
copies-away ws k fd bytes [] a = refl
copies-away ws k fd bytes ((j, n) ∷ managers) a =
    copies-append ws k bytes (recipients_of fd n.ws n.streams) (recipients fd managers)
    ∙ rw (copies-other ws k n.ws fd bytes n.streams (==_ne n.ws ws a.0))
        (copies-away ws k fd bytes managers a.1)

-- All managers together: the data goes to the stream exactly if it has the descriptor.
pub copies-recipients :
    (id ws k fd : ℕ) (bytes : Bytes) (managers : Map WebSocketManager) (m : WebSocketManager)
    (stream : SocketStreamData)
    → IsApart managers
    → IsDistinct m.streams
    → find id managers ≡ some m
    → m.ws ≡ ws
    → find k m.streams ≡ some stream
    → copies ws k bytes (recipients fd managers) ≡ (if stream.fd == fd then bytes else [])
unfolding recipients copies find
copies-recipients id ws k fd bytes [] m stream a d h w s = cc
copies-recipients id ws k fd bytes ((j, n) ∷ managers) m stream a d h w s =
    copies-append ws k bytes (recipients_of fd n.ws n.streams) (recipients fd managers)
    ∙ elim (Bool-cases (j == id)) [
      | inl e ↦
          let here : some n ≡ some m = rw e at h in
          let mine : n.ws ≡ ws = cc (here, w) in
          let found : find k n.streams ≡ some stream = cc (here, s) in
          let distinct : IsDistinct n.streams =
            subst (λ x. IsDistinct x.streams) (sym (some-injective _ _ here)) d in
          let rest =
            copies-away ws k fd bytes managers
              (subst (λ x. All (λ f. f.1.ws ≢ x) managers) mine a.0) in
          let head = copies-one ws k fd bytes n.streams stream distinct found in
          ap (λ x. copies ws k bytes (recipients_of fd n.ws n.streams) ++ x) rest
          ∙ append-nil _
          ∙ ap (λ x. copies ws k bytes (recipients_of fd x n.streams)) mine
          ∙ head
      | inr e ↦
          let rest : find id managers ≡ some m = rw e at h in
          let away : n.ws ≢ ws =
            λ p. All-find (λ f. f.1.ws ≢ n.ws) id m managers a.0 rest (w ∙ sym p) in
          rw (copies-other ws k n.ws fd bytes n.streams (==_ne n.ws ws away))
            (copies-recipients id ws k fd bytes managers m stream a.1 d rest w s)
    ]
