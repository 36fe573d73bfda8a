-- ===== src/Uplink/Queue.antt =====
-- What a frame puts into the queue of the pool.
use woeful.Base.{
  ℕ, ◌≡◌, refl, sym, ap, subst, ◌∙◌, inl, inr, true, not, false, Bool-cases, Option-cases, Option,
  none, some, List, [], ◌∷◌, ◌++◌, ◌==◌, ==_iff, ◌&&◌, if◌then◌else◌, append-nil, arith, Bytes, ok,
  >>=-eq-ok, ok-injective,
}
use woeful.Base.Map.{find}
use woeful.Packets.{WispPacket, packet_data, packet_connect, packet_info, parse_wisp, parse_connect}
use woeful.Config.{WoefulConfig}
use woeful.System.Calls.{Os}
use woeful.System.{Connection, open_stream}
use woeful.Manager.{
  SocketStreamData, Task, Session, Parent, add_stream, handle_connect, handle_data, report_connect,
  dispatch, close_info, receive,
}
use woeful.Uplink.{waiting, brought}

pub waiting-append :
    (id k : ℕ) (a b : List Task) → waiting id k (a ++ b) ≡ waiting id k a ++ waiting id k b
unfolding waiting
waiting-append id k [] b = refl
waiting-append id k (task ∷ a) b = ground (arith, waiting-append id k a b)

add_stream-tasks :
    (parent : Parent) (k type : ℕ) (c : Option Connection) (s : Session)
    → (add_stream parent k type c s).1.tasks ≡ s.tasks
unfolding add_stream
add_stream-tasks parent k type none s = refl
add_stream-tasks parent k type (some c) s = refl

report_connect-tasks : (k : ℕ) (r : Option ℕ × Session) → (report_connect k r).tasks ≡ r.1.tasks
unfolding report_connect
report_connect-tasks k (some id, s) = refl
report_connect-tasks k (none, s) = refl

handle_connect-tasks :
    (os : Os) (conf : WoefulConfig) (parent : Parent) (packet : WispPacket) (s : Session)
    (r : Option ℕ × Session)
    → handle_connect os conf parent packet s ≡ ok r
    → r.1.tasks ≡ s.tasks
unfolding handle_connect
handle_connect-tasks os conf parent packet s r h =
    let (c, _, h1) = >>=-eq-ok (parse_connect packet.bytes) _ h in
    let (o, _, h2) =
      >>=-eq-ok
        (open_stream os conf s.trace c.destination_hostname c.stream_type c.destination_port) _
        h1 in
    subst (λ x. x.1.tasks ≡ s.tasks) (ok-injective h2)
      (add_stream-tasks parent packet.stream_id c.stream_type o.0 (record s { trace = o.1 }))

-- A DATA frame for a stream that is there becomes a task; for another there is none.
handle_data-waiting :
    (parent : Parent) (id k : ℕ) (packet : WispPacket) (s : Session)
    → packet.packet_type ≡ packet_data
    → (s.manager.socket_id ≡ id
        → (stream : SocketStreamData) × (find k s.manager.streams ≡ some stream))
    → waiting id k (handle_data parent packet s).1.tasks
      ≡ waiting id k s.tasks ++ (if s.manager.socket_id == id then brought k (ok packet) else [])
unfolding handle_data waiting brought
handle_data-waiting parent id k packet s is_data there =
    let own = s.manager.socket_id in
    let is_it : (packet.packet_type == packet_data) ≡ true = (==_iff _ _).1 is_data in
    elim (Option-cases (find packet.stream_id s.manager.streams)) [
      | inl e ↦ elim (Bool-cases (own == id)) [
        | inl o ↦ elim (Bool-cases (packet.stream_id == k)) [
          | inl q ↦
              let (stream, f) = there ((==_iff own id).0 o) in
              cc (e, f, (==_iff packet.stream_id k).0 q)
          | inr q ↦ rw (handle_data, e, o, is_it, q) (sym (append-nil (waiting id k s.tasks)))
        ]
        | inr o ↦ rw (handle_data, e, o) (sym (append-nil (waiting id k s.tasks)))
      ]
      | inr (stream, e) ↦
          rw (handle_data, e)
            (waiting-append id k s.tasks (record { manager = own; packet = packet } ∷ [])
              ∙ elim (Bool-cases (own == id)) [
                | inl o ↦ rw (is_it, o) refl
                | inr o ↦ rw (is_it, o) refl
              ])
    ]

-- A frame of another type adds none.
none-waiting :
    (id k own : ℕ) (packet : WispPacket) (tasks : List Task)
    → (packet.packet_type == packet_data) ≡ false
    → waiting id k tasks ≡ waiting id k tasks ++ (if own == id then brought k (ok packet) else [])
unfolding brought
none-waiting id k own packet tasks other = rw other (elim (Bool-cases (own == id)) [
  | inl o ↦ rw o (sym (append-nil (waiting id k tasks)))
  | inr o ↦ rw o (sym (append-nil (waiting id k tasks)))
])

dispatch-waiting :
    (os : Os) (conf : WoefulConfig) (parent : Parent) (packet : WispPacket) (id k : ℕ)
    (s s' : Session)
    → dispatch os conf parent packet s ≡ ok s'
    → (s.manager.socket_id ≡ id
        → (stream : SocketStreamData) × (find k s.manager.streams ≡ some stream))
    → waiting id k s'.tasks
      ≡ waiting id k s.tasks ++ (if s.manager.socket_id == id then brought k (ok packet) else [])
unfolding dispatch
dispatch-waiting os conf parent packet id k s s' h there =
    let own = s.manager.socket_id in
    elim (Bool-cases (packet.packet_type == packet_connect)) [
      | inl e ↦
          let (r, h1, h2) = >>=-eq-ok (handle_connect os conf parent packet s) _ (rw e at h) in
          let same : s'.tasks ≡ s.tasks =
            ap (λ (x : Session). x.tasks) (sym (ok-injective h2))
            ∙ report_connect-tasks packet.stream_id r
            ∙ handle_connect-tasks os conf parent packet s r h1 in
          ap (waiting id k) same ∙ none-waiting id k own packet s.tasks (ground (arith, e))
      | inr e ↦ elim (Bool-cases (packet.packet_type == packet_data)) [
        | inl d ↦
            subst
              (λ (x : Session).
                waiting id k x.tasks
                ≡ waiting id k s.tasks ++ (if own == id then brought k (ok packet) else []))
              (ok-injective (rw (e, d) at h))
              (handle_data-waiting parent id k packet s ((==_iff _ _).0 d) there)
        | inr d ↦
            subst
              (λ (x : Session).
                waiting id k x.tasks
                ≡ waiting id k s.tasks ++ (if own == id then brought k (ok packet) else []))
              (ok-injective (rw (e, d) at h)) (none-waiting id k own packet s.tasks d)
      ]
    ]

-- What `receive` adds to the tasks of a stream that is there.
pub receive-waiting :
    (os : Os) (conf : WoefulConfig) (parent : Parent) (view : Bytes) (id k : ℕ) (s s' : Session)
    → receive os conf parent view s ≡ ok s'
    → (s.manager.socket_id ≡ id
        → (stream : SocketStreamData) × (find k s.manager.streams ≡ some stream))
    → waiting id k s'.tasks
      ≡ waiting id k s.tasks
        ++ (if s.manager.socket_id == id then brought k (parse_wisp view) else [])
unfolding receive close_info
receive-waiting os conf parent view id k s s' h there =
    let (packet, p, h1) = >>=-eq-ok (parse_wisp view) _ h in
    let own = s.manager.socket_id in
    rw p (elim (Bool-cases (packet.packet_type == packet_info)) [
      | inl e ↦
          subst
            (λ (x : Session).
              waiting id k x.tasks
              ≡ waiting id k s.tasks ++ (if own == id then brought k (ok packet) else []))
            (ok-injective (rw e at h1)) (none-waiting id k own packet s.tasks (ground (arith, e)))
      | inr e ↦ elim (Bool-cases (not s.manager.received_info && s.manager.info_valid)) [
        | inl c ↦
            dispatch-waiting os conf parent packet id k
              (record s { manager = record (s.manager) { info_valid = false } }) s'
              (rw (e, c) at h1) there
        | inr c ↦ dispatch-waiting os conf parent packet id k s s' (rw (e, c) at h1) there
      ]
    ])
