-- ===== src/Server/Uplink.antt =====
-- The way of a message from a client to the target of its stream.
use woeful.Base.{
  ℕ, suc, ◌≡◌, refl, ap, subst, ◌∙◌, ==_self, not, ◌&&◌, Bool-cases, inl, inr, false, some, List,
  [], ◌∷◌, ◌++◌, length, Bytes, ok,
}
use woeful.Base.Map.{find, insert, find-insert}
use woeful.Packets.{WispPacket, packet_data, parse_wisp}
use woeful.Config.{WoefulConfig}
use woeful.System.Calls.{Os, Trace}
use woeful.Manager.{
  SocketStreamData, WebSocketManager, Task, Session, Parent, close_info, count_message, handle_data,
  dispatch, receive, run_task,
}
use woeful.Manager.Flow.{handle_data-known}
use woeful.Manager.Writing.{Relents, Settled, run_task-Settled}
use woeful.Watcher.{parent_of}
use woeful.Server.{Server, manager_of, put_manager, on_message, take_task, on_task}

-- The message was handed to the pool, and its stream is there with the descriptor.
record Accepted (packet : WispPacket) (stream : SocketStreamData) (s s' : Session) : Type 0 where
  pub kept : SocketStreamData
  pub here : find packet.stream_id s'.manager.streams ≡ some kept
  pub same : kept.fd ≡ stream.fd
  pub named : s'.manager.socket_id ≡ s.manager.socket_id
  pub queued : s'.tasks ≡ s.tasks ++ record { manager = s.manager.socket_id; packet = packet } ∷ []

handle_data-Accepted :
    (parent : Parent) (packet : WispPacket) (stream : SocketStreamData) (s : Session)
    → find packet.stream_id s.manager.streams ≡ some stream
    → Accepted packet stream s (handle_data parent packet s).1
handle_data-Accepted parent packet stream s e =
    let k = packet.stream_id in
    let m = s.manager in
    let buffer = (count_message parent m.has_backpressure stream).0 in
    let kept : SocketStreamData = record stream { buffer = buffer } in
    rw (handle_data-known parent packet s stream e) (record {
      kept = kept;
      here = find-insert k k kept m.streams ∙ rw (==_self k) refl;
      same = refl;
      named = refl;
      queued = refl;
    })

receive-Accepted :
    (os : Os) (conf : WoefulConfig) (parent : Parent) (view : Bytes) (packet : WispPacket)
    (stream : SocketStreamData) (s : Session)
    → parse_wisp view ≡ ok packet
    → packet.packet_type ≡ packet_data
    → find packet.stream_id s.manager.streams ≡ some stream
    → (s' : Session) × (receive os conf parent view s ≡ ok s') × Accepted packet stream s s'
unfolding receive dispatch close_info
receive-Accepted os conf parent view packet stream s p type h =
    let m = s.manager in
    elim (Bool-cases (not m.received_info && m.info_valid)) [
      | inl e ↦
          let s1 : Session = record s { manager = record m { info_valid = false } } in
          let a = handle_data-Accepted parent packet stream s1 h in
          (
            (handle_data parent packet s1).1,
            rw (p, type, e) refl,
            record {
              kept = a.kept;
              here = a.here;
              same = a.same;
              named = a.named;
              queued = a.queued;
            },
          )
      | inr e ↦ (
        (handle_data parent packet s).1,
        rw (p, type, e) refl,
        handle_data-Accepted parent packet stream s h,
      )
    ]

take_task-last :
    (task : Task) (tasks : List Task)
    → take_task (length tasks) (tasks ++ task ∷ []) ≡ some (task, tasks)
unfolding take_task
take_task-last task [] = refl
take_task-last task (first ∷ tasks) = rw (take_task-last task tasks) refl

pub on_task_lem :
    (os : Os) (fuel i : ℕ) (s : Server) (task : Task) (tasks : List Task) (m : WebSocketManager)
    (t' : Trace)
    → take_task i s.tasks ≡ some (task, tasks)
    → find task.manager s.watcher.watched_sockets ≡ some m
    → run_task os fuel task.packet m s.trace ≡ ok (some t')
    → on_task os fuel i s ≡ ok (some (record s { tasks = tasks; trace = t' }))
unfolding on_task
on_task_lem os fuel i s task tasks m t' taken there ran = rw (on_task, taken, there, ran) refl

-- The state after a message, and after its task has run.
pub record Delivered (os : Os) (conf : WoefulConfig) (n ws fd : ℕ) (message bytes : Bytes)
    (s : Server) : Type 0 where
  pub after : Server
  pub accepted : on_message os conf ws message s ≡ ok after
  pub last : Server
  pub ran : on_task os (suc n) (length s.tasks) after ≡ ok (some last)
  pub written : Settled fd bytes last.trace
  pub queue : last.tasks ≡ s.tasks

-- A DATA message from a web socket whose manager has its stream is accepted without a fault and
-- queued as one task. If that task runs next, with a round of fuel more than the system refuses
-- a write in a row, it ends without a fault, with a `poll` that failed or with one `write` of
-- all the data on the descriptor of the stream that was not refused, and the queue is what it
-- was before the message.
pub on_message-Delivered :
    (os : Os) (conf : WoefulConfig) (n ws : ℕ) (message : Bytes) (packet : WispPacket)
    (m : WebSocketManager) (stream : SocketStreamData) (s : Server)
    → Relents os n
    → manager_of s ws ≡ ok m
    → parse_wisp message ≡ ok packet
    → packet.packet_type ≡ packet_data
    → find packet.stream_id m.streams ≡ some stream
    → Delivered os conf n ws stream.fd message packet.bytes s
unfolding on_message put_manager
on_message-Delivered os conf n ws message packet m stream s relents e p type h =
    let before : Session = record { manager = m; tasks = s.tasks; trace = s.trace } in
    let (after, e2, a) =
      receive-Accepted os conf (parent_of s.watcher) message packet stream before p type h in
    let managers = s.watcher.watched_sockets in
    let task : Task = record { manager = m.socket_id; packet = packet } in
    let s1 : Server = record s {
      watcher = put_manager after.manager s.watcher;
      tasks = after.tasks;
      trace = after.trace;
    } in
    let taken : take_task (length s.tasks) after.tasks ≡ some (task, s.tasks) =
      ap (take_task (length s.tasks)) a.queued ∙ take_task-last task s.tasks in
    let there : find m.socket_id (insert after.manager.socket_id after.manager managers)
        ≡ some after.manager =
      find-insert after.manager.socket_id m.socket_id after.manager managers
      ∙ rw a.named (rw (==_self m.socket_id) refl) in
    let (t', e3, settled) =
      run_task-Settled os n packet after.manager a.kept after.trace relents a.here in
    record {
      after = s1;
      accepted = rw (e, e2) refl;
      last = record s1 { tasks = s.tasks; trace = t' };
      ran = on_task_lem os (suc n) (length s.tasks) s1 task s.tasks after.manager t' taken there e3;
      written = subst (λ x. Settled x packet.bytes t') a.same settled;
      queue = refl;
    }
