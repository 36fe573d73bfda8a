-- ===== src/Uplink/Tasks.antt =====
-- What a task that ends does to the accounts of a stream.
use woeful.Base.{
  ℕ, zero, suc, ◌+◌, ◌≡◌, ◌≢◌, refl, sym, ap, subst, ◌∙◌, inl, inr, false, ◌&&◌, Bool-cases,
  Option-cases, Option, none, some, List, [], ◌∷◌, ◌==◌, ==_self, arith, Bytes, ok, >>=-eq-ok,
  ok-injective, or_fault, Fault, dangling, bad_iterator, append-nil,
}
use mathlib.Core.Option.{some-injective}
use woeful.Base.Map.{find}
use woeful.System.Calls.{Os, Trace}
use woeful.Manager.{SocketStreamData, WebSocketManager, Task, run_task, write_loop}
use woeful.Server.{Server, take_task, on_task}
use woeful.Server.Sound.{IsSound}
use woeful.Downlink.Faithful.{Lives}
use woeful.Uplink.{answered, failures, waiting, copies, Accounts}
use woeful.Uplink.Counts.{copies-append, still-Accounts}
use woeful.Uplink.Queue.{waiting-append}
use woeful.Uplink.Elsewhere.{elsewhere}
use woeful.Uplink.Writes.{Ends, write_loop-Ends}

-- The first task, and the others.
waiting-first :
    (id k : ℕ) (bytes : Bytes) (first : Task) (tasks : List Task)
    → copies bytes (waiting id k (first ∷ tasks))
      ≡ copies bytes (waiting id k (first ∷ [])) + copies bytes (waiting id k tasks)
waiting-first id k bytes first tasks =
    ap (copies bytes) (waiting-append id k (first ∷ []) tasks)
    ∙ copies-append bytes (waiting id k (first ∷ [])) (waiting id k tasks)

take_task-waiting :
    (id k i : ℕ) (bytes : Bytes) (tasks : List Task) (task : Task) (rest : List Task)
    → take_task i tasks ≡ some (task, rest)
    → copies bytes (waiting id k tasks)
      ≡ copies bytes (waiting id k (task ∷ [])) + copies bytes (waiting id k rest)
unfolding take_task
take_task-waiting id k i bytes [] task rest h = cc
take_task-waiting id k zero bytes (first ∷ tasks) task rest h =
    let same : (first, tasks) ≡ (task, rest) = some-injective _ _ h in
    subst
      (λ (x : Task × List Task).
        copies bytes (waiting id k (first ∷ tasks))
        ≡ copies bytes (waiting id k (x.0 ∷ [])) + copies bytes (waiting id k x.1))
      same (waiting-first id k bytes first tasks)
take_task-waiting id k (suc i) bytes (first ∷ tasks) task rest h =
    elim (Option-cases (take_task i tasks)) [
      | inl e ↦ cc (rw (e, take_task) at h)
      | inr ((taken, left), e) ↦
          let ih = take_task-waiting id k i bytes tasks taken left e in
          let same : (taken, first ∷ left) ≡ (task, rest) =
            some-injective _ _ (rw (e, take_task) at h) in
          subst
            (λ (x : Task × List Task).
              copies bytes (waiting id k (first ∷ tasks))
              ≡ copies bytes (waiting id k (x.0 ∷ [])) + copies bytes (waiting id k x.1))
            same
            (omega (
              arith,
              ih,
              waiting-first id k bytes first tasks,
              waiting-first id k bytes first left,
            ))
    ]

-- The task of the stream.
own-Accounts :
    (id k fd : ℕ) (task : Task) (tasks : List Task) (s : Server) (t' : Trace)
    → ((bytes : Bytes)
        → copies bytes (waiting id k s.tasks)
          ≡ copies bytes (waiting id k (task ∷ [])) + copies bytes (waiting id k tasks))
    → waiting id k (task ∷ []) ≡ task.packet.bytes ∷ []
    → Ends fd fd task.packet.bytes s.trace t'
    → Accounts id k fd [] s (record s { tasks = tasks; trace = t' })
unfolding copies
own-Accounts id k fd task tasks s t' parts it (inl (a, f)) =
    let grown : answered fd t' ≡ task.packet.bytes ∷ answered fd s.trace = rw (==_self fd) at a in
    record {
      lost = [];
      conserved = λ bytes.
          let p : copies bytes (waiting id k s.tasks)
              ≡ copies bytes (task.packet.bytes ∷ []) + copies bytes (waiting id k tasks) =
            rw it at (parts bytes) in
          rw grown (ground (arith, p));
      failed = omega (arith, f);
    }
own-Accounts id k fd task tasks s t' parts it (inr (a, f)) =
    let more : failures fd t' ≡ suc (failures fd s.trace) = rw (==_self fd) at f in
    record {
      lost = task.packet.bytes ∷ [];
      conserved = λ bytes.
          let p : copies bytes (waiting id k s.tasks)
              ≡ copies bytes (task.packet.bytes ∷ []) + copies bytes (waiting id k tasks) =
            rw it at (parts bytes) in
          rw a (omega (arith, p));
      failed = omega (arith, more);
    }

-- A task of another stream.
other-Accounts :
    (id k from fd : ℕ) (task : Task) (tasks : List Task) (s : Server) (t' : Trace)
    → ((bytes : Bytes)
        → copies bytes (waiting id k s.tasks)
          ≡ copies bytes (waiting id k (task ∷ [])) + copies bytes (waiting id k tasks))
    → waiting id k (task ∷ []) ≡ []
    → from ≢ fd
    → Ends from fd task.packet.bytes s.trace t'
    → Accounts id k fd [] s (record s { tasks = tasks; trace = t' })
unfolding copies
other-Accounts id k from fd task tasks s t' parts it apart ends =
    let off : from == fd ≡ false = ground (arith, apart) in
    let (a, f) : (answered fd t' ≡ answered fd s.trace) × (failures fd t' ≡ failures fd s.trace) =
      elim ends [ inl (a, f) ↦ (rw off at a, f) | inr (a, f) ↦ (a, rw off at f) ] in
    record {
      lost = [];
      conserved = λ bytes.
          let p : copies bytes (waiting id k s.tasks) ≡ 0 + copies bytes (waiting id k tasks) =
            rw it at (parts bytes) in
          rw a (omega (arith, p));
      failed = omega (arith, f);
    }

taken-Accounts :
    (os : Os) (id k ws fd fuel i : ℕ) (task : Task) (tasks : List Task) (m : WebSocketManager)
    (stream : SocketStreamData) (s : Server) (t' : Trace)
    → take_task i s.tasks ≡ some (task, tasks)
    → find task.manager s.watcher.watched_sockets ≡ some m
    → find task.packet.stream_id m.streams ≡ some stream
    → write_loop os fuel stream.fd task.packet.bytes s.trace ≡ some t'
    → IsSound s
    → Lives id k ws fd s
    → Accounts id k fd [] s (record s { tasks = tasks; trace = t' })
unfolding waiting
taken-Accounts os id k ws fd fuel i task tasks m stream s t' e f g w sound l =
    let parts = λ (bytes : Bytes). take_task-waiting id k i bytes s.tasks task tasks e in
    let ends = write_loop-Ends os fuel stream.fd fd task.packet.bytes s.trace t' w in
    elim (Bool-cases (task.manager == id && task.packet.stream_id == k)) [
      | inl own ↦
          let at_id : task.manager ≡ id = ground (arith, own) in
          let at_k : task.packet.stream_id ≡ k = ground (arith, own) in
          let one : l.manager ≡ m =
            some-injective _ _
              (sym l.found ∙ sym (ap (λ x. find x s.watcher.watched_sockets) at_id) ∙ f) in
          let same : l.stream ≡ stream = some-injective _ _ (
            sym l.here
            ∙ ap (λ (x : WebSocketManager). find k x.streams) one
            ∙ sym (ap (λ x. find x m.streams) at_k)
            ∙ g) in
          let at_fd : stream.fd ≡ fd =
            ap (λ (x : SocketStreamData). x.fd) (sym same) ∙ l.descriptor in
          own-Accounts id k fd task tasks s t' parts (rw own refl)
            (subst (λ x. Ends x fd task.packet.bytes s.trace t') at_fd ends)
      | inr other ↦
          other-Accounts id k stream.fd fd task tasks s t' parts (rw other refl)
            (elsewhere id k ws fd task.manager task.packet.stream_id m stream s sound l f g other)
            ends
    ]

or_fault-some :
    {A : Type 0} (o : Option A) (reason : Fault) (a : A) → or_fault o reason ≡ ok a → o ≡ some a
or_fault-some none reason a h = cc
or_fault-some (some b) reason a h = ap some (ok-injective h)

ended :
    (s s' : Server) (tasks : List Task) (r : Option Trace)
    → (elim r [ none ↦ none | some t' ↦ some (record s { tasks = tasks; trace = t' }) ]) ≡ some s'
    → (t' : Trace) × (r ≡ some t') × (record s { tasks = tasks; trace = t' } ≡ s')
ended s s' tasks none h = cc
ended s s' tasks (some t') h = (t', refl, some-injective _ _ h)

pub on_task-Accounts :
    (os : Os) (id k ws fd fuel i : ℕ) (s s' : Server)
    → on_task os fuel i s ≡ ok (some s')
    → IsSound s
    → Lives id k ws fd s
    → Accounts id k fd [] s s'
unfolding on_task run_task
on_task-Accounts os id k ws fd fuel i s s' h sound l = elim (Option-cases (take_task i s.tasks)) [
  | inl e ↦
      subst (Accounts id k fd [] s) (some-injective _ _ (ok-injective (rw (e, on_task) at h)))
        (still-Accounts id k fd [] s s refl (sym (append-nil (waiting id k s.tasks))))
  | inr ((task, tasks), e) ↦
      let managers = s.watcher.watched_sockets in
      let (m, f, h1) =
        >>=-eq-ok (or_fault (find task.manager managers) dangling) _ (rw (e, on_task) at h) in
      let (r, h2, h3) = >>=-eq-ok (run_task os fuel task.packet m s.trace) _ h1 in
      let (stream, g, h4) =
        >>=-eq-ok (or_fault (find task.packet.stream_id m.streams) bad_iterator) _ h2 in
      let (t', o, same) = ended s s' tasks r (ok-injective h3) in
      subst (Accounts id k fd [] s) same (
        taken-Accounts os id k ws fd fuel i task tasks m stream s t' e
          (or_fault-some (find task.manager managers) dangling m f)
          (or_fault-some (find task.packet.stream_id m.streams) bad_iterator stream g)
          (ok-injective h4 ∙ o) sound l)
]
