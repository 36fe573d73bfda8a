-- ===== src/Uplink/Drain.antt =====
-- The tasks of the queue, run in any order.
use woeful.Base.{
  ℕ, zero, suc, ◌+◌, ◌≤◌, ◌≡◌, refl, ap, ◌∙◌, Option, none, some, List, [], ◌∷◌, All, arith, length,
  Bytes, Result, ok, ◌>>=◌,
}
use woeful.Base.Map.{Map, find}
use woeful.Config.{WoefulConfig}
use woeful.System.{EpollWrapper}
use woeful.System.Calls.{Os, SocketIsFresh}
use woeful.Manager.{SocketStreamData, WebSocketManager, Task}
use woeful.Manager.Writing.{Relents, run_task-Settled}
use woeful.Server.{Server, take_task, on_task}
use woeful.Server.Steps.{Reach}
use woeful.Server.Sound.{IsSound}
use woeful.Server.Background.{on_task-IsSound}
use woeful.Server.Invariant.{Reach-IsSound}
use woeful.Server.Uplink.{on_task_lem}
use woeful.Downlink.Faithful.{Lives}
use woeful.Uplink.{answered, failures, waiting, copies, Accounts}
use woeful.Uplink.Counts.{Accounts-trans, quiet-Accounts}
use woeful.Uplink.Tasks.{on_task-Accounts}

-- The pool runs the tasks that stand in these places of the queue, each when its turn comes.
unfoldable pub run_tasks : Os → ℕ → List ℕ → Server → Result (Option Server)
run_tasks os fuel [] s = ok (some s)
run_tasks os fuel (i ∷ places) s =
    on_task os fuel i s >>= λ r. elim r [ none ↦ ok none | some s' ↦ run_tasks os fuel places s' ]

-- The places are those of a queue of some length, one after the other.
pub data Order : ℕ → List ℕ → Type 0 where
  over : Order 0 []
  first : {n i : ℕ} {places : List ℕ} → i ≤ n → Order n places → Order (suc n) (i ∷ places)

-- The stream of the task is there.
abbrev pub HasStream : Map WebSocketManager → Task → Type 0
HasStream managers task =
    (m : WebSocketManager) × (stream : SocketStreamData) × (find task.manager managers ≡ some m)
    × (find task.packet.stream_id m.streams ≡ some stream)

-- A task taken from a place of the queue.
record Taken (Good : Task → Type 0) (i : ℕ) (tasks : List Task) : Type 0 where
  task : Task
  rest : List Task
  taken : take_task i tasks ≡ some (task, rest)
  shorter : length tasks ≡ suc (length rest)
  good : Good task
  others : All Good rest

take_task-Taken :
    (Good : Task → Type 0) (n i : ℕ) (tasks : List Task)
    → i ≤ n
    → length tasks ≡ suc n
    → All Good tasks
    → Taken Good i tasks
unfolding take_task
take_task-Taken Good n i [] l e g = absurd (omega (arith, e))
take_task-Taken Good n zero (task ∷ tasks) l e g = record {
  task = task;
  rest = tasks;
  taken = refl;
  shorter = refl;
  good = g.0;
  others = g.1;
}
take_task-Taken Good zero (suc i) (task ∷ tasks) l e g = absurd (omega (arith, l))
take_task-Taken Good (suc n) (suc i) (task ∷ tasks) l e g =
    let t = take_task-Taken Good n i tasks (omega (arith, l)) (omega (arith, e)) g.1 in
    record {
      task = t.task;
      rest = task ∷ t.rest;
      taken = rw (take_task, t.taken) refl;
      shorter = ap suc t.shorter;
      good = t.good;
      others = (g.0, t.others);
    }

length-zero : (tasks : List Task) → length tasks ≡ 0 → tasks ≡ []
length-zero [] e = refl
length-zero (task ∷ tasks) e = absurd (omega (arith, e))

-- All tasks have run.
record Ran (os : Os) (fuel id k fd : ℕ) (places : List ℕ) (s : Server) : Type 0 where
  last : Server
  returns : run_tasks os fuel places s ≡ ok (some last)
  empty : last.tasks ≡ []
  accounts : Accounts id k fd [] s last

run_tasks-Ran :
    (os : Os) (n id k ws fd : ℕ) {size : ℕ} (places : List ℕ) (s : Server)
    → Relents os n
    → Order size places
    → length s.tasks ≡ size
    → All (HasStream s.watcher.watched_sockets) s.tasks
    → IsSound s
    → Lives id k ws fd s
    → Ran os (suc n) id k fd places s
unfolding run_tasks
run_tasks-Ran os n id k ws fd places s relents over e g sound l = record {
  last = s;
  returns = refl;
  empty = length-zero s.tasks e;
  accounts = quiet-Accounts id k fd s s refl refl;
}
run_tasks-Ran os n id k ws fd places s relents (first {n = size} {i} {places = later} le order) e g
      sound l =
    let managers = s.watcher.watched_sockets in
    let t = take_task-Taken (HasStream managers) size i s.tasks le e g in
    let (m, stream, f, h) = t.good in
    let (t', ran, _) = run_task-Settled os n t.task.packet m stream s.trace relents h in
    let s1 : Server = record s { tasks = t.rest; trace = t' } in
    let done = on_task_lem os (suc n) i s t.task t.rest m t' t.taken f ran in
    let more =
      run_tasks-Ran os n id k ws fd later s1 relents order (omega (arith, t.shorter, e)) t.others
        (on_task-IsSound os (suc n) i s s1 done sound)
        (record {
          manager = l.manager;
          stream = l.stream;
          found = l.found;
          socket = l.socket;
          here = l.here;
          descriptor = l.descriptor;
        }) in
    record {
      last = more.last;
      returns =
          ap (λ r. r >>= λ o. elim o [ none ↦ ok none | some s' ↦ run_tasks os (suc n) later s' ])
            done
          ∙ more.returns;
      empty = more.empty;
      accounts =
          Accounts-trans (on_task-Accounts os id k ws fd (suc n) i s s1 done sound l) more.accounts;
    }

-- The data that waited for a stream, once all tasks have run.
pub record Drained (os : Os) (fuel id k fd : ℕ) (places : List ℕ) (s : Server) : Type 0 where
  pub last : Server
  pub returns : run_tasks os fuel places s ≡ ok (some last)
  pub empty : last.tasks ≡ []
  pub lost : List Bytes
  pub written :
      (bytes : Bytes)
      → copies bytes (answered fd last.trace) + copies bytes lost
        ≡ copies bytes (answered fd s.trace) + copies bytes (waiting id k s.tasks)
  pub failed : failures fd last.trace ≡ failures fd s.trace + length lost

-- In a state that the program reaches, let the streams of all tasks in the queue be there. If
-- the system refuses a descriptor that it polled at most `n` times in a row, then the pool can
-- run all tasks, in any order and with `n + 1` rounds of fuel for each: none faults or runs out
-- of fuel, the queue is empty behind them, and of a stream that is there the data of each task
-- that waited, as often as it waited, was given to one `write` on its descriptor that was not
-- refused, or was lost, one message for each poll of the descriptor that failed. The condition
-- is, besides, that `socket` never returns a descriptor that is open.
pub run_tasks-Drained :
    (os : Os) (conf : WoefulConfig) (n id k ws fd : ℕ) (places : List ℕ) {epoll : EpollWrapper}
    {s : Server}
    → SocketIsFresh os
    → Relents os n
    → Reach os conf epoll s
    → Order (length s.tasks) places
    → All (HasStream s.watcher.watched_sockets) s.tasks
    → Lives id k ws fd s
    → Drained os (suc n) id k fd places s
unfolding copies waiting
run_tasks-Drained os conf n id k ws fd places {s = s} fresh relents r order there l =
    let ran =
      run_tasks-Ran os n id k ws fd places s relents order refl there
        (Reach-IsSound os conf fresh r) l in
    let a = ran.accounts in
    record {
      last = ran.last;
      returns = ran.returns;
      empty = ran.empty;
      lost = a.lost;
      written = λ bytes.
          let gone : copies bytes (waiting id k ran.last.tasks) ≡ 0 =
            ap (λ x. copies bytes (waiting id k x)) ran.empty in
          omega (arith, a.conserved bytes, gone);
      failed = a.failed;
    }
