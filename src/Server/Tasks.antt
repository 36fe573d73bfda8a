-- ===== src/Server/Tasks.antt =====
-- What a task of the pool does to the state.
use woeful.Base.{
  ℕ, ◌≡◌, refl, subst, ◌⊎◌, inl, inr, Option, none, some, List, Option-cases, Bytes, ok, >>=-eq-ok,
  ok-injective, or_fault, dangling, bad_iterator,
}
use mathlib.Core.Option.{some-injective}
use woeful.Base.Map.{find}
use woeful.Packets.{WispPacket}
use woeful.System.Calls.{Os, Trace}
use woeful.Manager.{WebSocketManager, Task, write_loop, run_task}
use woeful.Server.{Server, take_task, on_task}

-- Nothing was called, or a loop that writes has run.
abbrev pub Wrote : Os → Trace → Trace → Type 0
Wrote os t t' =
    (t' ≡ t) ⊎ ((fuel fd : ℕ) × (bytes : Bytes) × (write_loop os fuel fd bytes t ≡ some t'))

-- The state behind a task: the queue and the trace have changed, and nothing else.
abbrev pub Worked : Os → Server → Server → Type 0
Worked os s s' =
    (tasks : List Task) × (t' : Trace) × (record s { tasks = tasks; trace = t' } ≡ s')
    × Wrote os s.trace t'

run_task-Wrote :
    (os : Os) (fuel : ℕ) (packet : WispPacket) (m : WebSocketManager) (t t' : Trace)
    → run_task os fuel packet m t ≡ ok (some t')
    → Wrote os t t'
unfolding run_task
run_task-Wrote os fuel packet m t t' h =
    let (stream, _, h1) = >>=-eq-ok (or_fault (find packet.stream_id m.streams) bad_iterator) _ h in
    inr (fuel, stream.fd, packet.bytes, ok-injective h1)

task_done :
    (os : Os) (s s' : Server) (tasks : List Task) (r : Option Trace)
    → ((t' : Trace) → r ≡ some t' → Wrote os s.trace t')
    → (elim r [ none ↦ none | some t' ↦ some (record s { tasks = tasks; trace = t' }) ]) ≡ some s'
    → Worked os s s'
task_done os s s' tasks none q h = cc
task_done os s s' tasks (some t') q h = (tasks, t', some-injective _ _ h, q t' refl)

pub on_task-Worked :
    (os : Os) (fuel i : ℕ) (s s' : Server) → on_task os fuel i s ≡ ok (some s') → Worked os s s'
unfolding on_task
on_task-Worked os fuel i s s' h = elim (Option-cases (take_task i s.tasks)) [
  | inl e ↦ (s.tasks, s.trace, some-injective _ _ (ok-injective (rw (e, on_task) at h)), inl refl)
  | inr ((task, tasks), e) ↦
      let (m, _, h1) =
        >>=-eq-ok (or_fault (find task.manager s.watcher.watched_sockets) dangling) _
          (rw (e, on_task) at h) in
      let (r, e2, h2) = >>=-eq-ok (run_task os fuel task.packet m s.trace) _ h1 in
      task_done os s s' tasks r
        (λ t' o.
          run_task-Wrote os fuel task.packet m s.trace t'
            (subst (λ x. run_task os fuel task.packet m s.trace ≡ ok x) o e2))
        (ok-injective h2)
]
