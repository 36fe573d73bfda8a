-- ===== src/Server/Background.antt =====
-- The invariant under the watcher's rounds, its deferred callbacks and the tasks of the pool.
use woeful.Base.{
  ℕ, ◌+◌, ◌-◌, ◌%◌, ◌^◌, ◌≡◌, refl, ap, ◌∙◌, subst, inl, inr, Option, some, List, [], ◌∷◌,
  Option-cases, arith, length, ok,
}
use mathlib.Core.Option.{some-injective}
use woeful.System.{wait}
use woeful.System.Calls.{Os, Trace, is_open}
use woeful.Watcher.{Deferred, SystemWatcher, run_deferred, reported, watch_round}
use woeful.Watcher.Held.{run_deferred-IsHeld}
use woeful.Server.{Server, on_events, on_deferred, on_task}
use woeful.Server.Threads.{Quiet, watch_round-Watched, write_loop-is_open}
use woeful.Server.Tasks.{Wrote, on_task-Worked}
use woeful.Server.Sound.{IsSound, Quiet-IsHeld}

pub on_events-IsSound :
    (os : Os) (answer : Option (List ℕ)) (s s' : Server)
    → on_events os answer s ≡ some s'
    → IsSound s
    → IsSound s'
unfolding on_events
on_events-IsSound os answer s s' h v =
    elim (Option-cases (watch_round os (reported (wait answer)) s.watcher s.trace)) [
      | inl n ↦ cc (rw (n, on_events) at h)
      | inr (r, e) ↦
          let w = watch_round-Watched os (reported (wait answer)) s.watcher s.trace r e in
          subst IsSound (some-injective _ _ (rw (e, on_events) at h)) (record {
            streams = Quiet-IsHeld _ s.trace r.1 w.quiet (rw w.managers v.streams);
            counted = w.counted v.counted;
          })
    ]

pub on_deferred-none : (os : Os) (s : Server) → s.watcher.deferred ≡ [] → on_deferred os s ≡ s
unfolding on_deferred
on_deferred-none os s e = ground arith

abbrev pub delivered : Os → Server → Deferred → List Deferred → SystemWatcher × Trace
delivered os s d ds = run_deferred os d (record (s.watcher) { deferred = ds }) s.trace

pub on_deferred-first :
    (os : Os) (s : Server) (d : Deferred) (ds : List Deferred)
    → s.watcher.deferred ≡ d ∷ ds
    → on_deferred os s
      ≡ record s { watcher = (delivered os s d ds).0; trace = (delivered os s d ds).1 }
unfolding on_deferred
on_deferred-first os s d ds e = ground arith

pub run_deferred-counted :
    (os : Os) (d : Deferred) (w : SystemWatcher) (t : Trace)
    → ((run_deferred os d w t).0.send_queue_len ≡ (w.send_queue_len + 2 ^ 64 - 1) % 2 ^ 64)
      × ((run_deferred os d w t).0.deferred ≡ w.deferred)
unfolding run_deferred
run_deferred-counted os d w t = ground arith

on_deferred_from :
    (os : Os) (s : Server) (queue : List Deferred)
    → s.watcher.deferred ≡ queue
    → IsSound s
    → IsSound (on_deferred os s)
on_deferred_from os s [] e v = rw (on_deferred-none os s e) v
on_deferred_from os s (d ∷ ds) e v =
    let w : SystemWatcher = record (s.watcher) { deferred = ds } in
    let (count, rest) = run_deferred-counted os d w s.trace in
    let before : s.watcher.send_queue_len ≡ length (d ∷ ds) % 2 ^ 64 =
      v.counted ∙ ap (λ q. length q % 2 ^ 64) e in
    rw (on_deferred-first os s d ds e) (record {
      streams = run_deferred-IsHeld os d w s.trace v.streams;
      counted = count ∙ (rw rest (omega arith));
    })

pub on_deferred-IsSound : (os : Os) (s : Server) → IsSound s → IsSound (on_deferred os s)
on_deferred-IsSound os s v = on_deferred_from os s s.watcher.deferred refl v

Wrote-Quiet : (os : Os) (t t' : Trace) → Wrote os t t' → Quiet t t'
Wrote-Quiet os t t' (inl e) x = ap (is_open x) e
Wrote-Quiet os t t' (inr (fuel, fd, bytes, h)) x = write_loop-is_open os fuel fd x bytes t t' h

pub on_task-IsSound :
    (os : Os) (fuel i : ℕ) (s s' : Server)
    → on_task os fuel i s ≡ ok (some s')
    → IsSound s
    → IsSound s'
on_task-IsSound os fuel i s s' h v =
    let (tasks, t', e, w) = on_task-Worked os fuel i s s' h in
    subst IsSound e (record {
      streams = Quiet-IsHeld _ s.trace t' (Wrote-Quiet os s.trace t' w) v.streams;
      counted = v.counted;
    })
