-- ===== src/Server/Threads.antt =====
-- What the watcher's thread and the tasks of the pool do to the state.
use woeful.Base.{
  ℕ, zero, suc, ◌+◌, ◌%◌, ◌^◌, ◌≡◌, refl, sym, ◌∙◌, subst, inl, inr, true, some, List, [], ◌∷◌,
  ◌++◌, ◌==◌, Bool-cases, if_true, if_false, Option-cases, arith, length, length-append, Bytes,
}
use mathlib.Core.Option.{some-injective}
use woeful.Watcher.Reading.{Answers, answers, eof, grows}
use woeful.Packets.{max_ws_frame}
use woeful.System.Calls.{
  Os, Trace, fd_read, fd_polled, fd_written, is_open, ReadResult, WriteResult,
}
use woeful.Manager.{write_loop}
use woeful.Watcher.{
  Deferred, SystemWatcher, ReadOut, defer_read, read_loop, watch_event, watch_events, watch_round,
}

-- The calls of the watcher's thread and of the pool open and close nothing.
abbrev pub Quiet : Trace → Trace → Type 0
Quiet t t' = (fd : ℕ) → is_open fd t' ≡ is_open fd t

read_loop-is_open :
    (os : Os) (fuel fd x : ℕ) (buf : Bytes) (t : Trace) (out : ReadOut)
    → read_loop os fuel fd buf t ≡ some out
    → is_open x out.trace ≡ is_open x t
unfolding read_loop is_open
read_loop-is_open os zero fd x buf t out h = cc
read_loop-is_open os (suc fuel) fd x buf t out h = elim (answers (os.read t fd)) [
  | eof e ↦ ground arith
  | Answers.again e ↦ ground arith
  | Answers.failed e ↦ ground arith
  | grows b bs e ↦ ground (
    arith,
    read_loop-is_open os fuel fd x (buf ++ b ∷ bs) (fd_read fd (ReadResult.count (b ∷ bs)) ∷ t) out,
  )
]

pub write_loop-is_open :
    (os : Os) (fuel fd x : ℕ) (bytes : Bytes) (t t' : Trace)
    → write_loop os fuel fd bytes t ≡ some t'
    → is_open x t' ≡ is_open x t
unfolding write_loop is_open
write_loop-is_open os zero fd x bytes t t' h = cc
write_loop-is_open os (suc fuel) fd x bytes t t' h =
    let polled : Trace = fd_polled fd true ∷ t in
    ground (
      arith,
      write_loop-is_open os fuel fd x bytes (fd_written fd bytes WriteResult.again ∷ polled) t',
    )

-- The watcher thread leaves the managers alone, and counts what it defers.
pub record Watched (w : SystemWatcher) (t : Trace) (w' : SystemWatcher) (t' : Trace) : Type 0 where
  pub managers : w'.watched_sockets ≡ w.watched_sockets
  pub quiet : Quiet t t'
  pub counted :
      w.send_queue_len ≡ length w.deferred % 2 ^ 64
      → w'.send_queue_len ≡ length w'.deferred % 2 ^ 64

defer_read-Watched :
    (fd : ℕ) (out : ReadOut) (w : SystemWatcher) (t : Trace)
    → Quiet t out.trace
    → Watched w t (defer_read fd out w).0 (defer_read fd out w).1
unfolding defer_read is_open
defer_read-Watched fd out w t q =
    let d : Deferred = record {
      combined_buffer = out.combined_buffer;
      to_close = out.to_close;
      fd = fd;
    } in
    record {
      managers = refl;
      quiet = λ x. ground (arith, q x);
      counted = λ h. omega (arith, length-append w.deferred (d ∷ []));
    }

watch_event-Watched :
    (os : Os) (fuel fd : ℕ) (w : SystemWatcher) (t : Trace) (r : SystemWatcher × Trace)
    → watch_event os fuel fd w t ≡ some r
    → Watched w t r.0 r.1
unfolding watch_event is_open
watch_event-Watched os fuel fd w t r h = elim (Bool-cases (fd == w.epoll.read_pipe)) [
  | inl e ↦
      subst (λ x. Watched w t x.0 x.1) (some-injective _ _ (rw e at h))
        (record { managers = refl; quiet = λ x. refl; counted = λ c. c })
  | inr e ↦ elim (Option-cases (read_loop os fuel fd [] t)) [
    | inl n ↦ cc (rw (e, n) at h)
    | inr (out, o) ↦
        subst (λ x. Watched w t x.0 x.1) (some-injective _ _ (rw (e, o) at h))
          (defer_read-Watched fd out w t (λ x. read_loop-is_open os fuel fd x [] t out o))
  ]
]

watch_events-Watched :
    (os : Os) (fuel : ℕ) (fds : List ℕ) (w : SystemWatcher) (t : Trace) (r : SystemWatcher × Trace)
    → watch_events os fuel fds w t ≡ some r
    → Watched w t r.0 r.1
unfolding watch_events
watch_events-Watched os fuel [] w t r h =
    subst (λ x. Watched w t x.0 x.1) (some-injective _ _ h)
      (record { managers = refl; quiet = λ x. refl; counted = λ c. c })
watch_events-Watched os fuel (fd ∷ fds) w t r h = elim (Option-cases (watch_event os fuel fd w t)) [
  | inl n ↦ cc (rw (n, watch_events) at h)
  | inr (r1, o) ↦
      let first = watch_event-Watched os fuel fd w t r1 o in
      let rest = watch_events-Watched os fuel fds r1.0 r1.1 r (rw (o, watch_events) at h) in
      record {
        managers = rest.managers ∙ first.managers;
        quiet = λ x. rest.quiet x ∙ first.quiet x;
        counted = λ c. rest.counted (first.counted c);
      }
]

-- A round of the watcher that ends leaves the managers alone, opens and closes no descriptor,
-- and keeps `send_queue_len` the number of the callbacks that wait, modulo 2 ^ 64.
pub watch_round-Watched :
    (os : Os) (fds : List ℕ) (w : SystemWatcher) (t : Trace) (r : SystemWatcher × Trace)
    → watch_round os fds w t ≡ some r
    → Watched w t r.0 r.1
unfolding watch_round
watch_round-Watched os fds w t r h = elim (Bool-cases w.deconstructing) [
  | inl e ↦
      subst (λ x. Watched w t x.0 x.1) (some-injective _ _ (sym (if_true _ _ e) ∙ h))
        (record { managers = refl; quiet = λ x. refl; counted = λ c. c })
  | inr e ↦ watch_events-Watched os (max_ws_frame + 2) fds w t r (sym (if_false _ _ e) ∙ h)
]
