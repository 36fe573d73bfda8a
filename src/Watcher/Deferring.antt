-- ===== src/Watcher/Deferring.antt =====
-- What epoll watches under the watcher's thread.
use woeful.Base.{
  ℕ, zero, suc, ◌+◌, ◌≡◌, refl, sym, ◌∙◌, subst, inl, inr, ◌==◌, Bool, Bool-cases, true, ◌||◌, some,
  List, [], ◌∷◌, ◌++◌, if_true, if_false, arith, Bytes, Option-cases,
}
use mathlib.Core.Option.{some-injective}
use woeful.Packets.{max_ws_frame}
use woeful.System.Calls.{Os, Trace, fd_read, fd_polled, fd_written, ReadResult, WriteResult}
use woeful.System.Watching.{is_watched}
use woeful.System.{erase_fd}
use woeful.Manager.{write_loop}
use woeful.Watcher.{
  Deferred, SystemWatcher, ReadOut, read_loop, defer_read, watch_event, watch_events, watch_round,
}
use woeful.Watcher.Reading.{Answers, answers, eof, grows}
use woeful.Watcher.Watching.{waits}

-- The descriptor is watched, or a callback that closes it waits.
abbrev pub covered : ℕ → SystemWatcher → Trace → Bool
covered x w t = is_watched x t || waits x w.deferred

read_loop-watched :
    (os : Os) (fuel fd x : ℕ) (buf : Bytes) (t : Trace) (out : ReadOut)
    → read_loop os fuel fd buf t ≡ some out
    → is_watched x out.trace ≡ is_watched x t
unfolding read_loop is_watched
read_loop-watched os zero fd x buf t out h = cc
read_loop-watched os (suc fuel) fd x buf t out h = elim (answers (os.read t fd)) [
  | eof e ↦ ground arith
  | Answers.again e ↦ ground arith
  | Answers.failed e ↦ ground arith
  | grows b bs e ↦ ground (
    arith,
    read_loop-watched os fuel fd x (buf ++ b ∷ bs) (fd_read fd (ReadResult.count (b ∷ bs)) ∷ t) out,
  )
]

pub write_loop-watched :
    (os : Os) (fuel fd x : ℕ) (bytes : Bytes) (t t' : Trace)
    → write_loop os fuel fd bytes t ≡ some t'
    → is_watched x t' ≡ is_watched x t
unfolding write_loop is_watched
write_loop-watched os zero fd x bytes t t' h = cc
write_loop-watched os (suc fuel) fd x bytes t t' h =
    let polled : Trace = fd_polled fd true ∷ t in
    ground (
      arith,
      write_loop-watched os fuel fd x bytes (fd_written fd bytes WriteResult.again ∷ polled) t',
    )

waits-append : (x : ℕ) (ds es : List Deferred) → waits x (ds ++ es) ≡ (waits x ds || waits x es)
unfolding waits
waits-append x [] es = refl
waits-append x (d ∷ ds) es = ground (arith, waits-append x ds es)

defer_read-covered :
    (fd x : ℕ) (out : ReadOut) (w : SystemWatcher) (t : Trace)
    → is_watched x out.trace ≡ is_watched x t
    → covered x w t ≡ true
    → covered x (defer_read fd out w).0 (defer_read fd out w).1 ≡ true
unfolding defer_read is_watched waits erase_fd
defer_read-covered fd x out w t same h =
    let d : Deferred = record {
      combined_buffer = out.combined_buffer;
      to_close = out.to_close;
      fd = fd;
    } in
    ground (arith, same, h, waits-append x w.deferred (d ∷ []))

watch_event-covered :
    (os : Os) (fuel fd x : ℕ) (w : SystemWatcher) (t : Trace) (r : SystemWatcher × Trace)
    → watch_event os fuel fd w t ≡ some r
    → covered x w t ≡ true
    → covered x r.0 r.1 ≡ true
unfolding watch_event is_watched
watch_event-covered os fuel fd x w t r h c = elim (Bool-cases (fd == w.epoll.read_pipe)) [
  | inl e ↦ subst (λ y. covered x y.0 y.1 ≡ true) (some-injective _ _ (rw e at h)) c
  | inr e ↦ elim (Option-cases (read_loop os fuel fd [] t)) [
    | inl n ↦ cc (rw (e, n) at h)
    | inr (out, o) ↦
        subst (λ y. covered x y.0 y.1 ≡ true) (some-injective _ _ (rw (e, o) at h))
          (defer_read-covered fd x out w t (read_loop-watched os fuel fd x [] t out o) c)
  ]
]

watch_events-covered :
    (os : Os) (fuel x : ℕ) (fds : List ℕ) (w : SystemWatcher) (t : Trace)
    (r : SystemWatcher × Trace)
    → watch_events os fuel fds w t ≡ some r
    → covered x w t ≡ true
    → covered x r.0 r.1 ≡ true
unfolding watch_events
watch_events-covered os fuel x [] w t r h c =
    subst (λ y. covered x y.0 y.1 ≡ true) (some-injective _ _ h) c
watch_events-covered os fuel x (fd ∷ fds) w t r h c =
    elim (Option-cases (watch_event os fuel fd w t)) [
      | inl n ↦ cc (rw (n, watch_events) at h)
      | inr (r1, o) ↦
          watch_events-covered os fuel x fds r1.0 r1.1 r (rw (o, watch_events) at h)
            (watch_event-covered os fuel fd x w t r1 o c)
    ]

pub watch_round-covered :
    (os : Os) (fds : List ℕ) (x : ℕ) (w : SystemWatcher) (t : Trace) (r : SystemWatcher × Trace)
    → watch_round os fds w t ≡ some r
    → covered x w t ≡ true
    → covered x r.0 r.1 ≡ true
unfolding watch_round
watch_round-covered os fds x w t r h c = elim (Bool-cases w.deconstructing) [
  | inl e ↦ subst (λ y. covered x y.0 y.1 ≡ true) (some-injective _ _ (sym (if_true _ _ e) ∙ h)) c
  | inr e ↦ watch_events-covered os (max_ws_frame + 2) x fds w t r (sym (if_false _ _ e) ∙ h) c
]
