-- ===== src/Downlink/Hear.antt =====
-- What a round of the watcher reads, and what it defers.
use woeful.Base.{
  ℕ, zero, suc, ◌+◌, ◌≡◌, refl, sym, ap, ◌∙◌, subst, ◌==◌, Bool-cases, Option-cases, inl, inr, Bool,
  true, false, some, List, [], ◌∷◌, ◌++◌, append-nil, append_assoc, arith, if◌then◌else◌, if_true,
  if_false, ltb, length, Bytes,
}
use mathlib.Core.Option.{some-injective}
use woeful.Packets.{max_ws_frame}
use woeful.System.Calls.{Os, Trace, ReadResult, fd_read, attempts}
use woeful.System.{erase_fd}
use woeful.Watcher.{
  Deferred, SystemWatcher, ReadOut, read_loop, defer_read, watch_event, watch_events, watch_round,
}
use woeful.Watcher.Reading.{bytes_read, Answers, answers, eof, grows}
use woeful.Downlink.{sent, pending}

-- What the inner loop read from `from` is what it collected.
record Collects (from : ℕ) (buf : Bytes) (t : Trace) (out : ReadOut) : Type 0 where
  got : Bytes
  kept : out.combined_buffer ≡ buf ++ got
  reads : (fd : ℕ) → bytes_read fd out.trace ≡ bytes_read fd t ++ (if from == fd then got else [])
  sends : (ws k : ℕ) → sent ws k out.trace ≡ sent ws k t
  tries : attempts out.trace ≡ attempts t

ended-Collects :
    (from : ℕ) (buf : Bytes) (t : Trace) (answer : ReadResult) (to_close : Bool)
    → ((fd : ℕ) → bytes_read fd (fd_read from answer ∷ t) ≡ bytes_read fd t)
    → Collects from buf t
        (record { combined_buffer = buf; to_close = to_close; trace = fd_read from answer ∷ t })
unfolding sent attempts
ended-Collects from buf t answer to_close same = record {
  got = [];
  kept = sym (append-nil buf);
  reads = λ fd. ground (arith, same fd, append-nil (bytes_read fd t));
  sends = λ ws k. refl;
  tries = refl;
}

more-Collects :
    {from : ℕ} {buf : Bytes} {t : Trace} {out : ReadOut} (bs : Bytes)
    → Collects from (buf ++ bs) (fd_read from (ReadResult.count bs) ∷ t) out
    → Collects from buf t out
unfolding bytes_read sent attempts
more-Collects {from} {buf} {t} bs c = record {
  got = bs ++ c.got;
  kept = c.kept ∙ append_assoc buf bs c.got;
  reads = λ fd. ground (arith, c.reads fd, append_assoc (bytes_read fd t) bs c.got);
  sends = c.sends;
  tries = c.tries;
}

read_loop-Collects :
    (os : Os) (fuel from : ℕ) (buf : Bytes) (t : Trace) (out : ReadOut)
    → read_loop os fuel from buf t ≡ some out
    → Collects from buf t out
unfolding read_loop bytes_read sent attempts
read_loop-Collects os zero from buf t out h = cc
read_loop-Collects os (suc fuel) from buf t out h = elim (answers (os.read t from)) [
  | eof e ↦ subst (Collects from buf t) (some-injective _ _ (rw (e, read_loop, e) at h)) (
      ended-Collects from buf t (ReadResult.count []) true
        (λ fd. ground (arith, append-nil (bytes_read fd t))))
  | Answers.again e ↦
      subst (Collects from buf t) (some-injective _ _ (rw (e, read_loop, e) at h))
        (ended-Collects from buf t ReadResult.again false (λ fd. refl))
  | Answers.failed e ↦
      subst (Collects from buf t) (some-injective _ _ (rw (e, read_loop, e) at h))
        (ended-Collects from buf t ReadResult.failed true (λ fd. refl))
  | grows b bs e ↦
      let t' : Trace = fd_read from (ReadResult.count (b ∷ bs)) ∷ t in
      elim (Bool-cases (ltb max_ws_frame (length (buf ++ b ∷ bs)))) [
        | inl full ↦
            subst (Collects from buf t)
              (some-injective _ _ (rw (e, read_loop, full, read_loop, e) at h))
              (record {
                got = b ∷ bs;
                kept = refl;
                reads = λ fd. ground (arith, append-nil (bytes_read fd t));
                sends = λ ws k. refl;
                tries = refl;
              })
        | inr rest ↦ more-Collects (b ∷ bs) (
            read_loop-Collects os fuel from (buf ++ b ∷ bs) t' out
              (rw (e, read_loop, rest, read_loop, e) at h))
      ]
]

-- From one state of the watcher to another: the bytes that were read from `fd` are those that
-- were deferred, and nothing was sent.
pub record Hears (fd : ℕ) (w : SystemWatcher) (t : Trace) (w' : SystemWatcher) (t' : Trace)
    : Type 0 where
  pub heard : Bytes
  pub reads : bytes_read fd t' ≡ bytes_read fd t ++ heard
  pub defers : pending fd w'.deferred ≡ pending fd w.deferred ++ heard
  pub sends : (ws k : ℕ) → sent ws k t' ≡ sent ws k t
  pub tries : attempts t' ≡ attempts t

pending-append :
    (fd : ℕ) (ds es : List Deferred) → pending fd (ds ++ es) ≡ pending fd ds ++ pending fd es
unfolding pending
pending-append fd [] es = refl
pending-append fd (d ∷ ds) es = elim (Bool-cases (d.fd == fd)) [
  | inl e ↦
      rw (e, pending-append fd ds es)
        (sym (append_assoc d.combined_buffer (pending fd ds) (pending fd es)))
  | inr e ↦ rw e (pending-append fd ds es)
]

Hears-refl : (fd : ℕ) (w : SystemWatcher) (t : Trace) → Hears fd w t w t
Hears-refl fd w t = record {
  heard = [];
  reads = sym (append-nil _);
  defers = sym (append-nil _);
  sends = λ ws k. refl;
  tries = refl;
}

Hears-trans :
    {fd : ℕ} {w w1 w2 : SystemWatcher} {t t1 t2 : Trace}
    → Hears fd w t w1 t1
    → Hears fd w1 t1 w2 t2
    → Hears fd w t w2 t2
Hears-trans a b = record {
  heard = a.heard ++ b.heard;
  reads = b.reads ∙ ap (λ x. x ++ b.heard) a.reads ∙ append_assoc _ a.heard b.heard;
  defers = b.defers ∙ ap (λ x. x ++ b.heard) a.defers ∙ append_assoc _ a.heard b.heard;
  sends = λ ws k. b.sends ws k ∙ a.sends ws k;
  tries = b.tries ∙ a.tries;
}

defer_read-Hears :
    (fd from : ℕ) (out : ReadOut) (w : SystemWatcher) (t : Trace)
    → Collects from [] t out
    → Hears fd w t (defer_read from out w).0 (defer_read from out w).1
unfolding defer_read pending sent bytes_read erase_fd attempts
defer_read-Hears fd from out w t c = record {
  heard = if from == fd then out.combined_buffer else [];
  reads = ground (arith, c.reads fd, c.kept);
  defers =
      pending-append fd w.deferred _
      ∙ ap (λ x. pending fd w.deferred ++ (if from == fd then x else []))
          (append-nil out.combined_buffer);
  sends = λ ws k. ground (arith, c.sends ws k);
  tries = ground (arith, c.tries);
}

watch_event-Hears :
    (os : Os) (fuel fd from : ℕ) (w : SystemWatcher) (t : Trace) (r : SystemWatcher × Trace)
    → watch_event os fuel from w t ≡ some r
    → Hears fd w t r.0 r.1
unfolding watch_event sent bytes_read attempts
watch_event-Hears os fuel fd from w t r h = elim (Bool-cases (from == w.epoll.read_pipe)) [
  | inl e ↦
      subst (λ x. Hears fd w t x.0 x.1) (some-injective _ _ (rw e at h))
        (record {
          heard = [];
          reads = sym (append-nil _);
          defers = sym (append-nil _);
          sends = λ ws k. refl;
          tries = refl;
        })
  | inr e ↦ elim (Option-cases (read_loop os fuel from [] t)) [
    | inl n ↦ cc (rw (e, n) at h)
    | inr (out, o) ↦
        subst (λ x. Hears fd w t x.0 x.1) (some-injective _ _ (rw (e, o) at h))
          (defer_read-Hears fd from out w t (read_loop-Collects os fuel from [] t out o))
  ]
]

watch_events-Hears :
    (os : Os) (fuel fd : ℕ) (fds : List ℕ) (w : SystemWatcher) (t : Trace)
    (r : SystemWatcher × Trace)
    → watch_events os fuel fds w t ≡ some r
    → Hears fd w t r.0 r.1
unfolding watch_events
watch_events-Hears os fuel fd [] w t r h =
    subst (λ x. Hears fd w t x.0 x.1) (some-injective _ _ h) (Hears-refl fd w t)
watch_events-Hears os fuel fd (from ∷ fds) w t r h =
    elim (Option-cases (watch_event os fuel from w t)) [
      | inl n ↦ cc (rw (n, watch_events) at h)
      | inr (first, o) ↦
          Hears-trans (watch_event-Hears os fuel fd from w t first o)
            (watch_events-Hears os fuel fd fds first.0 first.1 r (rw (o, watch_events) at h))
    ]

pub watch_round-Hears :
    (os : Os) (fd : ℕ) (fds : List ℕ) (w : SystemWatcher) (t : Trace) (r : SystemWatcher × Trace)
    → watch_round os fds w t ≡ some r
    → Hears fd w t r.0 r.1
unfolding watch_round
watch_round-Hears os fd fds w t r h = elim (Bool-cases w.deconstructing) [
  | inl e ↦
      subst (λ x. Hears fd w t x.0 x.1) (some-injective _ _ (sym (if_true _ _ e) ∙ h))
        (Hears-refl fd w t)
  | inr e ↦ watch_events-Hears os (max_ws_frame + 2) fd fds w t r (sym (if_false _ _ e) ∙ h)
]
