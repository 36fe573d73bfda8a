-- ===== src/Watcher/Reading.antt =====
-- The inner loop of `watch`, which reads a target socket.
use woeful.Base.{
  ℕ, zero, suc, ◌+◌, ◌≤◌, ◌<◌, ◌≡◌, refl, sym, ◌∙◌, Bool, true, false, some, [], ◌∷◌, ◌++◌,
  append-nil, append_assoc, length, length-append, Bytes, ltb, Bool-cases, inl, inr, arith,
  if◌then◌else◌, ◌==◌, ==_self,
}
use woeful.Packets.{segment_size, max_ws_frame, max_possible_ws_frame}
use woeful.System.Calls.{Os, Trace, ReadResult, fd_read}
use woeful.Watcher.{ReadOut, read_loop}

-- `read` puts no more bytes into the buffer than it has room for.
abbrev pub ReadsSegments : Os → Type 0
ReadsSegments os =
    (t : Trace) (fd : ℕ) (bs : Bytes)
    → os.read t fd ≡ ReadResult.count bs
    → length bs ≤ segment_size

-- The bytes that were read from a descriptor, in the order of the reads.
unfoldable pub bytes_read : ℕ → Trace → Bytes
bytes_read fd [] = []
bytes_read fd (fd_read from (ReadResult.count bs) ∷ t) =
    if from == fd then bytes_read fd t ++ bs else bytes_read fd t
bytes_read fd (_ ∷ t) = bytes_read fd t

-- A read that ends the stream: no byte, or an error other than `EAGAIN`.
pub is_end : ReadResult → Bool
is_end (ReadResult.count []) = true
is_end (ReadResult.count (b ∷ bs)) = false
is_end ReadResult.again = false
is_end ReadResult.failed = true

-- What the loop gives, from the buffer `buf` and the calls `t`.
pub record Reads (fd : ℕ) (buf : Bytes) (t : Trace) (out : ReadOut) : Type 0 where
  pub fits : length out.combined_buffer < max_possible_ws_frame
  pub got : Bytes
  pub kept : out.combined_buffer ≡ buf ++ got
  pub all : bytes_read fd out.trace ≡ bytes_read fd t ++ got
  pub last : ReadResult
  pub before : Trace
  pub ended : out.trace ≡ fd_read fd last ∷ before
  pub closes : out.to_close ≡ is_end last

-- The four answers, as the loop takes them.
pub data Answers (r : ReadResult) : Type 0 where
  eof : r ≡ ReadResult.count [] → Answers r
  again : r ≡ ReadResult.again → Answers r
  failed : r ≡ ReadResult.failed → Answers r
  grows : (b : ℕ) (bs : Bytes) → r ≡ ReadResult.count (b ∷ bs) → Answers r

pub answers : (r : ReadResult) → Answers r
answers (ReadResult.count []) = eof refl
answers (ReadResult.count (b ∷ bs)) = grows b bs refl
answers ReadResult.again = again refl
answers ReadResult.failed = failed refl

Reads-end :
    (fd : ℕ) (buf : Bytes) (t : Trace) (answer : ReadResult)
    → length buf ≤ max_ws_frame
    → bytes_read fd (fd_read fd answer ∷ t) ≡ bytes_read fd t
    → Reads fd buf t
        (record { combined_buffer = buf; to_close = is_end answer; trace = fd_read fd answer ∷ t })
Reads-end fd buf t answer h e = record {
  fits = omega arith;
  got = [];
  kept = sym (append-nil buf);
  all = e ∙ sym (append-nil (bytes_read fd t));
  last = answer;
  before = t;
  ended = refl;
  closes = refl;
}

bytes_read-count :
    (fd : ℕ) (bs : Bytes) (t : Trace)
    → bytes_read fd (fd_read fd (ReadResult.count bs) ∷ t) ≡ bytes_read fd t ++ bs
unfolding bytes_read
bytes_read-count fd bs t = rw (==_self fd)

Reads-full :
    (fd : ℕ) (buf : Bytes) (t : Trace) (b : ℕ) (bs : Bytes)
    → length buf ≤ max_ws_frame
    → length (b ∷ bs) ≤ segment_size
    → Reads fd buf t (record {
      combined_buffer = buf ++ b ∷ bs;
      to_close = false;
      trace = fd_read fd (ReadResult.count (b ∷ bs)) ∷ t;
    })
unfolding is_end
Reads-full fd buf t b bs h k = record {
  fits = omega (arith, length-append buf (b ∷ bs));
  got = b ∷ bs;
  kept = refl;
  all = bytes_read-count fd (b ∷ bs) t;
  last = ReadResult.count (b ∷ bs);
  before = t;
  ended = refl;
  closes = refl;
}

Reads-more :
    {fd : ℕ} {buf : Bytes} {t : Trace} {out : ReadOut} (bs : Bytes)
    → Reads fd (buf ++ bs) (fd_read fd (ReadResult.count bs) ∷ t) out
    → Reads fd buf t out
Reads-more {fd} {buf} {t} bs r = record {
  fits = r.fits;
  got = bs ++ r.got;
  kept = r.kept ∙ append_assoc buf bs r.got;
  all = r.all ∙ rw (bytes_read-count fd bs t) (append_assoc (bytes_read fd t) bs r.got);
  last = r.last;
  before = r.before;
  ended = r.ended;
  closes = r.closes;
}

module _ (os : Os) (segments : ReadsSegments os) where
  -- The inner loop of `watch` ends, with one round of fuel for each byte up to MAX_WS_FRAME
  -- and one more, if `read` never returns more than SEGMENT_SIZE bytes: what it collects is
  -- behind `buf` the bytes that were read from the descriptor, all of them in order, stays
  -- below MAX_POSSIBLE_WS_FRAME, and the stream is closed exactly if the last read gave no
  -- byte or an error other than EAGAIN.
  pub read_loop-Reads :
      (fuel fd : ℕ) (buf : Bytes) (t : Trace)
      → length buf ≤ max_ws_frame
      → max_ws_frame < length buf + fuel
      → (out : ReadOut) × (read_loop os fuel fd buf t ≡ some out) × Reads fd buf t out
  unfolding read_loop bytes_read is_end
  read_loop-Reads zero fd buf t h k = absurd (omega arith)
  read_loop-Reads (suc fuel) fd buf t h k = elim (answers (os.read t fd)) [
    | eof e ↦ (
      _,
      rw (e, read_loop, e) refl,
      Reads-end fd buf t (ReadResult.count []) h (bytes_read-count fd [] t ∙ append-nil _),
    )
    | again e ↦ (_, rw (e, read_loop, e) refl, Reads-end fd buf t ReadResult.again h refl)
    | failed e ↦ (_, rw (e, read_loop, e) refl, Reads-end fd buf t ReadResult.failed h refl)
    | grows b bs e ↦
        let small : length (b ∷ bs) ≤ segment_size = segments t fd (b ∷ bs) e in
        let longer = length-append buf (b ∷ bs) in
        elim (Bool-cases (ltb max_ws_frame (length (buf ++ b ∷ bs)))) [
          | inl full ↦
              (_, rw (e, read_loop, full, read_loop, e) refl, Reads-full fd buf t b bs h small)
          | inr more ↦
              let (out, done, r) =
                read_loop-Reads fuel fd (buf ++ b ∷ bs) (fd_read fd (ReadResult.count (b ∷ bs)) ∷ t)
                  (ground arith) (omega (arith, longer)) in
              (out, rw (e, read_loop, more, read_loop, e) done, Reads-more (b ∷ bs) r)
        ]
  ]
