-- ===== src/Pcap/Capture/Attempts.antt =====
-- The capture of the data that a task writes.
use woeful.Base.{
  ℕ, zero, suc, ◌+◌, ◌≡◌, refl, sym, ap, ◌∙◌, ==_self, Bool, true, false, Option, none, some, [],
  ◌∷◌, Bytes, ok, arith,
}
use mathlib.Core.Option
use mathlib.Core.Option.{some-injective}
use woeful.Base.Map.{find, insert, find-insert}
use woeful.Config.{WoefulConfig}
use woeful.System.Calls.{Os, Trace, fd_polled, fd_written, WriteResult}
use woeful.Manager.{write_loop}
use woeful.Pcap.{Pcpp, PcapInterface, write_dummy_user}
use woeful.Pcap.Capture.{Captures, capture_write, capture_user, captured_write_loop}

-- The capture after the data was written to it so many times.
unfoldable pub repeated : Pcpp → Bytes → ℕ → PcapInterface → PcapInterface
repeated pcpp bytes zero p = p
repeated pcpp bytes (suc n) p = repeated pcpp bytes n (write_dummy_user pcpp bytes p)

-- How often the program polled.
unfoldable pub polls : Trace → ℕ
polls [] = 0
polls (fd_polled fd res ∷ t) = suc (polls t)
polls (_ ∷ t) = polls t

-- The loop with the capture makes the calls of the loop without it, and the capture of the stream
-- got the data once for each `poll`.
pub record Follows (pcpp : Pcpp) (stream_id : ℕ) (bytes file : Bytes) (pcap : PcapInterface)
    (t : Trace) (r : Option (Captures × Trace)) (plain : Option Trace) : Type 0 where
  pub same : Option.map (λ x. x.1) r ≡ plain
  pub frames :
      (c' : Captures) (t' : Trace)
      → r ≡ some (c', t')
      → (n : ℕ) × (find stream_id c'.streams ≡ some (file, repeated pcpp bytes n pcap))
        × (polls t' ≡ n + polls t)

module _ (pcpp : Pcpp) (conf : WoefulConfig) (os : Os) where
  capture_user-there :
      (stream_id : ℕ) (bytes file : Bytes) (pcap : PcapInterface) (c : Captures)
      → conf.pcap_capture ≡ true
      → find stream_id c.streams ≡ some (file, pcap)
      → (c' : Captures) × (capture_user pcpp conf stream_id bytes c ≡ ok c')
        × (find stream_id c'.streams ≡ some (file, write_dummy_user pcpp bytes pcap))
  unfolding capture_user capture_write
  capture_user-there stream_id bytes file pcap c on h = (
    record c { streams = insert stream_id (file, write_dummy_user pcpp bytes pcap) c.streams },
    rw (on, h) refl,
    find-insert stream_id stream_id _ c.streams ∙ rw (==_self stream_id) refl,
  )

  -- One round that ends the loop.
  ends :
      (stream_id : ℕ) (bytes file : Bytes) (pcap : PcapInterface) (t t' : Trace) (c' : Captures)
      → find stream_id c'.streams ≡ some (file, write_dummy_user pcpp bytes pcap)
      → polls t' ≡ suc (polls t)
      → Follows pcpp stream_id bytes file pcap t (some (c', t')) (some t')
  unfolding repeated
  ends stream_id bytes file pcap t t' c' h p = record {
    same = refl;
    frames = λ c2 t2 e.
        let same : (c', t') ≡ (c2, t2) = some-injective _ _ e in
        (
          1,
          ap (λ (x : Captures × Trace). find stream_id x.0.streams) (sym same) ∙ h,
          omega (arith, ap (λ (x : Captures × Trace). polls x.1) (sym same), p),
        );
  }

  -- What the loop does on some fuel.
  abbrev Loops : ℕ → ℕ → ℕ → Bytes → Bytes → PcapInterface → Captures → Trace → Type 0
  Loops fuel stream_id fd bytes file pcap c t =
      (r : Option (Captures × Trace)) × (captured_write_loop pcpp conf os fuel stream_id fd bytes c
          t
        ≡ ok r)
      × Follows pcpp stream_id bytes file pcap t r (write_loop os fuel fd bytes t)

  -- A round that wrote nothing, and those behind it.
  again_then :
      (stream_id : ℕ) (bytes file : Bytes) (pcap : PcapInterface) (t t' : Trace)
      (r : Option (Captures × Trace)) (plain : Option Trace)
      → polls t' ≡ suc (polls t)
      → Follows pcpp stream_id bytes file (write_dummy_user pcpp bytes pcap) t' r plain
      → Follows pcpp stream_id bytes file pcap t r plain
  unfolding repeated
  again_then stream_id bytes file pcap t t' r plain p rest = record {
    same = rest.same;
    frames = λ c2 t2 e. let (n, h, q) = rest.frames c2 t2 e in (suc n, h, omega (arith, p, q));
  }

  round :
      (fuel stream_id fd : ℕ) (bytes file : Bytes) (pcap : PcapInterface) (c c' : Captures)
      (t : Trace) (res : Bool) (answer : WriteResult)
      → os.poll t fd ≡ res
      → os.write (fd_polled fd true ∷ t) fd bytes ≡ answer
      → capture_user pcpp conf stream_id bytes c ≡ ok c'
      → find stream_id c'.streams ≡ some (file, write_dummy_user pcpp bytes pcap)
      → ((t' : Trace) → Loops fuel stream_id fd bytes file (write_dummy_user pcpp bytes pcap) c' t')
      → Loops (suc fuel) stream_id fd bytes file pcap c t
  unfolding captured_write_loop write_loop polls
  round fuel stream_id fd bytes file pcap c c' t false answer p w e h rest = (
    some (c', fd_polled fd false ∷ t),
    rw (captured_write_loop, e, p) (rw p refl),
    rw (write_loop, p) (rw p (ends stream_id bytes file pcap t (fd_polled fd false ∷ t) c' h refl)),
  )
  round fuel stream_id fd bytes file pcap c c' t true WriteResult.again p w e h rest =
      let t' = fd_written fd bytes WriteResult.again ∷ fd_polled fd true ∷ t in
      let (r, e2, f) = rest t' in
      (
        r,
        rw (captured_write_loop, e, p, p, w, p, w) e2,
        rw (write_loop, p, p, w, p, w) (again_then stream_id bytes file pcap t t' r _ refl f),
      )
  round fuel stream_id fd bytes file pcap c c' t true WriteResult.failed p w e h rest =
      let t' = fd_written fd bytes WriteResult.failed ∷ fd_polled fd true ∷ t in
      (
        some (c', t'),
        rw (captured_write_loop, e, p, p, w, p, w) refl,
        rw (write_loop, p, p, w, p, w) (ends stream_id bytes file pcap t t' c' h refl),
      )
  round fuel stream_id fd bytes file pcap c c' t true (WriteResult.written n) p w e h rest =
      let t' = fd_written fd bytes (WriteResult.written n) ∷ fd_polled fd true ∷ t in
      (
        some (c', t'),
        rw (captured_write_loop, e, p, p, w, p, w) refl,
        rw (write_loop, p, p, w, p, w) (ends stream_id bytes file pcap t t' c' h refl),
      )

  -- With a capture, the loop that writes the data of a message never uses a missing entry,
  -- makes exactly the calls of the loop of a build without PCAP and ends when that one does,
  -- and the capture of the stream got all of the data once for each `poll`, also where nothing
  -- was written. The conditions are that the configuration asks for captures and that the
  -- stream has one.
  pub captured_write_loop-Follows :
      (fuel stream_id fd : ℕ) (bytes file : Bytes) (pcap : PcapInterface) (c : Captures) (t : Trace)
      → conf.pcap_capture ≡ true
      → find stream_id c.streams ≡ some (file, pcap)
      → (r : Option (Captures × Trace)) × (captured_write_loop pcpp conf os fuel stream_id fd bytes
            c t
          ≡ ok r)
        × Follows pcpp stream_id bytes file pcap t r (write_loop os fuel fd bytes t)
  unfolding captured_write_loop write_loop
  captured_write_loop-Follows zero stream_id fd bytes file pcap c t on h =
      (none, refl, record { same = refl; frames = λ c' t' e. cc })
  captured_write_loop-Follows (suc fuel) stream_id fd bytes file pcap c t on h =
      let (c', e, h') = capture_user-there stream_id bytes file pcap c on h in
      round fuel stream_id fd bytes file pcap c c' t (os.poll t fd)
        (os.write (fd_polled fd true ∷ t) fd bytes) refl refl e h'
        (λ t'. captured_write_loop-Follows fuel stream_id fd bytes file _ c' t' on h')
