-- ===== src/Manager/Writing.antt =====
-- The loop of a task that writes.
use woeful.Base.{
  ℕ, zero, suc, ◌+◌, ◌≤◌, ◌<◌, ◌≡◌, ◌≢◌, refl, inl, inr, ◌==◌, ==_self, Bool, Bool-cases, ltb, true,
  false, some, ◌∷◌, if◌then◌else◌, arith, Bytes, ok,
}
use woeful.Base.Map.{find}
use woeful.Packets.{WispPacket}
use woeful.System.Calls.{Os, Trace, fd_polled, fd_written, WriteResult}
use woeful.Manager.{SocketStreamData, WebSocketManager, write_loop, run_task}

-- How often `write` has just answered `EAGAIN` on the descriptor, with nothing but polls between.
unfoldable pub refusals : ℕ → Trace → ℕ
refusals fd (fd_polled x res ∷ t) = refusals fd t
refusals fd (fd_written x bytes WriteResult.again ∷ t) =
    let rest = refusals fd t in if x == fd then suc rest else 0
refusals fd _ = 0

-- The system refuses a descriptor that it polled at most `n` times in a row.
abbrev pub Relents : Os → ℕ → Type 0
Relents os n =
    (t : Trace) (fd : ℕ) (bytes : Bytes)
    → n ≤ refusals fd t
    → os.write t fd bytes ≢ WriteResult.again

-- The calls end with a poll that failed, or with a `write` of all the data that was not refused.
pub data Settled (fd : ℕ) (bytes : Bytes) : Trace → Type 0 where
  unpolled : (t : Trace) → Settled fd bytes (fd_polled fd false ∷ t)
  answered :
      (answer : WriteResult) (t : Trace)
      → answer ≢ WriteResult.again
      → Settled fd bytes (fd_written fd bytes answer ∷ t)

-- What the loop does on some fuel.
abbrev Settles : Os → ℕ → ℕ → Bytes → Trace → Type 0
Settles os fuel fd bytes t =
    (t' : Trace) × (write_loop os fuel fd bytes t ≡ some t') × Settled fd bytes t'

-- A refusal was not the last that the system allows itself.
not_yet :
    (os : Os) (n fd : ℕ) (bytes : Bytes) (t : Trace)
    → Relents os n
    → os.write (fd_polled fd true ∷ t) fd bytes ≡ WriteResult.again
    → refusals fd t < n
unfolding refusals
not_yet os n fd bytes t relents w = elim (Bool-cases (ltb (refusals fd t) n)) [
  | inl e ↦ ground (arith, e)
  | inr e ↦ elim (relents (fd_polled fd true ∷ t) fd bytes (ground (arith, e)) w) [ ]
]

round :
    (os : Os) (n fuel fd : ℕ) (bytes : Bytes) (t : Trace) (res : Bool) (answer : WriteResult)
    → Relents os n
    → os.poll t fd ≡ res
    → os.write (fd_polled fd true ∷ t) fd bytes ≡ answer
    → ((t' : Trace)
        → refusals fd t' ≡ suc (refusals fd t)
        → refusals fd t < n
        → Settles os fuel fd bytes t')
    → Settles os (suc fuel) fd bytes t
unfolding write_loop refusals
round os n fuel fd bytes t false answer relents p w rest =
    (fd_polled fd false ∷ t, rw (write_loop, p) (rw p refl), unpolled t)
round os n fuel fd bytes t true WriteResult.again relents p w rest =
    let t1 = fd_written fd bytes WriteResult.again ∷ fd_polled fd true ∷ t in
    let (t', e, s) = rest t1 (rw (==_self fd) refl) (not_yet os n fd bytes t relents w) in
    (t', rw (write_loop, p, p, w, p, w) e, s)
round os n fuel fd bytes t true WriteResult.failed relents p w rest =
    let t1 = fd_polled fd true ∷ t in
    (
      fd_written fd bytes WriteResult.failed ∷ t1,
      rw (write_loop, p, p, w, p, w) refl,
      answered WriteResult.failed t1 (λ e. cc),
    )
round os n fuel fd bytes t true (WriteResult.written count) relents p w rest =
    let t1 = fd_polled fd true ∷ t in
    (
      fd_written fd bytes (WriteResult.written count) ∷ t1,
      rw (write_loop, p, p, w, p, w) refl,
      answered (WriteResult.written count) t1 (λ e. cc),
    )

write_loop-Settles :
    (os : Os) (n fuel fd : ℕ) (bytes : Bytes) (t : Trace)
    → Relents os n
    → n ≤ fuel + refusals fd t
    → Settles os (suc fuel) fd bytes t
write_loop-Settles os n zero fd bytes t relents h =
    round os n zero fd bytes t (os.poll t fd) (os.write (fd_polled fd true ∷ t) fd bytes) relents
      refl refl (λ t' more less. ground (arith, h, less))
write_loop-Settles os n (suc fuel) fd bytes t relents h =
    round os n (suc fuel) fd bytes t (os.poll t fd) (os.write (fd_polled fd true ∷ t) fd bytes)
      relents refl refl
      (λ t' more less. write_loop-Settles os n fuel fd bytes t' relents (omega (arith, h, more)))

-- A task whose stream is there ends: if the system refuses (`EAGAIN`) a descriptor that it
-- polled at most `n` times in a row, `n + 1` rounds of fuel are enough, and the last call is
-- either a `poll` that failed or one `write` of all the data of the message, on the descriptor
-- of the stream, that was not refused.
pub run_task-Settled :
    (os : Os) (n : ℕ) (packet : WispPacket) (m : WebSocketManager) (stream : SocketStreamData)
    (t : Trace)
    → Relents os n
    → find packet.stream_id m.streams ≡ some stream
    → (t' : Trace) × (run_task os (suc n) packet m t ≡ ok (some t'))
      × Settled stream.fd packet.bytes t'
unfolding run_task
run_task-Settled os n packet m stream t relents h =
    let (t', e, s) = write_loop-Settles os n n stream.fd packet.bytes t relents (omega arith) in
    (t', rw (h, e) refl, s)
