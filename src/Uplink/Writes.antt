-- ===== src/Uplink/Writes.antt =====
-- A task that ends wrote its data once, or a poll failed.
use woeful.Base.{
  ℕ, zero, suc, ◌≡◌, refl, subst, ◌⊎◌, inl, inr, Bool, true, false, some, ◌∷◌, ◌==◌, if◌then◌else◌,
  arith, Bytes,
}
use mathlib.Core.Option.{some-injective}
use woeful.System.Calls.{Os, Trace, fd_polled, fd_written, WriteResult}
use woeful.Manager.{write_loop}
use woeful.Uplink.{is_answer, answered, failures}

-- What the loop for a descriptor does to what was answered for another, or the same.
abbrev pub Ends : (fd x : ℕ) → Bytes → Trace → Trace → Type 0
Ends fd x bytes t t' =
    ((answered x t' ≡ (if fd == x then bytes ∷ answered x t else answered x t))
      × (failures x t' ≡ failures x t))
    ⊎ ((answered x t' ≡ answered x t)
        × (failures x t' ≡ (if fd == x then suc (failures x t) else failures x t)))

round :
    (os : Os) (fuel fd x : ℕ) (bytes : Bytes) (t t' : Trace) (res : Bool) (answer : WriteResult)
    → os.poll t fd ≡ res
    → os.write (fd_polled fd true ∷ t) fd bytes ≡ answer
    → write_loop os (suc fuel) fd bytes t ≡ some t'
    → ((t1 : Trace)
        → answered x t1 ≡ answered x t
        → failures x t1 ≡ failures x t
        → write_loop os fuel fd bytes t1 ≡ some t'
        → Ends fd x bytes t t')
    → Ends fd x bytes t t'
unfolding write_loop answered failures is_answer
round os fuel fd x bytes t t' false answer p w h rest =
    subst (Ends fd x bytes t) (some-injective _ _ (rw (write_loop, p, write_loop, p) at h))
      (inr (refl, ground arith))
round os fuel fd x bytes t t' true WriteResult.again p w h rest =
    rest (fd_written fd bytes WriteResult.again ∷ fd_polled fd true ∷ t) (ground arith)
      (ground arith) (rw (write_loop, p, write_loop, p, w, p, w) at h)
round os fuel fd x bytes t t' true WriteResult.failed p w h rest =
    subst (Ends fd x bytes t) (some-injective _ _ (rw (write_loop, p, write_loop, p, w, p, w) at h))
      (inl (ground arith, ground arith))
round os fuel fd x bytes t t' true (WriteResult.written count) p w h rest =
    subst (Ends fd x bytes t) (some-injective _ _ (rw (write_loop, p, write_loop, p, w, p, w) at h))
      (inl (ground arith, ground arith))

pub write_loop-Ends :
    (os : Os) (fuel fd x : ℕ) (bytes : Bytes) (t t' : Trace)
    → write_loop os fuel fd bytes t ≡ some t'
    → Ends fd x bytes t t'
unfolding write_loop
write_loop-Ends os zero fd x bytes t t' h = cc
write_loop-Ends os (suc fuel) fd x bytes t t' h =
    round os fuel fd x bytes t t' (os.poll t fd) (os.write (fd_polled fd true ∷ t) fd bytes) refl
      refl h (λ t1 a f e. rw (a, f) at (write_loop-Ends os fuel fd x bytes t1 t' e))
