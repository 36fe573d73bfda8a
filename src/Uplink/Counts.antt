-- ===== src/Uplink/Counts.antt =====
-- Accounts of parts of a run make one of the whole.
use woeful.Base.{
  ℕ, ◌+◌, ◌≡◌, refl, sym, ap, ◌∙◌, [], ◌∷◌, ◌++◌, List, arith, append-nil, Bytes, length-append,
}
use woeful.System.Calls.{Trace, attempts}
use woeful.Server.{Server}
use woeful.Uplink.{answered, failures, waiting, copies, Accounts}

pub copies-append :
    (bytes : Bytes) (a b : List Bytes) → copies bytes (a ++ b) ≡ copies bytes a + copies bytes b
unfolding copies
copies-append bytes [] b = omega arith
copies-append bytes (x ∷ a) b = ground (arith, copies-append bytes a b)

pub Accounts-trans :
    {id k fd : ℕ} {came more : List Bytes} {s s1 s2 : Server}
    → Accounts id k fd came s s1
    → Accounts id k fd more s1 s2
    → Accounts id k fd (came ++ more) s s2
Accounts-trans {came} {more} a b = record {
  lost = a.lost ++ b.lost;
  conserved = λ bytes. omega (
    arith,
    a.conserved bytes,
    b.conserved bytes,
    copies-append bytes a.lost b.lost,
    copies-append bytes came more,
  );
  failed = omega (arith, a.failed, b.failed, length-append a.lost b.lost);
}

answered-attempts : (fd : ℕ) (t : Trace) → answered fd (attempts t) ≡ answered fd t
unfolding answered attempts
answered-attempts fd [] = refl
answered-attempts fd (c ∷ t) = ground (arith, answered-attempts fd t)

failures-attempts : (fd : ℕ) (t : Trace) → failures fd (attempts t) ≡ failures fd t
unfolding failures attempts
failures-attempts fd [] = refl
failures-attempts fd (c ∷ t) = ground (arith, failures-attempts fd t)

-- A step that writes nothing and polls nothing, and puts tasks behind those that wait.
pub still-Accounts :
    (id k fd : ℕ) (came : List Bytes) (s s' : Server)
    → attempts s'.trace ≡ attempts s.trace
    → waiting id k s'.tasks ≡ waiting id k s.tasks ++ came
    → Accounts id k fd came s s'
unfolding copies
still-Accounts id k fd came s s' quiet queued =
    let same : answered fd s'.trace ≡ answered fd s.trace =
      sym (answered-attempts fd s'.trace) ∙ ap (answered fd) quiet ∙ answered-attempts fd s.trace in
    let fails : failures fd s'.trace ≡ failures fd s.trace =
      sym (failures-attempts fd s'.trace) ∙ ap (failures fd) quiet ∙ failures-attempts fd s.trace in
    record {
      lost = [];
      conserved = λ bytes.
          let q = ap (copies bytes) queued ∙ copies-append bytes (waiting id k s.tasks) came in
          omega (arith, ap (copies bytes) same, q);
      failed = omega (arith, fails);
    }

-- A step that leaves the queue alone and writes nothing.
pub quiet-Accounts :
    (id k fd : ℕ) (s s' : Server)
    → attempts s'.trace ≡ attempts s.trace
    → s'.tasks ≡ s.tasks
    → Accounts id k fd [] s s'
quiet-Accounts id k fd s s' quiet same =
    still-Accounts id k fd [] s s' quiet
      (ap (waiting id k) same ∙ sym (append-nil (waiting id k s.tasks)))
