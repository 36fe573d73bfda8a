-- ===== src/Base/Results.antt =====
-- What the code does where C++ leaves its behaviour undefined: a fault, not a value.
use mathlib.Core.Path.{◌≡◌, refl}
use mathlib.Core.Logic.{◌⊎◌, inl, inr}
use mathlib.Core.Option.{Option, none, some}

pub data Fault : Type 0 where
  -- a read outside a buffer, and the use of an iterator that points to no entry
  out_of_bounds bad_iterator : Fault
  -- the use of an object that was destroyed
  dangling : Fault

pub data Result {ℓ} (Value : Type ℓ) : Type ℓ where
  ok : Value → Result Value
  fault : Fault → Result Value

infixl 5 ◌>>=◌
abbrev pub ◌>>=◌ {ℓ κ} : {X : Type ℓ} {Y : Type κ} (m : Result X) (next : X → Result Y) → Result Y
fault reason >>= next = fault reason
ok x >>= next = next x

abbrev pub or_fault {ℓ} : {A : Type ℓ} → Option A → Fault → Result A
or_fault none e = fault e
or_fault (some a) e = ok a

-- A chain that succeeds has a first part that succeeds, and goes on with its value.
pub >>=-eq-ok {ℓ κ} :
    {X : Type ℓ} {Y : Type κ} (m : Result X) (next : X → Result Y) {y : Y}
    → (m >>= next) ≡ ok y
    → (x : X) × (m ≡ ok x) × (next x ≡ ok y)
>>=-eq-ok (fault reason) next done = cc
>>=-eq-ok (ok x) next done = (x, refl, done)

pub ok-injective {ℓ} : {A : Type ℓ} {a b : A} → ok a ≡ ok b → a ≡ b
ok-injective h = cc

pub Result-cases {ℓ} :
    {A : Type ℓ} (r : Result A) → ((f : Fault) × (r ≡ fault f)) ⊎ ((a : A) × (r ≡ ok a))
Result-cases (fault f) = inl (f, refl)
Result-cases (ok a) = inr (a, refl)
