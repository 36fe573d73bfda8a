-- ===== src/Base/Map.antt =====
-- `std::unordered_map` with integer keys, as an association list in the order of its iteration.
use Prim.Native.Nat.{ℕ}
use mathlib.Core.Path.{◌≡◌, refl}
use mathlib.Core.Logic.{inl, inr}
use mathlib.Core.Option.{Option, none, some}
use mathlib.Core.List.{List, [], ◌∷◌}
use native.Mathlib.Omega.{arith}
use woeful.Base.Tests.{◌==◌, ==_iff, ==_self, Bool-cases, if◌then◌else◌}

abbrev pub Map {ℓ} : Type ℓ → Type ℓ
Map V = List (ℕ × V)

module _ {ℓ} {V : Type ℓ} where
  -- `m.find(k)`
  unfoldable pub find : ℕ → Map V → Option V
  find k [] = none
  find k ((j, v) ∷ m) = if j == k then some v else find k m

  -- `m[k] = v`
  unfoldable pub insert : ℕ → V → Map V → Map V
  insert k new [] = (k, new) ∷ []
  insert k new ((j, old) ∷ rest) = if j == k then (k, new) ∷ rest else (j, old) ∷ insert k new rest

  -- `m.erase(k)`
  unfoldable pub erase : ℕ → Map V → Map V
  erase k [] = []
  erase k ((j, w) ∷ m) = if j == k then erase k m else (j, w) ∷ erase k m

  -- The keys in the order of the iteration.
  unfoldable pub keys : Map V → List ℕ
  keys [] = []
  keys ((k, v) ∷ m) = k ∷ keys m

  pub find-insert :
      (k j : ℕ) (v : V) (m : Map V) → find j (insert k v m) ≡ (if k == j then some v else find j m)
  unfolding find insert
  find-insert k j v [] = refl
  find-insert k j v ((i, w) ∷ m) = ground (arith, find-insert k j v m)

  pub find-erase : (k j : ℕ) (m : Map V) → find j (erase k m) ≡ (if k == j then none else find j m)
  unfolding find erase
  find-erase k j [] = ground arith
  find-erase k j ((i, w) ∷ m) = ground (arith, find-erase k j m)

  -- No key has two entries.
  abbrev pub IsDistinct : Map V → Type ℓ
  IsDistinct [] = Unit {ℓ}
  IsDistinct ((k, v) ∷ m) = (find k m ≡ none) × IsDistinct m

  pub erase-absent : (k : ℕ) (m : Map V) → find k m ≡ none → erase k m ≡ m
  unfolding find erase
  erase-absent k [] h = refl
  erase-absent k ((j, v) ∷ m) h = ground (arith, erase-absent k m)

  pub insert-IsDistinct : (k : ℕ) (v : V) (m : Map V) → IsDistinct m → IsDistinct (insert k v m)
  unfolding insert find
  insert-IsDistinct k v [] d = (refl, d)
  insert-IsDistinct k v ((j, w) ∷ m) d = elim (Bool-cases (j == k)) [
    | inl e ↦ rw (e, insert) (rw ((==_iff j k).0 e) at d)
    | inr e ↦
        rw (e, insert) (rw (find-insert k j v m) (ground (arith, d.0)), insert-IsDistinct k v m d.1)
  ]

  pub erase-IsDistinct : (k : ℕ) (m : Map V) → IsDistinct m → IsDistinct (erase k m)
  unfolding erase find
  erase-IsDistinct k [] d = d
  erase-IsDistinct k ((j, w) ∷ m) d = elim (Bool-cases (j == k)) [
    | inl e ↦ rw (e, erase) (erase-IsDistinct k m d.1)
    | inr e ↦ rw (e, erase) (rw (find-erase k j m) (ground (arith, d.0)), erase-IsDistinct k m d.1)
  ]

  -- In a map with distinct keys what the tail finds is found in the whole.
  pub find-tail :
      (k j : ℕ) (v w : V) (m : Map V)
      → find k m ≡ none
      → find j m ≡ some w
      → find j ((k, v) ∷ m) ≡ some w
  unfolding find
  find-tail k j v w m h e = elim (Bool-cases (k == j)) [
    | inl eq ↦ cc (h, rw (← (==_iff k j).0 eq) at e)
    | inr ne ↦ rw ne e
  ]

  pub find-head : (k : ℕ) (v : V) (m : Map V) → find k ((k, v) ∷ m) ≡ some v
  unfolding find
  find-head k v m = rw (==_self k) refl

  pub erase-head : (k : ℕ) (v : V) (m : Map V) → find k m ≡ none → erase k ((k, v) ∷ m) ≡ m
  unfolding erase
  erase-head k v m h = rw (==_self k) (erase-absent k m h)
