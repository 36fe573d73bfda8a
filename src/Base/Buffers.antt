-- ===== src/Base/Buffers.antt =====
-- Byte buffers as lists of numbers: reads with a bounds check, little-endian words, writes at an
-- offset, C strings and the text constants of the code.
use Prim.Native.Nat.{ℕ, zero, suc, ◌+◌, ◌-◌, ◌*◌, ◌/◌, ◌%◌, ◌^◌, ◌<◌}
use Prim.Native.Char.{code}
use Prim.Native.String.{String}
use mathlib.Core.Path.{◌≡◌, refl}
use mathlib.Core.Bool.{Bool, true, false, ◌&&◌}
use mathlib.Core.List.{List, [], ◌∷◌}
use native.Mathlib.Omega.{arith}
use woeful.Base.Tests.{◌==◌, ltb, if◌then◌else◌}
use woeful.Base.Lists.{length, get_elem?, take, drop}
use woeful.Base.Results.{Result, ok, fault, out_of_bounds, or_fault, ◌>>=◌}

abbrev pub Bytes : Type 0
Bytes = List ℕ

abbrev pub IsByte : ℕ → Type 0
IsByte b = b < 256

abbrev pub IsU16 : ℕ → Type 0
IsU16 n = n < 2 ^ 16

abbrev pub IsU32 : ℕ → Type 0
IsU32 n = n < 2 ^ 32

-- a `size_t`
abbrev pub IsSize : ℕ → Type 0
IsSize n = n < 2 ^ 64

-- `a - b` on `size_t`
unfoldable pub sub_size : ℕ → ℕ → ℕ
sub_size a b = (a + 2 ^ 64 - b) % 2 ^ 64

-- `*(uint8_t *)(src + i)`
unfoldable pub read_u8 : Bytes → ℕ → Result ℕ
read_u8 src i = or_fault (get_elem? src i) out_of_bounds

-- `*(uint16_t *)(src + i)` on a little-endian machine
unfoldable pub read_u16 : Bytes → ℕ → Result ℕ
unfolding read_u8
read_u16 src i = do a ← read_u8 src i; b ← read_u8 src (i + 1); ok (a + b * 256)

-- `*(uint32_t *)(src + i)`
unfoldable pub read_u32 : Bytes → ℕ → Result ℕ
unfolding read_u16
read_u32 src i = do a ← read_u16 src i; b ← read_u16 src (i + 2); ok (a + b * 65536)

-- The bytes of a stored word.
abbrev pub u16_bytes : ℕ → Bytes
u16_bytes n = n % 256 ∷ n / 256 % 256 ∷ []

abbrev pub u32_bytes : ℕ → Bytes
u32_bytes n = n % 256 ∷ n / 256 % 256 ∷ n / 65536 % 256 ∷ n / 16777216 % 256 ∷ []

-- `memcpy` of `n` bytes out of `src + i`
unfoldable pub copy_from : Bytes → ℕ → ℕ → Result Bytes
copy_from src i n =
    if ltb (length src) (i + n) then fault out_of_bounds else ok (take n (drop i src))

-- The buffer after `bs` was written at its start, and at the offset `i`.
unfoldable pub write : Bytes → Bytes → Bytes
write [] mem = mem
write (b ∷ bs) [] = []
write (b ∷ bs) (m ∷ mem) = b ∷ write bs mem

unfoldable pub write_at : Bytes → ℕ → Bytes → Bytes
unfolding write
write_at [] i bs = []
write_at (m ∷ mem) zero bs = write bs (m ∷ mem)
write_at (m ∷ mem) (suc i) bs = m ∷ write_at mem i bs

-- The text up to the first 0: a C string runs on until it meets one.
unfoldable pub c_string : Bytes → Result Bytes
c_string [] = fault out_of_bounds
c_string (b ∷ bs) = elim (b == 0) [ true ↦ ok [] | false ↦ c_string bs >>= λ s. ok (b ∷ s) ]

unfoldable pub bytes_eq : Bytes → Bytes → Bool
bytes_eq [] [] = true
bytes_eq (a ∷ as_) (b ∷ bs) = a == b && bytes_eq as_ bs
bytes_eq _ _ = false

-- The code points of an ASCII constant.
abbrev pub codes : String → Bytes
codes String.[] = []
codes (String.◌∷◌ letter text) = code letter ∷ codes text

pub bytes_eq→eq : (a b : Bytes) → bytes_eq a b ≡ true → a ≡ b
unfolding bytes_eq
bytes_eq→eq [] [] h = refl
bytes_eq→eq [] (b ∷ bs) h = ground arith
bytes_eq→eq (a ∷ as_) [] h = ground arith
bytes_eq→eq (a ∷ as_) (b ∷ bs) h = ground (arith, bytes_eq→eq as_ bs)

pub bytes_eq_self : (a : Bytes) → bytes_eq a a ≡ true
unfolding bytes_eq
bytes_eq_self [] = refl
bytes_eq_self (a ∷ as_) = ground (arith, bytes_eq_self as_)

-- Every byte of the buffer is written over if as many are written.
pub write_full : (bs mem : Bytes) → length mem ≡ length bs → write bs mem ≡ bs
unfolding write
write_full [] [] h = refl
write_full [] (m ∷ mem) h = ground arith
write_full (b ∷ bs) [] h = ground arith
write_full (b ∷ bs) (m ∷ mem) h = ground (arith, write_full bs mem)

-- A text without 0.
abbrev pub IsText : Bytes → Type 0
IsText [] = Unit {0}
IsText (b ∷ bs) = (0 < b) × IsText bs

pub write_at_zero : (mem bs : Bytes) → write_at mem 0 bs ≡ write bs mem
unfolding write_at write
write_at_zero [] [] = refl
write_at_zero [] (b ∷ bs) = refl
write_at_zero (m ∷ mem) bs = refl
