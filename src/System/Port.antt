-- ===== src/System/Port.antt =====
-- The port as text, which `std::to_string` gives.
use woeful.Base.{
  ℕ, zero, suc, ◌+◌, ◌-◌, ◌*◌, ◌/◌, ◌%◌, ◌^◌, ◌<◌, ◌≤◌, ◌≡◌, All, ap, ◌∙◌, ==_iff, Bool-cases, inl,
  inr, [], ◌∷◌, ◌==◌, Bytes, IsU16, arith,
}
use native.Mathlib.Nat.{pow-suc}
use woeful.System.{decimal, to_string}

-- The number that decimal digits stand for, behind the digits of `n`.
pub read_decimal : ℕ → Bytes → ℕ
read_decimal n [] = n
read_decimal n (d ∷ ds) = read_decimal (n * 10 + (d - b'0')) ds

last_digit : (n : ℕ) → n / 10 ≡ 0 → 0 * 10 + (n % 10 + b'0' - b'0') ≡ n
last_digit n h = omega arith

next_digit : (n : ℕ) → n / 10 * 10 + (n % 10 + b'0' - b'0') ≡ n
next_digit n = omega arith

shorter : (n p : ℕ) → n < p * 10 → n / 10 < p
shorter n p h = omega arith

read_decimal-decimal :
    (fuel n : ℕ) (acc : Bytes)
    → n < 10 ^ fuel
    → read_decimal 0 (decimal fuel n acc) ≡ read_decimal n acc
unfolding read_decimal decimal
read_decimal-decimal zero n acc h = ap (λ k. read_decimal k acc) (let e : 0 ≡ n = omega arith in e)
read_decimal-decimal (suc fuel) n acc h = elim (Bool-cases (n / 10 == 0)) [
  | inl e ↦ rw e (ap (λ k. read_decimal k acc) (last_digit n ((==_iff (n / 10) 0).0 e)))
  | inr e ↦ rw e (
      read_decimal-decimal fuel (n / 10) _ (shorter n (10 ^ fuel) (rw pow-suc at h))
      ∙ ap (λ k. read_decimal k acc) (next_digit n))
]

pub read_decimal-to_string : (port : ℕ) → IsU16 port → read_decimal 0 (to_string port) ≡ port
unfolding to_string read_decimal
read_decimal-to_string port h = read_decimal-decimal 5 port [] (omega arith)

abbrev pub IsDigit : ℕ → Type 0
IsDigit d = (b'0' ≤ d) × (d ≤ b'9')

decimal-IsDigit : (fuel n : ℕ) (acc : Bytes) → All IsDigit acc → All IsDigit (decimal fuel n acc)
unfolding decimal
decimal-IsDigit zero n acc v = v
decimal-IsDigit (suc fuel) n acc v =
    let digits : All IsDigit ((n % 10 + b'0') ∷ acc) = ((omega arith, omega arith), v) in
    elim (Bool-cases (n / 10 == 0)) [
      | inl e ↦ rw e digits
      | inr e ↦ rw e (decimal-IsDigit fuel (n / 10) _ digits)
    ]

pub to_string-IsDigit : (port : ℕ) → All IsDigit (to_string port)
unfolding to_string
to_string-IsDigit port = decimal-IsDigit 5 port [] tt
