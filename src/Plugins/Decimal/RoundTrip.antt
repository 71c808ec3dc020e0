-- ===== src/Plugins/Decimal/RoundTrip.antt =====
-- `ParseInt` reads what `Sprintf` printed.
use ocp_efa_operator.Prelude.{
  ℕ, zero, suc, ◌+◌, ◌/◌, ◌%◌, ◌≤◌, ◌<◌, true, some, [], ◌∷◌, ◌≡◌, refl, arith, ltb, Bool-cases,
  inl, inr,
}
use ocp_efa_operator.Plugins.Text.{Bytes}
use ocp_efa_operator.Plugins.Decimal.{
  ℤ, pos, negsuc, is_digit, max_u32, cutoff, scan, parse_uint, parse_int, print_digits, format_int,
}

-- a number that ParseInt accepts at 32 bits
abbrev pub IsInt32 : ℤ → Type 0
IsInt32 (pos n) = n < cutoff
IsInt32 (negsuc n) = n < cutoff

scan-print_digits :
    (fuel n : ℕ) (out : Bytes)
    → n < fuel
    → n ≤ max_u32
    → scan (print_digits fuel n out) 0 ≡ scan out n
unfolding scan print_digits
scan-print_digits zero n out h k = absurd (omega arith)
scan-print_digits (suc fuel) n out h k =
    ground (arith, scan-print_digits fuel (n / 10) ((b'0' + n % 10) ∷ out))

-- the digits are there, and begin with one
print_digits_first :
    (fuel n : ℕ) (out : Bytes)
    → n < fuel
    → (c : ℕ) × (s : Bytes) × (print_digits fuel n out ≡ c ∷ s) × (is_digit c ≡ true)
unfolding print_digits
print_digits_first zero n out h = absurd (omega arith)
print_digits_first (suc fuel) n out h = elim (Bool-cases (ltb n 10)) [
  | inl short ↦ (b'0' + n, out, rw short refl, ground arith)
  | inr long ↦
      let (c, s, e, d) = print_digits_first fuel (n / 10) ((b'0' + n % 10) ∷ out) (ground arith) in
      (c, s, rw long e, d)
]

parse_uint-print_digits :
    (fuel n : ℕ) → n < fuel → n ≤ max_u32 → parse_uint (print_digits fuel n []) ≡ some n
unfolding scan
parse_uint-print_digits fuel n h k =
    let (c, s, e, d) = print_digits_first fuel n [] h in
    rw e (rw e at (scan-print_digits fuel n [] h k))

-- `ParseInt` at 32 bits reads back every number of 32 bits that `Sprintf` has printed.
pub parse_int-format_int : (n : ℤ) → IsInt32 n → parse_int (format_int n) ≡ some n
unfolding parse_int format_int scan
parse_int-format_int (pos n) h =
    let (c, s, e, d) = print_digits_first (suc n) n [] (omega arith) in
    rw e (ground (arith, rw e at (parse_uint-print_digits (suc n) n (omega arith) (omega arith))))
parse_int-format_int (negsuc n) h =
    ground (arith, parse_uint-print_digits (suc (suc n)) (suc n) (omega arith) (omega arith))
