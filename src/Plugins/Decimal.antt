-- ===== src/Plugins/Decimal.antt =====
-- `strconv.ParseInt(s, 10, 32)` and `fmt.Sprintf("%d", n)` at Go's `int`.
pub mod RoundTrip
use ocp_efa_operator.Prelude.{
  ℕ, zero, suc, ◌+◌, ◌-◌, ◌*◌, ◌/◌, ◌%◌, ◌^◌, Bool, true, false, ◌&&◌, Option, none, some, List, [],
  ◌∷◌, ltb, leb, ◌==◌, if◌then◌else◌,
}
use ocp_efa_operator.Plugins.Text.{Bytes}

pub data ℤ : Type 0 where
  pos negsuc : ℕ → ℤ

abbrev pub neg : ℕ → ℤ
neg zero = pos 0
neg (suc n) = negsuc n

abbrev pub is_digit : ℕ → Bool
is_digit c = leb b'0' c && leb c b'9'

abbrev pub max_u32 : ℕ
max_u32 = 2 ^ 32 - 1

abbrev pub cutoff : ℕ
cutoff = 2 ^ 31

-- the loop of `ParseUint`; the number is at most 2^32 - 1 before each round, so that
-- `n*10 + d` does not wrap around in its uint64
unfoldable pub scan : Bytes → ℕ → Option ℕ
scan [] n = some n
scan (c ∷ s) n =
    let n1 = n * 10 + (c - b'0') in
    let rest = scan s n1 in if is_digit c && leb n1 max_u32 then rest else none

abbrev pub parse_uint : Bytes → Option ℕ
parse_uint [] = none
parse_uint (c ∷ s) = scan (c ∷ s) 0

abbrev pub with_sign : Bool → Option ℕ → Option ℤ
with_sign negative none = none
with_sign false (some un) = if ltb un cutoff then some (pos un) else none
with_sign true (some un) = if leb un cutoff then some (neg un) else none

-- `none` for a syntax error and for a number out of range
unfoldable pub parse_int : Bytes → Option ℤ
parse_int [] = none
parse_int (c ∷ s) =
    if c == b'-'
    then with_sign true (parse_uint s)
    else if c == b'+'
    then with_sign false (parse_uint s)
    else with_sign false (parse_uint (c ∷ s))

-- the digits of `n` in front of `out`, on fuel for the number of digits
unfoldable pub print_digits : ℕ → ℕ → Bytes → Bytes
print_digits zero n out = out
print_digits (suc fuel) n out =
    let longer = print_digits fuel (n / 10) ((b'0' + n % 10) ∷ out) in
    if ltb n 10 then (b'0' + n) ∷ out else longer

unfoldable pub format_int : ℤ → Bytes
format_int (pos n) = print_digits (suc n) n []
format_int (negsuc n) = b'-' ∷ print_digits (suc (suc n)) (suc n) []
