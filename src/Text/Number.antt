-- ===== src/Text/Number.antt =====
-- strconv.Itoa and strconv.Atoi with a 64-bit `int`: what Atoi returns on a syntax error and on a
-- number out of range is written out, since the proxy mostly ignores the error.
pub mod RoundTrip
use rtsp_proxy.Prelude.Int.{ℤ, pos, negsuc, max_int}
use rtsp_proxy.Prelude.{
  ℕ, zero, suc, ◌+◌, ◌-◌, ◌*◌, ◌/◌, ◌%◌, ◌^◌, ◌≤◌, ◌<◌, Bool, true, false, ◌&&◌, [], ◌∷◌, ◌≡◌,
  arith, Bytes, ◌==◌, leb, ltb, if◌then◌else◌,
}

-- The decimal digits of `n` in front of `out`; `suc n` rounds are enough.
unfoldable pub digits : ℕ → ℕ → Bytes → Bytes
digits zero n out = out
digits (suc fuel) n out =
    let d = b'0' + n % 10 in
    let rest = digits fuel (n / 10) (d ∷ out) in if n / 10 == 0 then d ∷ out else rest

unfoldable pub itoa_nat : ℕ → Bytes
unfolding digits
itoa_nat n = digits (suc n) n []

unfoldable pub itoa : ℤ → Bytes
unfolding itoa_nat
itoa (pos n) = itoa_nat n
itoa (negsuc n) = b'-' ∷ itoa_nat (suc n)

-- An outcome of strconv.ParseUint.
pub data Scan : Type 0 where
  number : ℕ → Scan
  bad_syntax too_large : Scan

abbrev pub is_digit : ℕ → Bool
is_digit c = leb b'0' c && leb c b'9'

abbrev pub max_uint : ℕ
max_uint = 2 ^ 64 - 1

-- The loop stops at the first byte that is no digit, and at the first value past 64 bits.
unfoldable pub scan : Bytes → ℕ → Scan
scan [] n = number n
scan (c ∷ s) n =
    let m = n * 10 + (c - b'0') in
    let rest = scan s m in
    if is_digit c then (if ltb max_uint m then too_large else rest) else bad_syntax

unfoldable pub parse_uint : Bytes → Scan
unfolding scan
parse_uint [] = bad_syntax
parse_uint (c ∷ s) = scan (c ∷ s) 0

-- What `n, err := strconv.Atoi(s)` returns: the number, and whether err is nil.
pub record Atoi : Type 0 where
  pub value : ℤ
  pub fine : Bool

abbrev min_int : ℤ
min_int = negsuc max_int

unfoldable pub signed : Bool → Scan → Atoi
signed neg bad_syntax = record { value = pos 0; fine = false }
signed true too_large = record { value = min_int; fine = false }
signed false too_large = record { value = pos max_int; fine = false }
signed false (number n) =
    if ltb max_int n
    then record { value = pos max_int; fine = false }
    else record { value = pos n; fine = true }
signed true (number zero) = record { value = pos 0; fine = true }
signed true (number (suc n)) =
    if ltb max_int n
    then record { value = min_int; fine = false }
    else record { value = negsuc n; fine = true }

unfoldable pub atoi : Bytes → Atoi
unfolding signed parse_uint
atoi [] = record { value = pos 0; fine = false }
atoi (c ∷ s) =
    if c == b'-'
    then signed true (parse_uint s)
    else if c == b'+'
    then signed false (parse_uint s)
    else signed false (parse_uint (c ∷ s))

-- Reading the last digit of `n` after the digits before it gives `n`.
scan_last :
    (n : ℕ) (out : Bytes) → n ≤ max_uint → scan ((b'0' + n % 10) ∷ out) (n / 10) ≡ scan out n
unfolding scan
scan_last n out h = ground arith

scan-digits :
    (fuel n : ℕ) (out : Bytes) → n < fuel → n ≤ max_uint → scan (digits fuel n out) 0 ≡ scan out n
unfolding digits
scan-digits zero n out h fits = absurd (omega arith)
scan-digits (suc fuel) n out h fits =
    ground (arith, scan_last n out fits, scan-digits fuel (n / 10) ((b'0' + n % 10) ∷ out))
