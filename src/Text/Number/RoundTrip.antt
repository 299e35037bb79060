-- ===== src/Text/Number/RoundTrip.antt =====
-- strconv.Itoa and strconv.Atoi against each other.
use mathlib.Core.List.{cons-ne-nil}
use rtsp_proxy.Prelude.Int.{pos, negsuc, max_int}
use rtsp_proxy.Text.Number.{
  digits, itoa_nat, itoa, number, max_uint, scan, scan-digits, parse_uint, signed, atoi,
}
use rtsp_proxy.Prelude.{
  ℕ, zero, suc, ◌+◌, ◌/◌, ◌%◌, ◌≤◌, true, false, [], ◌∷◌, ◌≡◌, ◌≢◌, refl, arith, Bytes, All,
}

abbrev pub IsDigit : ℕ → Type 0
IsDigit c = (b'0' ≤ c) × (c ≤ b'9')

pub digits-IsDigit : (fuel n : ℕ) (out : Bytes) → All IsDigit out → All IsDigit (digits fuel n out)
unfolding digits
digits-IsDigit zero n out h = h
digits-IsDigit (suc fuel) n out h =
    ground (arith, digits-IsDigit fuel (n / 10) ((b'0' + n % 10) ∷ out))

pub itoa_nat-IsDigit : (n : ℕ) → All IsDigit (itoa_nat n)
unfolding itoa_nat
itoa_nat-IsDigit n = digits-IsDigit (suc n) n [] tt

digits-ne-nil : (fuel n : ℕ) (out : Bytes) → out ≢ [] → digits fuel n out ≢ []
unfolding digits
digits-ne-nil zero n out h = h
digits-ne-nil (suc fuel) n out h =
    ground (arith, digits-ne-nil fuel (n / 10) _ (cons-ne-nil (b'0' + n % 10) out))

pub itoa_nat-ne-nil : (n : ℕ) → itoa_nat n ≢ []
unfolding itoa_nat digits
itoa_nat-ne-nil n = ground (arith, digits-ne-nil n (n / 10) _ (cons-ne-nil (b'0' + n % 10) []))

scan-itoa_nat : (n : ℕ) → n ≤ max_uint → scan (itoa_nat n) 0 ≡ number n
unfolding itoa_nat
scan-itoa_nat n h = ground (arith, scan-digits (suc n) n [], scan_nil n)
  where
    scan_nil : (k : ℕ) → scan [] k ≡ number k
    scan_nil k = unfold scan in refl

parse_uint-scan : (s : Bytes) → s ≢ [] → parse_uint s ≡ scan s 0
unfolding parse_uint
parse_uint-scan [] h = absurd (h refl)
parse_uint-scan (c ∷ s) h = refl

-- A text that starts with a digit has no sign.
atoi_unsigned : (s : Bytes) → s ≢ [] → All IsDigit s → atoi s ≡ signed false (parse_uint s)
unfolding atoi
atoi_unsigned [] h d = absurd (h refl)
atoi_unsigned (c ∷ s) h d = ground arith

pub atoi-itoa_nat :
    (n : ℕ) → n ≤ max_int → atoi (itoa_nat n) ≡ record { value = pos n; fine = true }
unfolding signed
atoi-itoa_nat n h =
    rw
      (
        atoi_unsigned (itoa_nat n) (itoa_nat-ne-nil n) (itoa_nat-IsDigit n),
        parse_uint-scan (itoa_nat n) (itoa_nat-ne-nil n),
        scan-itoa_nat n (omega arith),
      )
      (ground arith)

-- Every 64-bit `int` that is printed is read back.
pub atoi-itoa_pos :
    (n : ℕ) → n ≤ max_int → atoi (itoa (pos n)) ≡ record { value = pos n; fine = true }
unfolding itoa
atoi-itoa_pos n h = atoi-itoa_nat n h

pub atoi-itoa_neg :
    (n : ℕ) → n ≤ max_int → atoi (itoa (negsuc n)) ≡ record { value = negsuc n; fine = true }
unfolding itoa atoi signed
atoi-itoa_neg n h =
    rw
      (
        parse_uint-scan (itoa_nat (suc n)) (itoa_nat-ne-nil (suc n)),
        scan-itoa_nat (suc n) (omega arith),
      )
      (ground arith)
