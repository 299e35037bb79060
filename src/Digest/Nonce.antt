-- ===== src/Digest/Nonce.antt =====
-- The nonce count that ComputeResponse writes.
use rtsp_proxy.Digest.{Digest, hex_digit, hex, nc_string, compute_response}
use rtsp_proxy.Prelude.{
  ℕ, zero, suc, ◌+◌, ◌-◌, ◌*◌, ◌/◌, ◌%◌, ◌^◌, ◌<◌, ◌≡◌, ◌≢◌, refl, ap, sym, ◌∙◌, arith, true, [],
  ◌∷◌, Bytes, codes, ltb, if◌then◌else◌, length,
}
use rtsp_proxy.Text.{equal_fold}

-- The digits are read back, the first one first.
abbrev unhex_digit : ℕ → ℕ
unhex_digit c = if ltb c b'a' then c - b'0' else c - b'a' + 10

abbrev pub unhex : ℕ → Bytes → ℕ
unhex seen [] = seen
unhex seen (c ∷ cs) = unhex (seen * 16 + unhex_digit c) cs

unhex_hex_digit : (d : ℕ) → d < 16 → unhex_digit (hex_digit d) ≡ d
unhex_hex_digit d h = ground arith

abbrev sixteens : ℕ → ℕ
sixteens zero = 1
sixteens (suc k) = 16 * sixteens k

-- `k` digits of `n` in front of `out`.
unhex-hex :
    (k n seen : ℕ) (out : Bytes)
    → n < sixteens k
    → unhex seen (hex k n out) ≡ unhex (seen * sixteens k + n) out
unfolding hex
unhex-hex zero n seen out h = ap (λ v. unhex v out) (omega arith)
unhex-hex (suc k) n seen out h =
    unhex-hex k (n / 16) seen (hex_digit (n % 16) ∷ out) (omega arith)
    ∙ ap (λ v. unhex ((seen * sixteens k + n / 16) * 16 + v) out)
        (unhex_hex_digit (n % 16) (omega arith))
    ∙ ap (λ v. unhex v out) (omega arith)

length-hex : (k n : ℕ) (out : Bytes) → length (hex k n out) ≡ k + length out
unfolding hex
length-hex zero n out = omega arith
length-hex (suc k) n out = omega (arith, length-hex k (n / 16) (hex_digit (n % 16) ∷ out))

-- The count is written in eight hexadecimal digits, and can be read back from them.
pub nc_string-digits :
    (nc : ℕ) → nc < 2 ^ 32 → (length (nc_string nc) ≡ 8) × (unhex 0 (nc_string nc) ≡ nc)
unfolding nc_string
nc_string-digits nc h = (length-hex 8 nc [], unhex-hex 8 nc 0 [] (omega arith) ∙ omega arith)

-- `k` further calls on a digest, for the same request.
unfoldable pub calls : (Bytes → Bytes) → Bytes → Digest → Bytes → Bytes → ℕ → Digest
calls md5_hex cnonce d cmd uri zero = d
calls md5_hex cnonce d cmd uri (suc k) =
    (compute_response md5_hex cnonce (calls md5_hex cnonce d cmd uri k) cmd uri).0

-- The nonce count in the answer of the call after these.
abbrev pub count_after : (Bytes → Bytes) → Bytes → Digest → Bytes → Bytes → ℕ → Bytes
count_after md5_hex cnonce d cmd uri k =
    (compute_response md5_hex cnonce (calls md5_hex cnonce d cmd uri k) cmd uri).1.1

module _ (md5_hex : Bytes → Bytes) (cnonce : Bytes) (d : Digest) (cmd uri : Bytes) where
  calls-qop : (k : ℕ) → (calls md5_hex cnonce d cmd uri k).qop ≡ d.qop
  unfolding calls compute_response
  calls-qop zero = refl
  calls-qop (suc k) = ground (arith, calls-qop k)

  calls-nc :
      (k : ℕ)
      → equal_fold d.qop (codes "auth") ≡ true
      → d.nc < 2 ^ 32
      → (calls md5_hex cnonce d cmd uri k).nc ≡ (d.nc + k) % 2 ^ 32
  unfolding calls compute_response
  calls-nc zero h l = omega arith
  calls-nc (suc k) h l =
      rw (ap (λ q. equal_fold q (codes "auth")) (calls-qop k) ∙ h, calls)
        (omega (arith, calls-nc k h l))

  count_after-nc :
      (k : ℕ)
      → equal_fold d.qop (codes "auth") ≡ true
      → d.nc < 2 ^ 32
      → count_after md5_hex cnonce d cmd uri k ≡ nc_string ((d.nc + k + 1) % 2 ^ 32)
  unfolding compute_response
  count_after-nc k h l =
      rw (ap (λ q. equal_fold q (codes "auth")) (calls-qop k) ∙ h, count_after)
        (ap nc_string (omega (arith, calls-nc k h l)))

-- With qop "auth", in whatever case, no two of 2^32 consecutive answers to the same nonce carry
-- the same nonce count, though the counter wraps around.
pub count_after-distinct :
    (md5_hex : Bytes → Bytes) (cnonce : Bytes) (d : Digest) (cmd uri : Bytes) (i j : ℕ)
    → equal_fold d.qop (codes "auth") ≡ true
    → d.nc < 2 ^ 32
    → i < j
    → j < i + 2 ^ 32
    → count_after md5_hex cnonce d cmd uri i ≢ count_after md5_hex cnonce d cmd uri j
count_after-distinct md5_hex cnonce d cmd uri i j h l lo hi e =
    let same : nc_string ((d.nc + i + 1) % 2 ^ 32) ≡ nc_string ((d.nc + j + 1) % 2 ^ 32) =
      sym (count_after-nc md5_hex cnonce d cmd uri i h l)
      ∙ e
      ∙ count_after-nc md5_hex cnonce d cmd uri j h l in
    absurd (
      omega (
        arith,
        sym ((nc_string-digits ((d.nc + i + 1) % 2 ^ 32) (omega arith)).1)
            ∙ ap (unhex 0) same
            ∙ (nc_string-digits ((d.nc + j + 1) % 2 ^ 32) (omega arith)).1,
      ))
