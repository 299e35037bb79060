-- ===== src/Text/Split.antt =====
-- strings.Split on a text that is made of pieces without the separator.
use rtsp_proxy.Prelude.Int.{ℤ, pos, negsuc}
use rtsp_proxy.Prelude.{
  ℕ, suc, ◌≡◌, refl, ap, ◌∙◌, arith, false, List, [], ◌∷◌, ◌++◌, Bytes, All, ◌==◌, eq_refl,
}
use rtsp_proxy.Text.Number.RoundTrip.{IsDigit, itoa_nat-IsDigit}
use rtsp_proxy.Text.Number.{itoa, itoa_nat}
use rtsp_proxy.Text.{grow, split}

-- The byte does not occur in the text.
abbrev pub HasNo : ℕ → Bytes → Type 0
HasNo b = All (λ c. (c == b) ≡ false)

pub split-append :
    (sep : ℕ) (a t : Bytes) → HasNo sep a → split (a ++ (sep ∷ t)) sep ≡ a ∷ split t sep
unfolding split
split-append sep [] t h = rw (eq_refl sep) refl
split-append sep (c ∷ a) t h = rw h.0 (ap (grow c) (split-append sep a t h.1))

pub split-whole : (sep : ℕ) (a : Bytes) → HasNo sep a → split a sep ≡ a ∷ []
unfolding split
split-whole sep [] h = refl
split-whole sep (c ∷ a) h = rw h.0 (ap (grow c) (split-whole sep a h.1))

pub split-two :
    (sep : ℕ) (a b : Bytes) → HasNo sep a → HasNo sep b → split (a ++ (sep ∷ b)) sep ≡ a ∷ b ∷ []
split-two sep a b h k =
    split-append sep a b h ∙ ap (λ (ps : List Bytes). a ∷ ps) (split-whole sep b k)

itoa-HasNo : (sep n : ℕ) → ((d : ℕ) → IsDigit d → (d == sep) ≡ false) → HasNo sep (itoa (pos n))
unfolding itoa
itoa-HasNo sep n h = digits-HasNo (itoa_nat n) (itoa_nat-IsDigit n)
  where
    digits-HasNo : (s : Bytes) → All IsDigit s → HasNo sep s
    digits-HasNo [] k = tt
    digits-HasNo (c ∷ s) k = (h c k.0, digits-HasNo s k.1)

pub itoa-HasNo_dash : (n : ℕ) → HasNo b'-' (itoa (pos n))
itoa-HasNo_dash n = itoa-HasNo b'-' n (λ d k. ground arith)

pub itoa-HasNo_semicolon : (n : ℕ) → HasNo b';' (itoa (pos n))
itoa-HasNo_semicolon n = itoa-HasNo b';' n (λ d k. ground arith)

pub itoa-HasNo_newline : (n : ℤ) → HasNo b'\n' (itoa n)
unfolding itoa
itoa-HasNo_newline (pos n) = itoa-HasNo b'\n' n (λ d k. ground arith)
itoa-HasNo_newline (negsuc n) = (refl, itoa-HasNo b'\n' (suc n) (λ d k. ground arith))
