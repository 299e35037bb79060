-- ===== src/Text/Trim.antt =====
-- strings.TrimSpace on texts without white space.
use mathlib.Core.List.{reverse, reverse-cons, reverse-reverse}
use rtsp_proxy.Text.{is_ascii_space, front_space, back_space, trim_with, trim_space}
use rtsp_proxy.Prelude.{
  ℕ, zero, suc, ◌<◌, false, List, [], ◌∷◌, ◌≡◌, refl, arith, Bytes, All, All-append, length,
}

-- ASCII, and no white space.
abbrev pub IsPlain : ℕ → Type 0
IsPlain c = (c < 128) × (is_ascii_space c ≡ false)

pub All-reverse {ℓ κ} : {A : Type ℓ} (P : A → Type κ) (xs : List A) → All P xs → All P (reverse xs)
All-reverse P [] h = h
All-reverse P (x ∷ xs) h =
    rw (reverse-cons x xs) (All-append P (reverse xs) (x ∷ []) (All-reverse P xs h.1) (h.0, tt))

front_space_plain : (s : Bytes) → All IsPlain s → front_space s ≡ 0
front_space_plain [] h = refl
front_space_plain (a ∷ []) h = rw (h.0.1)
front_space_plain (a ∷ b ∷ []) h = ground arith
front_space_plain (a ∷ b ∷ c ∷ s) h = ground arith

back_space_plain : (s : Bytes) → All IsPlain s → back_space s ≡ 0
back_space_plain [] h = refl
back_space_plain (a ∷ []) h = rw (h.0.1)
back_space_plain (a ∷ b ∷ []) h = ground arith
back_space_plain (a ∷ b ∷ c ∷ s) h = ground arith

trim_with_none :
    (space : Bytes → ℕ) (fuel : ℕ) (s : Bytes) → space s ≡ 0 → trim_with space fuel s ≡ s
unfolding trim_with
trim_with_none space zero s h = refl
trim_with_none space (suc fuel) s h = ground arith

pub trim_space_plain : (s : Bytes) → All IsPlain s → trim_space s ≡ s
unfolding trim_space
trim_space_plain s h =
    rw
      (
        trim_with_none front_space (length s) s (front_space_plain s h),
        trim_with_none back_space (length s) (reverse s)
            (back_space_plain (reverse s) (All-reverse IsPlain s h)),
      )
      (reverse-reverse s)

front_space_blank : (s : Bytes) → front_space (b' ' ∷ s) ≡ 1
front_space_blank [] = refl
front_space_blank (a ∷ []) = refl
front_space_blank (a ∷ b ∷ s) = refl

-- A blank in front of plain bytes is dropped.
pub trim_space_blank : (s : Bytes) → All IsPlain s → trim_space (b' ' ∷ s) ≡ s
unfolding trim_space trim_with
trim_space_blank s h =
    rw
      (
        front_space_blank s,
        trim_with_none front_space (length s) s (front_space_plain s h),
        trim_with_none back_space (length s) (reverse s)
            (back_space_plain (reverse s) (All-reverse IsPlain s h)),
      )
      (reverse-reverse s)
