-- ===== src/Tracks/Resolved.antt =====
-- The control URL of a track against the base, in parseTracks of rtspproxy/stream.go.
use mathlib.Core.List.{reverse, reverse-append, reverse-reverse}
use rtsp_proxy.Prelude.{
  ℕ, zero, suc, ◌≡◌, refl, sym, ap, ◌∙◌, arith, true, false, [], ◌∷◌, ◌++◌, Bytes, codes, ◌==◌,
}
use rtsp_proxy.Text.{has_prefix, trim_left, trim_right}
use rtsp_proxy.Tracks.{resolve_track}

abbrev pub slashes : ℕ → Bytes
slashes zero = []
slashes (suc n) = b'/' ∷ slashes n

abbrev pub NoSlashFirst : Bytes → Type 0
NoSlashFirst [] = Unit
NoSlashFirst (c ∷ cs) = (c == b'/') ≡ false

-- What a control URL stands for: itself when it is absolute or the base is not, and otherwise the
-- base, one slash and the control URL, whatever slashes the two have had between them.
pub data Resolves (base : Bytes) : Bytes → Bytes → Type 0 where
  absolute : (rest : Bytes) → Resolves base (codes "rtsp://" ++ rest) (codes "rtsp://" ++ rest)
  no_base :
      {control : Bytes} → has_prefix base (codes "rtsp://") ≡ false → Resolves base control control
  put_together :
      (front : Bytes) (last n j : ℕ) (name : Bytes)
      → base ≡ (front ++ last ∷ []) ++ slashes n
      → (last == b'/') ≡ false
      → has_prefix base (codes "rtsp://") ≡ true
      → NoSlashFirst name
      → has_prefix (slashes j ++ name) (codes "rtsp://") ≡ false
      → Resolves base (slashes j ++ name) ((front ++ last ∷ []) ++ (b'/' ∷ name))

trim_left-none : (t : Bytes) → NoSlashFirst t → trim_left t b'/' ≡ t
unfolding trim_left
trim_left-none [] h = refl
trim_left-none (c ∷ cs) h = rw h refl

trim_left-slashes : (n : ℕ) (t : Bytes) → NoSlashFirst t → trim_left (slashes n ++ t) b'/' ≡ t
unfolding trim_left
trim_left-slashes zero t h = trim_left-none t h
trim_left-slashes (suc n) t h = trim_left-slashes n t h

slashes-append : (n : ℕ) → slashes n ++ b'/' ∷ [] ≡ b'/' ∷ slashes n
slashes-append zero = refl
slashes-append (suc n) = ap (◌∷◌ b'/') (slashes-append n)

reverse-slashes : (n : ℕ) → reverse (slashes n) ≡ slashes n
reverse-slashes zero = refl
reverse-slashes (suc n) =
    reverse-append (b'/' ∷ []) (slashes n)
    ∙ ap (λ (t : Bytes). t ++ b'/' ∷ []) (reverse-slashes n)
    ∙ slashes-append n

trim_right-slashes :
    (front : Bytes) (last n : ℕ)
    → (last == b'/') ≡ false
    → trim_right ((front ++ last ∷ []) ++ slashes n) b'/' ≡ front ++ last ∷ []
unfolding trim_right
trim_right-slashes front last n h =
    let kept = front ++ last ∷ [] in
    let turned : reverse kept ≡ last ∷ reverse front = reverse-append front (last ∷ []) in
    ap (λ (t : Bytes). reverse (trim_left t b'/'))
      (reverse-append kept (slashes n)
        ∙ ap (λ (t : Bytes). t ++ reverse kept) (reverse-slashes n)
        ∙ ap (λ (t : Bytes). slashes n ++ t) turned)
    ∙ ap reverse (trim_left-slashes n (last ∷ reverse front) h ∙ sym turned)
    ∙ reverse-reverse kept

absolute_kept :
    (base rest : Bytes) → resolve_track base (codes "rtsp://" ++ rest) ≡ codes "rtsp://" ++ rest
unfolding resolve_track has_prefix
absolute_kept base rest = refl

no_base_kept :
    (base control : Bytes)
    → has_prefix base (codes "rtsp://") ≡ false
    → resolve_track base control ≡ control
unfolding resolve_track
no_base_kept base control h = rw h (ground arith)

joined_up :
    (base control : Bytes)
    → has_prefix base (codes "rtsp://") ≡ true
    → has_prefix control (codes "rtsp://") ≡ false
    → resolve_track base control ≡ trim_right base b'/' ++ (b'/' ∷ trim_left control b'/')
unfolding resolve_track
joined_up base control h k = rw (h, k) refl

pub resolve_track-Resolves :
    (base control track : Bytes) → Resolves base control track → resolve_track base control ≡ track
resolve_track-Resolves base _ _ (absolute rest) = absolute_kept base rest
resolve_track-Resolves base control _ (no_base h) = no_base_kept base control h
resolve_track-Resolves base _ _ (put_together front last n j name e h b f k) =
    joined_up base (slashes j ++ name) b k
    ∙ ap (λ (t : Bytes). t ++ (b'/' ∷ trim_left (slashes j ++ name) b'/'))
        (ap (λ (t : Bytes). trim_right t b'/') e ∙ trim_right-slashes front last n h)
    ∙ ap (λ (t : Bytes). (front ++ last ∷ []) ++ (b'/' ∷ t)) (trim_left-slashes j name f)
