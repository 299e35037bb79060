-- ===== src/Message/Lines.antt =====
-- What sharedLineSplit returns, and what it does on a line with its end behind it.
use rtsp_proxy.Message.{is_eol, skip_eol, line_split}
use rtsp_proxy.Prelude.{
  ℕ, ◌≤◌, ◌<◌, true, false, [], ◌∷◌, ◌++◌, ◌≡◌, ◌≢◌, ◌⊎◌, inl, inr, refl, ap, arith, Bytes, ◌==◌,
  All, length, Bool-cases,
}

abbrev pub IsLine : Bytes → Type 0
IsLine = All (λ c. is_eol c ≡ false)

-- A line end, and that it is the longest one: a lone CR is not followed by LF.
pub data LineEnd (rest : Bytes) : Bytes → Type 0 where
  lf : LineEnd rest (b'\n' ∷ [])
  crlf : LineEnd rest (b'\r' ∷ b'\n' ∷ [])
  cr : ((r : Bytes) → rest ≢ b'\n' ∷ r) → LineEnd rest (b'\r' ∷ [])

pub record Splits (buf rest line : Bytes) : Type 0 where
  pub clean : IsLine line
  pub pieces :
      ((buf ≡ line) × (rest ≡ []))
      ⊎ ((eol : Bytes) × LineEnd rest eol × (buf ≡ line ++ (eol ++ rest)))

skip_eol-LineEnd :
    (c : ℕ) (cs : Bytes)
    → is_eol c ≡ true
    → (eol : Bytes) × LineEnd (skip_eol c cs) eol × (c ∷ cs ≡ eol ++ skip_eol c cs)
unfolding skip_eol
skip_eol-LineEnd c [] h = elim (Bool-cases (c == b'\r')) [
  | inl e ↦ (b'\r' ∷ [], cr (λ r q. cc), ground arith)
  | inr e ↦ (b'\n' ∷ [], lf, ground arith)
]
skip_eol-LineEnd c (d ∷ ds) h = elim (Bool-cases (c == b'\r')) [
  | inl e ↦ elim (Bool-cases (d == b'\n')) [
    | inl f ↦ rw (e, f) (b'\r' ∷ b'\n' ∷ [], crlf, ground arith)
    | inr f ↦ rw (e, f) (b'\r' ∷ [], cr (λ r q. ground arith), ground arith)
  ]
  | inr e ↦ rw e (b'\n' ∷ [], lf, ground arith)
]

-- sharedLineSplit cuts its buffer at the first line end, CR, LF or CR LF, which it takes whole:
-- the line holds no line end, and line, line end and rest make up the buffer. With no line end
-- in the buffer, the line is all of it.
pub line_split-Splits : (buf : Bytes) → Splits buf (line_split buf).0 (line_split buf).1
unfolding line_split
line_split-Splits [] = record { clean = tt; pieces = inl (refl, refl) }
line_split-Splits (c ∷ cs) = elim (Bool-cases (is_eol c)) [
  | inl e ↦ rw e (record { clean = tt; pieces = inr (skip_eol-LineEnd c cs e) })
  | inr e ↦
      let ih = line_split-Splits cs in
      rw e (record {
        clean = (e, ih.clean);
        pieces = elim ih.pieces [
          | inl (p, q) ↦ inl (ap (◌∷◌ c) p, q)
          | inr (eol, l, p) ↦ inr (eol, l, ap (◌∷◌ c) p)
        ];
      })
]

-- A line with CR LF behind it is read back, with the text after it as the rest.
pub line_split-append :
    (line rest : Bytes) → IsLine line → line_split (line ++ (b'\r' ∷ b'\n' ∷ rest)) ≡ (rest, line)
unfolding line_split
line_split-append [] rest h = refl
line_split-append (c ∷ cs) rest h = rw (h.0, line_split-append cs rest h.1)

skip_eol-le : (c : ℕ) (cs : Bytes) → length (skip_eol c cs) ≤ length cs
unfolding skip_eol
skip_eol-le c [] = omega arith
skip_eol-le c (d ∷ ds) = ground arith

pub line_split-le : (buf : Bytes) → length (line_split buf).0 ≤ length buf
unfolding line_split
line_split-le [] = omega arith
line_split-le (c ∷ cs) = ground (arith, line_split-le cs, skip_eol-le c cs)

-- A line that is not empty leaves a shorter rest, so the header loops end.
pub line_split-lt : (buf : Bytes) → (line_split buf).1 ≢ [] → length (line_split buf).0 < length buf
unfolding line_split
line_split-lt [] h = absurd (h refl)
line_split-lt (c ∷ cs) h = ground (arith, line_split-le cs, skip_eol-le c cs)
