-- ===== src/Message/Length.antt =====
-- sharedParseContentLength of rtspproxy/message.go on printed header blocks.
use rtsp_proxy.Message.{
  matches_at, index_from, index_bytes, matches_folded, length_needle, length_value,
  parse_content_length,
}
use rtsp_proxy.Prelude.Int.{pos, max_int}
use rtsp_proxy.Text.Number.RoundTrip.{IsDigit, itoa_nat-IsDigit, atoi-itoa_nat}
use rtsp_proxy.Text.Number.{itoa_nat, atoi}
use rtsp_proxy.Text.Trim.{IsPlain, trim_space_blank}
use rtsp_proxy.Text.{to_lower, trim_space}
use rtsp_proxy.Prelude.{
  ℕ, suc, ◌+◌, ◌≤◌, true, false, [], ◌∷◌, ◌++◌, ◌≡◌, ◌⊎◌, inl, inr, refl, ap, arith, ◌∙◌, Bytes,
  ◌==◌, some, none, All, length, take, take-append, drop-append, append-nil,
}

abbrev crlf : Bytes
crlf = b'\r' ∷ b'\n' ∷ []

abbrev NoCr : Bytes → Type 0
NoCr = All (λ c. (c == b'\r') ≡ false)

index_from-crlf :
    (p rest : Bytes) (k : ℕ)
    → NoCr p
    → index_from (p ++ (crlf ++ rest)) crlf k ≡ some (k + length p)
unfolding index_from matches_at
index_from-crlf [] rest k h = ground arith
index_from-crlf (c ∷ cs) rest k h = ground (arith, index_from-crlf cs rest (k + 1))

index_from-no_crlf : (p : Bytes) (k : ℕ) → NoCr p → index_from p crlf k ≡ none
unfolding index_from matches_at
index_from-no_crlf [] k h = refl
index_from-no_crlf (c ∷ cs) k h = ground (arith, index_from-no_crlf cs (k + 1))

digits-NoCr : (s : Bytes) → All IsDigit s → NoCr s
digits-NoCr [] h = tt
digits-NoCr (c ∷ cs) h = (ground arith, digits-NoCr cs h.1)

digits-IsPlain : (s : Bytes) → All IsDigit s → All IsPlain s
digits-IsPlain [] h = tt
digits-IsPlain (c ∷ cs) h = ((omega arith, ground arith), digits-IsPlain cs h.1)

-- What may stand behind the number: nothing, or a line end.
abbrev pub Ends : Bytes → Type 0
Ends t = (t ≡ []) ⊎ ((rest : Bytes) × (t ≡ crlf ++ rest))

length_value_whole :
    (s : Bytes) → index_bytes s crlf ≡ none → length_value s ≡ (atoi (trim_space s)).value
unfolding length_value
length_value_whole s e = rw (e, length_value)

length_value_cut :
    (s : Bytes) (i : ℕ)
    → index_bytes s crlf ≡ some i
    → length_value s ≡ (atoi (trim_space (take i s))).value
unfolding length_value
length_value_cut s i e = rw (e, length_value)

index_bytes-crlf :
    (p rest : Bytes) → NoCr p → index_bytes (p ++ (crlf ++ rest)) crlf ≡ some (length p)
unfolding index_bytes
index_bytes-crlf p rest h = index_from-crlf p rest 0 h ∙ ap some (omega arith)

index_bytes-no_crlf : (p : Bytes) → NoCr p → index_bytes p crlf ≡ none
unfolding index_bytes
index_bytes-no_crlf p h = index_from-no_crlf p 0 h

length_value_at :
    (p t : Bytes) → NoCr p → Ends t → length_value (p ++ t) ≡ (atoi (trim_space p)).value
length_value_at p t h (inl e) =
    ap (λ u. length_value (p ++ u)) e
    ∙ ap length_value (append-nil p)
    ∙ length_value_whole p (index_bytes-no_crlf p h)
length_value_at p t h (inr (rest, e)) =
    ap (λ u. length_value (p ++ u)) e
    ∙ length_value_cut (p ++ (crlf ++ rest)) (length p) (index_bytes-crlf p rest h)
    ∙ ap (λ u. (atoi (trim_space u)).value) (take-append p (crlf ++ rest) (length p) refl)

length_value-itoa :
    (n : ℕ) (t : Bytes) → n ≤ max_int → Ends t → length_value (b' ' ∷ (itoa_nat n ++ t)) ≡ pos n
length_value-itoa n t h ends =
    let d = itoa_nat-IsDigit n in
    length_value_at (b' ' ∷ itoa_nat n) t (refl, digits-NoCr (itoa_nat n) d) ends
    ∙ rw (trim_space_blank (itoa_nat n) (digits-IsPlain (itoa_nat n) d), atoi-itoa_nat n h)

matches_folded-append :
    (name rest needle : Bytes)
    → to_lower name ≡ needle
    → matches_folded (name ++ rest) needle ≡ true
unfolding matches_folded
matches_folded-append [] rest [] e = refl
matches_folded-append [] rest (n ∷ ns) e = cc
matches_folded-append (c ∷ cs) rest [] e = cc
matches_folded-append (c ∷ cs) rest (n ∷ ns) e = ground (arith, matches_folded-append cs rest ns)

-- No place in `pre` starts the header's name, in whatever case.
abbrev pub Quiet : Bytes → Bytes → Type 0
Quiet [] t = Unit
Quiet (c ∷ cs) t = (matches_folded (c ∷ (cs ++ t)) length_needle ≡ false) × Quiet cs t

parse_content_length-skip :
    (pre t : Bytes) → Quiet pre t → parse_content_length (pre ++ t) ≡ parse_content_length t
unfolding parse_content_length
parse_content_length-skip [] t h = refl
parse_content_length-skip (c ∷ cs) t h = rw (h.0) (parse_content_length-skip cs t h.1)

length-to_lower : (s : Bytes) → length (to_lower s) ≡ length s
length-to_lower [] = refl
length-to_lower (c ∷ cs) = ap suc (length-to_lower cs)

parse_content_length-name :
    (name t : Bytes)
    → to_lower name ≡ length_needle
    → parse_content_length (name ++ t) ≡ length_value t
unfolding parse_content_length
parse_content_length-name [] t e = cc
parse_content_length-name (c ∷ cs) t e = rw (matches_folded-append (c ∷ cs) t length_needle e) (
    ap length_value
      (drop-append (c ∷ cs) t 15 (omega (arith, ap length e, length-to_lower (c ∷ cs)))))

-- A header block whose first "content-length:", in whatever case, has a blank and a 64-bit
-- number in decimal behind it, and then a line end or nothing, gives that number.
pub parse_content_length-itoa :
    (pre name t : Bytes) (n : ℕ)
    → to_lower name ≡ length_needle
    → Quiet pre (name ++ (b' ' ∷ (itoa_nat n ++ t)))
    → n ≤ max_int
    → Ends t
    → parse_content_length (pre ++ (name ++ (b' ' ∷ (itoa_nat n ++ t)))) ≡ pos n
parse_content_length-itoa pre name t n e quiet h ends =
    parse_content_length-skip pre _ quiet
    ∙ parse_content_length-name name _ e
    ∙ length_value-itoa n t h ends
