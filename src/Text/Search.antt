-- ===== src/Text/Search.antt =====
-- strings.Index and bytes.Index: the place of the first occurrence.
use rtsp_proxy.Prelude.{
  ℕ, suc, ◌+◌, ◌≤◌, ◌≡◌, refl, ap, sym, ◌∙◌, arith, true, ◌&&◌, [], ◌∷◌, ◌++◌, Option, none, some,
  Bytes, ◌==◌, if◌then◌else◌, length, Bool-cases, inl, inr, Option-cases,
}
use rtsp_proxy.Text.{has_prefix}

unfoldable pub index : Bytes → Bytes → Option ℕ
index [] p = if has_prefix [] p then some 0 else none
index (c ∷ cs) p =
    let next = index cs p in
    if has_prefix (c ∷ cs) p then some 0 else elim next [ none ↦ none | some i ↦ some (suc i) ]

pub has_prefix-append :
    (s more p : Bytes) → length p ≤ length s → has_prefix (s ++ more) p ≡ has_prefix s p
unfolding has_prefix
has_prefix-append s more [] h = ground arith
has_prefix-append [] more (n ∷ ns) h = absurd (omega arith)
has_prefix-append (c ∷ cs) more (n ∷ ns) h =
    ap (◌&&◌ (c == n)) (has_prefix-append cs more ns (omega arith))

pub has_prefix_fits : (s p : Bytes) → has_prefix s p ≡ true → length p ≤ length s
unfolding has_prefix
has_prefix_fits s [] h = omega arith
has_prefix_fits [] (n ∷ ns) h = absurd (cc)
has_prefix_fits (c ∷ cs) (n ∷ ns) h = ground (arith, has_prefix_fits cs ns)

pub has_prefix-append_self : (p s : Bytes) → has_prefix (p ++ s) p ≡ true
unfolding has_prefix
has_prefix-append_self [] s = ground arith
has_prefix-append_self (n ∷ ns) s = ground (arith, has_prefix-append_self ns s)

-- An occurrence lies within the text.
pub index_fits : (s p : Bytes) (i : ℕ) → index s p ≡ some i → i + length p ≤ length s
unfolding index
index_fits [] p i h = ground (arith, has_prefix_fits [] p)
index_fits (c ∷ cs) p i h = elim (Bool-cases (has_prefix (c ∷ cs) p)) [
  | inl e ↦ ground (arith, has_prefix_fits (c ∷ cs) p)
  | inr e ↦ elim (Option-cases (index cs p)) [
    | inl f ↦ ground arith
    | inr (j, f) ↦ ground (arith, index_fits cs p j f)
  ]
]

index_nil : (s : Bytes) → index s [] ≡ some 0
unfolding index has_prefix
index_nil [] = refl
index_nil (c ∷ cs) = refl

-- An occurrence that has been found stays the first one when more text arrives behind it.
pub index-append : (s more p : Bytes) (i : ℕ) → index s p ≡ some i → index (s ++ more) p ≡ some i
unfolding index
index-append s more [] i h = index_nil (s ++ more) ∙ sym (index_nil s) ∙ h
index-append [] more (n ∷ ns) i h = absurd (unfold has_prefix in cc)
index-append (c ∷ cs) more (n ∷ ns) i h =
    let fits = index_fits (c ∷ cs) (n ∷ ns) i h in
    let same = has_prefix-append (c ∷ cs) more (n ∷ ns) (omega arith) in
    elim (Bool-cases (has_prefix (c ∷ cs) (n ∷ ns))) [
      | inl e ↦ ground arith
      | inr e ↦ elim (Option-cases (index cs (n ∷ ns))) [
        | inl f ↦ absurd (ground arith)
        | inr (j, f) ↦ ground (arith, index-append cs more (n ∷ ns) j f)
      ]
    ]
