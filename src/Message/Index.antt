-- ===== src/Message/Index.antt =====
-- indexBytes of rtspproxy/message.go and the places where a needle stands.
use rtsp_proxy.Message.{matches_at, index_from, index_bytes}
use rtsp_proxy.Prelude.{
  ℕ, zero, suc, ◌+◌, ◌≤◌, ◌<◌, true, false, [], ◌∷◌, ◌++◌, ◌≡◌, ◌≢◌, inl, inr, refl, ap, arith,
  Bytes, ◌==◌, ◌&&◌, Option, none, some, length, length-append, drop, Bool-cases,
}

matches_at-split :
    (hay needle : Bytes) → matches_at hay needle ≡ true → (post : Bytes) × (hay ≡ needle ++ post)
unfolding matches_at
matches_at-split hay [] h = (hay, refl)
matches_at-split [] (n ∷ ns) h = cc
matches_at-split (c ∷ cs) (n ∷ ns) h = elim (Bool-cases (c == n)) [
  | inl e ↦ let (post, q) = matches_at-split cs ns (rw e at h) in (post, ground arith)
  | inr e ↦ absurd (false-true (rw e at h))
]
  where
    false-true : false ≡ true → ⊥
    false-true q = cc

pub matches_at-append_self : (needle post : Bytes) → matches_at (needle ++ post) needle ≡ true
unfolding matches_at
matches_at-append_self [] post = refl
matches_at-append_self (n ∷ ns) post = ground (arith, matches_at-append_self ns post)

-- More text behind a long enough text does not change a comparison.
pub matches_at-append :
    (hay more needle : Bytes)
    → length needle ≤ length hay
    → matches_at (hay ++ more) needle ≡ matches_at hay needle
unfolding matches_at
matches_at-append hay more [] h = refl
matches_at-append [] more (n ∷ ns) h = absurd (omega arith)
matches_at-append (c ∷ cs) more (n ∷ ns) h =
    ap (◌&&◌ (c == n)) (matches_at-append cs more ns (omega arith))

-- The first occurrence, at `i` from the front.
pub record FirstAt (hay needle : Bytes) (i : ℕ) : Type 0 where
  pub before : Bytes
  pub behind : Bytes
  pub pieces : hay ≡ before ++ (needle ++ behind)
  pub place : length before ≡ i
  pub first : (j : ℕ) → j < i → matches_at (drop j hay) needle ≡ false

FirstAt-cons :
    (c : ℕ) (cs needle : Bytes) (i : ℕ)
    → matches_at (c ∷ cs) needle ≡ false
    → FirstAt cs needle i
    → FirstAt (c ∷ cs) needle (suc i)
FirstAt-cons c cs needle i e f = record {
  before = c ∷ f.before;
  behind = f.behind;
  pieces = ap (◌∷◌ c) f.pieces;
  place = ap suc f.place;
  first = earlier;
}
  where
    earlier : (j : ℕ) → j < suc i → matches_at (drop j (c ∷ cs)) needle ≡ false
    earlier zero h = e
    earlier (suc j) h = f.first j (omega arith)

index_from-FirstAt :
    (hay needle : Bytes) (k i : ℕ)
    → index_from hay needle k ≡ some i
    → (d : ℕ) × (i ≡ k + d) × FirstAt hay needle d
unfolding index_from
index_from-FirstAt [] needle k i h = cc
index_from-FirstAt (c ∷ cs) needle k i h = elim (Bool-cases (matches_at (c ∷ cs) needle)) [
  | inl e ↦
      let (post, q) = matches_at-split (c ∷ cs) needle e in
      (
        0,
        ground arith,
        record {
          before = [];
          behind = post;
          pieces = q;
          place = refl;
          first = λ j l. absurd (omega arith);
        },
      )
  | inr e ↦
      let (d, p, f) = index_from-FirstAt cs needle (k + 1) i (rw e at h) in
      (suc d, omega arith, FirstAt-cons c cs needle d e f)
]

index_from-none :
    (hay needle : Bytes) (k j : ℕ)
    → index_from hay needle k ≡ none
    → needle ≢ []
    → matches_at (drop j hay) needle ≡ false
unfolding index_from matches_at
index_from-none hay [] k j h ne = absurd (ne refl)
index_from-none [] (n ∷ ns) k zero h ne = refl
index_from-none [] (n ∷ ns) k (suc j) h ne = refl
index_from-none (c ∷ cs) (n ∷ ns) k zero h ne = ground arith
index_from-none (c ∷ cs) (n ∷ ns) k (suc j) h ne =
    index_from-none cs (n ∷ ns) (k + 1) j (ground arith) ne

abbrev pub Indexes : Bytes → Bytes → Option ℕ → Type 0
Indexes hay needle (some i) = FirstAt hay needle i
Indexes hay needle none = (j : ℕ) → matches_at (drop j hay) needle ≡ false

index_from-Indexes :
    (hay needle : Bytes) (o : Option ℕ)
    → needle ≢ []
    → index_from hay needle 0 ≡ o
    → Indexes hay needle o
index_from-Indexes hay needle none ne h = λ j. index_from-none hay needle 0 j h ne
index_from-Indexes hay needle (some i) ne h =
    let (d, p, f) = index_from-FirstAt hay needle 0 i h in let q : d ≡ i = omega arith in rw (← q) f

-- indexBytes returns the place of the first occurrence of the needle, and -1 exactly when the
-- needle matches nowhere.
pub index_bytes-Indexes :
    (hay needle : Bytes) → needle ≢ [] → Indexes hay needle (index_bytes hay needle)
unfolding index_bytes
index_bytes-Indexes hay [] ne = absurd (ne refl)
index_bytes-Indexes hay (n ∷ ns) ne = index_from-Indexes hay (n ∷ ns) _ ne refl

index_from-fits :
    (hay needle : Bytes) (k i : ℕ) → index_from hay needle k ≡ some i → length needle ≤ length hay
index_from-fits hay needle k i h =
    let (d, p, f) = index_from-FirstAt hay needle k i h in
    omega (
      arith,
      ap length f.pieces,
      length-append f.before (needle ++ f.behind),
      length-append needle f.behind,
    )

index_from-append :
    (hay more needle : Bytes) (k i : ℕ)
    → index_from hay needle k ≡ some i
    → index_from (hay ++ more) needle k ≡ some i
unfolding index_from
index_from-append [] more needle k i h = cc
index_from-append (c ∷ cs) more needle k i h = elim (Bool-cases (matches_at (c ∷ cs) needle)) [
  | inl e ↦
      rw (matches_at-append (c ∷ cs) more needle (index_from-fits (c ∷ cs) needle k i h), e)
        (rw e at h)
  | inr e ↦
      rw (matches_at-append (c ∷ cs) more needle (index_from-fits (c ∷ cs) needle k i h), e)
        (index_from-append cs more needle (k + 1) i (rw e at h))
]

-- An occurrence that has been found stays the first one when more text arrives behind it.
pub index_bytes-append :
    (hay more needle : Bytes) (i : ℕ)
    → index_bytes hay needle ≡ some i
    → index_bytes (hay ++ more) needle ≡ some i
unfolding index_bytes
index_bytes-append hay more [] i h = h
index_bytes-append hay more (n ∷ ns) i h = index_from-append hay more (n ∷ ns) 0 i h

-- An occurrence lies within the text.
pub index_bytes-fits :
    (hay needle : Bytes) (i : ℕ) → index_bytes hay needle ≡ some i → i + length needle ≤ length hay
unfolding index_bytes
index_bytes-fits hay [] i h = ground arith
index_bytes-fits hay (n ∷ ns) i h =
    let (d, p, f) = index_from-FirstAt hay (n ∷ ns) 0 i h in
    omega (
      arith,
      ap length f.pieces,
      f.place,
      length-append f.before ((n ∷ ns) ++ f.behind),
      length-append (n ∷ ns) f.behind,
    )
