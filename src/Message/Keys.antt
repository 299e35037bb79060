-- ===== src/Message/Keys.antt =====
-- Header keys: canonical form and case-insensitive lookup.
use rtsp_proxy.Message.{
  Headers, canonical_from, canonical_header_key, find_folded, or_else, header_get,
}
use rtsp_proxy.Text.Trim.{IsPlain, trim_space_plain}
use rtsp_proxy.Text.{to_lower, equal_fold}
use rtsp_proxy.Prelude.Dict.{bytes_eq_inst, lookup, insert, lookup-insert}
use rtsp_proxy.Prelude.{
  Bool, true, false, [], ◌∷◌, ◌==◌, ◌≡◌, ◌↔◌, refl, sym, ap, subst, ◌∙◌, arith, Bytes, All, inl,
  inr, Bool-cases, Option-cases, Option, none, some, bytes_eq, bytes_eq_iff, if◌then◌else◌,
}

canonical_from-canonical_from :
    (upper : Bool) (s : Bytes)
    → canonical_from upper (canonical_from upper s) ≡ canonical_from upper s
unfolding canonical_from
canonical_from-canonical_from upper [] = refl
canonical_from-canonical_from upper (c ∷ cs) =
    ground (arith, canonical_from-canonical_from (c == b'-') cs)

canonical_from-to_lower :
    (upper : Bool) (s : Bytes) → canonical_from upper (to_lower s) ≡ canonical_from upper s
unfolding canonical_from
canonical_from-to_lower upper [] = refl
canonical_from-to_lower upper (c ∷ cs) = ground (arith, canonical_from-to_lower (c == b'-') cs)

to_lower-canonical_from :
    (upper : Bool) (s : Bytes) → to_lower (canonical_from upper s) ≡ to_lower s
unfolding canonical_from
to_lower-canonical_from upper [] = refl
to_lower-canonical_from upper (c ∷ cs) = ground (arith, to_lower-canonical_from (c == b'-') cs)

-- A key as it stands on a header line: ASCII, with no white space.
abbrev pub IsKey : Bytes → Type 0
IsKey = All IsPlain

pub canonical_key : (k : Bytes) → IsKey k → canonical_header_key k ≡ canonical_from true k
unfolding canonical_header_key
canonical_key k h = rw (trim_space_plain k h)

-- Two keys have the same canonical form exactly when they differ only in the case of letters.
pub canonical_header_key-fold :
    (k j : Bytes)
    → IsKey k
    → IsKey j
    → (canonical_header_key k ≡ canonical_header_key j) ↔ (to_lower k ≡ to_lower j)
canonical_header_key-fold k j hk hj =
    rw (canonical_key k hk, canonical_key j hj)
      (
        λ e. sym (to_lower-canonical_from true k) ∙ ap to_lower e ∙ to_lower-canonical_from true j,
        λ e.
            sym (canonical_from-to_lower true k)
            ∙ ap (canonical_from true) e
            ∙ canonical_from-to_lower true j,
      )

canonical_from-IsKey : (upper : Bool) (k : Bytes) → IsKey k → IsKey (canonical_from upper k)
unfolding canonical_from
canonical_from-IsKey upper [] h = tt
canonical_from-IsKey upper (c ∷ cs) h = (ground arith, canonical_from-IsKey (c == b'-') cs h.1)

-- Every key of the map is a canonical one, as in a map that sharedParseHeader has filled.
abbrev pub IsCanonical : Bytes → Type 0
IsCanonical k = IsKey k × (canonical_from true k ≡ k)

abbrev pub AllCanonical : Headers → Type 0
AllCanonical = All (λ kv. IsCanonical (kv.0))

pub canonical_header_key-IsCanonical : (k : Bytes) → IsKey k → IsCanonical (canonical_header_key k)
canonical_header_key-IsCanonical k h =
    rw (canonical_key k h) (canonical_from-IsKey true k h, canonical_from-canonical_from true k)

-- In such a map a key that only folds to `j` is the canonical form of `j`.
find_folded-none :
    (m : Headers) (j : Bytes)
    → AllCanonical m
    → lookup (canonical_from true j) m ≡ none
    → find_folded (to_lower j) m ≡ none
unfolding find_folded lookup
find_folded-none [] j h e = refl
find_folded-none ((k, v) ∷ m) j h e = elim (Bool-cases (bytes_eq k (canonical_from true j))) [
  | inl p ↦ absurd (some-ne-none (rw p at e))
  | inr p ↦ elim (Bool-cases (bytes_eq (to_lower k) (to_lower j))) [
    | inl q ↦ absurd (other q p)
    | inr q ↦ rw (q) (find_folded-none m j h.1 (rw p at e))
  ]
]
  where
    some-ne-none : some v ≡ none → ⊥
    some-ne-none q = cc

    other :
        bytes_eq (to_lower k) (to_lower j) ≡ true → bytes_eq k (canonical_from true j) ≡ false → ⊥
    other q p =
        let same : k ≡ canonical_from true j =
          sym h.0.1
          ∙ sym (canonical_from-to_lower true k)
          ∙ ap (canonical_from true) ((bytes_eq_iff (to_lower k) (to_lower j)).0 q)
          ∙ canonical_from-to_lower true j in
        cc ((bytes_eq_iff k (canonical_from true j)).1 same)

lookup_canonical :
    (m : Headers) (j : Bytes) {v : Bytes}
    → AllCanonical m
    → lookup j m ≡ some v
    → canonical_from true j ≡ j
unfolding lookup
lookup_canonical [] j h e = cc
lookup_canonical ((k, w) ∷ m) j h e = elim (Bool-cases (bytes_eq k j)) [
  | inl p ↦ subst (λ t. canonical_from true t ≡ t) ((bytes_eq_iff k j).0 p) h.0.1
  | inr p ↦ lookup_canonical m j h.1 (rw p at e)
]

-- In a map with canonical keys headerGet is a lookup of the canonical key, "" if it is absent.
pub header_get_canonical :
    (m : Headers) (j : Bytes)
    → AllCanonical m
    → IsKey j
    → header_get m j ≡ or_else (lookup (canonical_header_key j) m) []
unfolding header_get
header_get_canonical m j h key = elim (Option-cases (lookup j m)) [
  | inr (v, e) ↦ rw (canonical_key j key, lookup_canonical m j h e, e, header_get)
  | inl e ↦ elim (Option-cases (lookup (canonical_header_key j) m)) [
    | inr (v, f) ↦ rw (e, header_get, f)
    | inl f ↦ rw (e, header_get, f, find_folded-none m j h (rw (canonical_key j key) at f))
  ]
]

pub insert-AllCanonical :
    (k v : Bytes) (m : Headers) → IsCanonical k → AllCanonical m → AllCanonical (insert k v m)
unfolding insert
insert-AllCanonical k v [] hk h = (hk, tt)
insert-AllCanonical k v ((j, w) ∷ m) hk h = elim (Bool-cases (bytes_eq j k)) [
  | inl p ↦ rw p (h.0, h.1)
  | inr p ↦ rw p (h.0, insert-AllCanonical k v m hk h.1)
]

bytes_eq-canonical :
    (k j : Bytes)
    → IsKey k
    → IsKey j
    → bytes_eq (canonical_header_key k) (canonical_header_key j) ≡ equal_fold k j
bytes_eq-canonical k j hk hj = ground (
  arith,
  bytes_eq_iff (canonical_header_key k) (canonical_header_key j),
  bytes_eq_iff (to_lower k) (to_lower j),
  canonical_header_key-fold k j hk hj,
)

-- What a map holds under a key that has just been written, or under another one.
or_else_if :
    (b : Bool) (o : Option Bytes) (v : Bytes)
    → or_else (if b then some v else o) [] ≡ (if b then v else or_else o [])
or_else_if true o v = refl
or_else_if false o v = refl

-- Storing a header under its canonical key and reading it with headerGet: any spelling of the
-- key, in whatever case, reads the stored value, and every other key reads what it did before.
pub header_get-insert :
    (m : Headers) (k j v : Bytes)
    → AllCanonical m
    → IsKey k
    → IsKey j
    → header_get (insert (canonical_header_key k) v m) j
      ≡ (if equal_fold k j then v else header_get m j)
header_get-insert m k j v h hk hj =
    let written =
      insert-AllCanonical (canonical_header_key k) v m (canonical_header_key-IsCanonical k hk) h in
    rw
      (
        header_get_canonical _ j written hj,
        header_get_canonical m j h hj,
        lookup-insert (canonical_header_key k) (canonical_header_key j) v m,
        bytes_eq-canonical k j hk hj,
      )
      (or_else_if (equal_fold k j) (lookup (canonical_header_key j) m) v)
