-- ===== src/Session/Lookup.antt =====
-- Session.LookupTransport of rtspproxy/session.go and the transports of a session.
use rtsp_proxy.Prelude.{
  ℕ, zero, suc, ◌+◌, ◌<◌, ◌≡◌, ◌⊎◌, inl, inr, refl, arith, Bool, true, false, List, [], ◌∷◌, ◌++◌,
  Option, none, some, Option-cases, Bool-cases, Bytes, bytes_eq_refl, ltb, if◌then◌else◌, length,
  All,
}
use rtsp_proxy.Session.{Session, find_transport, lookup_transport}
use rtsp_proxy.Transport.{Transport, new_transport, serves}

abbrev pub get_elem? {ℓ} : {A : Type ℓ} → List A → ℕ → Option A
get_elem? [] i = none
get_elem? (x ∷ xs) zero = some x
get_elem? (x ∷ xs) (suc i) = get_elem? xs i

get_elem?-append_end {ℓ} :
    {A : Type ℓ} (xs : List A) (x : A) → get_elem? (xs ++ x ∷ []) (length xs) ≡ some x
get_elem?-append_end [] x = refl
get_elem?-append_end (y ∷ xs) x = get_elem?-append_end xs x

module _ (name protocol com_type : Bytes) where
  abbrev ours : Transport → Bool
  ours = serves name protocol com_type

  find_transport-some :
      (ts : List Transport) (i : ℕ) (t : Transport)
      → find_transport name protocol com_type ts ≡ some (i, t)
      → (get_elem? ts i ≡ some t) × (ours t ≡ true)
  unfolding find_transport
  find_transport-some [] i t h = cc
  find_transport-some (u ∷ ts) i t h = elim (Bool-cases (ours u)) [
    | inl e ↦ ground arith
    | inr e ↦ elim (Option-cases (find_transport name protocol com_type ts)) [
      | inl f ↦ ground arith
      | inr ((j, v), f) ↦ ground (arith, find_transport-some ts j v f)
    ]
  ]

  find_transport-none :
      (ts : List Transport)
      → find_transport name protocol com_type ts ≡ none
      → All (λ t. ours t ≡ false) ts
  unfolding find_transport
  find_transport-none [] h = tt
  find_transport-none (u ∷ ts) h = ground (arith, find_transport-none ts)

  -- How many transports of a list serve this name, protocol and type.
  abbrev pub count : List Transport → ℕ
  count [] = 0
  count (t ∷ ts) = (if ours t then 1 else 0) + count ts

  count-append : (ts us : List Transport) → count (ts ++ us) ≡ count ts + count us
  count-append [] us = omega arith
  count-append (t ∷ ts) us = ground (arith, count-append ts us)

  count-none : (ts : List Transport) → All (λ t. ours t ≡ false) ts → count ts ≡ 0
  count-none [] h = refl
  count-none (t ∷ ts) h = ground (arith, count-none ts h.1)

  new_transport-ours : ours (new_transport name protocol com_type) ≡ true
  unfolding new_transport
  new_transport-ours = rw (bytes_eq_refl name, bytes_eq_refl protocol, bytes_eq_refl com_type)

  find_transport-count :
      (ts : List Transport) (i : ℕ) (t : Transport)
      → find_transport name protocol com_type ts ≡ some (i, t)
      → 0 < count ts
  unfolding find_transport
  find_transport-count [] i t h = cc
  find_transport-count (u ∷ ts) i t h = elim (Bool-cases (ours u)) [
    | inl e ↦ rw e (omega arith)
    | inr e ↦ elim (Option-cases (find_transport name protocol com_type ts)) [
      | inl f ↦ ground arith
      | inr ((j, v), f) ↦ rw e (omega (arith, find_transport-count ts j v f))
    ]
  ]

  lookup_transport_found :
      (s : Session) (i : ℕ) (t : Transport)
      → find_transport name protocol com_type s.transports ≡ some (i, t)
      → lookup_transport s name protocol com_type ≡ (s, i)
  unfolding lookup_transport
  lookup_transport_found s i t e = rw (e, lookup_transport)

  lookup_transport_made :
      (s : Session)
      → find_transport name protocol com_type s.transports ≡ none
      → lookup_transport s name protocol com_type ≡ (
        record s { transports = s.transports ++ new_transport name protocol com_type ∷ [] },
        length s.transports,
      )
  unfolding lookup_transport
  lookup_transport_made s e = rw (e, lookup_transport)

  -- What LookupTransport leaves: the place that it returns holds a transport for this name,
  -- protocol and type, and there are as many such transports as before, or one if there were none.
  pub record Looked (s : Session) (s' : Session) (i : ℕ) : Type 0 where
    pub found : (t : Transport) × (get_elem? s'.transports i ≡ some t) × (ours t ≡ true)
    pub single :
        count s'.transports ≡ (if ltb 0 (count s.transports) then count s.transports else 1)
    pub grown :
        (s'.transports ≡ s.transports)
        ⊎ (s'.transports ≡ s.transports ++ new_transport name protocol com_type ∷ [])

  lookup_transport-Looked_found :
      (s : Session) (i : ℕ) (t : Transport)
      → find_transport name protocol com_type s.transports ≡ some (i, t)
      → Looked s s i
  lookup_transport-Looked_found s i t e = record {
    found = let (at, is) = find_transport-some s.transports i t e in (t, at, is);
    single = ground (arith, find_transport-count s.transports i t e);
    grown = inl refl;
  }

  lookup_transport-Looked_made :
      (s : Session)
      → find_transport name protocol com_type s.transports ≡ none
      → Looked s
          (record s { transports = s.transports ++ new_transport name protocol com_type ∷ [] })
          (length s.transports)
  lookup_transport-Looked_made s e = record {
    found = (
      new_transport name protocol com_type,
      get_elem?-append_end s.transports (new_transport name protocol com_type),
      new_transport-ours,
    );
    single = ground (
      arith,
      count-append s.transports (new_transport name protocol com_type ∷ []),
      count-none s.transports (find_transport-none s.transports e),
      new_transport-ours,
    );
    grown = inr refl;
  }

-- Session.LookupTransport returns the place of a transport for the name, protocol and type that
-- it is asked for, and adds one at the end only if there was none: as many transports serve them
-- afterwards as before the call, and exactly one if there were none.
pub lookup_transport-Looked :
    (s : Session) (name protocol com_type : Bytes)
    → Looked name protocol com_type s
        (lookup_transport s name protocol com_type).0
        (lookup_transport s name protocol com_type).1
lookup_transport-Looked s name protocol com_type =
    elim (Option-cases (find_transport name protocol com_type s.transports)) [
      | inr ((i, t), e) ↦
          rw (lookup_transport_found name protocol com_type s i t e)
            (lookup_transport-Looked_found name protocol com_type s i t e)
      | inl e ↦
          rw (lookup_transport_made name protocol com_type s e)
            (lookup_transport-Looked_made name protocol com_type s e)
    ]
