-- ===== src/Message/Headers.antt =====
-- One header line of sharedParseHeader in rtspproxy/message.go.
pub use rtsp_proxy.Text.Split.{HasNo}
use rtsp_proxy.Message.{
  CopyState, in_value, in_skip, skip_blank, copy_value, parse_header, canonical_header_key, ok,
  is_eol,
}
use rtsp_proxy.Text.{index_byte}
use rtsp_proxy.Prelude.{
  ℕ, suc, Bool, true, false, not, ◌&&◌, ◌||◌, [], ◌∷◌, ◌++◌, ◌==◌, ◌≡◌, refl, arith, Bytes, All,
  inl, inr, Bool-cases, some, if◌then◌else◌, length, take, drop, take-append,
}

-- The state behind a byte that has been copied.
abbrev pub after : CopyState → ℕ → CopyState
after in_value c = if c == b';' then in_skip else in_value
after in_skip c = in_value

-- The bytes that are copied: none of TAB, CR and LF, and no blank in the skipping state.
abbrev pub is_kept : CopyState → ℕ → Bool
is_kept in_value c = not (c == b'\t' || c == b'\r' || c == b'\n')
is_kept in_skip c = not (c == b' ') && not (c == b'\t') && not (c == b'\r') && not (c == b'\n')

abbrev pub IsClean : CopyState → Bytes → Type 0
IsClean st [] = Unit
IsClean st (c ∷ cs) = (is_kept st c ≡ true) × IsClean (after st c) cs

-- Whatever stands behind the colon, the value that is stored is clean: no TAB, CR or LF in it, and
-- no blank where the copying skips blanks, which is behind a semicolon.
pub copy_value-IsClean : (st : CopyState) (s : Bytes) → IsClean st (copy_value st s)
unfolding copy_value
copy_value-IsClean st [] = tt
copy_value-IsClean in_value (c ∷ cs) =
    ground (arith, copy_value-IsClean in_value cs, copy_value-IsClean in_skip cs)
copy_value-IsClean in_skip (c ∷ cs) =
    ground (arith, copy_value-IsClean in_value cs, copy_value-IsClean in_skip cs)

-- A clean value is stored unchanged.
pub copy_value_clean : (st : CopyState) (s : Bytes) → IsClean st s → copy_value st s ≡ s
unfolding copy_value
copy_value_clean st [] h = refl
copy_value_clean in_value (c ∷ cs) h =
    ground (arith, copy_value_clean in_value cs, copy_value_clean in_skip cs)
copy_value_clean in_skip (c ∷ cs) h = ground (arith, copy_value_clean in_value cs)

index_byte-append :
    (k rest : Bytes) (b : ℕ) → HasNo b k → index_byte (k ++ (b ∷ rest)) b ≡ some (length k)
unfolding index_byte
index_byte-append [] rest b h = ground arith
index_byte-append (c ∷ cs) rest b h = rw (h.0, index_byte-append cs rest b h.1)

abbrev pub is_blank : ℕ → Bool
is_blank c = c == b' ' || c == b'\t'

-- A value as it can be stored: clean, and not starting with a blank.
abbrev pub IsValue : Bytes → Type 0
IsValue [] = Unit
IsValue (c ∷ cs) = (is_blank c ≡ false) × IsClean in_value (c ∷ cs)

skip_blank_value : (v : Bytes) → IsValue v → skip_blank v ≡ v
unfolding skip_blank
skip_blank_value [] h = refl
skip_blank_value (c ∷ cs) h = rw (h.0)

value-IsClean : (v : Bytes) → IsValue v → IsClean in_value v
value-IsClean [] h = tt
value-IsClean (c ∷ cs) h = h.1

parse_header_at :
    (line : Bytes) (i : ℕ)
    → index_byte line b':' ≡ some i
    → parse_header line
      ≡ ok
          (canonical_header_key (take i line), copy_value in_value (skip_blank (drop (suc i) line)))
unfolding parse_header
parse_header_at line i e = rw (e, parse_header)

drop-colon : (k v : Bytes) → drop (suc (length k)) (k ++ (b':' ∷ b' ' ∷ v)) ≡ b' ' ∷ v
drop-colon [] v = refl
drop-colon (c ∷ cs) v = drop-colon cs v

copy-skip : (v : Bytes) → IsValue v → copy_value in_value (skip_blank (b' ' ∷ v)) ≡ v
unfolding skip_blank
copy-skip v h = rw (skip_blank_value v h) (copy_value_clean in_value v (value-IsClean v h))

-- The header line "Key: Value" as both String methods print it is read back, under the canonical
-- form of the key: for any key with no colon in it and any value that can be stored.
pub parse_header-print :
    (k v : Bytes)
    → HasNo b':' k
    → IsValue v
    → parse_header (k ++ (b':' ∷ b' ' ∷ v)) ≡ ok (canonical_header_key k, v)
parse_header-print k v colon h = rw (
  parse_header_at _ (length k) (index_byte-append k (b' ' ∷ v) b':' colon),
  take-append k (b':' ∷ b' ' ∷ v) (length k) refl,
  drop-colon k v,
  copy-skip v h,
)

kept-IsValue :
    (c : ℕ) (cs : Bytes)
    → is_eol c ≡ false
    → is_blank c ≡ false
    → IsValue (copy_value in_value (c ∷ cs))
unfolding copy_value
kept-IsValue c cs e b =
    ground (arith, copy_value-IsClean in_value cs, copy_value-IsClean in_skip cs)

-- What sharedParseHeader stores for a line that sharedLineSplit has cut can be stored again.
pub skip_blank-IsValue :
    (s : Bytes) → All (λ c. is_eol c ≡ false) s → IsValue (copy_value in_value (skip_blank s))
unfolding copy_value skip_blank
skip_blank-IsValue [] h = tt
skip_blank-IsValue (c ∷ cs) h = elim (Bool-cases (is_blank c)) [
  | inl b ↦ rw b (skip_blank-IsValue cs h.1)
  | inr b ↦ rw b (kept-IsValue c cs h.0 b)
]
