-- ===== src/Text.antt =====
-- The functions of Go's `strings`, `bytes` and `strconv` packages that the proxy calls, on byte
-- lists. Separators are single bytes, as in every call of the source. `to_lower` and
-- `equal_fold` fold the ASCII letters; header keys and qop values are ASCII.
pub mod Number
pub mod Trim
pub mod Search
pub mod Split
pub mod Base64
use mathlib.Core.List.{reverse}
use rtsp_proxy.Prelude.{
  ℕ, zero, suc, ◌+◌, ◌/◌, ◌%◌, Bool, true, false, ◌&&◌, ◌||◌, List, [], ◌∷◌, map, Option, none,
  some, Bytes, bytes_eq, ◌==◌, leb, if◌then◌else◌, length, drop,
}

abbrev pub is_ascii_space : ℕ → Bool
is_ascii_space c = (leb 9 c && leb c 13) || c == b' '

-- Two and three byte encodings of the Unicode white space: U+0085, U+00A0, U+1680,
-- U+2000-U+200A, U+2028, U+2029, U+202F, U+205F, U+3000.
abbrev is_space2 : ℕ → ℕ → Bool
is_space2 a b = a == 0xC2 && (b == 0x85 || b == 0xA0)

abbrev is_space3 : ℕ → ℕ → ℕ → Bool
is_space3 a b c =
    (a == 0xE1 && b == 0x9A && c == 0x80)
    || (a == 0xE2
        && b == 0x80
        && ((leb 0x80 c && leb c 0x8A) || c == 0xA8 || c == 0xA9 || c == 0xAF))
    || (a == 0xE2 && b == 0x81 && c == 0x9F)
    || (a == 0xE3 && b == 0x80 && c == 0x80)

-- The length of the white space rune at the front, 0 if there is none.
abbrev front_space : Bytes → ℕ
front_space [] = 0
front_space (a ∷ []) = if is_ascii_space a then 1 else 0
front_space (a ∷ b ∷ []) = if is_ascii_space a then 1 else if is_space2 a b then 2 else 0
front_space (a ∷ b ∷ c ∷ _) =
    if is_ascii_space a then 1 else if is_space2 a b then 2 else if is_space3 a b c then 3 else 0

-- The same at the end of a text that is given backwards.
abbrev back_space : Bytes → ℕ
back_space [] = 0
back_space (a ∷ []) = if is_ascii_space a then 1 else 0
back_space (a ∷ b ∷ []) = if is_ascii_space a then 1 else if is_space2 b a then 2 else 0
back_space (a ∷ b ∷ c ∷ _) =
    if is_ascii_space a then 1 else if is_space2 b a then 2 else if is_space3 c b a then 3 else 0

-- Drop the runes that `space` measures; each round drops at least one byte.
trim_with : (Bytes → ℕ) → ℕ → Bytes → Bytes
trim_with space zero s = s
trim_with space (suc fuel) s =
    let n = space s in let rest = trim_with space fuel (drop n s) in if n == 0 then s else rest

-- strings.TrimSpace
unfoldable pub trim_space : Bytes → Bytes
unfolding trim_with
trim_space s =
    let t = trim_with front_space (length s) s in
    reverse (trim_with back_space (length t) (reverse t))

abbrev pub lower : ℕ → ℕ
lower c = if leb b'A' c && leb c b'Z' then c + 32 else c

-- strings.ToLower and strings.EqualFold on ASCII text
abbrev pub to_lower : Bytes → Bytes
to_lower = map lower

abbrev pub equal_fold : Bytes → Bytes → Bool
equal_fold a b = bytes_eq (to_lower a) (to_lower b)

unfoldable pub has_prefix : Bytes → Bytes → Bool
has_prefix s [] = true
has_prefix [] (p ∷ ps) = false
has_prefix (c ∷ cs) (p ∷ ps) = c == p && has_prefix cs ps

unfoldable pub trim_prefix : Bytes → Bytes → Bytes
unfolding has_prefix
trim_prefix s p = if has_prefix s p then drop (length p) s else s

-- strings.IndexByte
unfoldable pub index_byte : Bytes → ℕ → Option ℕ
index_byte [] b = none
index_byte (c ∷ cs) b =
    if c == b then some 0 else elim (index_byte cs b) [ none ↦ none | some i ↦ some (suc i) ]

-- strings.Contains
unfoldable pub contains : Bytes → Bytes → Bool
unfolding has_prefix
contains [] p = has_prefix [] p
contains (c ∷ cs) p = has_prefix (c ∷ cs) p || contains cs p

-- Put a byte in front of the first piece.
abbrev pub grow : ℕ → List Bytes → List Bytes
grow c [] = (c ∷ []) ∷ []
grow c (p ∷ ps) = (c ∷ p) ∷ ps

-- strings.Split at a one-byte separator
unfoldable pub split : Bytes → ℕ → List Bytes
split [] sep = [] ∷ []
split (c ∷ cs) sep = let rest = split cs sep in if c == sep then [] ∷ rest else grow c rest

-- strings.SplitN at a one-byte separator, into at most `suc n` pieces
unfoldable pub split_n : ℕ → Bytes → ℕ → List Bytes
split_n zero s sep = s ∷ []
split_n (suc n) [] sep = [] ∷ []
split_n (suc n) (c ∷ cs) sep =
    let next = split_n n cs sep in
    let same = split_n (suc n) cs sep in if c == sep then [] ∷ next else grow c same

-- strings.TrimLeft and strings.TrimRight with a one-byte cut set
unfoldable pub trim_left : Bytes → ℕ → Bytes
trim_left [] b = []
trim_left (c ∷ cs) b = if c == b then trim_left cs b else c ∷ cs

unfoldable pub trim_right : Bytes → ℕ → Bytes
unfolding trim_left
trim_right s b = reverse (trim_left (reverse s) b)

-- string(b) of one byte is the UTF-8 form of the rune of that number.
unfoldable pub rune_string : ℕ → Bytes
rune_string c = if leb c 127 then c ∷ [] else (192 + c / 64) ∷ (128 + c % 64) ∷ []
