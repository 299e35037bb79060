-- ===== src/Message.antt =====
-- rtspproxy/message.go: the line and header helpers that requests and responses share, and the
-- Content-Length scan of the upstream read loop.
pub mod Lines
pub mod Keys
pub mod Headers
pub mod Index
pub mod Length
use rtsp_proxy.Prelude.Dict.{Dict, bytes_eq_inst, lookup}
use rtsp_proxy.Prelude.Int.{ℤ, pos}
use rtsp_proxy.Text.Number.{atoi}
use rtsp_proxy.Text.{trim_space, to_lower, index_byte}
use rtsp_proxy.Prelude.{
  ℕ, suc, ◌+◌, ◌-◌, Bool, true, false, ◌&&◌, ◌||◌, not, [], ◌∷◌, Option, none, some, Bytes,
  bytes_eq, codes, ◌==◌, leb, if◌then◌else◌, length, drop, take,
}

abbrev pub Headers : Type 0
Headers = Dict Bytes Bytes

-- The errors of the two parsers. An error of url.Parse or strconv.Atoi carries no text here.
pub data ParseError : Type 0 where
  missing_colon bad_status bad_code bad_method bad_url : ParseError

pub data Result {ℓ} (A : Type ℓ) : Type ℓ where
  ok : A → Result A
  err : ParseError → Result A

infixl 5 ◌>>=◌
abbrev pub ◌>>=◌ {ℓ κ} : {A : Type ℓ} {B : Type κ} → Result A → (A → Result B) → Result B
ok a >>= f = f a
err e >>= f = err e

abbrev pub is_eol : ℕ → Bool
is_eol c = c == b'\r' || c == b'\n'

-- The rest behind a line end that starts with `c`.
unfoldable pub skip_eol : ℕ → Bytes → Bytes
skip_eol c [] = []
skip_eol c (d ∷ ds) = if c == b'\r' && d == b'\n' then ds else d ∷ ds

-- sharedLineSplit returns (rest, line).
unfoldable pub line_split : Bytes → Bytes × Bytes
unfolding skip_eol
line_split [] = ([], [])
line_split (c ∷ cs) =
    let (rest, line) = line_split cs in if is_eol c then (skip_eol c cs, []) else (rest, c ∷ line)

-- The loop of canonicalHeaderKey: letters after the start and after a dash become upper case,
-- the others lower case.
unfoldable pub canonical_from : Bool → Bytes → Bytes
canonical_from upper [] = []
canonical_from upper (c ∷ cs) =
    (if upper && leb b'a' c && leb c b'z'
      then c - 32
      else if not upper && leb b'A' c && leb c b'Z'
      then c + 32
      else c)
    ∷ canonical_from (c == b'-') cs

unfoldable pub canonical_header_key : Bytes → Bytes
unfolding canonical_from
canonical_header_key s = canonical_from true (trim_space s)

-- The range loop of headerGet, over the map in the order of the list.
unfoldable pub find_folded : Bytes → Headers → Option Bytes
find_folded low [] = none
find_folded low ((k, v) ∷ m) = if bytes_eq (to_lower k) low then some v else find_folded low m

abbrev pub or_else {ℓ} : {A : Type ℓ} → Option A → A → A
or_else none d = d
or_else (some a) d = a

unfoldable pub header_get : Headers → Bytes → Bytes
unfolding find_folded
header_get headers key = elim (lookup key headers) [
  | some v ↦ v
  | none ↦ elim (lookup (canonical_header_key key) headers) [
    | some v ↦ v
    | none ↦ or_else (find_folded (to_lower key) headers) []
  ]
]

unfoldable pub skip_blank : Bytes → Bytes
skip_blank [] = []
skip_blank (c ∷ cs) = if c == b' ' || c == b'\t' then skip_blank cs else c ∷ cs

-- The two states of sharedParseHeader's copy loop.
pub data CopyState : Type 0 where
  in_value in_skip : CopyState

unfoldable pub copy_value : CopyState → Bytes → Bytes
copy_value st [] = []
copy_value in_value (c ∷ cs) =
    let same = copy_value in_value cs in
    let after = copy_value in_skip cs in
    if c == b'\t' || c == b'\r' || c == b'\n' then same else c ∷ (if c == b';' then after else same)
copy_value in_skip (c ∷ cs) =
    let same = copy_value in_skip cs in
    let after = copy_value in_value cs in
    if not (c == b' ') && not (c == b'\t') && not (c == b'\r') && not (c == b'\n')
    then c ∷ after
    else same

unfoldable pub parse_header : Bytes → Result (Bytes × Bytes)
unfolding skip_blank copy_value
parse_header line = elim (index_byte line b':') [
  | none ↦ err missing_colon
  | some colon ↦ ok (
    canonical_header_key (take colon line),
    copy_value in_value (skip_blank (drop (suc colon) line)),
  )
]

-- indexBytes: the inner loop compares at one position, the outer one moves the position.
unfoldable pub matches_at : Bytes → Bytes → Bool
matches_at hay [] = true
matches_at [] (n ∷ ns) = false
matches_at (c ∷ cs) (n ∷ ns) = c == n && matches_at cs ns

unfoldable pub index_from : Bytes → Bytes → ℕ → Option ℕ
unfolding matches_at
index_from [] needle i = none
index_from (c ∷ cs) needle i =
    let next = index_from cs needle (i + 1) in if matches_at (c ∷ cs) needle then some i else next

unfoldable pub index_bytes : Bytes → Bytes → Option ℕ
unfolding index_from
index_bytes hay [] = some 0
index_bytes hay (n ∷ ns) = index_from hay (n ∷ ns) 0

-- The case-insensitive comparison of sharedParseContentLength.
unfoldable pub matches_folded : Bytes → Bytes → Bool
matches_folded hay [] = true
matches_folded [] (n ∷ ns) = false
matches_folded (c ∷ cs) (n ∷ ns) =
    (if leb b'A' c && leb c b'Z' then c + 32 else c) == n && matches_folded cs ns

abbrev pub length_needle : Bytes
length_needle = codes "content-length:"

-- The number on the line that starts here.
unfoldable pub length_value : Bytes → ℤ
unfolding index_bytes
length_value rest = elim (index_bytes rest (b'\r' ∷ b'\n' ∷ [])) [
  | none ↦ (atoi (trim_space rest)).value
  | some line_end ↦ (atoi (trim_space (take line_end rest))).value
]

unfoldable pub parse_content_length : Bytes → ℤ
unfolding matches_folded length_value
parse_content_length [] = pos 0
parse_content_length (c ∷ cs) =
    let next = parse_content_length cs in
    if matches_folded (c ∷ cs) length_needle
    then length_value (drop (length length_needle) (c ∷ cs))
    else next
