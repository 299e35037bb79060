-- ===== src/Digest.antt =====
-- rtspproxy/digest.go: the digest state, the response to a challenge, and the reading of a
-- WWW-Authenticate value. MD5 in hex and the random cnonce are arguments. The regular expressions
-- fold the ASCII letters.
pub mod Nonce
pub mod Authorization
pub mod Challenges
use rtsp_proxy.Prelude.{
  ℕ, zero, suc, ◌+◌, ◌-◌, ◌/◌, ◌%◌, ◌^◌, Bool, true, false, not, ◌&&◌, ◌||◌, List, [], ◌∷◌, ◌++◌,
  Option, none, some, Bytes, bytes_eq, codes, ◌==◌, ltb, if◌then◌else◌, length, drop,
}
use rtsp_proxy.Text.{lower, equal_fold, contains, split, trim_space}

pub record Digest : Type 0 where
  pub realm : Bytes
  pub nonce : Bytes
  pub username : Bytes
  pub password : Bytes
  pub qop : Bytes
  pub opaque : Bytes
  pub algorithm : Bytes
  pub nc : ℕ

abbrev pub new_digest : Digest
new_digest = record {
  realm = [];
  nonce = [];
  username = [];
  password = [];
  qop = [];
  opaque = [];
  algorithm = [];
  nc = 0;
}

abbrev hex_digit : ℕ → ℕ
hex_digit d = if ltb d 10 then b'0' + d else b'a' + (d - 10)

-- The lowest `k` hex digits of a number in front of `out`.
unfoldable pub hex : ℕ → ℕ → Bytes → Bytes
hex zero n out = out
hex (suc k) n out = hex k (n / 16) (hex_digit (n % 16) ∷ out)

-- fmt.Sprintf("%08x", nc)
unfoldable pub nc_string : ℕ → Bytes
unfolding hex
nc_string nc = hex 8 nc []

abbrev pub join : Bytes → Bytes → Bytes
join a b = a ++ (b':' ∷ b)

-- ComputeResponse returns (response, ncStr, cnonce) and counts the nonce in a uint32.
unfoldable pub compute_response :
    (Bytes → Bytes) → Bytes → Digest → Bytes → Bytes → Digest × (Bytes × Bytes × Bytes)
unfolding nc_string
compute_response md5_hex cnonce d cmd uri =
    let ha1 = md5_hex (join d.username (join d.realm d.password)) in
    let ha2 = md5_hex (join cmd uri) in
    if equal_fold d.qop (codes "auth")
    then (
      record d { nc = (d.nc + 1) % 2 ^ 32 },
      (
        md5_hex (
            join ha1 (
              join d.nonce
                (join (nc_string ((d.nc + 1) % 2 ^ 32)) (join cnonce (join (codes "auth") ha2))))),
        nc_string ((d.nc + 1) % 2 ^ 32),
        cnonce,
      ),
    )
    else (d, (md5_hex (join ha1 (join d.nonce ha2)), [], []))

abbrev pub is_re_space : ℕ → Bool
is_re_space c = c == b'\t' || c == b'\n' || c == 12 || c == b'\r' || c == b' '

-- What is behind a literal at the front of the text, letters folded.
unfoldable pub eat : Bytes → Bytes → Option Bytes
eat [] s = some s
eat (p ∷ ps) [] = none
eat (p ∷ ps) (c ∷ cs) = if lower p == lower c then eat ps cs else none

-- [^"]* and the quote behind it
unfoldable pub until_quote : Bytes → Option Bytes
until_quote [] = none
until_quote (c ∷ cs) =
    if c == b'"' then some [] else elim (until_quote cs) [ none ↦ none | some v ↦ some (c ∷ v) ]

-- [^,\s]*
unfoldable pub bare_word : Bytes → Bytes
bare_word [] = []
bare_word (c ∷ cs) = if c == b',' || is_re_space c then [] else c ∷ bare_word cs

abbrev non_empty : Bytes → Option Bytes
non_empty [] = none
non_empty (c ∷ cs) = some (c ∷ cs)

-- `name="([^"]*)"` and `name=([^,\s]+)` at the front of the text
unfoldable pub quoted_here : Bytes → Bytes → Option Bytes
unfolding eat until_quote
quoted_here name s = elim (eat (name ++ (b'=' ∷ b'"' ∷ [])) s) [
  | none ↦ none
  | some rest ↦ until_quote rest
]

unfoldable pub bare_here : Bytes → Bytes → Option Bytes
unfolding eat bare_word
bare_here name s = elim (eat (name ++ (b'=' ∷ [])) s) [
  | none ↦ none
  | some rest ↦ non_empty (bare_word rest)
]

-- FindStringSubmatch: the leftmost place where a matcher succeeds.
unfoldable pub leftmost : (Bytes → Option Bytes) → Bytes → Option Bytes
leftmost match [] = match []
leftmost match (c ∷ cs) =
    let next = leftmost match cs in elim (match (c ∷ cs)) [ some v ↦ some v | none ↦ next ]

-- extractParam for the two patterns of one name
unfoldable pub extract_param : Bytes → Bytes → Bytes
unfolding leftmost quoted_here bare_here
extract_param name s = elim (leftmost (quoted_here name) s) [
  | some v ↦ v
  | none ↦ elim (leftmost (bare_here name) s) [ some v ↦ v | none ↦ [] ]
]

unfoldable pub skip_re_space : Bytes → Bytes
skip_re_space [] = []
skip_re_space (c ∷ cs) = if is_re_space c then skip_re_space cs else c ∷ cs

starts_space : Bytes → Bool
starts_space [] = false
starts_space (c ∷ cs) = is_re_space c

-- (?i)Digest\s+
unfoldable pub digest_here : Bytes → Option Bytes
unfolding eat starts_space
digest_here s = elim (eat (codes "Digest") s) [
  | none ↦ none
  | some rest ↦ if starts_space rest then some [] else none
]

-- (?i)Basic\s+realm="([^"]+)"
unfoldable pub basic_here : Bytes → Option Bytes
unfolding eat starts_space quoted_here skip_re_space
basic_here s = elim (eat (codes "Basic") s) [
  | none ↦ none
  | some rest ↦
      if starts_space rest
      then elim (quoted_here (codes "realm") (skip_re_space rest)) [
        | none ↦ none
        | some v ↦ non_empty v
      ]
      else none
]

-- The loop over the alternatives of a qop list.
unfoldable pub pick_qop : Bytes → List Bytes → Bytes
pick_qop qop [] = qop
pick_qop qop (part ∷ parts) =
    if bytes_eq (trim_space part) (codes "auth") then codes "auth" else pick_qop qop parts

pub record Challenge : Type 0 where
  pub realm : Bytes
  pub nonce : Bytes
  pub qop : Bytes
  pub opaque : Bytes
  pub algorithm : Bytes
  pub is_digest : Bool

abbrev pub no_challenge : Challenge
no_challenge = record {
  realm = [];
  nonce = [];
  qop = [];
  opaque = [];
  algorithm = [];
  is_digest = false;
}

abbrev or_md5 : Bytes → Bytes
or_md5 [] = codes "MD5"
or_md5 (c ∷ cs) = c ∷ cs

-- The parameters of a digest challenge.
unfoldable pub digest_challenge : Bytes → Challenge
unfolding extract_param pick_qop
digest_challenge s =
    let qop = extract_param (codes "qop") s in
    record {
      realm = extract_param (codes "realm") s;
      nonce = extract_param (codes "nonce") s;
      qop = if contains qop (codes ",") then pick_qop qop (split qop b',') else qop;
      opaque = extract_param (codes "opaque") s;
      algorithm = or_md5 (extract_param (codes "algorithm") s);
      is_digest = true;
    }

-- ParseWWWAuthenticate
unfoldable pub parse_www_authenticate : Bytes → Challenge
unfolding digest_here basic_here digest_challenge leftmost
parse_www_authenticate [] = no_challenge
parse_www_authenticate (c ∷ cs) = elim (leftmost digest_here (c ∷ cs)) [
  | some _ ↦ digest_challenge (c ∷ cs)
  | none ↦ elim (leftmost basic_here (c ∷ cs)) [
    | none ↦ no_challenge
    | some realm ↦ record no_challenge { realm = realm }
  ]
]
