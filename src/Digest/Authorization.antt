-- ===== src/Digest/Authorization.antt =====
-- rtspproxy/digest.go: RandomNonce, and ParseAuthorizationHeader, whose two calls of fmt.Sscanf are
-- arguments: Go documents no verb like the `%[` of its formats.
use rtsp_proxy.Digest.{Digest}
use rtsp_proxy.Prelude.Dict.{bytes_eq_inst}
use rtsp_proxy.Prelude.Int.{pos}
use rtsp_proxy.Prelude.{
  ℕ, zero, suc, ◌+◌, ◌%◌, ◌^◌, ◌<◌, ◌≤◌, ◌≡◌, refl, arith, Bool, true, false, not, ◌&&◌, ◌||◌, [],
  ◌∷◌, ◌++◌, Option, none, some, Bytes, bytes_eq, codes, ◌==◌, ltb, if◌then◌else◌, length, drop,
  length-drop, sym, ◌∙◌,
}
use rtsp_proxy.Text.Number.{itoa}
use rtsp_proxy.Text.Search.{index}
use rtsp_proxy.Text.{to_lower}

-- RandomNonce, with the random bytes in hex; `n` is the counter of nonces, which is a uint64.
unfoldable pub random_nonce : (Bytes → Bytes) → Bytes → ℕ → Digest → Digest × ℕ
random_nonce md5_hex random n d =
    let n' = (n + 1) % 2 ^ 64 in (record d { nonce = md5_hex (random ++ itoa (pos n')) }, n')

pub record AuthorizationHeader : Type 0 where
  pub uri : Bytes
  pub realm : Bytes
  pub nonce : Bytes
  pub username : Bytes
  pub response : Bytes

abbrev pub blank_header : AuthorizationHeader
blank_header = record { uri = []; realm = []; nonce = []; username = []; response = [] }

-- What the two scans of a field return and store: the number of items, the parameter, and the value.
pub record Scans : Type 0 where
  pub pair_count : ℕ
  pub name_count : ℕ
  pub parameter : Bytes
  pub value : Bytes

-- The switch over the parameter.
unfoldable pub set_parameter : Bytes → Bytes → AuthorizationHeader → AuthorizationHeader
set_parameter name value h =
    if bytes_eq name (codes "username")
    then record h { username = value }
    else if bytes_eq name (codes "realm")
    then record h { realm = value }
    else if bytes_eq name (codes "nonce")
    then record h { nonce = value }
    else if bytes_eq name (codes "uri")
    then record h { uri = value }
    else if bytes_eq name (codes "response")
    then record h { response = value }
    else h

-- The blanks and commas behind a field.
unfoldable pub skip_separators : Bytes → Bytes
skip_separators [] = []
skip_separators (c ∷ cs) = if c == b' ' || c == b',' then skip_separators cs else c ∷ cs

-- The text behind a field, if the loop goes on.
abbrev pub next_field : Bytes → Option Bytes
next_field [] = none
next_field (c ∷ cs) = if c == b'\r' || c == b'\n' then none else some (c ∷ cs)

skip_separators-Shorter : (s : Bytes) → length (skip_separators s) ≤ length s
unfolding skip_separators
skip_separators-Shorter [] = ground arith
skip_separators-Shorter (c ∷ cs) = ground (arith, skip_separators-Shorter cs)

-- What a round leaves is shorter than this.
abbrev LeavesLess : ℕ → AuthorizationHeader × Option Bytes → Type 0
LeavesLess n (h, none) = Unit
LeavesLess n (h, some rest) = length rest < n

next_field-LeavesLess :
    (n : ℕ) (h : AuthorizationHeader) (s : Bytes) → length s < n → LeavesLess n (h, next_field s)
next_field-LeavesLess n h [] k = tt
next_field-LeavesLess n h (c ∷ cs) k = either (c == b'\r' || c == b'\n')
  where
    either : (b : Bool) → LeavesLess n (h, (if b then none else some (c ∷ cs)))
    either true = tt
    either false = k

if-LeavesLess :
    (b : Bool) (n : ℕ) (x y : AuthorizationHeader × Option Bytes)
    → LeavesLess n x
    → LeavesLess n y
    → LeavesLess n (if b then x else y)
if-LeavesLess true n x y h k = h
if-LeavesLess false n x y h k = k

module _ (scan : Bytes → Scans) where
  -- One round: the header, and the text that is left, if the loop goes on.
  unfoldable pub field_round : Bytes → AuthorizationHeader → AuthorizationHeader × Option Bytes
  unfolding set_parameter skip_separators
  field_round fields h =
      let s = scan fields in
      if not (s.pair_count == 2) && not (s.name_count == 1)
      then (h, none)
      else (let h' = set_parameter (to_lower s.parameter) s.value h in
          let advance = length s.parameter + 2 + length s.value + 1 in
          if ltb (length fields) advance
          then (h', none)
          else (h', next_field (skip_separators (drop advance fields))))

  -- The loop, on fuel; its text gets shorter with every round.
  unfoldable pub parse_fields : ℕ → Bytes → AuthorizationHeader → AuthorizationHeader
  unfolding field_round
  parse_fields zero fields h = h
  parse_fields (suc fuel) [] h = h
  parse_fields (suc fuel) (c ∷ cs) h =
      let (h', left) = field_round (c ∷ cs) h in
      elim left [ none ↦ h' | some rest ↦ parse_fields fuel rest h' ]

  unfoldable pub parse_authorization_header : Bytes → Option AuthorizationHeader
  unfolding parse_fields
  parse_authorization_header buf = elim (index buf (codes "Authorization: Digest ")) [
    | none ↦ none
    | some at ↦
        let fields = drop (at + 22) buf in some (parse_fields (length fields) fields blank_header)
  ]

  field_round-LeavesLess :
      (c : ℕ) (cs : Bytes) (h : AuthorizationHeader)
      → LeavesLess (length (c ∷ cs)) (field_round (c ∷ cs) h)
  unfolding field_round
  field_round-LeavesLess c cs h =
      let s = scan (c ∷ cs) in
      let advance = length s.parameter + 2 + length s.value + 1 in
      if-LeavesLess (not (s.pair_count == 2) && not (s.name_count == 1)) (length (c ∷ cs)) _ _ tt (
        if-LeavesLess (ltb (length (c ∷ cs)) advance) (length (c ∷ cs)) _ _ tt (
          next_field-LeavesLess (length (c ∷ cs)) (set_parameter (to_lower s.parameter) s.value h)
            (skip_separators (drop advance (c ∷ cs)))
            (omega (
              arith,
              skip_separators-Shorter (drop advance (c ∷ cs)),
              length-drop advance (c ∷ cs),
            ))))

  no_fields : (k : ℕ) (h : AuthorizationHeader) → parse_fields k [] h ≡ h
  unfolding parse_fields
  no_fields zero h = refl
  no_fields (suc k) h = refl

  same_fields :
      (k j : ℕ) (fields : Bytes) (h : AuthorizationHeader)
      → length fields ≤ k
      → length fields ≤ j
      → parse_fields k fields h ≡ parse_fields j fields h
  unfolding parse_fields
  same_fields k j [] h p q = no_fields k h ∙ sym (no_fields j h)
  same_fields zero j (c ∷ cs) h p q = absurd (omega arith)
  same_fields (suc k) zero (c ∷ cs) h p q = absurd (omega arith)
  same_fields (suc k) (suc j) (c ∷ cs) h p q =
      next (field_round (c ∷ cs) h) (field_round-LeavesLess c cs h)
        (λ rest h' l. same_fields k j rest h' (omega arith) (omega arith))
    where
      next :
          (r : AuthorizationHeader × Option Bytes)
          → LeavesLess (length (c ∷ cs)) r
          → ((rest : Bytes) (h' : AuthorizationHeader)
              → length rest < length (c ∷ cs)
              → parse_fields k rest h' ≡ parse_fields j rest h')
          → (let (h', left) = r in
              elim left as (λ _. AuthorizationHeader) [
                | none ↦ h'
                | some rest ↦ parse_fields k rest h'
              ])
            ≡ (let (h', left) = r in
                elim left as (λ _. AuthorizationHeader) [
                  | none ↦ h'
                  | some rest ↦ parse_fields j rest h'
                ])
      next (h', none) l f = refl
      next (h', some rest) l f = f rest h' l

  -- The loop with as much fuel as its text has bytes has enough: with more it gives the same.
  pub parse_fields-length :
      (fuel : ℕ) (fields : Bytes) (h : AuthorizationHeader)
      → length fields ≤ fuel
      → parse_fields fuel fields h ≡ parse_fields (length fields) fields h
  parse_fields-length fuel fields h k = same_fields fuel (length fields) fields h k (omega arith)
