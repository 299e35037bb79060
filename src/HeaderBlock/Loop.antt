-- ===== src/HeaderBlock/Loop.antt =====
-- The header loop of rtspproxy/request.go and rtspproxy/response.go, and printed headers.
use rtsp_proxy.HeaderBlock.{
  Round, finished, broken, again, store_header, take_line, header_loop, print_header, print_headers,
}
use rtsp_proxy.Message.Headers.{HasNo, IsValue, IsClean, after, parse_header-print}
use rtsp_proxy.Message.Keys.{IsKey, IsCanonical, canonical_key}
use rtsp_proxy.Message.Lines.{IsLine, line_split-append, line_split-lt}
use mathlib.Core.List.{cons-ne-nil}
use rtsp_proxy.Message.{
  Headers, CopyState, in_value, in_skip, Result, ok, err, line_split, parse_header,
}
use rtsp_proxy.Prelude.Dict.{bytes_eq_inst, insert, lookup, insert_absent}
use rtsp_proxy.Prelude.{
  ℕ, zero, suc, ◌<◌, [], ◌∷◌, ◌++◌, ◌≡◌, ◌≢◌, refl, ap, ◌∙◌, arith, Option, none, some, Bytes,
  All-append, length, length-append, append_assoc, append-nil,
}

abbrev Shorter : ℕ → Round → Type 0
Shorter n (again h rest) = length rest < n
Shorter n _ = Unit

store_header-Shorter :
    (headers : Headers) (rest : Bytes) (r : Result (Bytes × Bytes)) (n : ℕ)
    → length rest < n
    → Shorter n (store_header headers rest r)
unfolding store_header
store_header-Shorter headers rest (ok (k, v)) n h = h
store_header-Shorter headers rest (err e) n h = tt

take_line-Shorter :
    (headers : Headers) (rest line : Bytes) (n : ℕ)
    → (line ≢ [] → length rest < n)
    → Shorter n (take_line headers (rest, line))
unfolding take_line
take_line-Shorter headers rest [] n h = tt
take_line-Shorter headers rest (c ∷ cs) n h =
    store_header-Shorter headers rest (parse_header (c ∷ cs)) n (h (cons-ne-nil c cs))

abbrev from_round : ℕ → Round → Option (Result (Headers × Bytes))
from_round fuel r = elim r [
  | finished h rest ↦ some (ok (h, rest))
  | broken e ↦ some (err e)
  | again h rest ↦ header_loop fuel h rest
]

from_round-ne-none :
    (fuel n : ℕ) (r : Round)
    → Shorter n r
    → ((h : Headers) (rest : Bytes) → length rest < n → header_loop fuel h rest ≢ none)
    → from_round fuel r ≢ none
from_round-ne-none fuel n (finished h rest) s ih = λ e. cc
from_round-ne-none fuel n (broken x) s ih = λ e. cc
from_round-ne-none fuel n (again h rest) s ih = ih h rest s

-- The header loop ends within one round for each byte of the text, and one more.
pub header_loop-total :
    (fuel : ℕ) (headers : Headers) (next : Bytes)
    → length next < fuel
    → header_loop fuel headers next ≢ none
unfolding header_loop
header_loop-total zero headers next h = absurd (omega arith)
header_loop-total (suc fuel) headers next h =
    from_round-ne-none fuel (length next) (take_line headers (line_split next))
      (take_line-Shorter headers (line_split next).0 (line_split next).1 (length next)
        (line_split-lt next))
      (λ h' rest l. header_loop-total fuel h' rest (omega arith))

-- A header map that can be printed and read back: canonical keys with no colon, values that can
-- be stored, and no key twice or in `seen`.
abbrev pub IsPrintable : Headers → Headers → Type 0
IsPrintable seen [] = Unit
IsPrintable seen ((k, v) ∷ m) =
    IsCanonical k
    × HasNo b':' k
    × IsValue v
    × (lookup k seen ≡ none)
    × IsPrintable (seen ++ (k, v) ∷ []) m

plain-IsLine : (k : Bytes) → IsKey k → IsLine k
plain-IsLine [] h = tt
plain-IsLine (c ∷ cs) h = (ground arith, plain-IsLine cs h.1)

clean-IsLine : (st : CopyState) (v : Bytes) → IsClean st v → IsLine v
clean-IsLine st [] h = tt
clean-IsLine in_value (c ∷ cs) h = (ground arith, clean-IsLine (after in_value c) cs h.1)
clean-IsLine in_skip (c ∷ cs) h = (ground arith, clean-IsLine in_value cs h.1)

value-IsLine : (v : Bytes) → IsValue v → IsLine v
value-IsLine [] h = tt
value-IsLine (c ∷ cs) h = clean-IsLine in_value (c ∷ cs) h.1

header-IsLine : (k v : Bytes) → IsKey k → IsValue v → IsLine (k ++ (b':' ∷ b' ' ∷ v))
header-IsLine k v hk hv =
    All-append _ k (b':' ∷ b' ' ∷ v) (plain-IsLine k hk) (refl, (refl, value-IsLine v hv))

print_header-append :
    (k v rest : Bytes)
    → print_header k v ++ rest ≡ (k ++ (b':' ∷ b' ' ∷ v)) ++ (b'\r' ∷ b'\n' ∷ rest)
unfolding print_header
print_header-append k v rest = simp append_assoc

take_line-ok :
    (headers : Headers) (rest k v : Bytes)
    → parse_header (k ++ (b':' ∷ b' ' ∷ v)) ≡ ok (k, v)
    → take_line headers (rest, k ++ (b':' ∷ b' ' ∷ v)) ≡ again (insert k v headers) rest
unfolding take_line store_header
take_line-ok headers rest [] v e = rw e
take_line-ok headers rest (c ∷ cs) v e = rw e

header_loop_again :
    (fuel : ℕ) (headers h : Headers) (next rest : Bytes)
    → take_line headers (line_split next) ≡ again h rest
    → header_loop (suc fuel) headers next ≡ header_loop fuel h rest
unfolding header_loop
header_loop_again fuel headers h next rest e = rw (e, header_loop)

header_loop_header :
    (fuel : ℕ) (headers : Headers) (k v rest : Bytes)
    → IsCanonical k
    → HasNo b':' k
    → IsValue v
    → lookup k headers ≡ none
    → header_loop (suc fuel) headers (print_header k v ++ rest)
      ≡ header_loop fuel (headers ++ (k, v) ∷ []) rest
header_loop_header fuel headers k v rest hk colon hv new = header_loop_again fuel headers _ _ rest (
    ap (take_line headers) (
      ap line_split (print_header-append k v rest)
      ∙ line_split-append _ rest (header-IsLine k v hk.0 hv))
    ∙ take_line-ok headers rest k v
        (parse_header-print k v colon hv ∙ ap (λ t. ok (t, v)) (canonical_key k hk.0 ∙ hk.1))
    ∙ ap (λ m. again m rest) (insert_absent k v headers new))

print_header_pos : (k v : Bytes) → 0 < length (print_header k v)
unfolding print_header
print_header_pos k v = omega (arith, length-append k (b':' ∷ b' ' ∷ (v ++ (b'\r' ∷ b'\n' ∷ []))))

-- The header loop reads back printed headers: what it has stored already, `seen`, and behind that
-- the headers in the order in which they were printed; the text behind the empty line is left.
pub header_loop-print :
    (m seen : Headers) (fuel : ℕ) (body : Bytes)
    → IsPrintable seen m
    → length (print_headers m ++ (b'\r' ∷ b'\n' ∷ body)) < fuel
    → header_loop fuel seen (print_headers m ++ (b'\r' ∷ b'\n' ∷ body))
      ≡ some (ok (seen ++ m, body))
unfolding print_headers header_loop
header_loop-print m seen zero body h small = absurd (omega arith)
header_loop-print [] seen (suc fuel) body h small =
    unfold line_split take_line in rw (append-nil seen)
header_loop-print ((k, v) ∷ m) seen (suc fuel) body h small =
    ap (header_loop (suc fuel) seen) (append_assoc (print_header k v) (print_headers m) _)
    ∙ header_loop_header fuel seen k v _ h.0 h.1 h.2 h.3
    ∙ header_loop-print m (seen ++ (k, v) ∷ []) fuel body h.4 (
        omega (
          arith,
          print_header_pos k v,
          length-append (print_header k v) (print_headers m),
          length-append (print_header k v ++ print_headers m) (b'\r' ∷ b'\n' ∷ body),
          length-append (print_headers m) (b'\r' ∷ b'\n' ∷ body),
        ))
    ∙ ap (λ t. some (ok (t, body))) (append_assoc seen ((k, v) ∷ []) m)
