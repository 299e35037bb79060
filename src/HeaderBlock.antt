-- ===== src/HeaderBlock.antt =====
-- What ParseRequest (rtspproxy/request.go) and ParseResponse (rtspproxy/response.go) have in
-- common: words of the first line, the header loop, and the printing of headers in both String methods.
pub mod Loop
use rtsp_proxy.Message.{Headers, ParseError, Result, ok, err, line_split, parse_header}
use rtsp_proxy.Prelude.Dict.{bytes_eq_inst, insert}
use rtsp_proxy.Text.{rune_string}
use rtsp_proxy.Prelude.{
  ℕ, zero, suc, Bool, ◌||◌, [], ◌∷◌, ◌++◌, Option, none, some, Bytes, ◌==◌, if◌then◌else◌,
}

abbrev pub is_blank : ℕ → Bool
is_blank c = c == b' ' || c == b'\t'

-- The loop that appends string(buffer[i]) up to a blank: the word, and the text from the blank on.
unfoldable pub word : Bytes → Bytes × Bytes
word [] = ([], [])
word (c ∷ cs) =
    let (w, rest) = word cs in if is_blank c then ([], c ∷ cs) else (rune_string c ++ w, rest)

-- One round of `for { next, thisLine = sharedLineSplit(next); ... }`: the loop breaks at an empty
-- line, returns an error, or goes on with the header stored and the rest of the text.
pub data Round : Type 0 where
  finished : Headers → Bytes → Round
  broken : ParseError → Round
  again : Headers → Bytes → Round

unfoldable pub store_header : Headers → Bytes → Result (Bytes × Bytes) → Round
store_header headers rest (ok (key, value)) = again (insert key value headers) rest
store_header headers rest (err e) = broken e

unfoldable pub take_line : Headers → Bytes × Bytes → Round
unfolding store_header
take_line headers (rest, []) = finished headers rest
take_line headers (rest, c ∷ cs) = store_header headers rest (parse_header (c ∷ cs))

-- The loop, with `none` when the fuel is used up.
unfoldable pub header_loop : ℕ → Headers → Bytes → Option (Result (Headers × Bytes))
header_loop zero headers next = none
header_loop (suc fuel) headers next = elim (take_line headers (line_split next)) [
  | finished h rest ↦ some (ok (h, rest))
  | broken e ↦ some (err e)
  | again h rest ↦ header_loop fuel h rest
]

unfoldable pub print_header : Bytes → Bytes → Bytes
print_header key value = key ++ (b':' ∷ b' ' ∷ (value ++ (b'\r' ∷ b'\n' ∷ [])))

unfoldable pub print_headers : Headers → Bytes
unfolding print_header
print_headers [] = []
print_headers ((key, value) ∷ m) = print_header key value ++ print_headers m
