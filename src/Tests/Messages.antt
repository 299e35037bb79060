-- ===== src/Tests/Messages.antt =====
-- Header blocks and responses of rtspproxy/message.go and rtspproxy/response.go on concrete texts.
use rtsp_proxy.HeaderBlock.Loop.{IsPrintable}
use rtsp_proxy.HeaderBlock.{print_headers}
use rtsp_proxy.Message.Keys.{IsKey, AllCanonical}
use rtsp_proxy.Message.Length.{Quiet}
use rtsp_proxy.Message.{Headers, ok, canonical_from, header_get, matches_folded}
use rtsp_proxy.Prelude.Dict.{bytes_eq_inst, lookup}
use rtsp_proxy.Prelude.Int.{pos}
use rtsp_proxy.Prelude.{
  ◌<◌, ◌≡◌, inr, refl, arith, true, [], ◌∷◌, ◌++◌, some, none, Bytes, bytes_eq, codes, length,
}
use rtsp_proxy.Response.RoundTrip.{IsWritable, new_response_from_buffer-print}
use rtsp_proxy.Response.{Response, new_response, print_response, new_response_from_buffer}
use rtsp_proxy.Text.Number.{itoa_nat}

abbrev headers : Headers
headers = (codes "Cseq", codes "7") ∷ (codes "Content-Length", codes "4") ∷ []

cseq_canonical : canonical_from true (codes "Cseq") ≡ codes "Cseq"
unfolding canonical_from
cseq_canonical = refl

length_canonical : canonical_from true (codes "Content-Length") ≡ codes "Content-Length"
unfolding canonical_from
length_canonical = refl

no_length_yet : lookup (codes "Content-Length") ((codes "Cseq", codes "7") ∷ []) ≡ none
unfolding lookup bytes_eq
no_length_yet = refl

nothing_yet : (k : Bytes) → lookup {K = Bytes} {V = Bytes} k [] ≡ none
unfolding lookup
nothing_yet k = refl

length_there : header_get headers (codes "Content-Length") ≡ itoa_nat 4
unfolding header_get lookup bytes_eq itoa_nat
length_there = refl

headers-IsPrintable : IsPrintable [] headers
headers-IsPrintable =
    ground (arith, cseq_canonical, length_canonical, no_length_yet, nothing_yet (codes "Cseq"))

abbrev answer : Response
answer = record (new_response (pos 200) (codes "OK" ∷ [])) {
  headers = headers;
  body = codes "v=0\n";
}

answer-IsWritable : IsWritable answer
unfolding new_response
answer-IsWritable = record {
  version_word = ground arith;
  version_ne_nil = λ e. cc;
  status_phrase = ground arith;
  status_ne_nil = λ e. cc;
  code_text = (200, refl, omega arith, omega arith);
  printable = headers-IsPrintable;
  sized = inr (length_there, omega arith);
}

new_response_from_buffer-print_example :
    new_response_from_buffer (print_response answer) ≡ some (ok answer)
new_response_from_buffer-print_example = new_response_from_buffer-print answer answer-IsWritable

short : length (print_headers headers ++ (b'\r' ∷ b'\n' ∷ codes "v=0\n")) < 100
unfolding print_headers
short = omega arith

cseq-IsKey : IsKey (codes "cSEQ")
cseq-IsKey = (ground arith)

headers-AllCanonical : AllCanonical headers
headers-AllCanonical = ground (arith, cseq_canonical, length_canonical)

line_before-Quiet : Quiet (codes "A\r\n") (codes "Content-length:" ++ (b' ' ∷ (itoa_nat 42 ++ [])))
unfolding matches_folded
line_before-Quiet = (refl, (refl, (refl, tt)))
