-- ===== src/Response/RoundTrip.antt =====
-- Printing a response and parsing it.
use rtsp_proxy.HeaderBlock.Loop.{IsPrintable, header_loop-total, header_loop-print}
use rtsp_proxy.HeaderBlock.{header_loop, print_headers}
use rtsp_proxy.Message.Lines.{line_split-append}
use rtsp_proxy.Message.{Headers, Result, ok, err, line_split, header_get}
use rtsp_proxy.Prelude.Int.{pos, max_int}
use rtsp_proxy.Text.Number.RoundTrip.{itoa_nat-ne-nil, atoi-itoa_nat}
use rtsp_proxy.Text.Number.{itoa_nat, itoa}
use rtsp_proxy.Response.{
  Response, parse_status, take_body, finish, parse_response, bad_request, new_response_from_buffer,
  print_response,
}
use rtsp_proxy.Prelude.{
  ℕ, suc, ◌≤◌, [], ◌∷◌, ◌++◌, ◌≡◌, ◌≢◌, ◌⊎◌, inl, inr, refl, ap, sym, ◌∙◌, arith, Option, none,
  some, Bytes, codes, length, append_assoc, take,
}
use rtsp_proxy.Response.Status.{
  IsWord, IsPhrase, is_empty-false, status_line, status_line-IsLine, parse_status-print,
}

from_header_loop-ne-none :
    (r : Response) (o : Option (Result (Headers × Bytes)))
    → o ≢ none
    → (elim o [ none ↦ none | some out ↦ some (finish r out) ]) ≢ none
from_header_loop-ne-none r none h = λ e. h refl
from_header_loop-ne-none r (some out) h = λ e. cc

parse_response-total_at :
    (r : Response) (buffer : Bytes) (s : Result Response)
    → parse_status r (line_split buffer).1 ≡ s
    → parse_response r buffer ≢ none
unfolding parse_response
parse_response-total_at r buffer (err e) h = rw (h, parse_response) (λ q. cc)
parse_response-total_at r buffer (ok r') h =
    rw (h, parse_response)
      (from_header_loop-ne-none r' _ (
        header_loop-total (suc (length (line_split buffer).0)) r.headers (line_split buffer).0
          (omega arith)))

-- ParseResponse returns on every text: its header loop ends.
pub new_response_from_buffer-total : (buffer : Bytes) → new_response_from_buffer buffer ≢ none
unfolding new_response_from_buffer
new_response_from_buffer-total [] = λ e. cc
new_response_from_buffer-total (c ∷ cs) = parse_response-total_at bad_request (c ∷ cs) _ refl

-- What a response must be to be printed and read back.
pub record IsWritable (r : Response) : Type 0 where
  pub version_word : IsWord r.protocol_version
  pub version_ne_nil : r.protocol_version ≢ []
  pub status_phrase : IsPhrase r.status
  pub status_ne_nil : r.status ≢ []
  pub code_text : (n : ℕ) × (r.code ≡ pos n) × (100 ≤ n) × (n ≤ 999)
  pub printable : IsPrintable [] r.headers
  pub sized :
      ((header_get r.headers (codes "Content-Length") ≡ []) × (r.body ≡ []))
      ⊎ ((header_get r.headers (codes "Content-Length") ≡ itoa_nat (length r.body))
          × (length r.body ≤ max_int))

regroup :
    (v d s t : Bytes)
    → v ++ (b' ' ∷ (d ++ (b' ' ∷ (s ++ t)))) ≡ (v ++ (b' ' ∷ (d ++ (b' ' ∷ s)))) ++ t
regroup v d s t = simp append_assoc

-- The text behind the status line.
abbrev tail_text : Response → Bytes
tail_text r = print_headers r.headers ++ (b'\r' ∷ b'\n' ∷ r.body)

print_response-split :
    (r : Response) (n : ℕ)
    → r.code ≡ pos n
    → print_response r ≡ status_line r.protocol_version n r.status ++ (b'\r' ∷ b'\n' ∷ tail_text r)
unfolding print_response itoa
print_response-split r n e =
    ap
      (λ c.
        r.protocol_version
        ++ (b' ' ∷ (itoa c ++ (b' ' ∷ (r.status ++ (b'\r' ∷ b'\n' ∷ tail_text r))))))
      e
    ∙ regroup r.protocol_version (itoa_nat n) r.status (b'\r' ∷ b'\n' ∷ tail_text r)

take_body-none : (next : Bytes) → take_body [] next ≡ []
unfolding take_body
take_body-none next = refl

take_all : (s : Bytes) → take (length s) s ≡ s
take_all [] = refl
take_all (c ∷ cs) = ap (◌∷◌ c) (take_all cs)

take_body-itoa : (s : Bytes) → length s ≤ max_int → take_body (itoa_nat (length s)) s ≡ s
unfolding take_body
take_body-itoa [] h = rw (is_empty-false (itoa_nat 0) (itoa_nat-ne-nil 0), atoi-itoa_nat 0 h)
take_body-itoa (c ∷ cs) h =
    rw
      (
        is_empty-false (itoa_nat (suc (length cs))) (itoa_nat-ne-nil (suc (length cs))),
        atoi-itoa_nat (suc (length cs)) h,
      )
      (ground (arith, take_all cs))

body_read :
    (r : Response)
    → IsWritable r
    → take_body (header_get r.headers (codes "Content-Length")) r.body ≡ r.body
body_read r w = elim w.sized [
  | inl (e, f) ↦ rw (e, f) (take_body-none [])
  | inr (e, f) ↦ rw e (take_body-itoa r.body f)
]

parse_response-ok :
    (r r' : Response) (buffer : Bytes) (headers : Headers) (rest : Bytes)
    → parse_status r (line_split buffer).1 ≡ ok r'
    → header_loop (suc (length (line_split buffer).0)) r.headers (line_split buffer).0
      ≡ some (ok (headers, rest))
    → parse_response r buffer ≡ some (finish r' (ok (headers, rest)))
unfolding parse_response
parse_response-ok r r' buffer headers rest f g = rw (f, parse_response, g)

parse_response-steps :
    (r r' : Response) (buffer next line : Bytes) (headers : Headers) (rest : Bytes)
    → line_split buffer ≡ (next, line)
    → parse_status r line ≡ ok r'
    → header_loop (suc (length next)) r.headers next ≡ some (ok (headers, rest))
    → parse_response r buffer ≡ some (finish r' (ok (headers, rest)))
parse_response-steps r r' buffer next line headers rest e f g =
    parse_response-ok r r' buffer headers rest (ap (λ p. parse_status r (p.1)) e ∙ f)
      (ap (λ p. header_loop (suc (length (p.0))) r.headers (p.0)) e ∙ g)

finish-same :
    (r : Response) (n : ℕ)
    → r.code ≡ pos n
    → IsWritable r
    → some (
        finish
          (record bad_request {
            status = r.status;
            protocol_version = r.protocol_version;
            code = pos n;
          })
          (ok (r.headers, r.body)))
      ≡ some (ok r)
unfolding finish
finish-same r n e w = λ i. some (
    ok (record {
      status = r.status;
      protocol_version = r.protocol_version;
      code = sym e i;
      headers = r.headers;
      body = body_read r w i;
    }))

new_response_from_buffer-ne-nil :
    (s : Bytes) → s ≢ [] → new_response_from_buffer s ≡ parse_response bad_request s
unfolding new_response_from_buffer
new_response_from_buffer-ne-nil [] h = absurd (h refl)
new_response_from_buffer-ne-nil (c ∷ cs) h = refl

pub append-ne-nil : (v t : Bytes) → v ≢ [] → v ++ t ≢ []
append-ne-nil [] t h = absurd (h refl)
append-ne-nil (c ∷ cs) t h = λ e. cc

print_response-ne-nil : (r : Response) → r.protocol_version ≢ [] → print_response r ≢ []
unfolding print_response
print_response-ne-nil r h = append-ne-nil r.protocol_version _ h

-- A response that String prints is read back whole by NewResponseFromBuffer: status line, headers
-- in the order in which they were printed, and body, for every response whose protocol version,
-- status and headers can stand on their lines, whose code has three digits, and whose body, if
-- there is one, has the length that its Content-Length header says.
pub new_response_from_buffer-print :
    (r : Response) → IsWritable r → new_response_from_buffer (print_response r) ≡ some (ok r)
new_response_from_buffer-print r w =
    let (n, e, lo, hi) = w.code_text in
    new_response_from_buffer-ne-nil _ (print_response-ne-nil r w.version_ne_nil)
    ∙ parse_response-steps bad_request _ (print_response r) (tail_text r)
        (status_line r.protocol_version n r.status) r.headers r.body
        (ap line_split (print_response-split r n e)
          ∙ line_split-append _ (tail_text r)
              (status_line-IsLine r.protocol_version n r.status w.version_word w.status_phrase))
        (parse_status-print bad_request r.protocol_version n r.status w.version_word
          w.version_ne_nil w.status_phrase w.status_ne_nil lo hi)
        (header_loop-print r.headers [] (suc (length (tail_text r))) r.body w.printable
          (omega arith))
    ∙ finish-same r n e w
