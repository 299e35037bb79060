-- ===== src/Response.antt =====
-- rtspproxy/response.go: Response, its construction, parsing and printing.
pub mod Status
pub mod RoundTrip
use rtsp_proxy.HeaderBlock.{word, header_loop, print_headers}
use rtsp_proxy.Message.{
  Headers, ParseError, bad_status, bad_code, Result, ok, err, ◌>>=◌, is_eol, line_split, header_get,
}
use rtsp_proxy.Prelude.Int.{ℤ, pos, pos_part, ltb_ℤ, leb_ℤ, eq_ℤ}
use rtsp_proxy.Text.Number.{itoa, atoi}
use rtsp_proxy.Text.{rune_string}
use rtsp_proxy.Prelude.{
  ℕ, suc, Bool, true, false, ◌||◌, [], ◌∷◌, ◌++◌, List, Option, none, some, Bytes, bytes_eq, codes,
  ◌==◌, if◌then◌else◌, length, take, drop,
}

pub record Response : Type 0 where
  pub status : Bytes
  pub protocol_version : Bytes
  pub code : ℤ
  pub headers : Headers
  pub body : Bytes

-- NewResponse, with the optional arguments as a list.
unfoldable pub new_response : ℤ → List Bytes → Response
new_response code [] = record {
  status = codes "OK";
  protocol_version = codes "RTSP/1.0";
  code = code;
  headers = [];
  body = [];
}
new_response code (status ∷ []) = record {
  status = status;
  protocol_version = codes "RTSP/1.0";
  code = code;
  headers = [];
  body = [];
}
new_response code (status ∷ version ∷ _) = record {
  status = status;
  protocol_version = version;
  code = code;
  headers = [];
  body = [];
}

-- The loop of ParseStatus over the reason phrase, up to a line end.
unfoldable pub phrase : Bytes → Bytes
phrase [] = []
phrase (c ∷ cs) = let rest = phrase cs in if is_eol c then [] else rune_string c ++ rest

-- The code of the status line: 0 if it has not three bytes, an error if it is no number.
unfoldable pub status_code : Bytes → Result ℤ
status_code code =
    if length code == 3
    then (if (atoi code).fine then ok (atoi code).value else err bad_code)
    else ok (pos 0)

abbrev pub is_empty : Bytes → Bool
is_empty [] = true
is_empty (c ∷ cs) = false

-- What ParseStatus stores, or its error.
unfoldable pub check_status : Response → Bytes → Bytes → ℤ → Result Response
check_status r version status code =
    if is_empty status || (eq_ℤ code (pos 0) || is_empty version)
    then err bad_status
    else ok (record r { status = status; protocol_version = version; code = code })

unfoldable pub parse_status : Response → Bytes → Result Response
unfolding status_code check_status phrase
parse_status r line =
    let (version, rest) = word line in
    let (code_text, rest') = word (drop 1 rest) in
    do code ← status_code code_text; check_status r version (phrase (drop 1 rest')) code

-- The body by Content-Length, cut at the end of the text.
unfoldable pub take_body : Bytes → Bytes → Bytes
take_body content_length next =
    if is_empty content_length
    then []
    else let n = (atoi content_length).value in
      if ltb_ℤ (pos 0) n
      then (if leb_ℤ n (pos (length next)) then take (pos_part n) next else next)
      else []

unfoldable pub finish : Response → Result (Headers × Bytes) → Result Response
unfolding take_body
finish r (err e) = err e
finish r (ok (headers, next)) = ok (record r {
  headers = headers;
  body = take_body (header_get headers (codes "Content-Length")) next;
})

-- ParseResponse on a response with no headers yet. `none` means that the fuel of the header loop
-- is used up.
unfoldable pub parse_response : Response → Bytes → Option (Result Response)
unfolding parse_status finish
parse_response r buffer =
    let (next, line) = line_split buffer in
    elim (parse_status r line) [
      | err e ↦ some (err e)
      | ok r' ↦ elim (header_loop (suc (length next)) r.headers next) [
        | none ↦ none
        | some out ↦ some (finish r' out)
      ]
    ]

abbrev pub bad_request : Response
bad_request = record {
  status = codes "Bad request";
  protocol_version = codes "RTSP/1.0";
  code = pos 400;
  headers = [];
  body = [];
}

-- NewResponseFromBuffer
unfoldable pub new_response_from_buffer : Bytes → Option (Result Response)
unfolding parse_response
new_response_from_buffer [] = some (ok bad_request)
new_response_from_buffer (c ∷ cs) = parse_response bad_request (c ∷ cs)

-- Response.String, over the headers in the order of the list.
unfoldable pub print_response : Response → Bytes
print_response r =
    r.protocol_version
    ++ (b' '
        ∷ (itoa r.code
            ++ (b' '
                ∷ (r.status
                    ++ (b'\r' ∷ b'\n' ∷ (print_headers r.headers ++ (b'\r' ∷ b'\n' ∷ r.body)))))))
