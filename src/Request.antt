-- ===== src/Request.antt =====
-- rtspproxy/request.go: Request, its construction, parsing and printing. url.Parse is an argument.
pub mod RoundTrip
pub mod ProxyUrl
use rtsp_proxy.HeaderBlock.{word, header_loop, print_headers}
use rtsp_proxy.Message.{Headers, bad_method, bad_url, Result, ok, err, line_split}
use rtsp_proxy.Prelude.{
  ℕ, suc, Bool, true, false, ◌&&◌, ◌||◌, List, [], ◌∷◌, ◌++◌, Option, none, some, Bytes, codes,
  ◌==◌, leb, if◌then◌else◌, length, drop,
}
use rtsp_proxy.Url.{Url, get_url}

-- `subscriptions` holds the channels that wait for the outcome, by number.
pub record Request : Type 0 where
  pub method : Bytes
  pub raw_url : Bytes
  pub url : Option Url
  pub protocol_version : Bytes
  pub headers : Headers
  pub body : Bytes
  pub attempts : ℕ
  pub subscriptions : List ℕ

abbrev version_of : List Bytes → Bytes
version_of ((c ∷ cs) ∷ _) = c ∷ cs
version_of _ = codes "RTSP/1.0"

unfoldable pub new_request : Bytes → Url → List Bytes → Request
new_request method url args = record {
  method = method;
  raw_url = [];
  url = some url;
  protocol_version = version_of args;
  headers = [];
  body = [];
  attempts = 0;
  subscriptions = [];
}

-- The request that NewRequestFromBuffer starts with.
abbrev pub blank_request : Request
blank_request = record {
  method = [];
  raw_url = [];
  url = none;
  protocol_version = [];
  headers = [];
  body = [];
  attempts = 0;
  subscriptions = [];
}

-- What is behind a literal at the front of the text.
unfoldable pub eat : Bytes → Bytes → Option Bytes
eat [] s = some s
eat (p ∷ ps) [] = none
eat (p ∷ ps) (c ∷ cs) = if p == c then eat ps cs else none

abbrev pub is_digit : ℕ → Bool
is_digit c = leb b'0' c && leb c b'9'

-- [^:\/]* and the text behind it
unfoldable pub host_part : Bytes → Bytes × Bytes
host_part [] = ([], [])
host_part (c ∷ cs) =
    let (h, rest) = host_part cs in if c == b':' || c == b'/' then ([], c ∷ cs) else (c ∷ h, rest)

unfoldable pub skip_digits : Bytes → Bytes
skip_digits [] = []
skip_digits (c ∷ cs) = if is_digit c then skip_digits cs else c ∷ cs

-- \d+
unfoldable pub eat_digits : Bytes → Option Bytes
unfolding skip_digits
eat_digits [] = none
eat_digits (c ∷ cs) = if is_digit c then some (skip_digits cs) else none

-- (:?[:]\d+)?, which stands at a colon or at a slash
unfoldable pub eat_port : Bytes → Option Bytes
unfolding eat_digits eat
eat_port s = elim (eat (codes "::") s) [
  | some r ↦ eat_digits r
  | none ↦ elim (eat (codes ":") s) [ some r ↦ eat_digits r | none ↦ some s ]
]

abbrev non_empty : Bytes × Bytes → Option Bytes
non_empty ([], rest) = none
non_empty (c ∷ cs, rest) = some rest

infixl 5 ◌>>=◌
abbrev ◌>>=◌ {ℓ κ} : {A : Type ℓ} {B : Type κ} → Option A → (A → Option B) → Option B
none >>= f = none
some a >>= f = f a

-- The third group of ^rtsp:\/\/[^:\/]+(:?[:]\d+)?\/(rtsp)\/(.*)
unfoldable pub proxied : Bytes → Option Bytes
unfolding host_part eat_port eat
proxied s = do
  behind ← eat (codes "rtsp://") s
  host ← non_empty (host_part behind)
  port ← eat_port host
  eat (codes "/rtsp/") port

-- ReplaceAllString(request.RawURL, "$2://$3"); a request's URL has no line end.
unfoldable pub rewrite_url : Bytes → Bytes
unfolding proxied
rewrite_url s = elim (proxied s) [ some rest ↦ codes "rtsp://" ++ rest | none ↦ s ]

abbrev pub is_empty : Bytes → Bool
is_empty [] = true
is_empty (c ∷ cs) = false

module _ (url_parse : Bytes → Option Url) where
  unfoldable pub with_url : Request → Option Url → Result Request
  with_url r none = err bad_url
  with_url r (some u) = ok (record r { url = some u })

  unfoldable pub parse_command : Request → Bytes → Result Request
  unfolding rewrite_url with_url
  parse_command r line =
      let (method, rest) = word line in
      let (raw_url, rest') = word (drop 1 rest) in
      let (version, rest'') = word (drop 1 rest') in
      if is_empty method || (is_empty raw_url || is_empty version)
      then err bad_method
      else with_url (record r { method = method; raw_url = raw_url; protocol_version = version })
          (url_parse (rewrite_url raw_url))

  abbrev pub with_headers : Request → Result (Headers × Bytes) → Result Request
  with_headers r (err e) = err e
  with_headers r (ok (headers, rest)) = ok (record r { headers = headers })

  -- `none` means that the fuel of the header loop is used up.
  unfoldable pub parse_request : Request → Bytes → Option (Result Request)
  unfolding parse_command
  parse_request r buffer =
      let (next, line) = line_split buffer in
      elim (parse_command r line) [
        | err e ↦ some (err e)
        | ok r' ↦ elim (header_loop (suc (length next)) r.headers next) [
          | none ↦ none
          | some out ↦ some (with_headers r' out)
        ]
      ]

  unfoldable pub new_request_from_buffer : Bytes → Option (Result Request)
  unfolding parse_request
  new_request_from_buffer [] = some (ok blank_request)
  new_request_from_buffer (c ∷ cs) = parse_request blank_request (c ∷ cs)

-- Request.String, with URL.String as an argument. A request without URL would panic; the proxy
-- prints only requests that NewRequest made.
unfoldable pub print_request : (Url → Bytes) → Request → Option Bytes
print_request url_print r = elim r.url [
  | none ↦ none
  | some u ↦ some (
      r.method
      ++ (b' '
          ∷ (url_print (get_url u)
              ++ (b' '
                  ∷ (r.protocol_version
                      ++ (b'\r' ∷ b'\n' ∷ (print_headers r.headers ++ (b'\r' ∷ b'\n' ∷ []))))))))
]
