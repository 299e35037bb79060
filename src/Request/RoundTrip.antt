-- ===== src/Request/RoundTrip.antt =====
-- Printing a request of rtspproxy/request.go and parsing it. url.Parse and URL.String are parameters.
use rtsp_proxy.HeaderBlock.Loop.{IsPrintable, header_loop-total}
use rtsp_proxy.HeaderBlock.{word}
use rtsp_proxy.Message.{Headers, Result, ok, err, line_split}
use rtsp_proxy.Prelude.{
  suc, ◌≡◌, ◌≢◌, refl, ap, arith, false, [], ◌∷◌, ◌++◌, Option, none, some, Bytes, length,
}
use rtsp_proxy.Request.{
  Request, blank_request, is_empty, rewrite_url, with_url, with_headers, parse_command,
  parse_request, new_request_from_buffer,
}
use rtsp_proxy.Response.Status.{IsWord, rune_string_ascii, word-append}
use rtsp_proxy.Url.{Url}

abbrev pub command_line : Bytes → Bytes → Bytes → Bytes
command_line method raw_url version = method ++ (b' ' ∷ (raw_url ++ (b' ' ∷ version)))

is_empty-ne : (s : Bytes) → s ≢ [] → is_empty s ≡ false
is_empty-ne [] h = absurd (h refl)
is_empty-ne (c ∷ cs) h = refl

word-whole : (w : Bytes) → IsWord w → word w ≡ (w, [])
unfolding word
word-whole [] h = refl
word-whole (c ∷ cs) h = rw (h.0.1, word-whole cs h.1, rune_string_ascii c h.0.0)

module _ (url_parse : Bytes → Option Url) where
  pub parse_command-print :
      (r : Request) (method raw_url version : Bytes) (u : Url)
      → IsWord method
      → method ≢ []
      → IsWord raw_url
      → raw_url ≢ []
      → IsWord version
      → version ≢ []
      → url_parse (rewrite_url raw_url) ≡ some u
      → parse_command url_parse r (command_line method raw_url version)
        ≡ ok (record r {
          method = method;
          raw_url = raw_url;
          protocol_version = version;
          url = some u;
        })
  unfolding parse_command with_url
  parse_command-print r method raw_url version u hm nm hu nu hv nv e =
      rw
        (
          word-append method (raw_url ++ (b' ' ∷ version)) hm,
          word-append raw_url version hu,
          word-whole version hv,
          is_empty-ne method nm,
          is_empty-ne raw_url nu,
          is_empty-ne version nv,
        )
        (ap
          (with_url url_parse
            (record r { method = method; raw_url = raw_url; protocol_version = version }))
          e)

  from_header_loop-ne-none :
      (r : Request) (o : Option (Result (Headers × Bytes)))
      → o ≢ none
      → (elim o [ none ↦ none | some out ↦ some (with_headers url_parse r out) ]) ≢ none
  from_header_loop-ne-none r none h = λ e. h refl
  from_header_loop-ne-none r (some out) h = λ e. cc

  parse_request-total_at :
      (r : Request) (buffer : Bytes) (s : Result Request)
      → parse_command url_parse r (line_split buffer).1 ≡ s
      → parse_request url_parse r buffer ≢ none
  unfolding parse_request
  parse_request-total_at r buffer (err e) h = rw (h, parse_request) (λ q. cc)
  parse_request-total_at r buffer (ok r') h =
      rw (h, parse_request)
        (from_header_loop-ne-none r' _ (
          header_loop-total (suc (length (line_split buffer).0)) r.headers (line_split buffer).0
            (omega arith)))

-- NewRequestFromBuffer returns on every text, whatever url.Parse does: its header loop ends.
pub new_request_from_buffer-total :
    (url_parse : Bytes → Option Url) (buffer : Bytes)
    → new_request_from_buffer url_parse buffer ≢ none
unfolding new_request_from_buffer
new_request_from_buffer-total url_parse [] = λ e. cc
new_request_from_buffer-total url_parse (c ∷ cs) =
    parse_request-total_at url_parse blank_request (c ∷ cs) _ refl

-- What can be sent: method, version and URL text are words, and the headers can be printed.
pub record IsSendable (r : Request) (raw_url : Bytes) : Type 0 where
  pub method_word : IsWord r.method
  pub method_ne_nil : r.method ≢ []
  pub url_word : IsWord raw_url
  pub url_ne_nil : raw_url ≢ []
  pub version_word : IsWord r.protocol_version
  pub version_ne_nil : r.protocol_version ≢ []
  pub printable : IsPrintable [] r.headers

-- The request as it is read.
abbrev pub as_read : Request → Bytes → Url → Request
as_read r raw_url u = record blank_request {
  method = r.method;
  raw_url = raw_url;
  url = some u;
  protocol_version = r.protocol_version;
  headers = r.headers;
}
