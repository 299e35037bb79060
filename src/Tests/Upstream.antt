-- ===== src/Tests/Upstream.antt =====
-- Responses of a camera, on a concrete queue.
use rtsp_proxy.Message.{header_get}
use rtsp_proxy.Prelude.Dict.{bytes_eq_inst, nat_eq, lookup}
use rtsp_proxy.Prelude.Int.{ℤ, pos}
use rtsp_proxy.Prelude.{
  ◌≡◌, inl, refl, arith, true, false, [], ◌∷◌, Option, some, none, Bytes, codes, bytes_eq,
}
use rtsp_proxy.Remote.{Remote, Pending, Net, new_remote}
use rtsp_proxy.Request.{Request}
use rtsp_proxy.Response.RoundTrip.{IsWritable, new_response_from_buffer-print}
use rtsp_proxy.Response.{Response, print_response}
use rtsp_proxy.Stream.{Stream, new_stream}
use rtsp_proxy.Upstream.Queue.{
  AtMostOnce, handle_upstream_response-AtMostOnce, handle_upstream_response-bare_401,
  handle_upstream_response-answered,
}
use rtsp_proxy.Handlers.{handle_method, handle_options}
use rtsp_proxy.Upstream.{answered, handle_upstream_response}
use rtsp_proxy.Url.{Url, rtsp_url}

abbrev pub plain : ℤ → Bytes → Response
plain code status = record {
  status = status;
  protocol_version = codes "RTSP/1.0";
  code = code;
  headers = [];
  body = [];
}

abbrev refused : Response
refused = plain (pos 401) (codes "Unauthorized")

abbrev pub accepted : Response
accepted = plain (pos 200) (codes "OK")

no_header : (k : Bytes) → header_get [] k ≡ []
unfolding header_get lookup
no_header k = refl

pub accepted-IsWritable : IsWritable accepted
accepted-IsWritable = record {
  version_word = ground arith;
  version_ne_nil = λ e. cc;
  status_phrase = ground arith;
  status_ne_nil = λ e. cc;
  code_text = (200, refl, omega arith, omega arith);
  printable = tt;
  sized = inl (no_header (codes "Content-Length"), refl);
}

refused-IsWritable : IsWritable refused
refused-IsWritable = record {
  version_word = ground arith;
  version_ne_nil = λ e. cc;
  status_phrase = ground arith;
  status_ne_nil = λ e. cc;
  code_text = (401, refl, omega arith, omega arith);
  printable = tt;
  sized = inl (no_header (codes "Content-Length"), refl);
}

abbrev options : Request
options = record {
  method = codes "OPTIONS";
  raw_url = [];
  url = some (rtsp_url (codes "cam") (codes "/a"));
  protocol_version = codes "RTSP/1.0";
  headers = [];
  body = [];
  attempts = 0;
  subscriptions = 5 ∷ [];
}

abbrev first : Pending
first = record { element = 0; request = 3 }

abbrev second : Pending
second = record { element = 1; request = 4 }

abbrev waiting : Remote
waiting = record (new_remote (codes "cam") (codes "u") (codes "p")) {
  conn = true;
  requests = first ∷ second ∷ [];
  objects = (3, options) ∷ [];
}

options_there : lookup 3 waiting.objects ≡ some options
unfolding lookup
options_there = refl

abbrev pub camera : Stream
camera = new_stream 5 (codes "cam") (codes "u") (codes "p") (codes "/a")

abbrev pub net : Net
net = record { server_done = false; dials = none; writes = true; writes_data = true; cnonce = [] }

abbrev pub parse : Bytes → Option Url
parse text = some (rtsp_url (codes "cam") text)

handle_upstream_response-AtMostOnce_example : AtMostOnce waiting (
    handle_upstream_response
      (λ t. t)
      (λ u. u.path)
      parse
      net
      camera
      waiting
      (codes
        "RTSP/1.0 401 Unauthorized\r\nWWW-Authenticate: Digest realm=\"r\", nonce=\"n\"\r\n\r\n"))
handle_upstream_response-AtMostOnce_example =
    handle_upstream_response-AtMostOnce (λ t. t) (λ u. u.path) parse net camera waiting
      (codes
        "RTSP/1.0 401 Unauthorized\r\nWWW-Authenticate: Digest realm=\"r\", nonce=\"n\"\r\n\r\n")

handle_upstream_response-bare_401_example :
    handle_upstream_response
      (λ t. t)
      (λ u. u.path)
      parse
      net
      camera
      waiting
      (print_response refused)
    ≡ answered camera (record waiting { requests = second ∷ [] }) (codes "ok") (5 ∷ [])
handle_upstream_response-bare_401_example =
    handle_upstream_response-bare_401 (λ t. t) (λ u. u.path) parse net camera waiting
      (print_response refused) refused first (second ∷ []) options
      (new_response_from_buffer-print refused refused-IsWritable) refl options_there refl
      (no_header (codes "WWW-Authenticate")) refl

options_handled :
    handle_method parse camera options accepted ≡ some (handle_options camera accepted)
unfolding handle_method bytes_eq
options_handled = refl

handle_upstream_response-answered_example :
    handle_upstream_response
      (λ t. t)
      (λ u. u.path)
      parse
      net
      camera
      waiting
      (print_response accepted)
    ≡ answered
        (handle_options camera accepted)
        (record waiting { requests = second ∷ [] })
        (codes "ok")
        (5 ∷ [])
handle_upstream_response-answered_example =
    handle_upstream_response-answered (λ t. t) (λ u. u.path) parse net camera
      (handle_options camera accepted) waiting (print_response accepted) accepted first
      (second ∷ []) options (new_response_from_buffer-print accepted accepted-IsWritable) refl
      options_there (ground arith) options_handled
