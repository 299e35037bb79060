-- ===== src/ClientLoop/Serving.antt =====
-- incomingRequestHandler of rtspproxy/client.go: the stream of a client, over its requests.
use rtsp_proxy.Client.{Client, Resolved, resolved, resolve, is_empty}
use rtsp_proxy.ClientLoop.{
  Proxy, Visit, Served, answers, hangs_up, crashes, answer, answered_by, serve_on, serve_target,
  serve_resolved, serve_parsed, serve_request,
}
use rtsp_proxy.Manager.{StreamManager, stream_key, get_stream}
use rtsp_proxy.Message.{Result, ok, err}
use rtsp_proxy.Prelude.Dict.{bytes_eq_inst, lookup}
use rtsp_proxy.Prelude.Int.{int_eq}
use rtsp_proxy.Prelude.{ℕ, ◌≡◌, refl, sym, subst, false, Option, none, some, Bytes}
use rtsp_proxy.Request.{Request, new_request_from_buffer}
use rtsp_proxy.Response.{Response}
use rtsp_proxy.Session.Lookup.{get_elem?}
use rtsp_proxy.Stream.{Stream}
use rtsp_proxy.Url.{Url}

abbrev pub key_of : Client → Bytes
key_of c = stream_key c.host c.username c.password c.base_path

-- The client has a target, and its stream is the one that the manager knows for it.
pub record IsBound (n : ℕ) (p : Proxy) : Type 0 where
  pub targeted : is_empty p.client.host ≡ false
  pub current : p.current ≡ some n
  pub known : lookup (key_of p.client) p.manager.streams ≡ some n

-- A request that is answered leaves the client where it was.
abbrev pub Stays : ℕ → Client → Served → Type 0
Stays n c (answers p response) = IsBound n p × (p.client ≡ c)
Stays n c (hangs_up p response) = Unit
Stays n c crashes = Unit

answered_by-Stays :
    (n : ℕ) (q : Request) (p : Proxy) (o : Option (Stream × Response))
    → IsBound n p
    → Stays n p.client (answered_by n q p o)
answered_by-Stays n q p none b = tt
answered_by-Stays n q p (some (s, response)) b =
    (record { targeted = b.targeted; current = b.current; known = b.known }, refl)

serve_on-Stays :
    (v : Visit) (q : Request) (n : ℕ) (p : Proxy) (o : Option Stream)
    → IsBound n p
    → Stays n p.client (serve_on v q p n o)
serve_on-Stays v q n p none b = tt
serve_on-Stays v q n p (some s) b = answered_by-Stays n q p (answer v p.client s q) b

-- GetStream with its result.
abbrev pub served_from : Visit → Request → Client → StreamManager × ℕ → Served
served_from v q c (m, n) =
    serve_on v q (record { manager = m; client = c; current = some n }) n (get_elem? m.objects n)

served_from-Stays :
    (v : Visit) (q : Request) (c : Client) (m : StreamManager) (n : ℕ)
    → is_empty c.host ≡ false
    → lookup (key_of c) m.streams ≡ some n
    → Stays n c (served_from v q c (m, n))
served_from-Stays v q c m n t k =
    serve_on-Stays v q n (record { manager = m; client = c; current = some n })
      (get_elem? m.objects n) (record { targeted = t; current = refl; known = k })

pub get_stream-known :
    (now n : ℕ) (m : StreamManager) (host username password path : Bytes)
    → lookup (stream_key host username password path) m.streams ≡ some n
    → get_stream now m host username password path ≡ (m, n)
unfolding get_stream
get_stream-known now n m host username password path e = rw (e, get_stream)

pub resolve-targeted :
    (c : Client) (q : Request) (u : Url) → is_empty c.host ≡ false → resolve c q u ≡ resolved c u
unfolding resolve
resolve-targeted c q u e = rw e

serve_target-Stays :
    (v : Visit) (q : Request) (n : ℕ) (p : Proxy)
    → IsBound n p
    → Stays n p.client (serve_target v q p.client p)
unfolding serve_target
serve_target-Stays v q n p b =
    subst (λ (x : StreamManager × ℕ). Stays n p.client (served_from v q p.client x))
      (sym (
        get_stream-known v.now n p.manager p.client.host p.client.username p.client.password
          p.client.base_path b.known))
      (served_from-Stays v q p.client p.manager n b.targeted b.known)

serve_parsed-Stays :
    (v : Visit) (n : ℕ) (p : Proxy) (q : Request) (o : Option Url)
    → IsBound n p
    → Stays n p.client (serve_parsed v p q o)
serve_parsed-Stays v n p q none b = tt
serve_parsed-Stays v n p q (some u) b =
    subst (λ (r : Resolved). Stays n p.client (serve_resolved v q p r))
      (sym (resolve-targeted p.client q u b.targeted))
      (serve_target-Stays v (record q { url = some u }) n p b)

-- Once a client has a target, every later request of it is served on the same stream, for as long as
-- the manager knows the stream, whatever URL the request names.
pub serve_request-Stays :
    (url_parse : Bytes → Option Url) (v : Visit) (n : ℕ) (p : Proxy) (text : Bytes)
    → IsBound n p
    → Stays n p.client (serve_request url_parse v p text)
unfolding serve_request
serve_request-Stays url_parse v n p text b = parsed (new_request_from_buffer url_parse text)
  where
    parsed :
        (o : Option (Result Request))
        → Stays n p.client (elim o [
          | none ↦ crashes
          | some (err e) ↦ hangs_up p none
          | some (ok q) ↦ serve_parsed v p q q.url
        ])
    parsed none = tt
    parsed (some (err e)) = tt
    parsed (some (ok q)) = serve_parsed-Stays v n p q q.url b
