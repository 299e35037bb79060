-- ===== src/ClientLoop/Staying.antt =====
-- incomingRequestHandler of rtspproxy/client.go: a client stays in its one stream.
use rtsp_proxy.Client.{Client, Resolved, resolve, is_empty}
use rtsp_proxy.ClientLoop.Leaving.{OthersLack, Inside, GoesOn, change_stream-Inside}
use rtsp_proxy.ClientLoop.Serving.{key_of, served_from, get_stream-known, resolve-targeted}
use rtsp_proxy.ClientLoop.{
  Proxy, Visit, hangs_up, crashes, answer, answered_by, serve_on, serve_target, serve_resolved,
  serve_parsed, serve_request,
}
use rtsp_proxy.Manager.{StreamManager}
use rtsp_proxy.Message.{Result, ok, err}
use rtsp_proxy.Prelude.Dict.{bytes_eq_inst, nat_eq, lookup}
use rtsp_proxy.Prelude.Int.{int_eq}
use rtsp_proxy.Prelude.{ℕ, ◌≡◌, refl, sym, subst, ap, ◌∙◌, false, Option, none, some, Bytes}
use rtsp_proxy.Request.{Request, new_request_from_buffer}
use rtsp_proxy.Response.{Response}
use rtsp_proxy.Session.Lookup.{get_elem?}
use rtsp_proxy.Stream.{Stream}
use rtsp_proxy.Url.{Url}

answered_by-GoesOn :
    (n : ℕ) (c : Client) (q : Request) (p : Proxy) (o : Option (Stream × Response))
    → Inside n c p
    → GoesOn n c (answered_by n q p o)
answered_by-GoesOn n c q p none i = tt
answered_by-GoesOn n c q p (some (s, response)) i = change_stream-Inside n c p (λ _. s) i

serve_on-GoesOn :
    (v : Visit) (q : Request) (n : ℕ) (c : Client) (p : Proxy) (o : Option Stream)
    → Inside n c p
    → GoesOn n c (serve_on v q p n o)
serve_on-GoesOn v q n c p none i = tt
serve_on-GoesOn v q n c p (some s) i = answered_by-GoesOn n c q p (answer v p.client s q) i

pub served_from-GoesOn :
    (v : Visit) (q : Request) (c : Client) (m : StreamManager) (n : ℕ)
    → lookup (key_of c) m.streams ≡ some n
    → OthersLack n c.id m.objects
    → GoesOn n c (served_from v q c (m, n))
served_from-GoesOn v q c m n k h =
    serve_on-GoesOn v q n c (record { manager = m; client = c; current = some n })
      (get_elem? m.objects n) (record { current = refl; same = refl; known = k; others = h })

-- A later request of the client.
serve_target-GoesOn :
    (v : Visit) (q : Request) (n : ℕ) (c : Client) (p : Proxy)
    → Inside n c p
    → GoesOn n c (serve_target v q c p)
unfolding serve_target
serve_target-GoesOn v q n c p i =
    subst (λ (x : StreamManager × ℕ). GoesOn n c (served_from v q c x))
      (sym (get_stream-known v.now n p.manager c.host c.username c.password c.base_path i.known))
      (served_from-GoesOn v q c p.manager n i.known i.others)

serve_parsed-GoesOn :
    (v : Visit) (n : ℕ) (c : Client) (p : Proxy) (q : Request) (o : Option Url)
    → is_empty c.host ≡ false
    → Inside n c p
    → GoesOn n c (serve_parsed v p q o)
serve_parsed-GoesOn v n c p q none t i = tt
serve_parsed-GoesOn v n c p q (some u) t i =
    subst (λ (r : Resolved). GoesOn n c (serve_resolved v q p r))
      (sym (ap (λ (d : Client). resolve d q u) i.same ∙ resolve-targeted c q u t))
      (serve_target-GoesOn v (record q { url = some u }) n c p i)

pub serve_request-GoesOn :
    (url_parse : Bytes → Option Url) (v : Visit) (n : ℕ) (c : Client) (p : Proxy) (text : Bytes)
    → is_empty c.host ≡ false
    → Inside n c p
    → GoesOn n c (serve_request url_parse v p text)
unfolding serve_request
serve_request-GoesOn url_parse v n c p text t i = parsed (new_request_from_buffer url_parse text)
  where
    parsed :
        (o : Option (Result Request))
        → GoesOn n c (elim o [
          | none ↦ crashes
          | some (err e) ↦ hangs_up p none
          | some (ok q) ↦ serve_parsed v p q q.url
        ])
    parsed none = tt
    parsed (some (err e)) = i
    parsed (some (ok q)) = serve_parsed-GoesOn v n c p q q.url t i
