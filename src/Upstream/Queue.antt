-- ===== src/Upstream/Queue.antt =====
-- HandleUpstreamResponse of rtspproxy/remote.go and the queue of requests.
use rtsp_proxy.Handlers.{handle_method}
use rtsp_proxy.Message.{Result, ok, err, header_get}
use rtsp_proxy.Prelude.Dict.{bytes_eq_inst, nat_eq, lookup}
use rtsp_proxy.Prelude.Int.{pos, leb_ℤ, eq_ℤ}
use rtsp_proxy.Prelude.{
  ◌≡◌, refl, ap, ◌∙◌, arith, true, false, ◌&&◌, List, [], ◌∷◌, Option, none, some, Bytes, codes,
  ◌==◌,
}
use rtsp_proxy.Remote.{Remote, Pending, Net}
use rtsp_proxy.Request.{Request}
use rtsp_proxy.Response.{Response, new_response_from_buffer}
use rtsp_proxy.Stream.{Stream}
use rtsp_proxy.Upstream.Answers.{Tried, Once, respond-Once, conclude-front}
use rtsp_proxy.Upstream.{
  Handled, ignored, retried, answered, crashed, conclude, conclude_ok, respond, respond_to,
  respond_front, handle_upstream_response, is_empty,
}
use rtsp_proxy.Url.{Url}

-- If the message makes the proxy send a request again, it is the request at the front of the queue,
-- which had not been sent again before, and has been now.
abbrev pub AtMostOnce : Remote → Handled → Type 0
AtMostOnce r (retried s r') =
    (p : Pending) × ((ps : List Pending) × ((q : Request) × ((r.requests ≡ p ∷ ps)
          × ((lookup p.request r.objects ≡ some q) × ((q.attempts ≡ 0) × Tried p.request 1 r')))))
AtMostOnce r _ = Unit

Once-AtMostOnce :
    (r : Remote) (p : Pending) (ps : List Pending) (q : Request) (h : Handled)
    → r.requests ≡ p ∷ ps
    → lookup p.request r.objects ≡ some q
    → Once p.request q.attempts h
    → AtMostOnce r h
Once-AtMostOnce r p ps q ignored e l o = tt
Once-AtMostOnce r p ps q (retried s r') e l (a, t) = (p, (ps, (q, (e, (l, (a, t))))))
Once-AtMostOnce r p ps q (answered s r' status subs) e l o = tt
Once-AtMostOnce r p ps q crashed e l o = tt

module _ (md5_hex : Bytes → Bytes) (url_print : Url → Bytes) (url_parse : Bytes → Option Url) where
  respond_to-AtMostOnce :
      (net : Net) (s : Stream) (r : Remote) (p : Pending) (ps : List Pending) (response : Response)
      → r.requests ≡ p ∷ ps
      → (o : Option Request) → lookup p.request r.objects ≡ o
      → AtMostOnce r (respond_to md5_hex url_print url_parse net s r p response o)
  respond_to-AtMostOnce net s r p ps response e none l = tt
  respond_to-AtMostOnce net s r p ps response e (some q) l =
      Once-AtMostOnce r p ps q _ e l (respond-Once md5_hex url_print url_parse net s r p q response)

  respond_front-AtMostOnce :
      (net : Net) (s : Stream) (r : Remote) (response : Response) (ps : List Pending)
      → r.requests ≡ ps
      → AtMostOnce r (respond_front md5_hex url_print url_parse net s r response ps)
  respond_front-AtMostOnce net s r response [] e = tt
  respond_front-AtMostOnce net s r response (p ∷ ps) e =
      respond_to-AtMostOnce net s r p ps response e (lookup p.request r.objects) refl

  handled_at :
      (net : Net) (s : Stream) (r : Remote) (recv : Bytes) (response : Response) (p : Pending)
      (ps : List Pending) (q : Request)
      → new_response_from_buffer recv ≡ some (ok response)
      → r.requests ≡ p ∷ ps
      → lookup p.request r.objects ≡ some q
      → handle_upstream_response md5_hex url_print url_parse net s r recv
        ≡ respond md5_hex url_print url_parse net s r p q response
  unfolding handle_upstream_response
  handled_at net s r recv response p ps q e f l =
      rw (e, handle_upstream_response)
        (ap (respond_front md5_hex url_print url_parse net s r response) f
          ∙ ap (respond_to md5_hex url_print url_parse net s r p response) l)

  bare_401 :
      (net : Net) (s : Stream) (r : Remote) (p : Pending) (q : Request) (response : Response)
      → response.code ≡ pos 401
      → header_get response.headers (codes "WWW-Authenticate") ≡ []
      → q.attempts ≡ 0
      → respond md5_hex url_print url_parse net s r p q response ≡ conclude p q s r (codes "ok")
  unfolding respond
  bare_401 net s r p q response c w a =
      let first : (eq_ℤ response.code (pos 401) && q.attempts == 0) ≡ true = ground arith in
      rw (first, ap is_empty w, respond) refl

  no_error :
      (net : Net) (s s' : Stream) (r : Remote) (p : Pending) (q : Request) (response : Response)
      → leb_ℤ (pos 400) response.code ≡ false
      → handle_method url_parse s q response ≡ some s'
      → respond md5_hex url_print url_parse net s r p q response ≡ conclude p q s' r (codes "ok")
  unfolding respond
  no_error net s s' r p q response c h =
      let later : (eq_ℤ response.code (pos 401) && q.attempts == 0) ≡ false = ground arith in
      rw (later, c, respond) (ap (conclude_ok md5_hex url_print url_parse p q r) h)

-- Whatever the camera sends, a request is sent again only if it is at the front of the queue and has
-- not been sent again before; it counts as tried once more afterwards.
pub handle_upstream_response-AtMostOnce :
    (md5_hex : Bytes → Bytes) (url_print : Url → Bytes) (url_parse : Bytes → Option Url) (net : Net)
    (s : Stream) (r : Remote) (recv : Bytes)
    → AtMostOnce r (handle_upstream_response md5_hex url_print url_parse net s r recv)
unfolding handle_upstream_response
handle_upstream_response-AtMostOnce md5_hex url_print url_parse net s r recv =
    from_parsed (new_response_from_buffer recv)
  where
    from_parsed :
        (o : Option (Result Response))
        → AtMostOnce r (elim o [
          | none ↦ ignored
          | some (err e) ↦ ignored
          | some (ok response) ↦
              respond_front md5_hex url_print url_parse net s r response r.requests
        ])
    from_parsed none = tt
    from_parsed (some (err e)) = tt
    from_parsed (some (ok response)) =
        respond_front-AtMostOnce md5_hex url_print url_parse net s r response r.requests refl

-- A 401 without a WWW-Authenticate header, to a request that has not been sent again, is reported
-- to the subscribers of the request as a success, and changes nothing in the stream.
pub handle_upstream_response-bare_401 :
    (md5_hex : Bytes → Bytes) (url_print : Url → Bytes) (url_parse : Bytes → Option Url) (net : Net)
    (s : Stream) (r : Remote) (recv : Bytes) (response : Response) (p : Pending) (ps : List Pending)
    (q : Request)
    → new_response_from_buffer recv ≡ some (ok response)
    → r.requests ≡ p ∷ ps
    → lookup p.request r.objects ≡ some q
    → response.code ≡ pos 401
    → header_get response.headers (codes "WWW-Authenticate") ≡ []
    → q.attempts ≡ 0
    → handle_upstream_response md5_hex url_print url_parse net s r recv
      ≡ answered s (record r { requests = ps }) (codes "ok") q.subscriptions
unfolding respond
handle_upstream_response-bare_401 md5_hex url_print url_parse net s r recv response p ps q e f l c w
      a =
    handled_at md5_hex url_print url_parse net s r recv response p ps q e f l
    ∙ bare_401 md5_hex url_print url_parse net s r p q response c w a
    ∙ conclude-front p ps q s r (codes "ok") f

-- A response that is no error answers the request at the front of the queue: its handler writes into
-- the stream, the request leaves the queue, and its subscribers are told "ok". Nothing else in the
-- remote changes.
pub handle_upstream_response-answered :
    (md5_hex : Bytes → Bytes) (url_print : Url → Bytes) (url_parse : Bytes → Option Url) (net : Net)
    (s s' : Stream) (r : Remote) (recv : Bytes) (response : Response) (p : Pending)
    (ps : List Pending) (q : Request)
    → new_response_from_buffer recv ≡ some (ok response)
    → r.requests ≡ p ∷ ps
    → lookup p.request r.objects ≡ some q
    → leb_ℤ (pos 400) response.code ≡ false
    → handle_method url_parse s q response ≡ some s'
    → handle_upstream_response md5_hex url_print url_parse net s r recv
      ≡ answered s' (record r { requests = ps }) (codes "ok") q.subscriptions
unfolding respond
handle_upstream_response-answered md5_hex url_print url_parse net s s' r recv response p ps q e f l
      c h =
    handled_at md5_hex url_print url_parse net s r recv response p ps q e f l
    ∙ no_error md5_hex url_print url_parse net s s' r p q response c h
    ∙ conclude-front p ps q s' r (codes "ok") f
