-- ===== src/Exchange/Answered.antt =====
-- SendRequestSync of rtspproxy/remote.go with a camera that answers.
use rtsp_proxy.Exchange.Sent.{Ready, Prepared, Sends, element, after_send, Ready-Sent, connected}
use rtsp_proxy.Exchange.Camera.{Heard, has_channel, notify, camera_says}
use rtsp_proxy.Exchange.{
  Link, Wait, Wake, received, Got, got, Attempted, returned, once_more, enqueue, awaited, sent,
  settle, get_response, attempts_from, attempt_once, send_request_sync,
}
use rtsp_proxy.Handlers.{handle_method}
use rtsp_proxy.Message.{Headers, ok}
use rtsp_proxy.Prelude.Dict.{bytes_eq_inst, nat_eq, lookup, lookup-insert_self}
use rtsp_proxy.Prelude.Int.{pos, leb_ℤ}
use rtsp_proxy.Prelude.{
  ℕ, suc, ◌+◌, ◌≡◌, refl, ap, ◌∙◌, arith, true, false, List, [], ◌∷◌, ◌++◌, Option, some, Bytes,
  bytes_eq, codes, eq_refl,
}
use rtsp_proxy.Remote.{Remote, Pending}
use rtsp_proxy.Request.{Request, print_request}
use rtsp_proxy.Response.{Response, new_response_from_buffer}
use rtsp_proxy.Stream.{Stream}
use rtsp_proxy.Upstream.Queue.{handle_upstream_response-answered}
use rtsp_proxy.Url.{Url}

-- Where a call leaves the remote: the queue is empty, the connection, the nonce and the host are as
-- they were, and the request has been written.
abbrev pub Leaves : (Url → Bytes) → Request → Link → Remote → Type 0
Leaves url_print q l r' =
    (r'.requests ≡ [])
    × ((r'.conn ≡ l.remote.conn)
        × ((r'.digest.nonce ≡ l.remote.digest.nonce)
            × ((r'.host ≡ l.remote.host) × Sends url_print q l.remote.written r'.written)))

-- The call succeeds.
abbrev pub Succeeds : (Url → Bytes) → Request → Link → Stream → Got (Unit {0}) → Type 0
Succeeds url_print q l s' out =
    (r' : Remote) × ((out ≡ got tt (record { stream = s'; remote = r' })) × Leaves url_print q l r')

abbrev pub Settled : (Url → Bytes) → Request → Link → Stream → Attempted → Type 0
Settled url_print q l s' out =
    (r' : Remote) × ((out ≡ returned (got tt (record { stream = s'; remote = r' })))
      × Leaves url_print q l r')

module _ (md5_hex : Bytes → Bytes) (url_print : Url → Bytes) (url_parse : Bytes → Option Url) where
  -- A camera that answers the request, once it is written, by a response that is no error, which
  -- changes the stream `s` into `s'`.
  pub record Replies (w : Wait) (q : Request) (s s' : Stream) : Type 0 where
    pub writes : w.net.writes ≡ true
    pub goes_on : w.stream_done ≡ false
    pub server_runs : w.server_done ≡ false
    pub heard : Heard
    pub more : List Heard
    pub says : w.meanwhile ≡ camera_says md5_hex url_print url_parse (heard ∷ more)
    pub response : Response
    pub reads : new_response_from_buffer heard.recv ≡ some (ok response)
    pub fine : leb_ℤ (pos 400) response.code ≡ false
    pub changes :
        (headers : Headers) (channel attempts : ℕ)
        → Prepared q.headers headers
        → handle_method url_parse s
            (record q { headers = headers; subscriptions = channel ∷ []; attempts = attempts })
            response
          ≡ some s'

  -- A camera that drops the request.
  pub record Silent (w : Wait) : Type 0 where
    pub writes : w.net.writes ≡ true
    pub goes_on : w.stream_done ≡ false
    pub server_runs : w.server_done ≡ false
    pub says : w.meanwhile ≡ camera_says md5_hex url_print url_parse []

  camera_says-answered :
      (w : Wait) (id : ℕ) (q : Request) (l : Link) (s' : Stream) (a : Replies w q l.stream s')
      → (r : Remote) (headers : Headers) → Prepared q.headers headers
      → r.requests ≡ element id l.remote ∷ []
      → lookup id r.objects
        ≡ some (record q { headers = headers; subscriptions = l.remote.next_element ∷ [] })
      → w.meanwhile l.remote.next_element (record { stream = l.stream; remote = r })
        ≡ (record { stream = s'; remote = record r { requests = [] } }, received (codes "ok"))
  unfolding camera_says
  camera_says-answered w id q l s' a r headers made alone known =
      let channel = l.remote.next_element in
      let rest = camera_says md5_hex url_print url_parse a.more channel in
      ap (λ (f : ℕ → Link → Link × Wake). f channel (record { stream = l.stream; remote = r }))
        a.says
      ∙ ap (notify channel rest (record { stream = l.stream; remote = r })) (
          handle_upstream_response-answered md5_hex url_print url_parse a.heard.net l.stream s' r
            a.heard.recv a.response (element id l.remote) []
            (record q { headers = headers; subscriptions = channel ∷ [] }) a.reads alone known
            a.fine (a.changes headers channel q.attempts made))
      ∙ connected (has_channel channel (channel ∷ [])) _
          (rest (record { stream = s'; remote = record r { requests = [] } }))
          (ground (arith, eq_refl channel))

  awaited-got :
      (w : Wait) (n channel id : ℕ) (l : Link)
      → w.stream_done ≡ false
      → w.server_done ≡ false
      → awaited w n channel id (l, received (codes "ok")) ≡ returned (got tt l)
  unfolding settle get_response bytes_eq
  awaited-got w n channel id l d e = rw (d, e)

  pub attempt_once-answered :
      (w : Wait) (n id : ℕ) (q : Request) (l : Link) (s' : Stream)
      → Ready id q l
      → Replies w q l.stream s'
      → Settled url_print q l s' (attempt_once md5_hex url_print w n id l)
  unfolding attempt_once enqueue print_request
  attempt_once-answered w n id q l s' a b =
      let went = Ready-Sent md5_hex url_print w id q l a b.writes in
      (
        record (after_send md5_hex url_print w id q l.remote went) { requests = [] },
        (
          ap (sent w n l.remote.next_element id l.stream) went.sent_as
              ∙ ap (awaited w n l.remote.next_element id) (
                  camera_says-answered w id q l s' b
                    (after_send md5_hex url_print w id q l.remote went) went.headers went.prepared
                    (ap (λ (ps : List Pending). ps ++ element id l.remote ∷ []) a.alone)
                    (lookup-insert_self id _ (enqueue id l.remote).objects))
              ∙ awaited-got w n l.remote.next_element id _ b.goes_on b.server_runs,
          (
            refl,
            (
              refl,
              (
                went.same_nonce,
                (
                  refl,
                  record {
                    headers = went.headers;
                    prepared = went.prepared;
                    raw = went.raw;
                    printed = went.printed;
                    written = went.grown;
                  },
                ),
              ),
            ),
          ),
        ),
      )

  pub attempts_from-returned :
      (left n id : ℕ) (waits : ℕ → Wait) (l : Link) (out : Got (Unit {0}))
      → attempt_once md5_hex url_print (waits n) n id l ≡ returned out
      → attempts_from md5_hex url_print (suc left) waits n id l ≡ out
  unfolding attempts_from
  attempts_from-returned left n id waits l out e = rw (e, attempts_from)

  pub attempts_from-again :
      (left n id : ℕ) (waits : ℕ → Wait) (l l' : Link)
      → attempt_once md5_hex url_print (waits n) n id l ≡ once_more l'
      → attempts_from md5_hex url_print (suc left) waits n id l
        ≡ attempts_from md5_hex url_print left waits (n + 1) id l'
  unfolding attempts_from
  attempts_from-again left n id waits l l' e = rw (e, attempts_from)

-- On a connected remote with an empty queue, SendRequestSync succeeds if the camera answers the
-- request by a response that is no error: the request has been written, the handler of the method
-- has changed the stream, the queue is empty again, and the connection and the nonce are as they were.
-- The handler sees the request with the headers CSeq and Authorization that sending it has set.
pub send_request_sync-answered :
    (md5_hex : Bytes → Bytes) (url_print : Url → Bytes) (url_parse : Bytes → Option Url)
    (waits : ℕ → Wait) (id : ℕ) (q : Request) (l : Link) (s' : Stream)
    → Ready id q l
    → Replies md5_hex url_print url_parse (waits 0) q l.stream s'
    → Succeeds url_print q l s' (send_request_sync md5_hex url_print waits id l)
unfolding send_request_sync
send_request_sync-answered md5_hex url_print url_parse waits id q l s' a b =
    let (r', (e, rest)) =
      attempt_once-answered md5_hex url_print url_parse (waits 0) 0 id q l s' a b in
    (r', (attempts_from-returned md5_hex url_print url_parse 1 0 id waits l _ e, rest))
