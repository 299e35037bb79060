-- ===== src/Exchange/Retried.antt =====
-- SendRequestSync of rtspproxy/remote.go with a camera that drops the first request.
use rtsp_proxy.Exchange.Answered.{
  Replies, Silent, attempt_once-answered, attempts_from-returned, attempts_from-again,
}
use rtsp_proxy.Exchange.Sent.{
  Ready, Prepared, Prepared-trans, Sends, after_send, element, Ready-Sent,
}
use rtsp_proxy.Exchange.Camera.{camera_says}
use rtsp_proxy.Exchange.{
  Link, Wait, Wake, expired, got, Attempted, once_more, subscribe, enqueue, remove_request, forget,
  reset, change_request, fresh_attempts, awaited, sent, settle, get_response, attempt_once,
  send_request_sync,
}
use rtsp_proxy.Message.{Headers}
use rtsp_proxy.Prelude.Dict.{nat_eq, lookup, insert, lookup-insert_self}
use rtsp_proxy.Prelude.{
  ℕ, ◌≡◌, refl, ap, ◌∙◌, arith, List, [], ◌∷◌, ◌++◌, Option, none, some, Bytes, bytes_eq, eq_refl,
  false,
}
use rtsp_proxy.Remote.{Remote, Pending}
use rtsp_proxy.Request.{Request, print_request}
use rtsp_proxy.Stream.{Stream}
use rtsp_proxy.Url.{Url}

change_request-known :
    (f : Request → Request) (id : ℕ) (q : Request) (r : Remote)
    → lookup id r.objects ≡ some q
    → lookup id (change_request f id r.objects) ≡ some (f q)
change_request-known f id q r e =
    ap
      (λ (o : Option Request).
        lookup id (elim o [ none ↦ r.objects | some request ↦ insert id (f request) r.objects ]))
      e
    ∙ lookup-insert_self id (f q) r.objects

remove_request-alone :
    (id : ℕ) (p : Pending) (ps : List Pending)
    → p.request ≡ id
    → ps ≡ p ∷ []
    → remove_request id ps ≡ []
unfolding remove_request
remove_request-alone id p ps f e = ap (remove_request id) e ∙ ground (arith, eq_refl id)

awaited-once_more :
    (w : Wait) (channel id : ℕ) (l : Link)
    → w.stream_done ≡ false
    → w.server_done ≡ false
    → awaited w 0 channel id (l, expired)
      ≡ once_more (record l { remote = reset id (forget id l.remote) })
unfolding settle get_response bytes_eq
awaited-once_more w channel id l d e = rw (d, e)

-- The request as it is tried again.
abbrev tried_again : Request → Headers → ℕ → Request
tried_again q headers channel = record q {
  headers = headers;
  subscriptions = channel ∷ [];
  attempts = 0;
}

-- The call goes on, ready to be made again, and the nonce is gone.
abbrev GoesOn : (Url → Bytes) → ℕ → Request → Link → Attempted → Type 0
GoesOn url_print id q l out =
    (r' : Remote) × ((headers : Headers) × ((out
          ≡ once_more (record { stream = l.stream; remote = r' }))
        × (Ready id (tried_again q headers l.remote.next_element)
              (record { stream = l.stream; remote = r' })
            × ((r'.digest.nonce ≡ [])
                × (Prepared q.headers headers × Sends url_print q l.remote.written r'.written)))))

module _ (md5_hex : Bytes → Bytes) (url_print : Url → Bytes) (url_parse : Bytes → Option Url) where
  attempt_once-GoesOn :
      (w : Wait) (id : ℕ) (q : Request) (l : Link)
      → Ready id q l
      → Silent md5_hex url_print url_parse w
      → GoesOn url_print id q l (attempt_once md5_hex url_print w 0 id l)
  unfolding attempt_once enqueue forget reset camera_says print_request
  attempt_once-GoesOn w id q l a b =
      let went = Ready-Sent md5_hex url_print w id q l a b.writes in
      let r = after_send md5_hex url_print w id q l.remote went in
      let channel = l.remote.next_element in
      (
        reset id (forget id r),
        (
          went.headers,
          (
            ap (sent w 0 channel id l.stream) went.sent_as
                ∙ ap
                    (λ (f : ℕ → Link → Link × Wake).
                      awaited w 0 channel id (f channel (record { stream = l.stream; remote = r })))
                    b.says
                ∙ awaited-once_more w channel id _ b.goes_on b.server_runs,
            (
              record {
                connected = a.connected;
                alone =
                    remove_request-alone id (element id l.remote) r.requests refl
                      (ap (λ (ps : List Pending). ps ++ element id l.remote ∷ []) a.alone);
                known =
                    change_request-known fresh_attempts id
                      (record (subscribe channel q) { headers = went.headers }) r
                      (lookup-insert_self id _ (enqueue id l.remote).objects);
                located = a.located;
              },
              (
                refl,
                (
                  went.prepared,
                  record {
                    headers = went.headers;
                    prepared = went.prepared;
                    raw = went.raw;
                    printed = went.printed;
                    written = went.grown;
                  },
                ),
              ),
            ),
          ),
        ),
      )

-- The request has been written, and written again.
pub data Twice (url_print : Url → Bytes) (q : Request) (before after : List Bytes) : Type 0 where
  twice :
      (middle : List Bytes)
      → Sends url_print q before middle
      → Sends url_print q middle after
      → Twice url_print q before after

-- When the camera drops the first request and answers the second, SendRequestSync succeeds: the
-- request has been written twice, the queue is empty, and the nonce of the camera is forgotten.
pub send_request_sync-second_chance :
    (md5_hex : Bytes → Bytes) (url_print : Url → Bytes) (url_parse : Bytes → Option Url)
    (waits : ℕ → Wait) (id : ℕ) (q : Request) (l : Link) (s' : Stream)
    → Ready id q l
    → Silent md5_hex url_print url_parse (waits 0)
    → Replies md5_hex url_print url_parse (waits 1) q l.stream s'
    → (r' : Remote) × ((send_request_sync md5_hex url_print waits id l
          ≡ got tt (record { stream = s'; remote = r' }))
        × ((r'.requests ≡ [])
            × ((r'.digest.nonce ≡ []) × Twice url_print q l.remote.written r'.written)))
unfolding send_request_sync print_request
send_request_sync-second_chance md5_hex url_print url_parse waits id q l s' a b c =
    let (r1, (headers, (e, (ready, (gone, (made, first)))))) =
      attempt_once-GoesOn md5_hex url_print url_parse (waits 0) id q l a b in
    let l1 = record l { remote = r1 } in
    let (r2, (f, (alone, (_, (same, (_, second)))))) =
      attempt_once-answered md5_hex url_print url_parse (waits 1) 1 id
        (tried_again q headers l.remote.next_element) l1 s' ready (replies_again c headers made) in
    (
      r2,
      (
        attempts_from-again md5_hex url_print url_parse 1 0 id waits l _ e
            ∙ attempts_from-returned md5_hex url_print url_parse 0 1 id waits l1 _ f,
        (alone, (same ∙ gone, twice r1.written first (from_made second made))),
      ),
    )
  where
    from_made :
        {before after : List Bytes} {headers : Headers}
        → Sends url_print
            (record q {
              headers = headers;
              subscriptions = l.remote.next_element ∷ [];
              attempts = 0;
            })
            before
            after
        → Prepared q.headers headers
        → Sends url_print q before after
    from_made again made = record {
      headers = again.headers;
      prepared = Prepared-trans made again.prepared;
      raw = again.raw;
      printed = again.printed;
      written = again.written;
    }

    replies_again :
        Replies md5_hex url_print url_parse (waits 1) q l.stream s'
        → (headers : Headers) → Prepared q.headers headers
        → Replies md5_hex url_print url_parse
            (waits 1)
            (record q {
              headers = headers;
              subscriptions = l.remote.next_element ∷ [];
              attempts = 0;
            })
            l.stream
            s'
    replies_again r headers made = record {
      writes = r.writes;
      goes_on = r.goes_on;
      server_runs = r.server_runs;
      heard = r.heard;
      more = r.more;
      says = r.says;
      response = r.response;
      reads = r.reads;
      fine = r.fine;
      changes =
          λ h channel attempts again. r.changes h channel attempts (Prepared-trans made again);
    }
