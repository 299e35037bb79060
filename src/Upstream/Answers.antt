-- ===== src/Upstream/Answers.antt =====
-- HandleUpstreamResponse of rtspproxy/remote.go: conclusions, and the attempts of a request.
use rtsp_proxy.Prelude.Dict.{nat_eq, lookup, insert, lookup-insert_self}
use rtsp_proxy.Prelude.Int.{pos, leb_ℤ, eq_ℤ}
use rtsp_proxy.Prelude.{
  ℕ, ◌+◌, ◌≡◌, inl, inr, refl, arith, Bool, true, false, not, ◌&&◌, List, [], ◌∷◌, ◌++◌, Option,
  none, some, Bytes, codes, ◌==◌, eq_refl, if◌then◌else◌, Bool-cases, Option-cases,
}
use rtsp_proxy.Message.{header_get}
use rtsp_proxy.Remote.{
  Remote, Pending, Net, Outcome, done, failed, remote_of, disconnect, dial_locked, write_request,
  send_known, send_request, handle_authentication_failure,
}
use rtsp_proxy.Request.{Request, print_request}
use rtsp_proxy.Response.{Response}
use rtsp_proxy.Stream.{Stream}
use rtsp_proxy.Upstream.{
  Handled, retried, answered, has_element, remove_element, conclude, challenge, conclude_ok,
  respond, is_empty,
}
use rtsp_proxy.Url.{Url}

pub conclude-front :
    (p : Pending) (ps : List Pending) (request : Request) (s : Stream) (r : Remote) (status : Bytes)
    → r.requests ≡ p ∷ ps
    → conclude p request s r status
      ≡ answered s (record r { requests = ps }) status request.subscriptions
unfolding conclude has_element remove_element
conclude-front p ps request s r status e = rw (e, conclude) (ground (arith, eq_refl p.element))

-- The request with this number has been tried `n` times.
abbrev pub Tried : ℕ → ℕ → Remote → Type 0
Tried id n r = (q : Request) × ((lookup id r.objects ≡ some q) × (q.attempts ≡ n))

disconnect-Tried : (id n : ℕ) (r : Remote) → Tried id n r → Tried id n (disconnect r)
unfolding disconnect
disconnect-Tried id n r t = elim (Bool-cases r.conn) [ inl e ↦ rw e t | inr e ↦ rw e t ]

written-Tried :
    (id n : ℕ) (o : Option Bytes) (r : Remote)
    → Tried id n r
    → Tried id n (
        remote_of (elim o [
          | none ↦ done r
          | some raw ↦ done (record r { written = r.written ++ raw ∷ [] })
        ]))
written-Tried id n none r t = t
written-Tried id n (some raw) r t = t

if-Tried :
    (id n : ℕ) (b : Bool) (x y : Outcome)
    → Tried id n (remote_of x)
    → Tried id n (remote_of y)
    → Tried id n (remote_of (if b then x else y))
if-Tried id n true x y s t = s
if-Tried id n false x y s t = t

dial_locked-Tried :
    (net : Net) (r : Remote) (id n : ℕ) → Tried id n r → Tried id n (remote_of (dial_locked net r))
unfolding dial_locked
dial_locked-Tried net r id n t =
    if-Tried id n net.server_done _ _ t
      (elim (Option-cases net.dials) [ inl e ↦ rw e t | inr (a, e) ↦ rw e t ])

module _ (md5_hex : Bytes → Bytes) (url_print : Url → Bytes) (net : Net) where
  write_request-Tried :
      (r : Remote) (id n : ℕ) (request : Request) (url : Url)
      → request.attempts ≡ n
      → Tried id n (remote_of (write_request md5_hex url_print net r id request url))
  unfolding write_request
  write_request-Tried r id n request url e = elim (Bool-cases net.writes) [
    | inl f ↦
        rw (f, write_request)
          (written-Tried id n (print_request url_print _) _
            (_, (lookup-insert_self id _ r.objects, e)))
    | inr f ↦
        rw (f, write_request) (disconnect-Tried id n _ (_, (lookup-insert_self id _ r.objects, e)))
  ]

  send_known-Tried :
      (r : Remote) (id n : ℕ) (request : Request)
      → request.attempts ≡ n
      → lookup id r.objects ≡ some request
      → Tried id n (remote_of (send_known md5_hex url_print net r id (some request)))
  send_known-Tried r id n request e l = elim (Option-cases request.url) [
    | inl f ↦ rw f (request, (l, e))
    | inr (u, f) ↦ rw f (write_request-Tried r id n request u e)
  ]

  known-Tried :
      (r : Remote) (id n : ℕ)
      → Tried id n r
      → Tried id n (remote_of (send_known md5_hex url_print net r id (lookup id r.objects)))
  known-Tried r id n (q, (l, e)) = rw l (send_known-Tried r id n q e l)

  dialled-Tried :
      (id n : ℕ) (o : Outcome)
      → Tried id n (remote_of o)
      → Tried id n (
          remote_of (elim o [
            | failed e r' ↦ failed e r'
            | done r' ↦ send_known md5_hex url_print net r' id (lookup id r'.objects)
          ]))
  dialled-Tried id n (failed e r') t = t
  dialled-Tried id n (done r') t = known-Tried r' id n t

  send_request-Tried :
      (r : Remote) (id n : ℕ)
      → Tried id n r
      → Tried id n (remote_of (send_request md5_hex url_print net r id))
  unfolding send_request
  send_request-Tried r id n t =
      if-Tried id n r.conn _ _ (known-Tried r id n t)
        (dialled-Tried id n (dial_locked net r) (dial_locked-Tried net r id n t))

-- What is true of a message that makes a request be sent again: the request had not been sent again
-- before, and has been now.
abbrev pub Once : ℕ → ℕ → Handled → Type 0
Once id n (retried s r) = (n ≡ 0) × Tried id 1 r
Once id n _ = Unit

if-Once :
    (id n : ℕ) (b : Bool) (x y : Handled)
    → (b ≡ true → Once id n x)
    → Once id n y
    → Once id n (if b then x else y)
if-Once id n true x y h k = h refl
if-Once id n false x y h k = k

module _ (md5_hex : Bytes → Bytes) (url_print : Url → Bytes) (url_parse : Bytes → Option Url) where
  retry-Once :
      (net : Net) (s : Stream) (r : Remote) (id : ℕ) (request : Request)
      → request.attempts ≡ 0
      → Once id request.attempts (
          retried s (
            remote_of (
              send_request md5_hex url_print net
                (record r {
                  objects =
                      insert id (record request { attempts = request.attempts + 1 }) r.objects;
                })
                id)))
  retry-Once net s r id request e = (
    e,
    send_request-Tried md5_hex url_print net
        (record r {
          objects = insert id (record request { attempts = request.attempts + 1 }) r.objects;
        })
        id 1
        (
          record request { attempts = request.attempts + 1 },
          (
            lookup-insert_self id (record request { attempts = request.attempts + 1 }) r.objects,
            omega arith,
          ),
        ),
  )

  challenge-Once :
      (net : Net) (s : Stream) (r : Remote) (p : Pending) (request : Request) (params : Bytes)
      → request.attempts ≡ 0
      → Once p.request request.attempts
          (challenge md5_hex url_print url_parse net s r p request params)
  unfolding challenge conclude
  challenge-Once net s r p request params e =
      if-Once p.request request.attempts
        (not (is_empty r.digest.username)
          && (not (is_empty r.digest.password) && (handle_authentication_failure r params).1))
        _ _ (λ _. retry-Once net s (handle_authentication_failure r params).0 p.request request e)
        tt

  method-Once :
      (p : Pending) (request : Request) (r : Remote) (o : Option Stream)
      → Once p.request request.attempts (conclude_ok md5_hex url_print url_parse p request r o)
  unfolding conclude
  method-Once p request r none = tt
  method-Once p request r (some s) = tt

  pub respond-Once :
      (net : Net) (s : Stream) (r : Remote) (p : Pending) (request : Request) (response : Response)
      → Once p.request request.attempts
          (respond md5_hex url_print url_parse net s r p request response)
  unfolding respond conclude
  respond-Once net s r p request response =
      if-Once p.request request.attempts (eq_ℤ response.code (pos 401) && request.attempts == 0) _ _
        (λ first.
          if-Once p.request request.attempts
            (is_empty (header_get response.headers (codes "WWW-Authenticate"))) _ _ (λ _. tt)
            (challenge-Once net s r p request _ (ground arith)))
        (if-Once p.request request.attempts (leb_ℤ (pos 400) response.code) _ _ (λ _. tt)
          (method-Once p request r _))
