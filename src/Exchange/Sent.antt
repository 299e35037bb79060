-- ===== src/Exchange/Sent.antt =====
-- SendRequest of rtspproxy/remote.go on a connection that takes the request.
use rtsp_proxy.Digest.{Digest, compute_response}
use rtsp_proxy.Exchange.{Link, Wait, subscribe, enqueue}
use rtsp_proxy.HeaderBlock.{print_headers}
use rtsp_proxy.Message.{Headers}
use rtsp_proxy.Prelude.Dict.{bytes_eq_inst, nat_eq, lookup, insert, lookup-insert_self}
use rtsp_proxy.Prelude.{
  ℕ, ◌+◌, ◌≡◌, refl, sym, ap, subst, ◌∙◌, arith, Bool, true, List, [], ◌∷◌, ◌++◌, Option, none,
  some, Bytes, codes, if◌then◌else◌,
}
use rtsp_proxy.Remote.{
  Remote, Pending, Net, Outcome, done, send_known, create_authenticator, write_request,
  send_request, set_authorization,
}
use rtsp_proxy.Request.{Request, print_request}
use rtsp_proxy.Prelude.Int.{pos}
use rtsp_proxy.Text.Number.{itoa}
use rtsp_proxy.Url.{Url, get_url}

-- The headers that numbering a request and authenticating it, once or more, make of these.
pub data Prepared (base : Headers) : Headers → Type 0 where
  as_made : Prepared base base
  once_more :
      {headers : Headers} (cseq : Bytes) (auth : Option Bytes)
      → Prepared base headers
      → Prepared base (set_authorization (insert (codes "CSeq") cseq headers) auth)

pub Prepared-trans : {a b c : Headers} → Prepared a b → Prepared b c → Prepared a c
Prepared-trans h as_made = h
Prepared-trans h (once_more cseq auth k) = once_more cseq auth (Prepared-trans h k)

-- The request has been written to the socket, as String prints it, with its headers prepared.
pub record Sends (url_print : Url → Bytes) (q : Request) (before after : List Bytes) : Type 0 where
  pub headers : Headers
  pub prepared : Prepared q.headers headers
  pub raw : Bytes
  pub printed : print_request url_print (record q { headers = headers }) ≡ some raw
  pub written : after ≡ before ++ raw ∷ []

-- The request has been numbered and written: it has prepared headers, and nothing else has changed
-- in the remote but the count, the digest and what is written.
pub record Sent (url_print : Url → Bytes) (id : ℕ) (q : Request) (r : Remote) (o : Outcome)
    : Type 0 where
  pub headers : Headers
  pub digest : Digest
  pub written : List Bytes
  pub same_nonce : digest.nonce ≡ r.digest.nonce
  pub prepared : Prepared q.headers headers
  pub raw : Bytes
  pub printed : print_request url_print (record q { headers = headers }) ≡ some raw
  pub grown : written ≡ r.written ++ raw ∷ []
  pub sent_as :
      o
      ≡ done (record r {
        current_cseq = r.current_cseq + 1;
        digest = digest;
        objects = insert id (record q { headers = headers }) r.objects;
        written = written;
      })

-- A call that can be made: the remote is connected, its queue is empty, and the request is known.
pub record Ready (id : ℕ) (q : Request) (l : Link) : Type 0 where
  pub connected : l.remote.conn ≡ true
  pub alone : l.remote.requests ≡ []
  pub known : lookup id l.remote.objects ≡ some q
  pub located : (u : Url) × (q.url ≡ some u)

-- The element of the queue and the object that the call makes.
abbrev pub element : ℕ → Remote → Pending
element id r = record { element = r.next_element; request = id }

enqueue-known :
    (id : ℕ) (q : Request) (r : Remote)
    → lookup id r.objects ≡ some q
    → lookup id (enqueue id r).objects ≡ some (subscribe r.next_element q)
unfolding enqueue
enqueue-known id q r e =
    ap
      (λ (o : Option Request). lookup id (elim o [
        | none ↦ r.objects
        | some request ↦ insert id (subscribe r.next_element request) r.objects
      ]))
      e
    ∙ lookup-insert_self id _ r.objects

abbrev numbered : ℕ → Request → Remote → Headers → Digest → Remote
numbered id q r headers digest = record r {
  current_cseq = r.current_cseq + 1;
  digest = digest;
  objects = insert id (record q { headers = headers }) r.objects;
}

printed-Sent :
    (url_print : Url → Bytes) (id : ℕ) (q : Request) (r : Remote) (headers : Headers)
    (digest : Digest) (raw : Bytes)
    → digest.nonce ≡ r.digest.nonce
    → Prepared q.headers headers
    → print_request url_print (record q { headers = headers }) ≡ some raw
    → Sent url_print id q r (elim (print_request url_print (record q { headers = headers })) [
      | none ↦ done (numbered id q r headers digest)
      | some raw ↦ done (record (numbered id q r headers digest) {
        written = (numbered id q r headers digest).written ++ raw ∷ [];
      })
    ])
printed-Sent url_print id q r headers digest raw e h p = record {
  headers = headers;
  digest = digest;
  written = r.written ++ raw ∷ [];
  same_nonce = e;
  prepared = h;
  raw = raw;
  printed = p;
  grown = refl;
  sent_as =
      ap
        (λ (o : Option Bytes). elim o as (λ _. Outcome) [
          | none ↦ done (numbered id q r headers digest)
          | some raw ↦ done (record (numbered id q r headers digest) {
            written = (numbered id q r headers digest).written ++ raw ∷ [];
          })
        ])
        p;
}

pub connected {ℓ} : {A : Type ℓ} (b : Bool) (x y : A) → b ≡ true → (if b then x else y) ≡ x
connected b x y e = rw e

module _ (md5_hex : Bytes → Bytes) (url_print : Url → Bytes) where
  create_authenticator-nonce :
      (cnonce : Bytes) (d : Digest) (q : Request) (u : Url)
      → (create_authenticator md5_hex url_print cnonce d q u).0.nonce ≡ d.nonce
  unfolding create_authenticator compute_response
  create_authenticator-nonce cnonce d q u = ground arith

  printable :
      (q : Request) (u : Url)
      → q.url ≡ some u
      → (raw : Bytes) × (print_request url_print q ≡ some raw)
  unfolding print_request
  printable q u e = (
    q.method
        ++ (b' '
            ∷ (url_print (get_url u)
                ++ (b' '
                    ∷ (q.protocol_version
                        ++ (b'\r' ∷ b'\n' ∷ (print_headers q.headers ++ (b'\r' ∷ b'\n' ∷ []))))))),
    rw (e, print_request) refl,
  )

  write_request-Sent :
      (net : Net) (r : Remote) (id : ℕ) (q : Request) (u : Url)
      → net.writes ≡ true
      → q.url ≡ some u
      → Sent url_print id q r (write_request md5_hex url_print net r id q u)
  unfolding write_request
  write_request-Sent net r id q u e l =
      let made = create_authenticator md5_hex url_print net.cnonce r.digest q u in
      let cseq = itoa (pos (r.current_cseq + 1)) in
      let headers = set_authorization (insert (codes "CSeq") cseq q.headers) made.1 in
      let (raw, p) = printable (record q { headers = headers }) u l in
      rw (e, write_request)
        (printed-Sent url_print id q r headers made.0 raw
          (create_authenticator-nonce net.cnonce r.digest q u) (once_more cseq made.1 as_made) p)

  send_request-Sent :
      (net : Net) (r : Remote) (id : ℕ) (q : Request) (u : Url)
      → r.conn ≡ true
      → net.writes ≡ true
      → lookup id r.objects ≡ some q
      → q.url ≡ some u
      → Sent url_print id q r (send_request md5_hex url_print net r id)
  unfolding send_request
  send_request-Sent net r id q u c e l v =
      subst (Sent url_print id q r)
        (sym (
          connected r.conn _ _ c
          ∙ ap (send_known md5_hex url_print net r id) l
          ∙ ap
              (λ o. elim o [
                | none ↦ done r
                | some url ↦ write_request md5_hex url_print net r id q url
              ])
              v))
        (write_request-Sent net r id q u e v)

  -- The remote when the request has been written.
  abbrev pub after_send :
      (w : Wait) (id : ℕ) (q : Request) (r : Remote)
      → Sent url_print id
          (subscribe r.next_element q)
          (enqueue id r)
          (send_request md5_hex url_print w.net (enqueue id r) id)
      → Remote
  after_send w id q r went = record (enqueue id r) {
    current_cseq = (enqueue id r).current_cseq + 1;
    digest = went.digest;
    objects =
        insert id (record (subscribe r.next_element q) { headers = went.headers })
          (enqueue id r).objects;
    written = went.written;
  }

  pub Ready-Sent :
      (w : Wait) (id : ℕ) (q : Request) (l : Link)
      → Ready id q l
      → w.net.writes ≡ true
      → Sent url_print id
          (subscribe l.remote.next_element q)
          (enqueue id l.remote)
          (send_request md5_hex url_print w.net (enqueue id l.remote) id)
  unfolding enqueue
  Ready-Sent w id q l a e =
      send_request-Sent w.net (enqueue id l.remote) id (subscribe l.remote.next_element q)
        a.located.0 a.connected e (enqueue-known id q l.remote a.known) a.located.1
