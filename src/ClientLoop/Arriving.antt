-- ===== src/ClientLoop/Arriving.antt =====
-- incomingRequestHandler of rtspproxy/client.go: the first request of a client.
use rtsp_proxy.Client.{Client, Resolved, resolved, probed, resolve}
use rtsp_proxy.Client.Identity.{SameId, resolve-SameId}
use rtsp_proxy.ClientLoop.Staying.{served_from-GoesOn}
use rtsp_proxy.ClientLoop.Leaving.{NoneHas, Inside, GoesOn}
use rtsp_proxy.ClientLoop.Serving.{key_of, served_from}
use rtsp_proxy.ClientLoop.{
  Proxy, Visit, Served, answers, hangs_up, crashes, serve_target, serve_resolved, serve_parsed,
  serve_request,
}
use rtsp_proxy.Manager.{StreamManager, get_stream}
use rtsp_proxy.Message.{Result, ok, err}
use rtsp_proxy.Prelude.Dict.{bytes_eq_inst, nat_eq, lookup, lookup-insert_self}
use rtsp_proxy.Prelude.Int.{int_eq}
use rtsp_proxy.Prelude.{
  ℕ, zero, suc, ◌≡◌, inl, inr, refl, sym, subst, ap, ◌∙◌, List, [], ◌∷◌, ◌++◌, Option, none, some,
  Bytes, Option-cases, length,
}
use rtsp_proxy.Request.{Request, new_request_from_buffer}
use rtsp_proxy.Session.Lookup.{get_elem?}
use rtsp_proxy.Stream.{Stream, new_stream}
use rtsp_proxy.Url.{Url}

-- The first request of a client that no stream has a session for.
abbrev pub Enters : ℕ → Served → Type 0
Enters id (answers p response) = (n : ℕ) × (Inside n p.client p × (p.client.id ≡ id))
Enters id (hangs_up p response) = Unit
Enters id crashes = Unit

get_elem?-append :
    (ss : List Stream) (t : Stream) (k client : ℕ)
    → NoneHas client ss
    → lookup client t.clients ≡ none
    → (s : Stream) → get_elem? (ss ++ t ∷ []) k ≡ some s
    → lookup client s.clients ≡ none
get_elem?-append [] t zero client h e s q =
    let same : t ≡ s = cc in subst (λ (r : Stream). lookup client r.clients ≡ none) same e
get_elem?-append [] t (suc k) client h e s q = absurd (cc)
get_elem?-append (r ∷ ss) t zero client h e s q = h zero s q
get_elem?-append (r ∷ ss) t (suc k) client h e s q =
    get_elem?-append ss t k client (λ j x. h (suc j) x) e s q

-- What GetStream gives: the stream that the manager knows, and still no session for the client.
abbrev Gives : Client → StreamManager × ℕ → Type 0
Gives c (m, n) = (lookup (key_of c) m.streams ≡ some n) × NoneHas c.id m.objects

get_stream-Gives :
    (now : ℕ) (m : StreamManager) (c : Client)
    → NoneHas c.id m.objects
    → Gives c (get_stream now m c.host c.username c.password c.base_path)
unfolding get_stream new_stream lookup
get_stream-Gives now m c h = elim (Option-cases (lookup (key_of c) m.streams)) [
  | inl e ↦
      rw (e, get_stream)
        (
          lookup-insert_self (key_of c) (length m.objects) m.streams,
          λ k s.
              get_elem?-append m.objects (new_stream now c.host c.username c.password c.base_path) k
                c.id h refl s,
        )
  | inr (n, e) ↦ rw (e, get_stream) (e, h)
]

GoesOn-Enters : (n : ℕ) (c : Client) (id : ℕ) (o : Served) → c.id ≡ id → GoesOn n c o → Enters id o
GoesOn-Enters n c id (answers p response) e i =
    (n, (subst (λ (d : Client). Inside n d p) (sym i.same) i, ap (λ (d : Client). d.id) i.same ∙ e))
GoesOn-Enters n c id (hangs_up p response) e i = tt
GoesOn-Enters n c id crashes e i = tt

serve_target-Enters :
    (v : Visit) (q : Request) (c : Client) (p : Proxy) (id : ℕ)
    → c.id ≡ id
    → NoneHas id p.manager.objects
    → Enters id (serve_target v q c p)
unfolding serve_target
serve_target-Enters v q c p id e h =
    given (get_stream v.now p.manager c.host c.username c.password c.base_path)
      (get_stream-Gives v.now p.manager c (subst (λ i. NoneHas i p.manager.objects) (sym e) h))
  where
    given : (x : StreamManager × ℕ) → Gives c x → Enters id (served_from v q c x)
    given (m, n) (k, none_there) =
        GoesOn-Enters n c id (served_from v q c (m, n)) e
          (served_from-GoesOn v q c m n k (λ j s d. none_there j s))

pub serve_request-Enters :
    (url_parse : Bytes → Option Url) (v : Visit) (p : Proxy) (text : Bytes)
    → NoneHas p.client.id p.manager.objects
    → Enters p.client.id (serve_request url_parse v p text)
unfolding serve_request
serve_request-Enters url_parse v p text h = parsed (new_request_from_buffer url_parse text)
  where
    targeted :
        (q : Request) (r : Resolved)
        → SameId p.client.id r
        → Enters p.client.id (serve_resolved v q p r)
    targeted q (resolved c u) e =
        serve_target-Enters v (record q { url = some u }) c p p.client.id e h
    targeted q (probed response) e = tt

    named : (q : Request) (o : Option Url) → Enters p.client.id (serve_parsed v p q o)
    named q none = tt
    named q (some u) = targeted q (resolve p.client q u) (resolve-SameId p.client q u)

    parsed :
        (o : Option (Result Request))
        → Enters p.client.id (elim o [
          | none ↦ crashes
          | some (err e) ↦ hangs_up p none
          | some (ok q) ↦ serve_parsed v p q q.url
        ])
    parsed none = tt
    parsed (some (err e)) = tt
    parsed (some (ok q)) = named q q.url
