-- ===== src/Exchange/Harmless.antt =====
-- HandleUpstreamResponse of rtspproxy/remote.go and the state and signals of a stream.
use rtsp_proxy.Exchange.Camera.{Heard, has_channel, notify, camera_says}
use rtsp_proxy.Exchange.Kept.{On, Harmless}
use rtsp_proxy.Exchange.{Link, Wait, Wake}
use rtsp_proxy.Handlers.{
  handle_setup, handle_teardown, handle_play, handle_method, set_up_first, change_session,
  file_name, path_of, play_infos, started_up, played, play_session,
}
use rtsp_proxy.Message.{Result, ok, err, header_get}
use rtsp_proxy.Prelude.Dict.{bytes_eq_inst, nat_eq, lookup}
use rtsp_proxy.Prelude.Int.{ℤ, pos, leb_ℤ, eq_ℤ}
use rtsp_proxy.Prelude.{
  ℕ, ◌≡◌, inl, inr, sym, subst, Bool, true, false, ◌&&◌, List, [], ◌∷◌, Option, none, some, Bytes,
  bytes_eq, codes, ◌==◌, if◌then◌else◌, Option-cases,
}
use rtsp_proxy.Remote.{Remote, Pending, Net, parse_transport}
use rtsp_proxy.Request.{Request}
use rtsp_proxy.Response.{Response, new_response_from_buffer}
use rtsp_proxy.Session.{Session, Started, already, ticking, panics, start_upstream}
use rtsp_proxy.Stream.Waiting.{Signals}
use rtsp_proxy.Stream.{Stream, StreamState, lookup_session}
use rtsp_proxy.Text.{split}
use rtsp_proxy.Upstream.{
  Handled, ignored, retried, answered, crashed, is_empty, conclude, challenge, conclude_ok, respond,
  respond_to, respond_front, handle_upstream_response,
}
use rtsp_proxy.Url.{Url}

module _ (P : StreamState → Signals → Type 0) where
  lookup_session-On :
      (s : Stream) (id : Bytes) (args : List ℤ) → On P s → On P (lookup_session s id args)
  unfolding lookup_session
  lookup_session-On s id args h = elim (Option-cases (lookup id s.sessions)) [
    | inl e ↦ rw (e, lookup_session) h
    | inr (session, e) ↦ rw (e, lookup_session) h
  ]

  change_session-On :
      (id : Bytes) (f : Session → Session) (o : Option Session) (s : Stream)
      → On P s
      → On P (change_session id f o s)
  change_session-On id f none s h = h
  change_session-On id f (some session) s h = h

  handle_setup-On :
      (s : Stream) (q : Request) (response : Response) → On P s → On P (handle_setup s q response)
  unfolding handle_setup
  handle_setup-On s q response h =
      first (split (header_get response.headers (codes "Session")) b';')
    where
      first :
          (ps : List Bytes)
          → On P (
              set_up_first s
                (file_name [] (path_of q.url))
                (parse_transport (header_get response.headers (codes "Transport")))
                ps)
      first [] = h
      first (id ∷ params) = change_session-On id _ _ _ (lookup_session-On s id [] h)

  -- A handler that does not panic.
  abbrev OnSome : Option Stream → Type 0
  OnSome none = Unit
  OnSome (some s) = On P s

  if-OnSome : (b : Bool) (x y : Option Stream) → OnSome x → OnSome y → OnSome (if b then x else y)
  if-OnSome true x y h k = h
  if-OnSome false x y h k = k

  module _ (md5_hex : Bytes → Bytes) (url_print : Url → Bytes)
      (url_parse : Bytes → Option Url) where
    started_up-On :
        (id : Bytes) (s : Stream) (session : Session) (o : Started)
        → On P s
        → OnSome (started_up url_parse id s (session, o))
    started_up-On id s session panics h = tt
    started_up-On id s session already h = h
    started_up-On id s session (ticking n) h = h

    played-On :
        (id : Bytes) (s : Stream) (o : Option Session) → On P s → OnSome (played url_parse id s o)
    played-On id s none h = tt
    played-On id s (some session) h =
        started_up-On id s (start_upstream session).0 (start_upstream session).1 h

    play_session-On :
        (id rtp_info : Bytes) (s : Stream) (o : Option Session)
        → On P s
        → OnSome (play_session url_parse id rtp_info s o)
    play_session-On id rtp_info s none h = h
    play_session-On id rtp_info s (some session) h =
        played-On id s (play_infos url_parse rtp_info session) h

    handle_method-On :
        (s : Stream) (q : Request) (response : Response)
        → On P s
        → OnSome (handle_method url_parse s q response)
    unfolding handle_method handle_play handle_teardown
    handle_method-On s q response h =
        let id = header_get q.headers (codes "Session") in
        let there = lookup_session-On s id [] h in
        if-OnSome (bytes_eq q.method (codes "OPTIONS")) _ _ h (
          if-OnSome (bytes_eq q.method (codes "DESCRIBE")) _ _ h (
            if-OnSome (bytes_eq q.method (codes "SETUP")) _ _ (handle_setup-On s q response h) (
              if-OnSome (bytes_eq q.method (codes "PLAY")) _ _
                (play_session-On id _ _ (lookup id (lookup_session s id []).sessions) there)
                (if-OnSome (bytes_eq q.method (codes "TEARDOWN")) _ (some s) there h))))

    abbrev OnHandled : Handled → Type 0
    OnHandled ignored = Unit
    OnHandled (retried s r) = On P s
    OnHandled (answered s r status channels) = On P s
    OnHandled crashed = Unit

    if-OnHandled :
        (b : Bool) (x y : Handled) → OnHandled x → OnHandled y → OnHandled (if b then x else y)
    if-OnHandled true x y h k = h
    if-OnHandled false x y h k = k

    conclude_ok-On :
        (p : Pending) (q : Request) (r : Remote) (o : Option Stream)
        → OnSome o
        → OnHandled (conclude_ok md5_hex url_print url_parse p q r o)
    unfolding conclude
    conclude_ok-On p q r none h = tt
    conclude_ok-On p q r (some s) h = h

    respond-On :
        (net : Net) (s : Stream) (r : Remote) (p : Pending) (q : Request) (response : Response)
        → On P s
        → OnHandled (respond md5_hex url_print url_parse net s r p q response)
    unfolding respond challenge conclude
    respond-On net s r p q response h =
        if-OnHandled (eq_ℤ response.code (pos 401) && q.attempts == 0) _ _
          (if-OnHandled (is_empty (header_get response.headers (codes "WWW-Authenticate"))) _ _ h
            (if-OnHandled _ (retried s _) (conclude p q s _ (codes "unauthorized")) h h))
          (if-OnHandled (leb_ℤ (pos 400) response.code) _ _ h (
            conclude_ok-On p q r (handle_method url_parse s q response)
              (handle_method-On s q response h)))

    respond_front-On :
        (net : Net) (s : Stream) (r : Remote) (response : Response) (ps : List Pending)
        → On P s
        → OnHandled (respond_front md5_hex url_print url_parse net s r response ps)
    respond_front-On net s r response [] h = tt
    respond_front-On net s r response (p ∷ ps) h = known (lookup p.request r.objects)
      where
        known :
            (o : Option Request)
            → OnHandled (respond_to md5_hex url_print url_parse net s r p response o)
        known none = tt
        known (some q) = respond-On net s r p q response h

    handle_upstream_response-On :
        (net : Net) (s : Stream) (r : Remote) (recv : Bytes)
        → On P s
        → OnHandled (handle_upstream_response md5_hex url_print url_parse net s r recv)
    unfolding handle_upstream_response
    handle_upstream_response-On net s r recv h = parsed (new_response_from_buffer recv)
      where
        parsed :
            (o : Option (Result Response))
            → OnHandled (elim o [
              | none ↦ ignored
              | some (err e) ↦ ignored
              | some (ok response) ↦
                  respond_front md5_hex url_print url_parse net s r response r.requests
            ])
        parsed none = tt
        parsed (some (err e)) = tt
        parsed (some (ok response)) = respond_front-On net s r response r.requests h

    camera_says-On :
        (hs : List Heard) (channel : ℕ) (l : Link)
        → On P l.stream
        → On P (camera_says md5_hex url_print url_parse hs channel l).0.stream
    unfolding camera_says
    camera_says-On [] channel l h = h
    camera_says-On (m ∷ hs) channel l h =
        notified
          (handle_upstream_response md5_hex url_print url_parse m.net l.stream l.remote m.recv)
          (handle_upstream_response-On m.net l.stream l.remote m.recv h)
          (λ l' h'. camera_says-On hs channel l' h')
      where
        if-On :
            (b : Bool) (x y : Link × Wake)
            → On P x.0.stream
            → On P y.0.stream
            → On P (if b then x else y).0.stream
        if-On true x y h k = h
        if-On false x y h k = k

        notified :
            (o : Handled)
            → OnHandled o
            → ((l' : Link)
                → On P l'.stream
                → On P (camera_says md5_hex url_print url_parse hs channel l').0.stream)
            → On P
                (notify channel (camera_says md5_hex url_print url_parse hs channel) l o).0.stream
        notified ignored t f = f l h
        notified (retried s r) t f = f (record { stream = s; remote = r }) t
        notified (answered s r status channels) t f =
            if-On (has_channel channel channels) _ _ t (f (record { stream = s; remote = r }) t)
        notified crashed t f = h

-- The messages of a camera never touch the state and the signals of the stream.
pub camera_says-Harmless :
    (P : StreamState → Signals → Type 0) (md5_hex : Bytes → Bytes) (url_print : Url → Bytes)
    (url_parse : Bytes → Option Url) (w : Wait) (hs : List Heard)
    → w.meanwhile ≡ camera_says md5_hex url_print url_parse hs
    → Harmless P w
camera_says-Harmless P md5_hex url_print url_parse w hs e channel l h =
    subst (λ (f : ℕ → Link → Link × Wake). On P (f channel l).0.stream) (sym e)
      (camera_says-On P md5_hex url_print url_parse hs channel l h)
