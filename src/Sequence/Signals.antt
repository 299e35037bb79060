-- ===== src/Sequence/Signals.antt =====
-- What doConnectSequence of rtspproxy/stream.go does to the state and the signals of a stream.
use rtsp_proxy.Exchange.Kept.{On, Kept, kept, Harmless, if-Kept, send_request_sync-Kept}
use rtsp_proxy.Exchange.{Link, Wait, not_sent, Got, got, lost, panicked}
use rtsp_proxy.Prelude.Dict.{bytes_eq_inst, lookup}
use rtsp_proxy.Prelude.{ℕ, ◌+◌, inl, inr, List, [], ◌∷◌, Option, none, some, Bytes, Option-cases}
use rtsp_proxy.Remote.{Outcome, done, failed, dial_locked}
use rtsp_proxy.Request.{Request, print_request}
use rtsp_proxy.Sequence.{
  Call, bind, is_empty, Waits, find_ssrc, in_sessions, is_track, start_session, keep_session, call,
  get_options, get_sdp, track_url, send_unprintable, send_setup, setup_request, setup_upstream,
  play_upstream, setup_tracks, interleaved_pair, setup_all, publish_sdp, do_connect_sequence,
}
use rtsp_proxy.Session.{Session, Started, already, ticking, panics, start_upstream}
use rtsp_proxy.Stream.Waiting.{Signals, close_sdp}
use rtsp_proxy.Stream.{StreamState}
use rtsp_proxy.Tracks.{parse_tracks}
use rtsp_proxy.Url.{Url}

module _ (P : StreamState → Signals → Type 0) where
  pub bind-Kept {ℓ κ} :
      {A : Type ℓ} {B : Type κ} (g : Got A) (f : A → Call B)
      → Kept P g
      → ((a : A) (l : Link) → On P l.stream → Kept P (f a l))
      → Kept P (bind g f)
  bind-Kept (got a l) f (kept h) k = k a l h
  bind-Kept (lost e l) f (kept h) k = kept h
  bind-Kept panicked f h k = kept tt

  -- All waits of a connect sequence.
  pub record AllHarmless (w : Waits) : Type 0 where
    pub options : (i : ℕ) → Harmless P (w.options i)
    pub describe : (i : ℕ) → Harmless P (w.describe i)
    pub setup : (i n : ℕ) → Harmless P (w.setup i n)
    pub play : (i : ℕ) → Harmless P (w.play i)

  module _ (md5_hex : Bytes → Bytes) (url_print : Url → Bytes)
      (url_parse : Bytes → Option Url) where
    call-Kept :
        (waits : ℕ → Wait) (q : Request) (l : Link)
        → ((i : ℕ) → Harmless P (waits i))
        → On P l.stream
        → Kept P (call md5_hex url_print url_parse waits q l)
    call-Kept waits q l k h = send_request_sync-Kept P md5_hex url_print waits _ _ k h

    get_options-Kept :
        (waits : ℕ → Wait) (path : Bytes) (l : Link)
        → ((i : ℕ) → Harmless P (waits i))
        → On P l.stream
        → Kept P (get_options md5_hex url_print url_parse waits path l)
    unfolding get_options
    get_options-Kept waits path l k h =
        if-Kept P (is_empty l.stream.options) _ (got l.stream.options l)
          (bind-Kept _ (λ a l'. got l'.stream.options l') (call-Kept waits _ l k h)
            (λ a l' h'. kept h'))
          (kept h)

    get_sdp-Kept :
        (waits : ℕ → Wait) (path : Bytes) (l : Link)
        → ((i : ℕ) → Harmless P (waits i))
        → On P l.stream
        → Kept P (get_sdp md5_hex url_print url_parse waits path l)
    unfolding get_sdp
    get_sdp-Kept waits path l k h =
        if-Kept P (is_empty l.stream.sdp) _ (got l.stream.sdp l)
          (bind-Kept _ (λ a l'. got l'.stream.sdp l') (call-Kept waits _ l k h)
            (λ a l' h'. kept h'))
          (kept h)

    find_ssrc-Kept : (track : Bytes) (l : Link) → On P l.stream → Kept P (find_ssrc track l)
    find_ssrc-Kept track l h =
        elim (Option-cases (in_sessions (is_track l.stream.path track) l.stream.sessions)) [
          | inl e ↦ rw (e, find_ssrc) (kept h)
          | inr (found, e) ↦ rw (e, find_ssrc) (kept h)
        ]

    send_unprintable-Kept :
        (w : Wait) (l : Link) → On P l.stream → Kept P (send_unprintable w.net l)
    send_unprintable-Kept w l h =
        if-Kept P l.remote.conn _ _ (kept tt) (dialled (dial_locked w.net l.remote))
      where
        dialled :
            (o : Outcome)
            → Kept P {A = Bytes × Bytes} (elim o [
              | failed e r ↦ lost (not_sent e) (record l { remote = r })
              | done r ↦ panicked
            ])
        dialled (failed e r) = kept h
        dialled (done r) = kept tt

    setup_upstream-Kept :
        (waits : ℕ → Wait) (track transport : Bytes) (l : Link)
        → ((i : ℕ) → Harmless P (waits i))
        → On P l.stream
        → Kept P (setup_upstream md5_hex url_print url_parse waits track transport l)
    unfolding setup_upstream
    setup_upstream-Kept waits track transport l k h =
        let url = track_url md5_hex url_print url_parse l.remote.host l.stream.path track in
        printed (setup_request url transport)
          (print_request url_print (setup_request url transport))
      where
        printed :
            (q : Request) (o : Option Bytes)
            → Kept P (send_setup md5_hex url_print url_parse waits track q o l)
        printed q none = send_unprintable-Kept (waits 0) l h
        printed q (some raw) = bind-Kept _ _ (call-Kept waits _ l k h) (λ a. find_ssrc-Kept track)

    setup_tracks-Kept :
        (waits : ℕ → ℕ → Wait) (i : ℕ) (tracks : List Bytes) (id : Bytes) (l : Link)
        → ((j n : ℕ) → Harmless P (waits j n))
        → On P l.stream
        → Kept P (setup_tracks md5_hex url_print url_parse waits i tracks id l)
    unfolding setup_tracks
    setup_tracks-Kept waits i [] id l k h = kept h
    setup_tracks-Kept waits i (track ∷ tracks) id l k h =
        bind-Kept _ _ (setup_upstream-Kept (waits i) track (interleaved_pair i) l (k i) h)
          (λ found l' h'. setup_tracks-Kept waits (i + 1) tracks found.1 l' k h')

    pub setup_all-Kept :
        (waits : ℕ → ℕ → Wait) (tracks : List Bytes) (l : Link)
        → ((j n : ℕ) → Harmless P (waits j n))
        → On P l.stream
        → Kept P (setup_all md5_hex url_print url_parse waits tracks l)
    setup_all-Kept waits [] l k h = kept h
    setup_all-Kept waits (track ∷ tracks) l k h =
        setup_tracks-Kept waits 0 (track ∷ tracks) [] l k h

    keep_session-Kept :
        (id : Bytes) (l : Link) (s : Session) (o : Started)
        → On P l.stream
        → Kept P (keep_session id l (s, o))
    keep_session-Kept id l s panics h = kept tt
    keep_session-Kept id l s already h = kept h
    keep_session-Kept id l s (ticking n) h = kept h

    start_session-Kept :
        (o : Option Session) (id : Bytes) (l : Link) → On P l.stream → Kept P (start_session o id l)
    start_session-Kept none id l h = kept h
    start_session-Kept (some session) id l h =
        keep_session-Kept id l (start_upstream session).0 (start_upstream session).1 h

    pub play_upstream-Kept :
        (waits : ℕ → Wait) (path id : Bytes) (l : Link)
        → ((i : ℕ) → Harmless P (waits i))
        → On P l.stream
        → Kept P (play_upstream md5_hex url_print url_parse waits path id l)
    unfolding play_upstream
    play_upstream-Kept waits path id l k h =
        bind-Kept _ _ (call-Kept waits _ l k h)
          (λ a l' h'. start_session-Kept (lookup id l'.stream.sessions) id l' h')

    published :
        (sdp : Bytes) (l : Link)
        → P l.stream.state (close_sdp l.stream.signals)
        → Kept P (publish_sdp sdp l)
    published sdp l h = kept h

    -- Telling the clients that wait for the SDP must not break it either.
    pub do_connect_sequence-Kept :
        (w : Waits) (l : Link)
        → ((state : StreamState) (g : Signals) → P state g → P state (close_sdp g))
        → AllHarmless w
        → On P l.stream
        → Kept P (do_connect_sequence md5_hex url_print url_parse w l)
    unfolding do_connect_sequence
    do_connect_sequence-Kept w l closes k h =
        bind-Kept _ _
          (bind-Kept _ _ (get_options-Kept w.options l.stream.path l k.options h)
            (λ a l' h'. get_sdp-Kept w.describe l.stream.path l' k.describe h'))
          (λ sdp l' h'.
            bind-Kept _ _
              (bind-Kept _ _ (published sdp l' (closes _ _ h'))
                (λ a m k'. setup_all-Kept w.setup (parse_tracks sdp) m k.setup k'))
              (λ id m k'. play_upstream-Kept w.play l.stream.path id m k.play k'))
