-- ===== src/Sequence.antt =====
-- The requests that rtspproxy/remote.go makes for a stream, and doConnectSequence of
-- rtspproxy/stream.go. A remote belongs to its stream, so `remote.stream` is never nil. The waits
-- of the calls are arguments; url.Parse, URL.String and MD5 too.
pub mod Signals
pub mod Outcome
pub mod Channels
use rtsp_proxy.Exchange.{
  Link, Wait, not_sent, no_transport, no_tracks, Got, got, lost, panicked, send_request_sync,
}
use rtsp_proxy.Handlers.{file_name}
use rtsp_proxy.Prelude.Dict.{Dict, bytes_eq_inst, nat_eq, lookup, insert}
use rtsp_proxy.Prelude.Int.{pos}
use rtsp_proxy.Prelude.{
  ℕ, ◌+◌, ◌*◌, Bool, true, false, not, ◌&&◌, ◌||◌, List, [], ◌∷◌, ◌++◌, Option, none, some, Bytes,
  bytes_eq, codes, if◌then◌else◌, length,
}
use rtsp_proxy.Remote.{Remote, Net, done, failed, dial_locked}
use rtsp_proxy.Request.{Request, blank_request, new_request, print_request}
use rtsp_proxy.Session.{Session, Started, panics, start_upstream}
use rtsp_proxy.Stream.Waiting.{close_sdp}
use rtsp_proxy.Stream.{Stream}
use rtsp_proxy.Text.Number.{itoa}
use rtsp_proxy.Text.{has_prefix, trim_left, trim_right}
use rtsp_proxy.Tracks.{parse_tracks}
use rtsp_proxy.Transport.{Transport, serves}
use rtsp_proxy.Url.{Url, rtsp_url}

abbrev pub Call {ℓ} : Type ℓ → Type ℓ
Call A = Link → Got A

infixl 5 ◌>>=◌ ◌>>◌
abbrev pub bind {ℓ κ} : {A : Type ℓ} {B : Type κ} → Got A → (A → Call B) → Got B
bind (got a l) f = f a l
bind (lost e l) f = lost e l
bind panicked f = panicked

abbrev pub ◌>>=◌ {ℓ κ} : {A : Type ℓ} {B : Type κ} → Call A → (A → Call B) → Call B
◌>>=◌ m f l = bind (m l) f

abbrev pub ◌>>◌ {ℓ κ} : {A : Type ℓ} {B : Type κ} → Call A → Call B → Call B
m >> k = m >>= λ _. k

abbrev pub is_empty : Bytes → Bool
is_empty [] = true
is_empty (c ∷ cs) = false

abbrev pub set_stream : Stream → Link → Link
set_stream s l = record l { stream = s }

abbrev pub add_object : Request → Remote → Remote
add_object request r = record r { objects = insert (length r.objects) request r.objects }

-- filepath.Base
unfoldable pub base_name : Bytes → Bytes
unfolding file_name
base_name [] = codes "."
base_name (c ∷ cs) = elim (file_name [] (trim_right (c ∷ cs) b'/')) [
  | [] ↦ codes "/"
  | d ∷ ds ↦ d ∷ ds
]

-- The test of the loop in SetupUpstream.
unfoldable pub is_track : Bytes → Bytes → Transport → Bool
unfolding base_name
is_track path track t =
    bytes_eq t.substream_name track
    || (is_empty track && bytes_eq t.substream_name (base_name path)
        || (not (is_empty track)
            && (bytes_eq t.substream_name (base_name track) || bytes_eq t.substream_name track)))

-- The first transport of a list with a property, and of a stream's sessions.
unfoldable pub first_transport : (Transport → Bool) → List Transport → Option Transport
first_transport p [] = none
first_transport p (t ∷ ts) = if p t then some t else first_transport p ts

unfoldable pub in_sessions : (Transport → Bool) → Dict Bytes Session → Option (Session × Transport)
unfolding first_transport
in_sessions p [] = none
in_sessions p ((id, session) ∷ m) = elim (first_transport p session.transports) [
  | some t ↦ some (session, t)
  | none ↦ in_sessions p m
]

-- Remote.LookupTransport, and Stream.LookupTransport, with the session of the transport.
unfoldable pub lookup_upstream : Stream → Bytes → Bytes → Bytes → Option (Session × Transport)
unfolding in_sessions
lookup_upstream s name protocol com_type = elim s.remote [
  | none ↦ none
  | some r ↦ in_sessions (serves name protocol com_type) s.sessions
]

-- The Transport header for track number i.
unfoldable pub interleaved_pair : ℕ → Bytes
interleaved_pair i =
    codes "RTP/AVP/TCP;unicast;interleaved="
    ++ (itoa (pos (i * 2)) ++ (b'-' ∷ itoa (pos (i * 2 + 1))))

abbrev pub find_ssrc : Bytes → Call (Bytes × Bytes)
find_ssrc track l = elim (in_sessions (is_track l.stream.path track) l.stream.sessions) [
  | none ↦ lost no_transport l
  | some (session, t) ↦ got (t.ssrc, session.session) l
]

abbrev pub keep_session : Bytes → Link → Session × Started → Got (Unit {0})
keep_session id l (session, panics) = panicked
keep_session id l (session, _) =
    got tt (set_stream (record l.stream { sessions = insert id session l.stream.sessions }) l)

abbrev pub start_session : Option Session → Bytes → Call (Unit {0})
start_session none id l = got tt l
start_session (some session) id l = keep_session id l (start_upstream session)

-- The waits of a connect sequence; SETUP has some for each track.
pub record Waits : Type 0 where
  pub options : ℕ → Wait
  pub describe : ℕ → Wait
  pub setup : ℕ → ℕ → Wait
  pub play : ℕ → Wait

-- The request of SetupUpstream; its URL is nil where url.Parse has returned an error.
abbrev pub setup_request : Option Url → Bytes → Request
setup_request url transport = record blank_request {
  method = codes "SETUP";
  url = url;
  protocol_version = codes "RTSP/1.0";
  headers = insert (codes "Transport") transport [];
}

-- SendRequest on a request that cannot be printed: it dials if it must, and panics.
abbrev pub send_unprintable : Net → Call (Bytes × Bytes)
send_unprintable net l = if l.remote.conn then panicked else elim (dial_locked net l.remote) [
  | failed e r ↦ lost (not_sent e) (record l { remote = r })
  | done r ↦ panicked
]

abbrev pub play_request : Bytes → Bytes → Bytes → Request
play_request host path id =
    let request = new_request (codes "PLAY") (rtsp_url host path) [] in
    record request {
      headers =
          insert (codes "Range") (codes "npt=0.000-") (insert (codes "Session") id request.headers);
    }

-- The SDP is stored again, and the clients that wait for it are told.
abbrev pub publish_sdp : Bytes → Call (Unit {0})
publish_sdp sdp l =
    got tt (set_stream (record l.stream { sdp = sdp; signals = close_sdp l.stream.signals }) l)

module _ (md5_hex : Bytes → Bytes) (url_print : Url → Bytes) (url_parse : Bytes → Option Url) where
  -- SendRequestSync on a request that has just been made.
  abbrev pub call : (ℕ → Wait) → Request → Call (Unit {0})
  call waits request l =
      send_request_sync md5_hex url_print waits (length l.remote.objects)
        (record l { remote = add_object request l.remote })

  unfoldable pub get_options : (ℕ → Wait) → Bytes → Call Bytes
  unfolding new_request
  get_options waits path l =
      if is_empty l.stream.options
      then (call waits (new_request (codes "OPTIONS") (rtsp_url l.remote.host path) []) >> λ l'.
            got l'.stream.options l')
          l
      else got l.stream.options l

  unfoldable pub get_sdp : (ℕ → Wait) → Bytes → Call Bytes
  unfolding new_request
  get_sdp waits path l =
      if is_empty l.stream.sdp
      then (call waits (new_request (codes "DESCRIBE") (rtsp_url l.remote.host path) []) >> λ l'.
            got l'.stream.sdp l')
          l
      else got l.stream.sdp l

  -- The URL of a SETUP; `none` is the nil that url.Parse returns with an error.
  unfoldable pub track_url : Bytes → Bytes → Bytes → Option Url
  track_url host path track =
      if is_empty track || bytes_eq track (codes "*")
      then some (rtsp_url host path)
      else if has_prefix track (codes "rtsp://")
      then url_parse track
      else some (rtsp_url host (trim_right path b'/' ++ (b'/' ∷ trim_left track b'/')))

  -- What is sent goes through Request.String first.
  abbrev pub send_setup : (ℕ → Wait) → Bytes → Request → Option Bytes → Call (Bytes × Bytes)
  send_setup waits track request none l = send_unprintable (waits 0).net l
  send_setup waits track request (some raw) l = (call waits request >> find_ssrc track) l

  unfoldable pub setup_upstream : (ℕ → Wait) → Bytes → Bytes → Call (Bytes × Bytes)
  unfolding track_url print_request dial_locked
  setup_upstream waits track transport l =
      let request = setup_request (track_url l.remote.host l.stream.path track) transport in
      send_setup waits track request (print_request url_print request) l

  unfoldable pub play_upstream : (ℕ → Wait) → Bytes → Bytes → Call (Unit {0})
  unfolding new_request
  play_upstream waits path id l =
      (call waits (play_request l.remote.host path id) >> λ l'.
      start_session (lookup id l'.stream.sessions) id l')
        l

  -- The loop over the tracks; the session of the last one is kept.
  unfoldable pub setup_tracks : (ℕ → ℕ → Wait) → ℕ → List Bytes → Bytes → Call Bytes
  unfolding setup_upstream interleaved_pair
  setup_tracks waits i [] id l = got id l
  setup_tracks waits i (track ∷ tracks) id l =
      (setup_upstream (waits i) track (interleaved_pair i) >>= λ (found : Bytes × Bytes).
      setup_tracks waits (i + 1) tracks found.1)
        l

  abbrev pub setup_all : (ℕ → ℕ → Wait) → List Bytes → Call Bytes
  setup_all waits [] l = lost no_tracks l
  setup_all waits (track ∷ tracks) l = setup_tracks waits 0 (track ∷ tracks) [] l

  -- The part behind DESCRIBE.
  abbrev pub after_sdp : Waits → Bytes → Bytes → Call (Unit {0})
  after_sdp w path sdp = publish_sdp sdp >> setup_all w.setup (parse_tracks sdp) >>= λ (id : Bytes).
      play_upstream w.play path id

  unfoldable pub do_connect_sequence : Waits → Call (Unit {0})
  unfolding get_options get_sdp setup_tracks play_upstream
  do_connect_sequence w l =
      let path = l.stream.path in
      (get_options w.options path >> get_sdp w.describe path >>= after_sdp w path) l
