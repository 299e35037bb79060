-- ===== src/Handlers.antt =====
-- The handlers of responses in rtspproxy/remote.go, which write into the stream. url.Parse is an
-- argument. A request in the queue was made by NewRequest, so it has a URL.
use rtsp_proxy.Message.{header_get, or_else}
use rtsp_proxy.Prelude.Dict.{Dict, bytes_eq_inst, nat_eq, lookup, insert, delete}
use rtsp_proxy.Prelude.Int.{ℤ}
use rtsp_proxy.Prelude.{
  ℕ, zero, suc, List, [], ◌∷◌, ◌++◌, Option, none, some, Bytes, bytes_eq, codes, ◌==◌,
  if◌then◌else◌,
}
use rtsp_proxy.Remote.{read_params, parse_transport}
use rtsp_proxy.Request.{Request}
use rtsp_proxy.Response.{Response}
use rtsp_proxy.Session.{Session, Started, panics, lookup_transport, start_upstream}
use rtsp_proxy.Stream.{Stream, lookup_session}
use rtsp_proxy.Text.Number.{atoi}
use rtsp_proxy.Text.{split, split_n}
use rtsp_proxy.Transport.{Transport, Substream, new_substream}
use rtsp_proxy.Url.{Url}

-- The second result of filepath.Split: what is behind the last slash.
unfoldable pub file_name : Bytes → Bytes → Bytes
file_name seen [] = seen
file_name seen (c ∷ cs) = if c == b'/' then file_name [] cs else file_name (seen ++ c ∷ []) cs

abbrev pub path_of : Option Url → Bytes
path_of none = []
path_of (some u) = u.path

unfoldable pub handle_options : Stream → Response → Stream
handle_options s response = record s {
  options = header_get response.headers (codes "Public");
  server_name = header_get response.headers (codes "Server");
}

unfoldable pub handle_describe : Stream → Response → Stream
handle_describe s response = record s { sdp = response.body }

-- The session that is stopped leaves the stream.
unfoldable pub handle_teardown : Stream → Request → Stream
handle_teardown s request =
    let id = header_get request.headers (codes "Session") in
    let s' = lookup_session s id [] in record s' { sessions = delete id s'.sessions }

-- The substreams of the interleaved channels "a-b".
abbrev pub with_channels : Bytes → List Bytes → Dict ℕ Substream → Dict ℕ Substream
with_channels name [] m = m
with_channels name (a ∷ []) m =
    insert 0 (record (new_substream name) { channel = (atoi a).value }) m
with_channels name (a ∷ b ∷ _) m =
    insert 1 (record (new_substream name) { channel = (atoi b).value })
      (insert 0 (record (new_substream name) { channel = (atoi a).value }) m)

abbrev pub set_channels : Bytes → Option Bytes → Transport → Transport
set_channels name none t = t
set_channels name (some interleaved) t = record t {
  substreams = with_channels name (split interleaved b'-') t.substreams;
}

unfoldable pub set_up : Bytes → Dict Bytes Bytes → Transport → Transport
set_up name params t =
    set_channels name (lookup (codes "interleaved") params)
      (record t { ssrc = or_else (lookup (codes "ssrc") params) [] })

abbrev pub update_at : ℕ → (Transport → Transport) → List Transport → List Transport
update_at i f [] = []
update_at zero f (t ∷ ts) = f t ∷ ts
update_at (suc i) f (t ∷ ts) = t ∷ update_at i f ts

abbrev pub timeout_param : List Bytes → ℤ → ℤ
timeout_param (k ∷ v ∷ _) t = if bytes_eq k (codes "timeout") then (atoi v).value else t
timeout_param _ t = t

-- The loop over the parameters of the Session header.
unfoldable pub session_timeout : List Bytes → ℤ → ℤ
session_timeout [] t = t
session_timeout (p ∷ ps) t = session_timeout ps (timeout_param (split_n 1 p b'=') t)

unfoldable pub set_up_session :
    Bytes → Bytes × Bytes × Dict Bytes Bytes → List Bytes → Session → Session
unfolding set_up session_timeout
set_up_session name (protocol, com_type, params) session_params session =
    let (session', i) = lookup_transport session name protocol com_type in
    record session' {
      transports = update_at i (set_up name params) session'.transports;
      timeout = session_timeout session_params session'.timeout;
    }

abbrev pub change_session : Bytes → (Session → Session) → Option Session → Stream → Stream
change_session id f none s = s
change_session id f (some session) s = record s { sessions = insert id (f session) s.sessions }

abbrev pub set_up_first : Stream → Bytes → Bytes × Bytes × Dict Bytes Bytes → List Bytes → Stream
set_up_first s name transport [] = s
set_up_first s name transport (id ∷ params) =
    let s' = lookup_session s id [] in
    change_session id (set_up_session name transport params) (lookup id s'.sessions) s'

unfoldable pub handle_setup : Stream → Request → Response → Stream
unfolding set_up_session file_name
handle_setup s request response =
    set_up_first s (file_name [] (path_of request.url))
      (parse_transport (header_get response.headers (codes "Transport")))
      (split (header_get response.headers (codes "Session")) b';')

abbrev pub timed : Dict Bytes Bytes → Option Substream → Dict ℕ Substream → Dict ℕ Substream
timed params none m = m
timed params (some sub) m =
    insert 0
      (record sub {
        seq = (atoi (or_else (lookup (codes "seq") params) [])).value;
        rtp_time = (atoi (or_else (lookup (codes "rtptime") params) [])).value;
      })
      m

-- The loop over the transports of a session, for one element of RTP-Info.
abbrev pub set_times : Bytes → Dict Bytes Bytes → List Transport → List Transport
set_times name params [] = []
set_times name params (t ∷ ts) =
    (if bytes_eq t.substream_name name
      then record t { substreams = timed params (lookup 0 t.substreams) t.substreams }
      else t)
    ∷ set_times name params ts

module _ (url_parse : Bytes → Option Url) where
  -- The loop over RTP-Info; `none` is a panic, here on a URL that url.Parse refuses.
  unfoldable pub rtp_infos : List Bytes → Session → Option Session
  rtp_infos [] session = some session
  rtp_infos (rtp ∷ rest) session =
      let params = read_params (split rtp b';') [] in
      elim (url_parse (or_else (lookup (codes "url") params) [])) [
        | none ↦ none
        | some u ↦ rtp_infos rest (record session {
          transports = set_times (file_name [] u.path) params session.transports;
        })
      ]

  abbrev pub play_infos : Bytes → Session → Option Session
  play_infos [] session = some session
  play_infos (c ∷ cs) session = rtp_infos (split (c ∷ cs) b',') session

  -- StartUpstream, with the panic of its ticker.
  abbrev pub started_up : Bytes → Stream → Session × Started → Option Stream
  started_up id s (session, panics) = none
  started_up id s (session, _) = some (record s { sessions = insert id session s.sessions })

  abbrev pub played : Bytes → Stream → Option Session → Option Stream
  played id s none = none
  played id s (some session) = started_up id s (start_upstream session)

  abbrev pub play_session : Bytes → Bytes → Stream → Option Session → Option Stream
  play_session id rtp_info s none = some s
  play_session id rtp_info s (some session) = played id s (play_infos rtp_info session)

  unfoldable pub handle_play : Stream → Request → Response → Option Stream
  unfolding rtp_infos
  handle_play s request response =
      let id = header_get request.headers (codes "Session") in
      let s' = lookup_session s id [] in
      play_session id (header_get response.headers (codes "RTP-Info")) s' (lookup id s'.sessions)

  -- The switch on the method of the request.
  unfoldable pub handle_method : Stream → Request → Response → Option Stream
  unfolding handle_play handle_options handle_describe handle_setup handle_teardown
  handle_method s request response =
      if bytes_eq request.method (codes "OPTIONS")
      then some (handle_options s response)
      else if bytes_eq request.method (codes "DESCRIBE")
      then some (handle_describe s response)
      else if bytes_eq request.method (codes "SETUP")
      then some (handle_setup s request response)
      else if bytes_eq request.method (codes "PLAY")
      then handle_play s request response
      else if bytes_eq request.method (codes "TEARDOWN")
      then some (handle_teardown s request)
      else some s
