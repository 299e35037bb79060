-- ===== src/Tests/Serving.antt =====
-- The connection of a client, on concrete bytes and a concrete stream.
use rtsp_proxy.Client.{Client, signalled, is_empty, ok_response}
use rtsp_proxy.Response.{Response}
use rtsp_proxy.ClientLoop.Frames.{Frame, as_read, scheduled, client_read-scheduled}
use rtsp_proxy.ClientLoop.Ending.{run_client-EndsLeft}
use rtsp_proxy.ClientLoop.Leaving.{NoneHas, EndsLeft}
use rtsp_proxy.ClientLoop.Mapped.{OnlyFrom}
use rtsp_proxy.ClientLoop.Serving.{IsBound, Stays, serve_request-Stays}
use rtsp_proxy.ClientLoop.{
  Served, answers, hangs_up, crashes, binary, asks, Proxy, Visit, client_read, serve_request,
  run_client,
}
use rtsp_proxy.Manager.{new_stream_manager}
use rtsp_proxy.Prelude.Dict.{Dict, bytes_eq_inst, nat_eq, lookup}
use rtsp_proxy.Prelude.Int.{ℤ, pos, int_eq}
use rtsp_proxy.Prelude.{
  Bool, zero, suc, drop, ap, sym, ◌≡◌, refl, arith, true, false, List, [], ◌∷◌, Option, none, some,
  Bytes, codes, bytes_eq,
}
use rtsp_proxy.Remote.{new_remote}
use rtsp_proxy.Request.{Request, new_request}
use rtsp_proxy.Session.{Session, new_session}
use rtsp_proxy.Stream
use rtsp_proxy.Stream.{Stream, new_stream}
use rtsp_proxy.Transport.{Transport, new_substream, new_transport}
use rtsp_proxy.Url.{Url, rtsp_url}

abbrev frames : List Frame
frames =
    record { channel = 0; payload = codes "ab" }
    ∷ record { channel = 1; payload = [] }
    ∷ record { channel = 0; payload = codes "c" }
    ∷ []

client_read-scheduled_example :
    client_read 64 [] (
      (b'$' ∷ 0 ∷ 0 ∷ [])
      ∷ (2 ∷ b'a' ∷ b'b' ∷ b'$' ∷ 1 ∷ [])
      ∷ (0 ∷ 0 ∷ b'$' ∷ 0 ∷ 0 ∷ 1 ∷ b'c' ∷ [])
      ∷ [])
    ≡ as_read (scheduled 0 (3 ∷ 5 ∷ 7 ∷ []) frames)
client_read-scheduled_example =
    client_read-scheduled 64
      ((b'$' ∷ 0 ∷ 0 ∷ [])
        ∷ (2 ∷ b'a' ∷ b'b' ∷ b'$' ∷ 1 ∷ [])
        ∷ (0 ∷ 0 ∷ b'$' ∷ 0 ∷ 0 ∷ 1 ∷ b'c' ∷ [])
        ∷ [])
      [] frames (ground arith) refl

-- Two frames are handled, and the third, which has come whole, is left.
one_left : scheduled 0 (3 ∷ 5 ∷ 7 ∷ []) frames ≡ (
  record { channel = 0; payload = codes "ab" } ∷ record { channel = 1; payload = [] } ∷ [],
  record { channel = 0; payload = codes "c" } ∷ [],
)
one_left = refl

abbrev channels : Dict ℤ ℤ
channels = (pos 0, pos 4) ∷ (pos 1, pos 5) ∷ []

channels-OnlyFrom : OnlyFrom (pos 1) (pos 5) channels
channels-OnlyFrom = (λ e. cc, (λ e. refl, tt))

channels_there : lookup (pos 1) channels ≡ some (pos 5)
unfolding lookup
channels_there = refl

abbrev viewer : Client
viewer = record {
  id = 3;
  local_addr = codes "10.0.0.1";
  remote_addr = codes "10.0.0.2";
  host = codes "cam";
  base_path = codes "/a";
  username = codes "u";
  password = codes "p";
}

abbrev track : Transport
track = record (new_transport (codes "t") (codes "RTP/AVP/TCP") (codes "unicast")) {
  substreams =
      (0, record (new_substream (codes "t")) { channel = pos 2 })
      ∷ (1, record (new_substream (codes "t")) { channel = pos 3 })
      ∷ [];
}

abbrev session : Session
session = record (new_session (codes "9") (pos 60)) { transports = track ∷ [] }

abbrev camera : Stream
camera = record (new_stream 5 (codes "cam") (codes "u") (codes "p") (codes "/a")) {
  remote = some (new_remote (codes "cam") (codes "u") (codes "p"));
  sessions = (codes "9", session) ∷ [];
}

abbrev asked : Request
asked = record (new_request (codes "SETUP") (rtsp_url (codes "cam") (codes "/a/t")) []) {
  headers = (codes "Transport", codes "RTP/AVP/TCP;unicast;interleaved=4-5") ∷ [];
}

abbrev watching : Proxy
watching = record {
  manager = record new_stream_manager {
    streams = (codes "u:p@cam/a", 0) ∷ [];
    objects = camera ∷ [];
  };
  client = viewer;
  current = some 0;
}

abbrev visit : Visit
visit = record {
  now = 7;
  queue_size = 500;
  waits = λ s. s;
  woken = signalled;
  net = record {
    server_done = false;
    dials = none;
    writes = true;
    writes_data = true;
    cnonce = [];
  };
}

abbrev parse : Bytes → Option Url
parse text = some (rtsp_url (codes "other") text)

abbrev play_text : Bytes
play_text = codes "PLAY rtsp://other/b RTSP/1.0\r\nCSeq: 4\r\n\r\n"

watching-IsBound : IsBound 0 watching
unfolding lookup bytes_eq
watching-IsBound = record { targeted = refl; current = refl; known = refl }

serve_request-Stays_example : Stays 0 viewer (serve_request parse visit watching play_text)
serve_request-Stays_example = serve_request-Stays parse visit 0 watching play_text watching-IsBound

-- A new client, which asks for the camera, sets up a track and sends data.
abbrev arrived : Proxy
arrived = record watching {
  client = record viewer { host = []; base_path = []; username = []; password = [] };
  current = none;
}

abbrev parse_cam : Bytes → Option Url
parse_cam text =
    some
      (record (rtsp_url (codes "cam") (drop 10 text)) { user = some (codes "u", some (codes "p")) })

abbrev options_text : Bytes
options_text = codes "OPTIONS rtsp://cam/a RTSP/1.0\r\nCSeq: 1\r\n\r\n"

abbrev setup_text : Bytes
setup_text =
    codes
      "SETUP rtsp://cam/a/t RTSP/1.0\r\nTransport: RTP/AVP/TCP;unicast;interleaved=4-5\r\nCSeq: 2\r\n\r\n"

abbrev answered : Served → Bool
answered (answers p response) = true
answered _ = false

abbrev proxy_of : Served → Proxy
proxy_of (answers p response) = p
proxy_of (hangs_up p response) = p
proxy_of crashes = arrived

abbrev response_of : Served → Response
response_of (answers p response) = response
response_of _ = ok_response

answered-answers : (o : Served) → answered o ≡ true → o ≡ answers (proxy_of o) (response_of o)
answered-answers (answers p response) e = refl
answered-answers (hangs_up p response) e = absurd (cc)
answered-answers crashes e = absurd (cc)

first_answered : answered (serve_request parse_cam visit arrived options_text) ≡ true
unfolding serve_request lookup bytes_eq rtsp_proxy.Request.new_request_from_buffer
    rtsp_proxy.HeaderBlock.word rtsp_proxy.Message.line_split rtsp_proxy.Text.rune_string
    rtsp_proxy.HeaderBlock.header_loop rtsp_proxy.HeaderBlock.take_line
    rtsp_proxy.Message.parse_header rtsp_proxy.Text.index_byte rtsp_proxy.Client.resolve
    rtsp_proxy.Text.split_n rtsp_proxy.Text.trim_prefix rtsp_proxy.Manager.get_stream
    rtsp_proxy.Text.contains
first_answered = refl

first_targeted :
    is_empty (proxy_of (serve_request parse_cam visit arrived options_text)).client.host ≡ false
unfolding serve_request lookup bytes_eq rtsp_proxy.Request.new_request_from_buffer
    rtsp_proxy.HeaderBlock.word rtsp_proxy.Message.line_split rtsp_proxy.Text.rune_string
    rtsp_proxy.HeaderBlock.header_loop rtsp_proxy.HeaderBlock.take_line
    rtsp_proxy.Message.parse_header rtsp_proxy.Text.index_byte rtsp_proxy.Client.resolve
    rtsp_proxy.Text.split_n rtsp_proxy.Text.trim_prefix rtsp_proxy.Manager.get_stream
    rtsp_proxy.Text.contains
first_targeted = refl

arrived-NoneHas : NoneHas 3 arrived.manager.objects
unfolding lookup new_stream
arrived-NoneHas zero s e =
    let same : camera ≡ s = cc in ap (λ (t : Stream). lookup 3 t.clients) (sym same)
arrived-NoneHas (suc k) s e = absurd (cc)

run_client-EndsLeft_example : EndsLeft 3 (
    run_client parse_cam 8 arrived
      ((visit, asks options_text) ∷ (visit, asks setup_text) ∷ (visit, binary 4 (codes "x")) ∷ []))
run_client-EndsLeft_example =
    run_client-EndsLeft parse_cam 8 visit arrived
      (proxy_of (serve_request parse_cam visit arrived options_text)) options_text
      (response_of (serve_request parse_cam visit arrived options_text))
      ((visit, asks setup_text) ∷ (visit, binary 4 (codes "x")) ∷ []) arrived-NoneHas
      (answered-answers (serve_request parse_cam visit arrived options_text) first_answered)
      first_targeted
