-- ===== src/Tests/Exchange.antt =====
-- Calls of a remote that wait for their answers, with a concrete camera.
use rtsp_proxy.Exchange.Answered.{Replies, Succeeds, send_request_sync-answered}
use rtsp_proxy.Exchange.Camera.{camera_says}
use rtsp_proxy.Exchange.Kept.{Kept}
use rtsp_proxy.Exchange.Retried.{Twice, send_request_sync-second_chance}
use rtsp_proxy.Exchange.Sent.{Ready, Prepared, as_made, once_more}
use rtsp_proxy.Exchange.{Link, Wait, Got, got, lost, panicked, send_request_sync}
use rtsp_proxy.Exchange.Harmless.{camera_says-Harmless}
use rtsp_proxy.Handlers.{handle_method, handle_options, set_up}
use rtsp_proxy.Message.{Headers, header_get}
use rtsp_proxy.Prelude.Dict.{Dict, bytes_eq_inst, nat_eq, lookup, insert, lookup-insert}
use rtsp_proxy.Prelude.{
  ℕ, length, Bool, zero, suc, ◌≡◌, ◌∙◌, refl, arith, true, false, List, [], ◌∷◌, Option, none, some,
  Bytes, codes, bytes_eq,
}
use rtsp_proxy.Remote.{Remote, new_remote, parse_transport}
use rtsp_proxy.Request.{Request, new_request}
use rtsp_proxy.Response.RoundTrip.{new_response_from_buffer-print}
use rtsp_proxy.Response.{Response, print_response}
use rtsp_proxy.Sequence.Outcome.{SdpTold, do_connect_sequence-Promises, do_connect_sequence-SdpTold}
use rtsp_proxy.Sequence.Channels.{ChannelAt, set_up-interleaved_pair}
use rtsp_proxy.Sequence.Signals.{AllHarmless}
use rtsp_proxy.Stream.Invariant.{Promises, new_stream-Keeps}
use rtsp_proxy.Stream.Waiting.{Signals}
use rtsp_proxy.Text.{has_prefix}
use rtsp_proxy.Transport.{new_transport}
use rtsp_proxy.Prelude.Int.{pos}
use rtsp_proxy.Sequence.{interleaved_pair, Waits, get_options, setup_upstream, do_connect_sequence}
use rtsp_proxy.Session.{Session}
use rtsp_proxy.Stream.{Stream, StreamState, new_stream}
use rtsp_proxy.Tests.Upstream.{accepted, accepted-IsWritable, camera, net, parse}
use rtsp_proxy.Url.{Url, rtsp_url}

abbrev md5 : Bytes → Bytes
md5 t = t

abbrev print : Url → Bytes
print u = u.path

abbrev options : Request
options = new_request (codes "OPTIONS") (rtsp_url (codes "cam") (codes "/s")) []

abbrev link : Link
link = record {
  stream = camera;
  remote = record (new_remote (codes "cam") (codes "u") (codes "p")) {
    conn = true;
    objects = (7, options) ∷ [];
  };
}

abbrev talking : Wait
talking = record {
  net = net;
  meanwhile =
      camera_says md5 print parse (record { net = net; recv = print_response accepted } ∷ []);
  stream_done = false;
  server_done = false;
}

abbrev silent : Wait
silent = record {
  net = net;
  meanwhile = camera_says md5 print parse [];
  stream_done = false;
  server_done = false;
}

abbrev deaf_then_talking : ℕ → Wait
deaf_then_talking zero = silent
deaf_then_talking (suc n) = talking

link-Ready : Ready 7 options link
unfolding new_remote lookup new_request
link-Ready = record { connected = refl; alone = refl; known = refl; located = (_, refl) }

talking-Replies :
    (s : Stream) → Replies md5 print parse talking options s (handle_options s accepted)
unfolding handle_method bytes_eq new_request
talking-Replies s = record {
  writes = refl;
  goes_on = refl;
  server_runs = refl;
  heard = record { net = net; recv = print_response accepted };
  more = [];
  says = refl;
  response = accepted;
  reads = new_response_from_buffer-print accepted accepted-IsWritable;
  fine = ground arith;
  changes = λ headers channel attempts made. refl;
}

-- PLAY: its handler reads the session of the request, which sending leaves as it is.
abbrev play : Request
play = record (new_request (codes "PLAY") (rtsp_url (codes "cam") (codes "/s")) []) {
  headers = (codes "Session", codes "9") ∷ [];
}

Prepared-session :
    (base headers : Headers)
    → Prepared base headers
    → lookup (codes "Session") headers ≡ lookup (codes "Session") base
unfolding bytes_eq
Prepared-session base _ as_made = refl
Prepared-session base _ (once_more {headers} cseq none made) =
    lookup-insert (codes "CSeq") (codes "Session") cseq headers ∙ Prepared-session base headers made
Prepared-session base _ (once_more {headers} cseq (some v) made) =
    lookup-insert (codes "Authorization") (codes "Session") v (insert (codes "CSeq") cseq headers)
    ∙ lookup-insert (codes "CSeq") (codes "Session") cseq headers
    ∙ Prepared-session base headers made

play-session :
    (headers : Headers)
    → Prepared play.headers headers
    → header_get headers (codes "Session") ≡ codes "9"
unfolding header_get lookup bytes_eq new_request
play-session headers made = rw (Prepared-session play.headers headers made, header_get) refl

abbrev when_played : Stream
when_played = elim (handle_method parse camera play accepted) [ none ↦ camera | some s ↦ s ]

play-Replies : Replies md5 print parse talking play camera when_played
unfolding handle_method bytes_eq new_request lookup rtsp_proxy.Stream.lookup_session new_stream
    insert header_get rtsp_proxy.Session.start_upstream rtsp_proxy.Session.new_session
    rtsp_proxy.Session.interval
play-Replies = record {
  writes = refl;
  goes_on = refl;
  server_runs = refl;
  heard = record { net = net; recv = print_response accepted };
  more = [];
  says = refl;
  response = accepted;
  reads = new_response_from_buffer-print accepted accepted-IsWritable;
  fine = ground arith;
  changes = λ headers channel attempts made. rw (play-session headers made) refl;
}

abbrev play_link : Link
play_link = record link { remote = record link.remote { objects = (7, play) ∷ [] } }

play_link-Ready : Ready 7 play play_link
unfolding new_remote lookup new_request
play_link-Ready = record { connected = refl; alone = refl; known = refl; located = (_, refl) }

send_request_sync-answered_example :
    Succeeds print play play_link when_played
      (send_request_sync md5 print (λ _. talking) 7 play_link)
send_request_sync-answered_example =
    send_request_sync-answered md5 print parse (λ _. talking) 7 play play_link when_played
      play_link-Ready play-Replies

send_request_sync-second_chance_example :
    (r' : Remote) × ((send_request_sync md5 print deaf_then_talking 7 link
        ≡ got tt (record { stream = handle_options camera accepted; remote = r' }))
      × ((r'.requests ≡ [])
          × ((r'.digest.nonce ≡ []) × Twice print options link.remote.written r'.written)))
send_request_sync-second_chance_example =
    send_request_sync-second_chance md5 print parse deaf_then_talking 7 options link
      (handle_options camera accepted) link-Ready
      (record { writes = refl; goes_on = refl; server_runs = refl; says = refl })
      (talking-Replies camera)

-- A whole connect sequence.
abbrev says : Bytes → ℕ → Wait
says recv n = record {
  net = net;
  meanwhile = camera_says md5 print parse (record { net = net; recv = recv } ∷ []);
  stream_done = false;
  server_done = false;
}

abbrev script : Waits
script = record {
  options = says (codes "RTSP/1.0 200 OK\r\nPublic: PLAY\r\n\r\n");
  describe =
      says (codes "RTSP/1.0 200 OK\r\nContent-Length: 26\r\n\r\nm=video 0\r\na=control:trackA");
  setup = λ i. says (
      codes
        "RTSP/1.0 200 OK\r\nTransport: RTP/AVP/TCP;unicast;interleaved=0-1;ssrc=AB\r\nSession: 9;timeout=30\r\n\r\n");
  play = says (codes "RTSP/1.0 200 OK\r\nSession: 9\r\n\r\n");
}

-- What is left of a call: the number of requests written, the sessions, and whether they run.
abbrev sessions_of : Dict Bytes Session → List (Bytes × Bool)
sessions_of [] = []
sessions_of ((id, session) ∷ m) = (id, session.started) ∷ sessions_of m

abbrev summary : Got (Unit {0}) → Option (ℕ × Bytes × List (Bytes × Bool))
summary (got tt l) = some (length l.remote.written, l.stream.options, sessions_of l.stream.sessions)
summary (lost e l) = none
summary panicked = none

script_plays :
    summary (do_connect_sequence md5 print parse script link)
    ≡ some (4, codes "PLAY", (codes "9", true) ∷ [])
unfolding do_connect_sequence new_stream send_request_sync rtsp_proxy.Remote.send_request lookup
    rtsp_proxy.Prelude.Dict.insert rtsp_proxy.Request.print_request bytes_eq camera_says
    rtsp_proxy.Upstream.handle_upstream_response rtsp_proxy.Response.new_response_from_buffer
    rtsp_proxy.HeaderBlock.word rtsp_proxy.Message.line_split rtsp_proxy.Text.rune_string
    rtsp_proxy.Text.Number.atoi rtsp_proxy.HeaderBlock.header_loop rtsp_proxy.HeaderBlock.take_line
    rtsp_proxy.Message.parse_header rtsp_proxy.Text.index_byte new_remote
    rtsp_proxy.Tracks.parse_tracks rtsp_proxy.Text.split header_get
    rtsp_proxy.Message.canonical_header_key rtsp_proxy.Text.trim_space rtsp_proxy.Text.has_prefix
    rtsp_proxy.Text.trim_prefix rtsp_proxy.Sequence.in_sessions rtsp_proxy.Stream.lookup_session
    rtsp_proxy.Session.lookup_transport rtsp_proxy.Session.find_transport
    rtsp_proxy.Session.new_session rtsp_proxy.Sequence.is_track rtsp_proxy.Remote.parse_transport
    rtsp_proxy.Text.split_n rtsp_proxy.Transport.new_transport rtsp_proxy.Text.trim_right
    rtsp_proxy.Session.start_upstream rtsp_proxy.Session.interval
script_plays = refl

script-AllHarmless : (P : StreamState → Signals → Type 0) → AllHarmless P script
script-AllHarmless P = record {
  options = λ i. camera_says-Harmless P md5 print parse (script.options i) _ refl;
  describe = λ i. camera_says-Harmless P md5 print parse (script.describe i) _ refl;
  setup = λ i n. camera_says-Harmless P md5 print parse (script.setup i n) _ refl;
  play = λ i. camera_says-Harmless P md5 print parse (script.play i) _ refl;
}

link-Promises : Promises link.stream.state link.stream.signals
unfolding new_stream
link-Promises = new_stream-Keeps 5 (codes "cam") (codes "u") (codes "p") (codes "/a")

do_connect_sequence-Promises_example :
    Kept Promises (do_connect_sequence md5 print parse script link)
do_connect_sequence-Promises_example =
    do_connect_sequence-Promises md5 print parse script link (script-AllHarmless Promises)
      link-Promises

abbrev link_of : Got (Unit {0}) → Link
link_of (got a l) = l
link_of (lost e l) = l
link_of panicked = link

abbrev succeeded : Got (Unit {0}) → Bool
succeeded (got a l) = true
succeeded _ = false

succeeded-got : (g : Got (Unit {0})) → succeeded g ≡ true → g ≡ got tt (link_of g)
succeeded-got (got a l) e = refl
succeeded-got (lost x l) e = absurd (cc)
succeeded-got panicked e = absurd (cc)

script_succeeds : succeeded (do_connect_sequence md5 print parse script link) ≡ true
unfolding do_connect_sequence new_stream send_request_sync rtsp_proxy.Remote.send_request lookup
    rtsp_proxy.Prelude.Dict.insert rtsp_proxy.Request.print_request bytes_eq camera_says
    rtsp_proxy.Upstream.handle_upstream_response rtsp_proxy.Response.new_response_from_buffer
    rtsp_proxy.HeaderBlock.word rtsp_proxy.Message.line_split rtsp_proxy.Text.rune_string
    rtsp_proxy.Text.Number.atoi rtsp_proxy.HeaderBlock.header_loop rtsp_proxy.HeaderBlock.take_line
    rtsp_proxy.Message.parse_header rtsp_proxy.Text.index_byte new_remote
    rtsp_proxy.Tracks.parse_tracks rtsp_proxy.Text.split header_get
    rtsp_proxy.Message.canonical_header_key rtsp_proxy.Text.trim_space rtsp_proxy.Text.has_prefix
    rtsp_proxy.Text.trim_prefix rtsp_proxy.Sequence.in_sessions rtsp_proxy.Stream.lookup_session
    rtsp_proxy.Session.lookup_transport rtsp_proxy.Session.find_transport
    rtsp_proxy.Session.new_session rtsp_proxy.Sequence.is_track rtsp_proxy.Remote.parse_transport
    rtsp_proxy.Text.split_n rtsp_proxy.Transport.new_transport rtsp_proxy.Text.trim_right
    rtsp_proxy.Session.start_upstream rtsp_proxy.Session.interval
script_succeeds = refl

do_connect_sequence-SdpTold_example :
    SdpTold
      (link_of (do_connect_sequence md5 print parse script link)).stream.state
      (link_of (do_connect_sequence md5 print parse script link)).stream.signals
do_connect_sequence-SdpTold_example =
    do_connect_sequence-SdpTold md5 print parse script link
      (link_of (do_connect_sequence md5 print parse script link)) (script-AllHarmless SdpTold).setup
      (script-AllHarmless SdpTold).play
      (succeeded-got (do_connect_sequence md5 print parse script link) script_succeeds)

abbrev refuse : Bytes → Option Url
refuse text = none

set_up-interleaved_pair_example :
    ChannelAt 0
      (set_up
        (codes "t")
        (parse_transport (interleaved_pair 3)).2
        (new_transport (codes "t") (codes "RTP") (codes "unicast")))
      (pos 6)
    × ChannelAt 1
        (set_up
          (codes "t")
          (parse_transport (interleaved_pair 3)).2
          (new_transport (codes "t") (codes "RTP") (codes "unicast")))
        (pos 7)
set_up-interleaved_pair_example =
    set_up-interleaved_pair (codes "t") 3
      (new_transport (codes "t") (codes "RTP") (codes "unicast")) (omega arith)
