-- ===== src/Tests/Clients.antt =====
-- Client sessions, sessions, the manager, the configuration, digests and clients, on concrete states.
use rtsp_proxy.Client.Proxied.{behind_proxy, first_request, parse_command-targeted}
use rtsp_proxy.Client.Target.{targeted}
use rtsp_proxy.Request.ProxyUrl.{at_port}
use rtsp_proxy.Request.RoundTrip.{command_line}
use rtsp_proxy.Client.{Client, resolved, resolve}
use rtsp_proxy.ClientSession.Queue.{Event, pushes, runs, starts, run, accepted, sent, Sub, sent-Sub}
use rtsp_proxy.ClientSession.{ClientSession, new_client_session, forward}
use rtsp_proxy.Config.{Config, default_config}
use rtsp_proxy.Digest.Nonce.{count_after, count_after-distinct}
use rtsp_proxy.Digest.{Digest, new_digest}
use rtsp_proxy.Manager.Ended.{IsAlive, IsEnded, shutdown-IsEnded}
use rtsp_proxy.Remote.{Net}
use rtsp_proxy.Manager.Key.{IsTarget}
use rtsp_proxy.Manager.Directory
use rtsp_proxy.Manager.Directory.{
  Target, gets, removes, promised, returned, empty_directory, returned-promised,
}
use rtsp_proxy.Server
use rtsp_proxy.Server.Ending.{AllCancelled, waited, Leaves, shutdown-Leaves}
use rtsp_proxy.Server.{Server, stop_accepting, new_server, accept_loop, connected}
use rtsp_proxy.Manager.Isolation.{IsManaged}
use rtsp_proxy.Manager.{StreamManager, new_stream_manager, shutdown}
use rtsp_proxy.Message.{ok, header_get, canonical_header_key}
use rtsp_proxy.Prelude.Dict.{bytes_eq_inst, nat_eq, lookup}
use rtsp_proxy.Prelude.Int.{pos, int_eq}
use rtsp_proxy.Prelude.{
  ℕ, ◌-◌, ◌^◌, ◌≡◌, ◌≢◌, ◌⊎◌, refl, arith, true, false, List, [], ◌∷◌, ◌++◌, Option, none, some,
  Bytes, bytes_eq, codes, if◌then◌else◌,
}
use rtsp_proxy.Request.{Request, blank_request, parse_command}
use rtsp_proxy.Session.KeepAlive.{ticks, start_upstream_outcome}
use rtsp_proxy.Session.{Session, new_session, ticking, panics, start_upstream}
use rtsp_proxy.Text.{has_prefix, equal_fold, trim_space}
use rtsp_proxy.Stream.{new_stream}
use rtsp_proxy.Url.{Url, rtsp_url}

abbrev served : ClientSession
served = record (new_client_session 2 (codes "s")) { channels = (pos 0, pos 2) ∷ [] }

abbrev a_packet : Bytes
a_packet = b'$' ∷ 0 ∷ 0 ∷ 1 ∷ 9 ∷ []

abbrev events : List Event
events = starts ∷ pushes a_packet ∷ pushes (1 ∷ []) ∷ pushes (2 ∷ []) ∷ runs (forward true) ∷ []

sent-Sub_example :
    Sub (sent served events ++ (run served events).queue) (served.queue ++ accepted served events)
sent-Sub_example = sent-Sub served events

camera-IsTarget : IsTarget (codes "cam") (codes "u") (codes "p") (codes "/a")
camera-IsTarget = record {
  user_plain = (refl, tt);
  password_plain = (refl, tt);
  host_plain = (refl, (refl, (refl, tt)));
  below = codes "a";
  rooted = refl;
}

empty-IsManaged : IsManaged new_stream_manager
unfolding lookup
empty-IsManaged = λ key n e. absurd (cc)

abbrev one_stream : StreamManager
one_stream = record {
  streams = (codes "k", 0) ∷ [];
  objects = new_stream 5 (codes "cam") (codes "u") (codes "p") (codes "/a") ∷ [];
  active = pos 1;
}

known : lookup (codes "k") one_stream.streams ≡ some 0
unfolding lookup bytes_eq
known = refl

alive : IsAlive 0 one_stream.objects
unfolding new_stream
alive = (new_stream 5 (codes "cam") (codes "u") (codes "p") (codes "/a"), (refl, (λ e. cc)))

abbrev good_net : Net
good_net = record {
  server_done = false;
  dials = none;
  writes = true;
  writes_data = true;
  cnonce = [];
}

shutdown-IsEnded_example :
    IsEnded 0 (shutdown (λ t. t) (λ u. u.path) (λ k id. good_net) 9 one_stream).objects
    × (lookup (codes "k") (shutdown (λ t. t) (λ u. u.path) (λ k id. good_net) 9 one_stream).streams
        ≡ none)
shutdown-IsEnded_example =
    shutdown-IsEnded (λ t. t) (λ u. u.path) (λ k id. good_net) 9 one_stream (codes "k") 0 known
      alive

abbrev a_session : Session
a_session = new_session (codes "12") (pos 60)

abbrev short_timeout : ℕ
short_timeout = 5

abbrev five : Session
five = record {
  session = codes "12";
  timeout = pos short_timeout;
  transports = [];
  started = false;
  quit = false;
}

start_upstream_outcome_example :
    ((short_timeout ≡ 5) × ((start_upstream five).1 ≡ panics))
    ⊎ ((short_timeout ≢ 5) × ((start_upstream five).1 ≡ ticking (pos (ticks short_timeout))))
start_upstream_outcome_example = start_upstream_outcome five short_timeout refl refl (omega arith)

abbrev tiny : Config
tiny = record default_config { buffer_size = pos 100; packet_queue_size = pos 0 }

abbrev challenged : Digest
challenged = record new_digest { qop = codes "auth"; nonce = codes "n"; nc = 2 ^ 32 - 1 }

auth_there : equal_fold challenged.qop (codes "auth") ≡ true
unfolding bytes_eq
auth_there = refl

count_after-distinct_example :
    count_after (λ t. t) (codes "c") challenged (codes "PLAY") (codes "/") 0
    ≢ count_after (λ t. t) (codes "c") challenged (codes "PLAY") (codes "/") 3
count_after-distinct_example =
    count_after-distinct (λ t. t) (codes "c") challenged (codes "PLAY") (codes "/") 0 3 auth_there
      (omega arith) (omega arith) (omega arith)

abbrev newcomer : Client
newcomer = record {
  id = 1;
  local_addr = codes "10.0.0.1";
  remote_addr = codes "10.0.0.2";
  host = [];
  base_path = [];
  username = [];
  password = [];
}

-- url.Parse on the URL of one camera.
abbrev one_camera : Url
one_camera = record (rtsp_url (codes "cam") (codes "/a")) {
  user = some (codes "u", some (codes "p"));
}

abbrev parse_one : Bytes → Option Url
parse_one t = if bytes_eq t (codes "rtsp://u:p@cam/a") then some one_camera else none

parsed_one : parse_one (codes "rtsp://" ++ codes "u:p@cam/a") ≡ some one_camera
unfolding bytes_eq
parsed_one = refl

plain_path : has_prefix (codes "a") (codes "rtsp/") ≡ false
unfolding has_prefix
plain_path = refl

parse_command-targeted_example :
    (parse_command parse_one blank_request (
        command_line
          (codes "OPTIONS")
          (behind_proxy b'p' (codes "roxy") (codes ":554") (codes "u:p@cam/a"))
          (codes "RTSP/1.0"))
      ≡ ok (
          first_request
            (codes "OPTIONS")
            (behind_proxy b'p' (codes "roxy") (codes ":554") (codes "u:p@cam/a"))
            (codes "RTSP/1.0")
            one_camera))
    × (resolve newcomer
          (first_request
            (codes "OPTIONS")
            (behind_proxy b'p' (codes "roxy") (codes ":554") (codes "u:p@cam/a"))
            (codes "RTSP/1.0")
            one_camera)
          one_camera
        ≡ resolved (targeted newcomer one_camera) one_camera)
parse_command-targeted_example =
    parse_command-targeted parse_one newcomer (codes "OPTIONS") (codes "RTSP/1.0") b'p'
      (codes "roxy") (codes ":554") (codes "u:p@cam/a") one_camera b'a' [] refl (ground arith)
      (λ e. cc) (ground arith) (ground arith) (λ e. cc) (ground arith)
      (at_port b'5' (codes "54") (ground arith)) parsed_one refl plain_path
      (refl, (refl, (refl, tt)))

abbrev numbered : Request
numbered = record blank_request { headers = (codes "Cseq", codes "3") ∷ [] }

cseq_there : header_get numbered.headers (codes "CSeq") ≡ b'3' ∷ []
unfolding header_get lookup bytes_eq canonical_header_key trim_space
cseq_there = refl

abbrev cam_a : Target
cam_a = record { host = codes "cam"; username = codes "u"; password = codes "p"; path = codes "/a" }

returned-promised_example :
    returned (gets 5 cam_a ∷ gets 6 cam_a ∷ removes cam_a ∷ gets 7 cam_a ∷ []) new_stream_manager
    ≡ promised (gets 5 cam_a ∷ gets 6 cam_a ∷ removes cam_a ∷ gets 7 cam_a ∷ []) empty_directory
returned-promised_example =
    returned-promised (gets 5 cam_a ∷ gets 6 cam_a ∷ removes cam_a ∷ gets 7 cam_a ∷ [])
      (camera-IsTarget, (camera-IsTarget, (camera-IsTarget, (camera-IsTarget, tt))))

-- The stream is made again after it is removed.
made_again :
    promised (gets 5 cam_a ∷ gets 6 cam_a ∷ removes cam_a ∷ gets 7 cam_a ∷ []) empty_directory
    ≡ 0 ∷ 0 ∷ 1 ∷ []
unfolding promised Directory.get bytes_eq
made_again = refl

abbrev one_stream_server : Server
one_stream_server = record new_server { stream_manager = one_stream; clients = 2 }

abbrev they_leave : StreamManager × ℕ → StreamManager × ℕ
they_leave (manager, clients) = (manager, 0)

known_cancelled : lookup (codes "k") (waited they_leave one_stream_server).streams ≡ some 0
unfolding lookup bytes_eq new_server
known_cancelled = refl

IsAlive-cancelled : IsAlive 0 (waited they_leave one_stream_server).objects
unfolding new_stream new_server
IsAlive-cancelled = (_, (refl, (λ e. cc)))

shutdown-Leaves_example :
    ((accept_loop
        (record { done_before = false; accepted = connected 4; done_after = false } ∷ [])
        (Server.shutdown
          (λ t. t)
          (λ u. u.path)
          (λ k id. good_net)
          9
          they_leave
          true
          one_stream_server).0).1
      ≡ [])
    × (AllCancelled (stop_accepting one_stream_server).stream_manager
        × Leaves true (codes "k") 0 (waited they_leave one_stream_server) (
            Server.shutdown
              (λ t. t)
              (λ u. u.path)
              (λ k id. good_net)
              9
              they_leave
              true
              one_stream_server))
shutdown-Leaves_example =
    shutdown-Leaves (λ t. t) (λ u. u.path) (λ k id. good_net) 9 they_leave true one_stream_server
      (record { done_before = false; accepted = connected 4; done_after = false } ∷ []) (codes "k")
      0 known_cancelled IsAlive-cancelled
