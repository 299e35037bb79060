-- ===== src/Tests/Streams.antt =====
-- The state machine, the connect loop, the fan-out and the end of a stream, on concrete states.
use rtsp_proxy.Remote.{Net, new_remote}
use rtsp_proxy.ClientSession.{ClientSession, new_client_session}
use rtsp_proxy.ConnectLoop.Backoff.{IsFair, connect_loop-Keeps}
use rtsp_proxy.ConnectLoop.Stuck.{after_dial-stuck}
use rtsp_proxy.ConnectLoop.{Env, returned, after_dial, connect_loop}
use rtsp_proxy.Fanout.Isolation.{packet_for, receives, all_misses, map_session, dispatch-isolated}
use rtsp_proxy.Fanout.{add64, dispatch}
use rtsp_proxy.Prelude.Dict.{bytes_eq_inst, nat_eq, lookup}
use rtsp_proxy.Prelude.Int.{pos, int_eq}
use rtsp_proxy.Prelude.{◌≡◌, ◌⊎◌, refl, arith, true, false, [], ◌∷◌, none, some, Bytes, codes}
use rtsp_proxy.Session.{new_session}
use rtsp_proxy.Stream.Invariant.{Keeps, new_stream-Keeps}
use rtsp_proxy.Stream.Transitions.{Allowed, transition-Allowed}
use rtsp_proxy.Stream.{connecting, playing, destroyed, Stream, new_stream, transition, start}

abbrev camera : Stream
camera = new_stream 5 (codes "cam") (codes "u") (codes "p") (codes "/a")

camera-Keeps : Keeps camera
camera-Keeps = new_stream-Keeps 5 (codes "cam") (codes "u") (codes "p") (codes "/a")

transition-Allowed_example :
    (Allowed camera.state connecting
      × ((transition 6 camera connecting).1 ≡ true)
      × ((transition 6 camera connecting).0.state ≡ connecting))
    ⊎ ((¬ Allowed camera.state connecting) × (transition 6 camera connecting ≡ (camera, false)))
transition-Allowed_example = transition-Allowed 6 camera connecting

abbrev dead : Stream
dead = record camera { state = destroyed }

-- A camera that answers, but whose stream breaks off.
abbrev flaky : Env
flaky = record {
  now = 9;
  resolves = true;
  dialled = λ s. s;
  dials = true;
  sequence = λ s. s;
  sequence_fine = true;
  plays = λ s. s;
  read_fails = true;
  waits = λ s. s;
}

flaky-IsFair : IsFair flaky
flaky-IsFair = record {
  dialled = λ s v. v;
  sequence = λ s v. v;
  plays = λ s v. v;
  waits = λ s v. v;
}

connect_loop-Keeps_example : Keeps (connect_loop 5 (flaky ∷ flaky ∷ []) 0 camera)
connect_loop-Keeps_example =
    connect_loop-Keeps 5 (flaky ∷ flaky ∷ []) 0 camera (omega arith)
      (flaky-IsFair, (flaky-IsFair, tt)) camera-Keeps

abbrev gone : Env
gone = record flaky { dials = false }

abbrev attempted : Stream
attempted = record camera { state = connecting; clients = [] }

after_dial-stuck_example :
    (after_dial 5 gone 0 attempted ≡ returned attempted) × (start 20 attempted ≡ (attempted, false))
after_dial-stuck_example = after_dial-stuck 5 gone 0 attempted 20 refl refl refl

abbrev served : ClientSession
served = record (new_client_session 2 (codes "s")) { channels = (pos 0, pos 2) ∷ [] }

abbrev shown : Stream
shown = record camera { state = playing; clients = (1, served) ∷ [] }

abbrev a_packet : Bytes
a_packet = b'$' ∷ 0 ∷ 0 ∷ 1 ∷ 9 ∷ []

dispatch-isolated_example :
    (lookup 1 (dispatch 7 shown (pos 0) a_packet).clients
      ≡ map_session (λ cs. receives cs (packet_for (pos 0) a_packet cs)) (lookup 1 shown.clients))
    × ((dispatch 7 shown (pos 0) a_packet).packets_dropped
        ≡ add64 shown.packets_dropped (all_misses (pos 0) a_packet shown.clients))
dispatch-isolated_example = dispatch-isolated 7 shown (pos 0) a_packet 1 (ground arith)

-- A camera whose writes all succeed.
abbrev good_net : Net
good_net = record {
  server_done = false;
  dials = none;
  writes = true;
  writes_data = true;
  cnonce = [];
}

abbrev online : Stream
online = record camera {
  remote = some (record (new_remote (codes "cam") [] []) { conn = true });
  sessions = (codes "12", record (new_session (codes "12") (pos 60)) { started = true }) ∷ [];
}

-- The same stream when it has been connected.
abbrev on_air : Stream
on_air = (transition 6 (transition 5 online connecting).0 playing).0

-- It plays, so Stop is allowed.
on_air_plays : on_air.state ≡ playing
unfolding transition new_stream
on_air_plays = refl
