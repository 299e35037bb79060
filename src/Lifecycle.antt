-- ===== src/Lifecycle.antt =====
-- Stop, Destroy and the idle timer of rtspproxy/stream.go, each as one step. What they stop is no
-- longer in the stream, and is part of what they leave. MD5, URL.String and what the network does
-- with each TEARDOWN are arguments.
pub mod Released
use rtsp_proxy.ClientSession.{ClientSession}
use rtsp_proxy.ClientSession
use rtsp_proxy.Prelude.Dict.{Dict}
use rtsp_proxy.Prelude.{
  ℕ, Bool, true, false, not, ◌&&◌, List, [], ◌∷◌, Option, none, some, Bytes, if◌then◌else◌,
}
use rtsp_proxy.Remote.{Remote, Net, send_teardown, disconnect}
use rtsp_proxy.Session.{Session}
use rtsp_proxy.Session
use rtsp_proxy.Stream.{
  Stream, is_state, stopping, disconnected, destroyed, transition, stop_idle_timer, is_nil,
}
use rtsp_proxy.Url.{Url}

-- What is left: the stream, and the objects that it has let go.
pub record Left : Type 0 where
  pub stream : Stream
  pub remote : Option Remote
  pub sessions : List Session
  pub clients : List ClientSession

abbrev pub stop_sessions : Dict Bytes Session → List Session
stop_sessions [] = []
stop_sessions ((id, s) ∷ m) = Session.stop s ∷ stop_sessions m

abbrev pub stop_clients : Dict ℕ ClientSession → List ClientSession
stop_clients [] = []
stop_clients ((client, cs) ∷ m) = (ClientSession.stop cs).0 ∷ stop_clients m

module _ (md5_hex : Bytes → Bytes) (url_print : Url → Bytes) (nets : Bytes → Net) where
  -- The loop over the sessions, which sends a TEARDOWN for each one.
  unfoldable pub teardown_all : Bytes → Dict Bytes Session → Remote → Remote
  teardown_all path [] r = r
  teardown_all path ((id, s) ∷ m) r =
      teardown_all path m (send_teardown md5_hex url_print (nets id) r path id)

  -- The block for a remote that is not nil.
  unfoldable pub leave : Bytes → Dict Bytes Session → Option Remote → Option Remote
  leave path sessions none = none
  leave path sessions (some r) = some (disconnect (teardown_all path sessions r))

  unfoldable pub stop : ℕ → Stream → Left
  unfolding leave
  stop now s =
      let (s', fine) = transition now s stopping in
      if not fine
      then record { stream = s'; remote = s'.remote; sessions = []; clients = [] }
      else (let remote = leave s'.path s'.sessions s'.remote in
          record {
            stream = (transition now (record s' { sessions = []; remote = remote }) disconnected).0;
            remote = remote;
            sessions = stop_sessions s'.sessions;
            clients = [];
          })

  unfoldable pub destroy : ℕ → Stream → Left
  unfolding leave
  destroy now s =
      let s' = (transition now s destroyed).0 in
      record {
        stream =
            stop_idle_timer
              (record s' { cancelled = true; remote = none; clients = []; sessions = [] });
        remote = leave s'.path s'.sessions s'.remote;
        sessions = stop_sessions s'.sessions;
        clients = stop_clients s'.clients;
      }

  -- The function of the idle timer, once it expires.
  unfoldable pub idle_expired : ℕ → Stream → Left
  unfolding stop
  idle_expired now s =
      if is_nil s.clients && not (is_state s.state destroyed)
      then stop now s
      else record { stream = s; remote = s.remote; sessions = []; clients = [] }
