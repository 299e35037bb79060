-- ===== src/Server.antt =====
-- rtspproxy/server.go: the listener, the loop that accepts clients, and Shutdown. The network and the
-- other goroutines are arguments.
pub mod Ending
use rtsp_proxy.Manager
use rtsp_proxy.Manager.{StreamManager, new_stream_manager}
use rtsp_proxy.Prelude.Int.{ℤ, pos}
use rtsp_proxy.Prelude.{
  ℕ, ◌+◌, ◌-◌, Bool, true, false, not, ◌||◌, List, [], ◌∷◌, map, Bytes, if◌then◌else◌,
}
use rtsp_proxy.Remote.{Net}
use rtsp_proxy.Stream.{Stream}
use rtsp_proxy.Url.{Url}

-- The listener: nil, open, or closed.
pub data Listener : Type 0 where
  absent open_listener closed_listener : Listener

-- `cancelled` says whether the context is done; `clients` is the count of the WaitGroup.
pub record Server : Type 0 where
  pub cancelled : Bool
  pub rtsp_port : ℤ
  pub rtsp_listener : Listener
  pub stream_manager : StreamManager
  pub clients : ℕ

unfoldable pub new_server : Server
new_server = record {
  cancelled = false;
  rtsp_port = pos 0;
  rtsp_listener = absent;
  stream_manager = new_stream_manager;
  clients = 0;
}

-- Listen, with the outcomes of ResolveTCPAddr and ListenTCP; the flag says whether the error is nil.
unfoldable pub listen : ℤ → Bool → Bool → Server → Server × Bool
listen port resolves listens s =
    if not resolves
    then (record s { rtsp_port = port; rtsp_listener = absent }, false)
    else if not listens
    then (record s { rtsp_port = port; rtsp_listener = absent }, false)
    else (record s { rtsp_port = port; rtsp_listener = open_listener }, true)

-- What AcceptTCP returns: a connection, a timeout, or another error, whose text says that the
-- listener is closed or does not.
pub data Accepted : Type 0 where
  connected : ℕ → Accepted
  timed_out : Accepted
  failed : Bool → Accepted

-- A round of the loop: whether the context is done before it, and when it returns.
pub record Round : Type 0 where
  pub done_before : Bool
  pub accepted : Accepted
  pub done_after : Bool

abbrev pub cancel_if : Bool → Server → Server
cancel_if done s = record s { cancelled = s.cancelled || done }

-- newClientConnection, as far as the server sees it; the client is Client and ClientLoop.
unfoldable pub new_client_connection : Server → Server
new_client_connection s = record s { clients = s.clients + 1 }

-- The deferred Done of a client.
unfoldable pub client_done : Server → Server
client_done s = record s { clients = s.clients - 1 }

-- What a round comes to: the handler returns, or goes on, with a new client or without.
pub data Next : Type 0 where
  returned : Server → Next
  continued : Server → Next
  served : ℕ → Server → Next

abbrev pub after_accept : Accepted → Server → Next
after_accept (connected client) s = served client (new_client_connection s)
after_accept timed_out s = if s.cancelled then returned s else continued s
after_accept (failed closed) s = if s.cancelled || closed then returned s else continued s

unfoldable pub accept_round : Round → Server → Next
unfolding new_client_connection
accept_round r s =
    let s' = cancel_if r.done_before s in
    if s'.cancelled then returned s' else after_accept r.accepted (cancel_if r.done_after s')

-- incomingConnectionHandler, over the rounds that there are: the server after it, and the clients
-- that it has served.
unfoldable pub accept_loop : List Round → Server → Server × List ℕ
unfolding accept_round
accept_loop [] s = (s, [])
accept_loop (r ∷ rs) s = elim (accept_round r s) [
  | returned s' ↦ (s', [])
  | continued s' ↦ accept_loop rs s'
  | served client s' ↦ let (s'', more) = accept_loop rs s' in (s'', client ∷ more)
]

abbrev pub close_listener : Listener → Listener
close_listener absent = absent
close_listener _ = closed_listener

-- The context of a stream is made from that of the server, and is done with it.
abbrev pub cancel_streams : StreamManager → StreamManager
cancel_streams m = record m {
  objects = map (λ (x : Stream). record x { cancelled = true }) m.objects;
}

-- The first two steps of Shutdown.
unfoldable pub stop_accepting : Server → Server
stop_accepting s = record s {
  cancelled = true;
  rtsp_listener = close_listener s.rtsp_listener;
  stream_manager = cancel_streams s.stream_manager;
}

-- Shutdown. While it waits, clients leave and change the streams; `finished` says whether all of them
-- are gone before the caller's context is done, and the result whether the error is nil.
unfoldable pub shutdown :
    (Bytes → Bytes)
    → (Url → Bytes)
    → (Bytes → Bytes → Net)
    → ℕ
    → (StreamManager × ℕ → StreamManager × ℕ)
    → Bool
    → Server
    → Server × Bool
unfolding stop_accepting
shutdown md5_hex url_print nets now waits finished s =
    let s1 = stop_accepting s in
    let (manager, clients) = waits (s1.stream_manager, s1.clients) in
    let s2 = record s1 { stream_manager = manager; clients = clients } in
    if finished
    then (
      record s2 { stream_manager = Manager.shutdown md5_hex url_print nets now s2.stream_manager },
      true,
    )
    else (s2, false)
