-- ===== src/Stream.antt =====
-- rtspproxy/stream.go: the state of a stream, its transitions and the signals for waiting clients,
-- and the operations on its clients and sessions. Time is an argument, in nanoseconds; 0 is Go's
-- zero time. A client is a number, and the parts of Client that a stream looks at are arguments.
pub mod Waiting
pub mod Transitions
pub mod Invariant
use rtsp_proxy.ClientSession.{ClientSession, new_client_session}
use rtsp_proxy.ClientSession
use rtsp_proxy.Prelude.Dict.{Dict, Eq, bytes_eq_inst, nat_eq, lookup, insert, delete}
use rtsp_proxy.Prelude.Int.{ℤ, pos, int_eq}
use rtsp_proxy.Prelude.{
  ℕ, suc, Bool, true, false, not, ◌&&◌, ◌||◌, List, [], ◌∷◌, ◌++◌, Option, none, some, Bytes, codes,
  ◌==◌, if◌then◌else◌, length, ◌+◌, ◌%◌, ◌^◌,
}
use rtsp_proxy.Remote.{Remote}
use rtsp_proxy.Session.{Session, new_session}
use Waiting.{Signals, new_signals, close_ready, close_sdp, renew}

pub data StreamState : Type 0 where
  disconnected connecting ready playing reconnecting stopping destroyed : StreamState

unfoldable pub state_number : StreamState → ℕ
state_number disconnected = 0
state_number connecting = 1
state_number ready = 2
state_number playing = 3
state_number reconnecting = 4
state_number stopping = 5
state_number destroyed = 6

-- s == t on states
abbrev pub is_state : StreamState → StreamState → Bool
is_state disconnected disconnected = true
is_state connecting connecting = true
is_state ready ready = true
is_state playing playing = true
is_state reconnecting reconnecting = true
is_state stopping stopping = true
is_state destroyed destroyed = true
is_state _ _ = false

unfoldable pub state_name : StreamState → Bytes
state_name disconnected = codes "Disconnected"
state_name connecting = codes "Connecting"
state_name ready = codes "Ready"
state_name playing = codes "Playing"
state_name reconnecting = codes "Reconnecting"
state_name stopping = codes "Stopping"
state_name destroyed = codes "Destroyed"

-- The timer made by time.AfterFunc: not made yet, running, or stopped (or expired).
pub data Timer : Type 0 where
  absent armed halted : Timer

pub record Stream : Type 0 where
  pub host : Bytes
  pub username : Bytes
  pub password : Bytes
  pub path : Bytes
  pub sdp : Bytes
  pub options : Bytes
  pub server_name : Bytes
  pub state : StreamState
  pub remote : Option Remote
  pub clients : Dict ℕ ClientSession
  pub sessions : Dict Bytes Session
  pub last_client : ℕ
  pub idle_timer : Timer
  pub loop_started : Bool
  pub packets_forwarded : ℕ
  pub packets_dropped : ℕ
  pub bytes_forwarded : ℕ
  pub session_bytes_forwarded : ℕ
  pub reconnect_count : ℕ
  pub last_reconnect : ℕ
  pub reconnect_total : ℕ
  pub start_time : ℕ
  pub session_start_time : ℕ
  pub last_pkt_time : ℕ
  pub cancelled : Bool
  pub signals : Signals

unfoldable pub new_stream : ℕ → Bytes → Bytes → Bytes → Bytes → Stream
unfolding new_signals
new_stream now host username password path = record {
  host = host;
  username = username;
  password = password;
  path = path;
  sdp = [];
  options = [];
  server_name = [];
  state = disconnected;
  remote = none;
  clients = [];
  sessions = [];
  last_client = 0;
  idle_timer = absent;
  loop_started = false;
  packets_forwarded = 0;
  packets_dropped = 0;
  bytes_forwarded = 0;
  session_bytes_forwarded = 0;
  reconnect_count = 0;
  last_reconnect = 0;
  reconnect_total = 0;
  start_time = now;
  session_start_time = 0;
  last_pkt_time = 0;
  cancelled = false;
  signals = new_signals;
}

-- The first block of unsafeSetState: a new attempt releases the old waiters and makes new channels.
abbrev pub renew_signals : StreamState → StreamState → Signals → Signals
renew_signals disconnected connecting g = renew (close_sdp (close_ready g))
renew_signals reconnecting connecting g = renew (close_sdp (close_ready g))
renew_signals _ _ g = g

-- The blocks for StatePlaying and StateDestroyed.
unfoldable pub enter : ℕ → StreamState → Stream → Stream
enter now playing s = record s {
  session_start_time = now;
  session_bytes_forwarded = 0;
  signals = close_ready s.signals;
  state = playing;
}
enter now destroyed s = record s { state = destroyed; signals = close_sdp (close_ready s.signals) }
enter now to s = record s { state = to }

unfoldable pub unsafe_set_state : ℕ → Stream → StreamState → Stream
unfolding enter
unsafe_set_state now s to =
    if is_state s.state destroyed
    then s
    else if is_state s.state to
    then s
    else enter now to (record s { signals = renew_signals s.state to s.signals })

-- The switch of transition.
abbrev pub valid : StreamState → StreamState → Bool
valid disconnected to = is_state to connecting || is_state to destroyed
valid connecting to =
    is_state to playing
    || is_state to reconnecting
    || is_state to stopping
    || is_state to destroyed
    || is_state to connecting
valid playing to =
    is_state to reconnecting || is_state to stopping || is_state to destroyed || is_state to playing
valid reconnecting to =
    is_state to playing
    || is_state to disconnected
    || is_state to stopping
    || is_state to destroyed
    || is_state to connecting
    || is_state to reconnecting
valid stopping to = is_state to disconnected || is_state to destroyed || is_state to stopping
valid _ to = false

-- transition returns the stream, and whether the error is nil.
unfoldable pub transition : ℕ → Stream → StreamState → Stream × Bool
unfolding unsafe_set_state
transition now s to =
    if is_state s.state destroyed
    then (s, false)
    else if not (valid s.state to)
    then (s, false)
    else (unsafe_set_state now s to, true)

unfoldable pub set_state : ℕ → Stream → StreamState → Stream
unfolding unsafe_set_state
set_state now s to = unsafe_set_state now s to

-- startConnectLoop; the flag says whether a goroutine is started.
unfoldable pub start_connect_loop : Stream → Stream × Bool
start_connect_loop s =
    if s.loop_started then (s, false) else (record s { loop_started = true }, true)

abbrev pub reset_idle_timer : Stream → Stream
reset_idle_timer s = record s { idle_timer = armed }

abbrev pub halt : Timer → Timer
halt absent = absent
halt _ = halted

abbrev pub stop_idle_timer : Stream → Stream
stop_idle_timer s = record s { idle_timer = halt s.idle_timer }

-- AddClient for a client that is not there yet: it gets a running session, and a disconnected
-- stream starts its connect loop.
unfoldable pub add_new_client : ℕ → Stream → ℕ → Bytes → Stream
unfolding start_connect_loop
add_new_client queue_size s client id =
    let cs = (ClientSession.start (new_client_session queue_size id)).0 in
    let s' = record s { clients = insert client cs s.clients } in
    if is_state s'.state disconnected then (start_connect_loop s').0 else s'

unfoldable pub add_client : ℕ → Stream → ℕ → Bytes → Stream
unfolding add_new_client
add_client queue_size s client id = elim (lookup client s.clients) [
  | some cs ↦ stop_idle_timer s
  | none ↦ add_new_client queue_size (stop_idle_timer s) client id
]

abbrev pub is_nil {ℓ} : {A : Type ℓ} → List A → Bool
is_nil [] = true
is_nil (x ∷ xs) = false

-- RemoveClient; the client's session is stopped as it leaves the stream.
unfoldable pub remove_client : ℕ → Stream → ℕ → Stream
remove_client now s client =
    let s' = record s { clients = delete client s.clients } in
    if is_nil s'.clients && not (is_state s'.state destroyed)
    then reset_idle_timer (record s' { last_client = now })
    else s'

unfoldable pub start : ℕ → Stream → Stream × Bool
unfolding start_connect_loop unsafe_set_state
start now s =
    if not (is_state s.state disconnected)
    then (s, false)
    else start_connect_loop
        (unsafe_set_state now (if is_nil s.clients then reset_idle_timer s else s) connecting)

-- MapChannel
unfoldable pub map_channel : Stream → ℕ → ℤ → ℤ → Stream
map_channel s client upstream_chan client_chan = elim (lookup client s.clients) [
  | none ↦ s
  | some cs ↦ record s {
    clients =
        insert client (record cs { channels = insert upstream_chan client_chan cs.channels })
          s.clients;
  }
]

-- LookupSession, by the identifier of the session; the session is the one found there afterwards.
unfoldable pub lookup_session : Stream → Bytes → List ℤ → Stream
lookup_session s id args = elim (lookup id s.sessions) [
  | some _ ↦ s
  | none ↦ record s {
    sessions = insert id (new_session id (elim args [ [] ↦ pos 60 | t ∷ ts ↦ t ])) s.sessions;
  }
]
