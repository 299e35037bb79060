-- ===== src/ConnectLoop.antt =====
-- connectLoop of rtspproxy/stream.go. What other goroutines and the camera do while the loop waits
-- is a record of functions on the stream, one for each wait.
pub mod Backoff
pub mod Stuck
use rtsp_proxy.Prelude.{
  ℕ, zero, suc, ◌+◌, ◌-◌, ◌%◌, ◌^◌, Bool, true, false, not, ◌&&◌, ◌||◌, List, [], ◌∷◌, Option, none,
  some, ◌==◌, leb, if◌then◌else◌, length,
}
use rtsp_proxy.Remote.{Remote, new_remote}
use rtsp_proxy.Stream.{
  StreamState, disconnected, connecting, playing, reconnecting, stopping, destroyed, Stream,
  is_state, is_nil, transition,
}

-- One round as the environment has it: the time; whether the host resolves and the dial succeeds,
-- and the connection that it leaves; the connect sequence with all that happens meanwhile, and
-- whether it succeeds; what happens while the stream plays, and whether readLoop returns an error;
-- and what happens during the back-off.
pub record Env : Type 0 where
  pub now : ℕ
  pub resolves : Bool
  pub dialled : Stream → Stream
  pub dials : Bool
  pub sequence : Stream → Stream
  pub sequence_fine : Bool
  pub plays : Stream → Stream
  pub read_fails : Bool
  pub waits : Stream → Stream

-- The loop ends, or goes on with this index into the back-off times.
pub data Next : Type 0 where
  returned : Stream → Next
  again : ℕ → Stream → Next

-- transition, with its error ignored.
abbrev pub move : ℕ → Stream → StreamState → Stream
move now s to = (transition now s to).0

-- The select at the end of a round: `i` is the index into `count` back-off times.
unfoldable pub back_off : ℕ → Env → ℕ → Stream → Next
back_off count env i s =
    let s' = env.waits s in
    if s'.cancelled then returned s' else again (if leb count (i + 1) then count - 1 else i + 1) s'

-- A failed dial or connect sequence: no clients, no retries.
unfoldable pub retry : ℕ → Env → ℕ → Stream → Next
unfolding back_off
retry count env i s =
    if is_nil s.clients
    then returned (move env.now s disconnected)
    else back_off count env i (move env.now s reconnecting)

-- After readLoop has returned.
unfoldable pub after_read : ℕ → Env → Stream → Next
unfolding back_off
after_read count env s =
    if is_state s.state stopping || is_state s.state destroyed
    then returned (move env.now s disconnected)
    else if env.read_fails
    then back_off count env 0 (move env.now s reconnecting)
    else returned (move env.now s disconnected)

-- The end of a downtime.
abbrev pub reconnected : ℕ → Stream → Stream
reconnected now s = if s.last_reconnect == 0 then s else record s {
  reconnect_total = s.reconnect_total + (now - s.last_reconnect);
  last_reconnect = 0;
}

-- After a connect sequence that succeeded.
unfoldable pub after_sequence : ℕ → Env → Stream → Next
unfolding after_read
after_sequence count env s =
    let (s', fine) = transition env.now (reconnected env.now s) playing in
    if fine then after_read count env (env.plays s') else returned s'

-- A round from the dial on.
unfoldable pub after_dial : ℕ → Env → ℕ → Stream → Next
unfolding retry after_sequence
after_dial count env i s =
    if env.dials
    then (if env.sequence_fine
        then after_sequence count env (env.sequence s)
        else retry count env i (env.sequence s))
    else retry count env i s

abbrev pub count_reconnect : ℕ → Stream → Stream
count_reconnect now s =
    if is_state s.state reconnecting
    then record s {
      reconnect_count = (s.reconnect_count + 1) % 2 ^ 64;
      last_reconnect = if s.last_reconnect == 0 then now else s.last_reconnect;
    }
    else s

abbrev pub with_remote : Stream → Stream
with_remote s = record s { remote = some (new_remote s.host s.username s.password) }

unfoldable pub attempt : ℕ → Env → ℕ → Stream → Next
unfolding after_dial
attempt count env i s =
    let (s', fine) = transition env.now (count_reconnect env.now s) connecting in
    if not fine
    then returned s'
    else if env.resolves
    then after_dial count env i (env.dialled (with_remote s'))
    else returned (move env.now (record s' { remote = none }) disconnected)

-- One round of the loop.
unfoldable pub round : ℕ → Env → ℕ → Stream → Next
unfolding attempt
round count env i s =
    if s.cancelled
    then returned s
    else if is_state s.state stopping || is_state s.state destroyed
    then returned s
    else attempt count env i s

-- The loop over the rounds that the environment has; at its end the goroutine clears loopStarted.
unfoldable pub connect_loop : ℕ → List Env → ℕ → Stream → Stream
connect_loop count [] i s = s
connect_loop count (env ∷ envs) i s = elim (round count env i s) [
  | returned s' ↦ record s' { loop_started = false }
  | again j s' ↦ connect_loop count envs j s'
]
