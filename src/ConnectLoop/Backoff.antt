-- ===== src/ConnectLoop/Backoff.antt =====
-- The back-off index, and the promises of the signals through the loop.
use rtsp_proxy.ConnectLoop.{
  Env, Next, returned, again, back_off, retry, after_read, reconnected, after_sequence, after_dial,
  count_reconnect, with_remote, attempt, round, connect_loop,
}
use rtsp_proxy.Prelude.{
  ℕ, ◌+◌, ◌-◌, ◌<◌, inl, inr, arith, Bool, true, false, not, ◌||◌, none, List, [], ◌∷◌, leb, ◌==◌,
  if◌then◌else◌, Bool-cases, All,
}
use rtsp_proxy.Stream.Invariant.{Keeps, transition-Keeps}
use rtsp_proxy.Stream.{
  disconnected, connecting, playing, reconnecting, stopping, destroyed, Stream, is_state, is_nil,
  transition,
}

-- What the environment does keeps the promises of the signals.
pub record IsFair (env : Env) : Type 0 where
  pub dialled : (s : Stream) → Keeps s → Keeps (env.dialled s)
  pub sequence : (s : Stream) → Keeps s → Keeps (env.sequence s)
  pub plays : (s : Stream) → Keeps s → Keeps (env.plays s)
  pub waits : (s : Stream) → Keeps s → Keeps (env.waits s)

-- The stream keeps its promises, and the next index is one of the back-off times.
abbrev pub Good : ℕ → Next → Type 0
Good count (returned s) = Keeps s
Good count (again j s) = (j < count) × Keeps s

if-Good :
    (count : ℕ) (b : Bool) (x y : Next)
    → Good count x
    → Good count y
    → Good count (if b then x else y)
if-Good count true x y g h = g
if-Good count false x y g h = h

module _ (count : ℕ) (env : Env) (some_times : 0 < count) (fair : IsFair env) where
  back_off-Good : (i : ℕ) (s : Stream) → Keeps s → Good count (back_off count env i s)
  unfolding back_off
  back_off-Good i s v = elim (Bool-cases (env.waits s).cancelled) [
    | inl e ↦ rw e (fair.waits s v)
    | inr e ↦ rw e (next_bound i, fair.waits s v)
  ]
    where
      next_bound : (k : ℕ) → (if leb count (k + 1) then count - 1 else k + 1) < count
      next_bound k = ground arith

  retry-Good : (i : ℕ) (s : Stream) → Keeps s → Good count (retry count env i s)
  unfolding retry
  retry-Good i s v = elim (Bool-cases (is_nil s.clients)) [
    | inl e ↦ rw e (transition-Keeps env.now s disconnected v)
    | inr e ↦ rw e (back_off-Good i _ (transition-Keeps env.now s reconnecting v))
  ]

  after_read-Good : (s : Stream) → Keeps s → Good count (after_read count env s)
  unfolding after_read
  after_read-Good s v =
      elim (Bool-cases (is_state s.state stopping || is_state s.state destroyed)) [
        | inl e ↦ rw e (transition-Keeps env.now s disconnected v)
        | inr e ↦ elim (Bool-cases env.read_fails) [
          | inl f ↦ rw (e, f) (back_off-Good 0 _ (transition-Keeps env.now s reconnecting v))
          | inr f ↦ rw (e, f) (transition-Keeps env.now s disconnected v)
        ]
      ]

  reconnected-Keeps : (s : Stream) → Keeps s → Keeps (reconnected env.now s)
  reconnected-Keeps s v = elim (Bool-cases (s.last_reconnect == 0)) [
    | inl e ↦ rw e v
    | inr e ↦ rw e v
  ]

  after_sequence-Good : (s : Stream) → Keeps s → Good count (after_sequence count env s)
  unfolding after_sequence
  after_sequence-Good s v =
      let moved =
        transition-Keeps env.now (reconnected env.now s) playing (reconnected-Keeps s v) in
      elim (Bool-cases (transition env.now (reconnected env.now s) playing).1) [
        | inl e ↦ rw e (after_read-Good _ (fair.plays _ moved))
        | inr e ↦ rw e moved
      ]

  after_dial-Good : (i : ℕ) (s : Stream) → Keeps s → Good count (after_dial count env i s)
  unfolding after_dial
  after_dial-Good i s v =
      if-Good count env.dials _ _
        (if-Good count env.sequence_fine _ _
          (after_sequence-Good (env.sequence s) (fair.sequence s v))
          (retry-Good i (env.sequence s) (fair.sequence s v)))
        (retry-Good i s v)

  count_reconnect-Keeps : (s : Stream) → Keeps s → Keeps (count_reconnect env.now s)
  count_reconnect-Keeps s v = elim (Bool-cases (is_state s.state reconnecting)) [
    | inl e ↦ rw e v
    | inr e ↦ rw e v
  ]

  attempt-Good : (i : ℕ) (s : Stream) → Keeps s → Good count (attempt count env i s)
  unfolding attempt
  attempt-Good i s v =
      let moved =
        transition-Keeps env.now (count_reconnect env.now s) connecting
          (count_reconnect-Keeps s v) in
      let s' = (transition env.now (count_reconnect env.now s) connecting).0 in
      if-Good count (not (transition env.now (count_reconnect env.now s) connecting).1) _ _ moved (
        if-Good count env.resolves _ _
          (after_dial-Good i (env.dialled (with_remote s')) (fair.dialled (with_remote s') (moved)))
          (transition-Keeps env.now (record s' { remote = none }) disconnected moved))

  -- A round of the connect loop, from whatever index and however the dial, the requests and the
  -- reading turn out: the stream keeps the promises of its signals, and if the loop goes on, its
  -- index is again one of the back-off times, so that backoff[idx] never panics.
  pub round-Good : (i : ℕ) (s : Stream) → Keeps s → Good count (round count env i s)
  unfolding round
  round-Good i s v = if-Good count s.cancelled _ _ v (
      if-Good count (is_state s.state stopping || is_state s.state destroyed) _ _ v
        (attempt-Good i s v))

from_next-Keeps :
    (count : ℕ) (n : Next) (envs : List Env)
    → Good count n
    → ((j : ℕ) (s : Stream) → Keeps s → Keeps (connect_loop count envs j s))
    → Keeps (elim n [
      | returned s' ↦ record s' { loop_started = false }
      | again j s' ↦ connect_loop count envs j s'
    ])
from_next-Keeps count (returned s) envs g h = g
from_next-Keeps count (again j s) envs g h = h j s g.1

-- The whole loop, over any number of rounds, keeps the promises of the signals.
pub connect_loop-Keeps :
    (count : ℕ) (envs : List Env) (i : ℕ) (s : Stream)
    → 0 < count
    → All IsFair envs
    → Keeps s
    → Keeps (connect_loop count envs i s)
unfolding connect_loop
connect_loop-Keeps count [] i s h f v = v
connect_loop-Keeps count (env ∷ envs) i s h f v =
    from_next-Keeps count (round count env i s) envs (round-Good count env h f.0 i s v)
      (λ j s' v'. connect_loop-Keeps count envs j s' h f.1 v')
