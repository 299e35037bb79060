-- ===== src/Stream/Invariant.antt =====
-- The signals of a stream of rtspproxy/stream.go and what its states promise.
use rtsp_proxy.Stream.Transitions.{transition_made, transition_refused}
use rtsp_proxy.Stream.Waiting.{
  Signals, is_closed, close_once, close_ready, close_sdp, renew, IsConsistent,
  new_signals-IsConsistent, close_ready-IsConsistent, close_sdp-IsConsistent, renew-IsConsistent,
  close_once-keeps, close_once-closes,
}
use rtsp_proxy.Prelude.{ℕ, ◌≡◌, ◌≢◌, inl, inr, true, Bool-cases, Bytes}
use rtsp_proxy.Stream.{
  StreamState, disconnected, connecting, ready, playing, reconnecting, stopping, destroyed, Stream,
  new_stream, is_state, enter, unsafe_set_state, valid, transition, renew_signals,
}

-- The signals of a stream in this state: consistent, ready closed while it plays, and both closed
-- once it is destroyed, so that no client waits on it for ever.
pub record Promises (state : StreamState) (g : Signals) : Type 0 where
  pub consistent : IsConsistent g
  pub playing_ready : state ≡ playing → is_closed g.ready_ch g.closed ≡ true
  pub destroyed_ready : state ≡ destroyed → is_closed g.ready_ch g.closed ≡ true
  pub destroyed_sdp : state ≡ destroyed → is_closed g.sdp_ready_ch g.closed ≡ true

abbrev pub Keeps : Stream → Type 0
Keeps s = Promises s.state s.signals

renew_all : (g : Signals) → IsConsistent g → IsConsistent (renew (close_sdp (close_ready g)))
renew_all g v =
    renew-IsConsistent (close_sdp (close_ready g))
      (close_once-keeps g.sdp_ready_ch g.ready_ch (close_once g.ready_ch g.closed)
        (close_once-closes g.ready_ch g.closed))
      (close_once-closes g.sdp_ready_ch (close_once g.ready_ch g.closed))
      (close_sdp-IsConsistent (close_ready g) (close_ready-IsConsistent g v))

renew_signals-IsConsistent :
    (from to : StreamState) (g : Signals) → IsConsistent g → IsConsistent (renew_signals from to g)
renew_signals-IsConsistent disconnected connecting g v = renew_all g v
renew_signals-IsConsistent reconnecting connecting g v = renew_all g v
renew_signals-IsConsistent _ _ g v = v

plain-Promises :
    (to : StreamState) (g : Signals)
    → to ≢ playing
    → to ≢ destroyed
    → IsConsistent g
    → Promises to g
plain-Promises to g p d v = record {
  consistent = v;
  playing_ready = λ e. absurd (p e);
  destroyed_ready = λ e. absurd (d e);
  destroyed_sdp = λ e. absurd (d e);
}

enter-Keeps :
    (now : ℕ) (to : StreamState) (s : Stream) → IsConsistent s.signals → Keeps (enter now to s)
unfolding enter
enter-Keeps now playing s v = record {
  consistent = close_ready-IsConsistent s.signals v;
  playing_ready = λ e. close_once-closes s.signals.ready_ch s.signals.closed;
  destroyed_ready = λ e. absurd (cc);
  destroyed_sdp = λ e. absurd (cc);
}
enter-Keeps now destroyed s v = record {
  consistent =
      close_sdp-IsConsistent (close_ready s.signals) (close_ready-IsConsistent s.signals v);
  playing_ready = λ e. absurd (cc);
  destroyed_ready = λ e.
      close_once-keeps s.signals.sdp_ready_ch s.signals.ready_ch _
        (close_once-closes s.signals.ready_ch s.signals.closed);
  destroyed_sdp = λ e. close_once-closes s.signals.sdp_ready_ch _;
}
enter-Keeps now disconnected s v = plain-Promises disconnected s.signals (λ e. cc) (λ e. cc) v
enter-Keeps now connecting s v = plain-Promises connecting s.signals (λ e. cc) (λ e. cc) v
enter-Keeps now ready s v = plain-Promises ready s.signals (λ e. cc) (λ e. cc) v
enter-Keeps now reconnecting s v = plain-Promises reconnecting s.signals (λ e. cc) (λ e. cc) v
enter-Keeps now stopping s v = plain-Promises stopping s.signals (λ e. cc) (λ e. cc) v

pub unsafe_set_state-Keeps :
    (now : ℕ) (s : Stream) (to : StreamState) → Keeps s → Keeps (unsafe_set_state now s to)
unfolding unsafe_set_state
unsafe_set_state-Keeps now s to v = elim (Bool-cases (is_state s.state destroyed)) [
  | inl e ↦ rw e v
  | inr e ↦ elim (Bool-cases (is_state s.state to)) [
    | inl f ↦ rw (e, f) v
    | inr f ↦
        rw (e, f)
          (enter-Keeps now to _ (renew_signals-IsConsistent s.state to s.signals v.consistent))
  ]
]

pub transition-Keeps :
    (now : ℕ) (s : Stream) (to : StreamState) → Keeps s → Keeps (transition now s to).0
transition-Keeps now s to v = elim (Bool-cases (valid s.state to)) [
  | inl f ↦ rw (transition_made now s to f) (unsafe_set_state-Keeps now s to v)
  | inr f ↦ rw (transition_refused now s to f) v
]

pub new_stream-Keeps :
    (now : ℕ) (host username password path : Bytes)
    → Keeps (new_stream now host username password path)
unfolding new_stream
new_stream-Keeps now host username password path =
    plain-Promises disconnected _ (λ e. cc) (λ e. cc) new_signals-IsConsistent
