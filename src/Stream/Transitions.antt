-- ===== src/Stream/Transitions.antt =====
-- The state machine of a stream.
use rtsp_proxy.Prelude.{
  ℕ, ◌≡◌, ◌≢◌, ◌⊎◌, ◌↔◌, inl, inr, refl, ap, ◌∙◌, arith, true, false, Bool-cases, List, [], ◌∷◌,
}
use rtsp_proxy.Stream.{
  StreamState, disconnected, connecting, ready, playing, reconnecting, stopping, destroyed, Stream,
  is_state, enter, unsafe_set_state, valid, transition, renew_signals,
}

-- The transitions that the stream allows.
pub data Allowed : StreamState → StreamState → Type 0 where
  connects : Allowed disconnected connecting
  retries : Allowed connecting connecting
  plays : Allowed connecting playing
  keeps_playing : Allowed playing playing
  fails : Allowed connecting reconnecting
  loses : Allowed playing reconnecting
  keeps_reconnecting : Allowed reconnecting reconnecting
  reconnects : Allowed reconnecting connecting
  resumes : Allowed reconnecting playing
  gives_up : Allowed reconnecting disconnected
  stops_connecting : Allowed connecting stopping
  stops_playing : Allowed playing stopping
  stops_reconnecting : Allowed reconnecting stopping
  keeps_stopping : Allowed stopping stopping
  stopped : Allowed stopping disconnected
  destroys : {s : StreamState} → s ≢ destroyed → s ≢ ready → Allowed s destroyed

pub is_state_iff : (s t : StreamState) → (is_state s t ≡ true) ↔ (s ≡ t)
is_state_iff s t = ground arith

valid-Allowed : (s t : StreamState) → valid s t ≡ true → Allowed s t
valid-Allowed disconnected connecting h = connects
valid-Allowed disconnected destroyed h = destroys (λ e. cc) (λ e. cc)
valid-Allowed connecting connecting h = retries
valid-Allowed connecting playing h = plays
valid-Allowed connecting reconnecting h = fails
valid-Allowed connecting stopping h = stops_connecting
valid-Allowed connecting destroyed h = destroys (λ e. cc) (λ e. cc)
valid-Allowed playing playing h = keeps_playing
valid-Allowed playing reconnecting h = loses
valid-Allowed playing stopping h = stops_playing
valid-Allowed playing destroyed h = destroys (λ e. cc) (λ e. cc)
valid-Allowed reconnecting connecting h = reconnects
valid-Allowed reconnecting playing h = resumes
valid-Allowed reconnecting disconnected h = gives_up
valid-Allowed reconnecting stopping h = stops_reconnecting
valid-Allowed reconnecting reconnecting h = keeps_reconnecting
valid-Allowed reconnecting destroyed h = destroys (λ e. cc) (λ e. cc)
valid-Allowed stopping disconnected h = stopped
valid-Allowed stopping stopping h = keeps_stopping
valid-Allowed stopping destroyed h = destroys (λ e. cc) (λ e. cc)
valid-Allowed disconnected _ h = absurd (cc)
valid-Allowed connecting _ h = absurd (cc)
valid-Allowed playing _ h = absurd (cc)
valid-Allowed reconnecting _ h = absurd (cc)
valid-Allowed stopping _ h = absurd (cc)
valid-Allowed ready _ h = absurd (cc)
valid-Allowed destroyed _ h = absurd (cc)

Allowed-valid : {s t : StreamState} → Allowed s t → valid s t ≡ true
Allowed-valid connects = refl
Allowed-valid retries = refl
Allowed-valid plays = refl
Allowed-valid keeps_playing = refl
Allowed-valid fails = refl
Allowed-valid loses = refl
Allowed-valid keeps_reconnecting = refl
Allowed-valid reconnects = refl
Allowed-valid resumes = refl
Allowed-valid gives_up = refl
Allowed-valid stops_connecting = refl
Allowed-valid stops_playing = refl
Allowed-valid stops_reconnecting = refl
Allowed-valid keeps_stopping = refl
Allowed-valid stopped = refl
Allowed-valid (destroys {s} h k) = ground arith

enter_state : (now : ℕ) (to : StreamState) (s : Stream) → (enter now to s).state ≡ to
unfolding enter
enter_state now playing s = refl
enter_state now _ s = refl

unsafe_set_state_state :
    (now : ℕ) (s : Stream) (to : StreamState)
    → s.state ≢ destroyed
    → (unsafe_set_state now s to).state ≡ to
unfolding unsafe_set_state
unsafe_set_state_state now s to h = ground (
  arith,
  is_state_iff s.state destroyed,
  is_state_iff s.state to,
  enter_state now to (record s { signals = renew_signals s.state to s.signals }),
)

destroyed-not-valid : (s t : StreamState) → s ≡ destroyed → valid s t ≡ false
destroyed-not-valid s t h = ground arith

pub transition_refused :
    (now : ℕ) (s : Stream) (to : StreamState)
    → valid s.state to ≡ false
    → transition now s to ≡ (s, false)
unfolding transition
transition_refused now s to h = ground arith

pub transition_made :
    (now : ℕ) (s : Stream) (to : StreamState)
    → valid s.state to ≡ true
    → transition now s to ≡ (unsafe_set_state now s to, true)
unfolding transition
transition_made now s to h =
    ground (arith, is_state_iff s.state destroyed, destroyed-not-valid s.state to)

-- transition succeeds exactly on the allowed transitions. Then the stream is in the state that was
-- asked for; on any other transition the stream is left unchanged.
pub transition-Allowed :
    (now : ℕ) (s : Stream) (to : StreamState)
    → (Allowed s.state to × ((transition now s to).1 ≡ true) × ((transition now s to).0.state ≡ to))
      ⊎ ((¬ Allowed s.state to) × (transition now s to ≡ (s, false)))
transition-Allowed now s to = elim (Bool-cases (valid s.state to)) [
  | inl e ↦ inl (
    valid-Allowed s.state to e,
    ap (λ p. p.1) (transition_made now s to e),
    ap (λ p. p.0.state) (transition_made now s to e)
        ∙ unsafe_set_state_state now s to (λ d. cc (destroyed-not-valid s.state to d)),
  )
  | inr e ↦ inr ((λ a. cc (Allowed-valid a)), transition_refused now s to e)
]

-- A sequence of calls, their errors ignored.
unfoldable pub transitions : ℕ → Stream → List StreamState → Stream
transitions now s [] = s
transitions now s (t ∷ ts) = transitions now (transition now s t).0 ts

transition-destroyed :
    (now : ℕ) (s : Stream) (to : StreamState) → s.state ≡ destroyed → (transition now s to).0 ≡ s
transition-destroyed now s to h =
    ap (λ p. p.0) (transition_refused now s to (destroyed-not-valid s.state to h))

not-valid-ready : (s : StreamState) → valid s ready ≡ false
not-valid-ready s = ground arith

transition-ne-ready :
    (now : ℕ) (s : Stream) (to : StreamState)
    → s.state ≢ ready
    → (transition now s to).0.state ≢ ready
transition-ne-ready now s to h = elim (Bool-cases (valid s.state to)) [
  | inl e ↦ rw (transition_made now s to e) (λ q. cc (
    not-valid-ready s.state,
    e,
    unsafe_set_state_state now s to (λ d. cc (destroyed-not-valid s.state to d)),
  ))
  | inr e ↦ rw (transition_refused now s to e) h
]

-- No sequence of transitions leaves the destroyed state, or changes anything in it.
pub transitions-destroyed :
    (now : ℕ) (s : Stream) (ts : List StreamState) → s.state ≡ destroyed → transitions now s ts ≡ s
unfolding transitions
transitions-destroyed now s [] h = refl
transitions-destroyed now s (t ∷ ts) h =
    rw (transition-destroyed now s t h) (transitions-destroyed now s ts h)

-- No sequence of transitions reaches the state Ready, which the code declares.
pub transitions-ne-ready :
    (now : ℕ) (s : Stream) (ts : List StreamState)
    → s.state ≢ ready
    → (transitions now s ts).state ≢ ready
unfolding transitions
transitions-ne-ready now s [] h = h
transitions-ne-ready now s (t ∷ ts) h =
    transitions-ne-ready now (transition now s t).0 ts (transition-ne-ready now s t h)
