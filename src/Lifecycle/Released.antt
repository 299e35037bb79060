-- ===== src/Lifecycle/Released.antt =====
-- What Stop and Destroy leave behind.
use rtsp_proxy.ClientSession.{ClientSession}
use rtsp_proxy.ClientSession
use rtsp_proxy.Lifecycle.{Left}
use rtsp_proxy.Prelude.Dict.{Dict}
use rtsp_proxy.Prelude.{
  ℕ, ◌<◌, ◌≡◌, ◌≢◌, inl, inr, ap, ◌∙◌, true, false, List, [], ◌∷◌, Option, none, some, Bytes,
  Bool-cases,
}
use rtsp_proxy.Remote.{Remote}
use rtsp_proxy.Session.{Session}
use rtsp_proxy.Session
use rtsp_proxy.Stream.Invariant.{Keeps}
use rtsp_proxy.Stream.Transitions.{transition-Allowed, is_state_iff, destroys}
use rtsp_proxy.Stream.Waiting.{Signals, is_closed}
use rtsp_proxy.Stream.{disconnected, destroyed, ready, Stream, is_state, transition}
use rtsp_proxy.Url.{Url}

-- These sessions are those of the stream, each stopped.
abbrev pub HasEnded : Dict Bytes Session → List Session → Type 0
HasEnded [] [] = Unit
HasEnded ((id, s) ∷ m) (t ∷ ts) = ((t.session ≡ s.session) × (t.started ≡ false)) × HasEnded m ts
HasEnded _ _ = ⊥

abbrev pub ClientsStopped : Dict ℕ ClientSession → List ClientSession → Type 0
ClientsStopped [] [] = Unit
ClientsStopped ((client, cs) ∷ m) (d ∷ ds) =
    ((d.session_id ≡ cs.session_id) × (d.active ≡ false)) × ClientsStopped m ds
ClientsStopped _ _ = ⊥

-- The remote that was there is still known, and has no connection any more.
abbrev pub IsOffline : Option Remote → Option Remote → Type 0
IsOffline none none = Unit
IsOffline (some r) (some r') = r'.conn ≡ false
IsOffline _ _ = ⊥

-- Every channel on which a client may wait has been closed.
abbrev pub AllReleased : Signals → Type 0
AllReleased g = (c : ℕ) → c < g.next → is_closed c g.closed ≡ true

-- What Destroy leaves: a stream in its last state, cancelled and with nothing attached, that no
-- client waits for any more; the remote that it had, with no connection; and the sessions and the
-- client sessions that it had, each stopped.
pub record IsGone (s : Stream) (l : Left) : Type 0 where
  pub state : l.stream.state ≡ destroyed
  pub cancelled : l.stream.cancelled ≡ true
  pub no_remote : l.stream.remote ≡ none
  pub no_clients : l.stream.clients ≡ []
  pub no_sessions : l.stream.sessions ≡ []
  pub released : AllReleased l.stream.signals
  pub offline : IsOffline s.remote l.remote
  pub sessions_stopped : HasEnded s.sessions l.sessions
  pub clients_stopped : ClientsStopped s.clients l.clients

pub destroyed_there :
    (now : ℕ) (s : Stream) → s.state ≢ ready → (transition now s destroyed).0.state ≡ destroyed
destroyed_there now s h = elim (transition-Allowed now s destroyed) [
  | inl (a, fine, at) ↦ at
  | inr (n, e) ↦ elim (Bool-cases (is_state s.state destroyed)) [
    | inl f ↦ ap (λ p. p.0.state) e ∙ (is_state_iff s.state destroyed).0 f
    | inr f ↦ absurd (n (destroys (λ d. cc ((is_state_iff s.state destroyed).1 d)) h))
  ]
]

-- What a Stop leaves that the state allows: a disconnected stream with no sessions, which keeps the
-- promises of its signals, and no connection to the camera; and the sessions that it had, stopped.
pub record IsStopped (s : Stream) (l : Left) : Type 0 where
  pub state : l.stream.state ≡ disconnected
  pub keeps : Keeps l.stream
  pub no_sessions : l.stream.sessions ≡ []
  pub offline : IsOffline s.remote l.stream.remote
  pub sessions_stopped : HasEnded s.sessions l.sessions

-- A change of state leaves what is attached to the stream.
abbrev Same : Stream → Stream → Type 0
Same s t = (t.sessions ≡ s.sessions) × ((t.remote ≡ s.remote) × (t.clients ≡ s.clients))
