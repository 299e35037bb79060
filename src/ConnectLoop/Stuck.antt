-- ===== src/ConnectLoop/Stuck.antt =====
-- connectLoop of rtspproxy/stream.go giving up, and Start after it.
use rtsp_proxy.ConnectLoop.{Env, returned, move, retry, after_dial}
use rtsp_proxy.Prelude.{ℕ, ◌≡◌, ap, false, []}
use rtsp_proxy.Stream.Transitions.{transition_refused}
use rtsp_proxy.Stream.{disconnected, connecting, Stream, is_nil, start, valid}

move-refused : (now : ℕ) (s : Stream) → s.state ≡ connecting → move now s disconnected ≡ s
move-refused now s e =
    ap (λ p. p.0) (transition_refused now s disconnected (ap (λ t. valid t disconnected) e))

retry-connecting :
    (count : ℕ) (env : Env) (i : ℕ) (s : Stream)
    → s.state ≡ connecting
    → s.clients ≡ []
    → retry count env i s ≡ returned s
unfolding retry
retry-connecting count env i s e n = rw (ap is_nil n) (ap returned (move-refused env.now s e))

-- When the dial fails and there are no clients, the loop returns, and its transition to
-- Disconnected is refused, because Connecting does not allow it: the stream stays in the state
-- Connecting, with no loop running. A later start then does nothing.
pub after_dial-stuck :
    (count : ℕ) (env : Env) (i : ℕ) (s : Stream) (later : ℕ)
    → s.state ≡ connecting
    → s.clients ≡ []
    → env.dials ≡ false
    → (after_dial count env i s ≡ returned s) × (start later s ≡ (s, false))
unfolding after_dial start
after_dial-stuck count env i s later e n d = (rw d (retry-connecting count env i s e n), rw e)
