-- ===== src/Stream/Waiting.antt =====
-- The two channels of a stream on which clients wait, readyCh and sdpReadyCh. A channel is a
-- number; `closed` lists the channels that have been closed, the latest first. A client that waits
-- keeps the number that was current when it asked.
use rtsp_proxy.Prelude.{
  ℕ, ◌+◌, ◌≤◌, ◌<◌, ◌≡◌, ◌≢◌, inl, inr, arith, Bool, true, false, ◌||◌, List, [], ◌∷◌, ◌==◌,
  if◌then◌else◌, All, Bool-cases,
}

pub record Signals : Type 0 where
  pub ready_ch : ℕ
  pub sdp_ready_ch : ℕ
  pub closed : List ℕ
  pub next : ℕ

abbrev pub is_closed : ℕ → List ℕ → Bool
is_closed c [] = false
is_closed c (d ∷ ds) = c == d || is_closed c ds

-- make(chan struct{}) for both
unfoldable pub new_signals : Signals
new_signals = record { ready_ch = 0; sdp_ready_ch = 1; closed = []; next = 2 }

-- select { case <-c: default: close(c) }
abbrev pub close_once : ℕ → List ℕ → List ℕ
close_once c closed = if is_closed c closed then closed else c ∷ closed

abbrev pub close_ready : Signals → Signals
close_ready g = record g { closed = close_once g.ready_ch g.closed }

abbrev pub close_sdp : Signals → Signals
close_sdp g = record g { closed = close_once g.sdp_ready_ch g.closed }

abbrev pub renew : Signals → Signals
renew g = record g { ready_ch = g.next; sdp_ready_ch = g.next + 1; next = g.next + 2 }

-- No channel has been closed twice: a second close would panic.
abbrev pub ClosedOnce : List ℕ → Type 0
ClosedOnce [] = Unit
ClosedOnce (c ∷ cs) = (is_closed c cs ≡ false) × ClosedOnce cs

-- The channels are consistent: the current ones are two that exist, no channel has been closed
-- twice, only existing ones have been closed, and every other one has been closed, so that no
-- client waits for ever on a channel that has been replaced.
pub record IsConsistent (g : Signals) : Type 0 where
  pub distinct : g.ready_ch ≢ g.sdp_ready_ch
  pub ready_exists : g.ready_ch < g.next
  pub sdp_exists : g.sdp_ready_ch < g.next
  pub once : ClosedOnce g.closed
  pub exist : All (λ c. c < g.next) g.closed
  pub released :
      (c : ℕ) → c < g.next → c ≢ g.ready_ch → c ≢ g.sdp_ready_ch → is_closed c g.closed ≡ true

pub new_signals-IsConsistent : IsConsistent new_signals
unfolding new_signals
new_signals-IsConsistent = record {
  distinct = λ e. omega arith;
  ready_exists = omega arith;
  sdp_exists = omega arith;
  once = tt;
  exist = tt;
  released = λ c l p q. absurd (omega arith);
}

close_once-ClosedOnce : (c : ℕ) (cs : List ℕ) → ClosedOnce cs → ClosedOnce (close_once c cs)
close_once-ClosedOnce c cs h = elim (Bool-cases (is_closed c cs)) [
  | inl e ↦ rw e h
  | inr e ↦ rw e (e, h)
]

close_once-All :
    (c n : ℕ) (cs : List ℕ) → c < n → All (λ d. d < n) cs → All (λ d. d < n) (close_once c cs)
close_once-All c n cs l h = elim (Bool-cases (is_closed c cs)) [
  | inl e ↦ rw e h
  | inr e ↦ rw e (l, h)
]

pub close_once-keeps :
    (c d : ℕ) (cs : List ℕ) → is_closed d cs ≡ true → is_closed d (close_once c cs) ≡ true
close_once-keeps c d cs h = ground arith

pub close_once-closes : (c : ℕ) (cs : List ℕ) → is_closed c (close_once c cs) ≡ true
close_once-closes c cs = ground arith

close-IsConsistent :
    (g : Signals) (c : ℕ)
    → c < g.next
    → IsConsistent g
    → IsConsistent (record g { closed = close_once c g.closed })
close-IsConsistent g c l v = record {
  distinct = v.distinct;
  ready_exists = v.ready_exists;
  sdp_exists = v.sdp_exists;
  once = close_once-ClosedOnce c g.closed v.once;
  exist = close_once-All c g.next g.closed l v.exist;
  released = λ d m p q. close_once-keeps c d g.closed (v.released d m p q);
}

pub close_ready-IsConsistent : (g : Signals) → IsConsistent g → IsConsistent (close_ready g)
close_ready-IsConsistent g v = close-IsConsistent g g.ready_ch v.ready_exists v

pub close_sdp-IsConsistent : (g : Signals) → IsConsistent g → IsConsistent (close_sdp g)
close_sdp-IsConsistent g v = close-IsConsistent g g.sdp_ready_ch v.sdp_exists v

All-weaken : (n m : ℕ) (cs : List ℕ) → n ≤ m → All (λ d. d < n) cs → All (λ d. d < m) cs
All-weaken n m [] l h = tt
All-weaken n m (c ∷ cs) l h = (omega arith, All-weaken n m cs l h.1)

-- Renewal keeps the channels consistent when the old ones have been closed.
pub renew-IsConsistent :
    (g : Signals)
    → is_closed g.ready_ch g.closed ≡ true
    → is_closed g.sdp_ready_ch g.closed ≡ true
    → IsConsistent g
    → IsConsistent (renew g)
renew-IsConsistent g r s v = record {
  distinct = λ e. omega arith;
  ready_exists = omega arith;
  sdp_exists = omega arith;
  once = v.once;
  exist = All-weaken g.next (g.next + 2) g.closed (omega arith) v.exist;
  released = λ c l p q. old c (omega arith);
}
  where
    old : (c : ℕ) → c < g.next → is_closed c g.closed ≡ true
    old c l = elim (Bool-cases (c == g.ready_ch)) [
      | inl e ↦ ground arith
      | inr e ↦ elim (Bool-cases (c == g.sdp_ready_ch)) [
        | inl f ↦ ground arith
        | inr f ↦ v.released c l (ground arith) (ground arith)
      ]
    ]
