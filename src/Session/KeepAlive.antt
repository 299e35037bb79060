-- ===== src/Session/KeepAlive.antt =====
-- The keep-alive ticker of a session.
use rtsp_proxy.Prelude.Int.{pos}
use rtsp_proxy.Prelude.{
  ℕ, ◌-◌, ◌*◌, ◌≤◌, ◌≡◌, ◌≢◌, ◌⊎◌, ◌==◌, false, refl, arith, if◌then◌else◌, ltb, ap, ◌∙◌,
  Bool-cases, inl, inr,
}
use rtsp_proxy.Session.{Session, already, ticking, panics, second, interval, stop, start_upstream}

-- The interval in nanoseconds, for every timeout within 9 * 10^9 seconds: five seconds less than
-- the timeout, and one second where that is negative.
abbrev pub ticks : ℕ → ℕ
ticks n = if ltb n 5 then second else (n - 5) * second

pub interval_in_range : (n : ℕ) → n ≤ 9_000_000_000 → interval (pos n) ≡ pos (ticks n)
unfolding interval
interval_in_range n h = ground arith

-- Starting the keep-alive of a session that does not run, with a timeout within 9 * 10^9 seconds:
-- the ticker is made with an interval of timeout - 5 seconds, or one second if that is negative,
-- except that a timeout of exactly 5 seconds gives the interval 0, on which time.NewTicker panics.
pub start_upstream_outcome :
    (s : Session) (n : ℕ)
    → s.started ≡ false
    → s.timeout ≡ pos n
    → n ≤ 9_000_000_000
    → ((n ≡ 5) × ((start_upstream s).1 ≡ panics))
      ⊎ ((n ≢ 5) × ((start_upstream s).1 ≡ ticking (pos (ticks n))))
unfolding start_upstream
start_upstream_outcome s n off t h =
    let e : interval s.timeout ≡ pos (ticks n) = ap interval t ∙ interval_in_range n h in
    elim (Bool-cases (n == 5)) [
      | inl q ↦ inl (ground arith, rw (off, e) (ground arith))
      | inr q ↦ inr ((λ r. ground arith), rw (off, e) (ground arith))
    ]

-- A second start does nothing; a stop undoes a start, and stops nothing else.
pub start_upstream-start_upstream :
    (s : Session)
    → (start_upstream (start_upstream s).0 ≡ ((start_upstream s).0, already))
      × ((stop (start_upstream s).0).started ≡ false)
      × ((stop (start_upstream s).0).transports ≡ s.transports)
unfolding start_upstream stop
start_upstream-start_upstream s = elim (Bool-cases s.started) [
  | inl e ↦ rw e (refl, refl, refl)
  | inr e ↦ rw e (refl, refl, refl)
]
