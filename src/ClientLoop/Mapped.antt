-- ===== src/ClientLoop/Mapped.antt =====
-- The way back of a client's data in incomingRequestHandler of rtspproxy/client.go.
use rtsp_proxy.ClientLoop.{upstream_channel}
use rtsp_proxy.Prelude.Dict.{Dict, nat_eq, lookup}
use rtsp_proxy.Prelude.Int.{ℤ, eq_ℤ, eq_ℤ_iff, int_eq}
use rtsp_proxy.Prelude.{◌≡◌, inl, inr, arith, true, false, [], ◌∷◌, some, Bool-cases, All}

-- Only this upstream channel is mapped to the client's channel.
abbrev pub OnlyFrom : ℤ → ℤ → Dict ℤ ℤ → Type 0
OnlyFrom u c = All (λ (p : ℤ × ℤ). eq_ℤ p.1 c ≡ true → p.0 ≡ u)

-- The data that a client sends on a channel goes to the upstream channel that is mapped to it, if it
-- is the only one.
pub upstream_channel-lookup :
    (u c : ℤ) (m : Dict ℤ ℤ) → OnlyFrom u c m → lookup u m ≡ some c → upstream_channel c m ≡ u
unfolding upstream_channel lookup
upstream_channel-lookup u c [] h e = absurd (cc)
upstream_channel-lookup u c ((v, d) ∷ m) h e = elim (Bool-cases (eq_ℤ d c)) [
  | inl q ↦ rw q (h.0 q)
  | inr q ↦ rw q (upstream_channel-lookup u c m h.1 (rest q))
]
  where
    rest : eq_ℤ d c ≡ false → lookup u m ≡ some c
    rest q = ground (arith, eq_ℤ_iff d c, eq_ℤ_iff v u)
