-- ===== src/Request/ProxyUrl.antt =====
-- The rewriting of the proxy's URL in ParseCommand of rtspproxy/request.go.
use rtsp_proxy.Prelude.{
  ℕ, ◌≡◌, refl, ap, ◌∙◌, arith, true, false, ◌||◌, [], ◌∷◌, ◌++◌, Option, none, some, Bytes, codes,
  ◌==◌, All, Bool-cases, inl, inr,
}
use rtsp_proxy.Text.{has_prefix}
use rtsp_proxy.Request.{
  eat, is_digit, host_part, skip_digits, eat_digits, eat_port, non_empty, ◌>>=◌, proxied,
  rewrite_url,
}

-- The port of a URL: none, or a colon and digits.
pub data Port : Bytes → Type 0 where
  no_port : Port []
  at_port : (d : ℕ) (ds : Bytes) → All (λ c. is_digit c ≡ true) (d ∷ ds) → Port (b':' ∷ d ∷ ds)

abbrev pub IsHost : Bytes → Type 0
IsHost = All (λ c. (c == b':' || c == b'/') ≡ false)

-- Text that a host ends at.
abbrev Stops : Bytes → Type 0
Stops [] = Unit
Stops (c ∷ cs) = (c == b':' || c == b'/') ≡ true

host_part-append : (h t : Bytes) → IsHost h → Stops t → host_part (h ++ t) ≡ (h, t)
unfolding host_part
host_part-append [] [] h s = refl
host_part-append [] (c ∷ cs) h s = rw s refl
host_part-append (c ∷ cs) t h s = rw (h.0, host_part-append cs t h.1 s)

skip_digits-append :
    (ds t : Bytes) → All (λ c. is_digit c ≡ true) ds → skip_digits (ds ++ (b'/' ∷ t)) ≡ b'/' ∷ t
unfolding skip_digits
skip_digits-append [] t h = refl
skip_digits-append (d ∷ ds) t h = rw (h.0) (skip_digits-append ds t h.1)

eat_port-append : (port t : Bytes) → Port port → eat_port (port ++ (b'/' ∷ t)) ≡ some (b'/' ∷ t)
unfolding eat_port eat_digits eat
eat_port-append [] t no_port = refl
eat_port-append _ t (at_port d ds h) =
    let other : (b':' == d) ≡ false = ground (arith, h.0) in
    rw (other, eat_port, eat, eat_digits, h.0) (ap some (skip_digits-append ds t h.1))

Port-Stops : (port t : Bytes) → Port port → Stops (port ++ (b'/' ∷ t))
Port-Stops [] t no_port = refl
Port-Stops _ t (at_port d ds h) = refl

-- The rest of the pattern, behind the scheme and behind the host.
abbrev from_host : Bytes × Bytes → Option Bytes
from_host p = do host ← non_empty p; port ← eat_port host; eat (codes "/rtsp/") port

abbrev from_port : Option Bytes → Option Bytes
from_port o = do port ← o; eat (codes "/rtsp/") port

proxied-host : (t : Bytes) → proxied (codes "rtsp://" ++ t) ≡ from_host (host_part t)
unfolding proxied eat
proxied-host t = refl

prefix_eaten : (rest : Bytes) → from_port (some (codes "/rtsp/" ++ rest)) ≡ some rest
unfolding eat
prefix_eaten rest = refl

proxied-url :
    (c : ℕ) (host port rest : Bytes)
    → IsHost (c ∷ host)
    → Port port
    → proxied (codes "rtsp://" ++ ((c ∷ host) ++ (port ++ (codes "/rtsp/" ++ rest)))) ≡ some rest
proxied-url c host port rest h p =
    proxied-host _
    ∙ ap from_host
        (host_part-append (c ∷ host) (port ++ (codes "/rtsp/" ++ rest)) h (Port-Stops port _ p))
    ∙ ap from_port (eat_port-append port (codes "rtsp/" ++ rest) p)
    ∙ prefix_eaten rest

-- The URL of the proxy, with any host and with or without a port: what stands behind /rtsp/ is the
-- URL of the camera.
pub rewrite_url-proxied :
    (c : ℕ) (host port rest : Bytes)
    → IsHost (c ∷ host)
    → Port port
    → rewrite_url (codes "rtsp://" ++ ((c ∷ host) ++ (port ++ (codes "/rtsp/" ++ rest))))
      ≡ codes "rtsp://" ++ rest
unfolding rewrite_url
rewrite_url-proxied c host port rest h p = rw (proxied-url c host port rest h p, rewrite_url) refl

eat-no_prefix : (p s : Bytes) → has_prefix s p ≡ false → eat p s ≡ none
unfolding eat has_prefix
eat-no_prefix [] s h = absurd (cc)
eat-no_prefix (c ∷ p) [] h = refl
eat-no_prefix (c ∷ p) (d ∷ s) h = elim (Bool-cases (c == d)) [
  | inl e ↦ rw e (eat-no_prefix p s (ground arith))
  | inr e ↦ rw e refl
]

eat-slash :
    (path : Bytes)
    → has_prefix path (codes "rtsp/") ≡ false
    → eat (codes "/rtsp/") (b'/' ∷ path) ≡ none
unfolding eat
eat-slash path n = eat-no_prefix (codes "rtsp/") path n

-- A URL with a host, with or without a port, and a path.
abbrev pub camera_url : ℕ → Bytes → Bytes → Bytes → Bytes
camera_url c host port path = codes "rtsp://" ++ ((c ∷ host) ++ (port ++ (b'/' ∷ path)))

-- A URL whose path does not begin with /rtsp/ is left as it is.
pub rewrite_url-camera :
    (c : ℕ) (host port path : Bytes)
    → IsHost (c ∷ host)
    → Port port
    → has_prefix path (codes "rtsp/") ≡ false
    → rewrite_url (camera_url c host port path) ≡ camera_url c host port path
unfolding rewrite_url
rewrite_url-camera c host port path h p n =
    ap
      (λ (o : Option Bytes). elim o [
        | some rest ↦ codes "rtsp://" ++ rest
        | none ↦ camera_url c host port path
      ])
      (proxied-host ((c ∷ host) ++ (port ++ (b'/' ∷ path)))
        ∙ ap from_host
            (host_part-append (c ∷ host) (port ++ (b'/' ∷ path)) h (Port-Stops port path p))
        ∙ ap from_port (eat_port-append port path p)
        ∙ eat-slash path n)
