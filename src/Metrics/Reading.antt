-- ===== src/Metrics/Reading.antt =====
-- The text of rtspproxy/metrics.go as a scraper reads it.
use rtsp_proxy.Metrics.{Metrics, Metric, metric, metric_lines, all_metrics, print_lines, exposition}
use rtsp_proxy.Prelude.Int.{pos}
use rtsp_proxy.Prelude.{
  ◌≡◌, refl, ap, ◌∙◌, arith, false, List, [], ◌∷◌, ◌++◌, Option, none, some, Bytes, codes,
  if◌then◌else◌, length, drop, All, All-append, ◌==◌,
}
use rtsp_proxy.Text.Number.{itoa}
use rtsp_proxy.Text.Split.{HasNo, split-append, itoa-HasNo_newline}
use rtsp_proxy.Text.{has_prefix, split}

-- The first line that starts with this text, from there on.
read_line : Bytes → List Bytes → Option Bytes
read_line p [] = none
read_line p (l ∷ ls) = if has_prefix l p then some (drop (length p) l) else read_line p ls

-- The value of a metric in the text of an exposition.
pub read_metric : Bytes → Bytes → Option Bytes
unfolding read_line
read_metric name text = read_line (name ++ (b' ' ∷ [])) (split text b'\n')

abbrev pub OneLine : Bytes → Type 0
OneLine = HasNo b'\n'

split-print_lines :
    (ls : List Bytes) → All OneLine ls → split (print_lines ls) b'\n' ≡ ls ++ [] ∷ []
unfolding print_lines split
split-print_lines [] h = refl
split-print_lines (l ∷ ls) h =
    split-append b'\n' l (print_lines ls) h.0
    ∙ ap (λ (ps : List Bytes). l ∷ ps) (split-print_lines ls h.1)

OneLine-append : (a b : Bytes) → OneLine a → OneLine b → OneLine (a ++ b)
OneLine-append a b h k = All-append (λ c. (c == b'\n') ≡ false) a b h k

-- Nothing of the metric breaks its line.
data IsPlain : Metric → Type 0 where
  plain :
      {name help kind value : Bytes}
      → OneLine name
      → OneLine help
      → OneLine kind
      → OneLine value
      → IsPlain (metric name help kind value)

metric_lines-OneLine : (ms : List Metric) → All IsPlain ms → All OneLine (metric_lines ms)
unfolding metric_lines
metric_lines-OneLine [] h = tt
metric_lines-OneLine (metric name help kind value ∷ ms) (plain n h k v, r) = (
  OneLine-append (codes "# HELP ") (name ++ (b' ' ∷ help)) (ground arith)
      (OneLine-append name (b' ' ∷ help) n (refl, h)),
  (
    OneLine-append (codes "# TYPE ") (name ++ (b' ' ∷ kind)) (ground arith)
        (OneLine-append name (b' ' ∷ kind) n (refl, k)),
    (OneLine-append name (b' ' ∷ value) n (refl, v), metric_lines-OneLine ms r),
  ),
)

all_metrics-IsPlain :
    (uptime : Bytes) (m : Metrics) → OneLine uptime → All IsPlain (all_metrics uptime m)
all_metrics-IsPlain uptime m u = (
  plain (ground arith) (ground arith) (ground arith) u,
  (
    plain (ground arith) (ground arith) (ground arith) (itoa-HasNo_newline _),
    (
      plain (ground arith) (ground arith) (ground arith) (itoa-HasNo_newline _),
      (
        plain (ground arith) (ground arith) (ground arith) (itoa-HasNo_newline _),
        (
          plain (ground arith) (ground arith) (ground arith) (itoa-HasNo_newline _),
          (
            plain (ground arith) (ground arith) (ground arith) (itoa-HasNo_newline _),
            (
              plain (ground arith) (ground arith) (ground arith) (itoa-HasNo_newline _),
              (
                plain (ground arith) (ground arith) (ground arith) (itoa-HasNo_newline _),
                (plain (ground arith) (ground arith) (ground arith) (itoa-HasNo_newline _), tt),
              ),
            ),
          ),
        ),
      ),
    ),
  ),
)

read_metric-exposition :
    (name uptime : Bytes) (m : Metrics)
    → OneLine uptime
    → read_metric name (exposition uptime m)
      ≡ read_line (name ++ (b' ' ∷ [])) (metric_lines (all_metrics uptime m) ++ [] ∷ [])
unfolding read_metric exposition
read_metric-exposition name uptime m u = ap (read_line (name ++ (b' ' ∷ []))) (
    split-print_lines (metric_lines (all_metrics uptime m))
      (metric_lines-OneLine (all_metrics uptime m) (all_metrics-IsPlain uptime m u)))

-- A scraper that looks for the line of a metric reads its value, for each of the counters and gauges,
-- and the uptime, whose text is one line.
pub exposition-read :
    (uptime : Bytes) (m : Metrics)
    → OneLine uptime
    → (read_metric (codes "rtsp_proxy_uptime_seconds") (exposition uptime m) ≡ some uptime)
      × ((read_metric (codes "rtsp_proxy_packets_forwarded_total") (exposition uptime m)
            ≡ some (itoa (pos m.packets_forwarded)))
          × ((read_metric (codes "rtsp_proxy_packets_dropped_total") (exposition uptime m)
                ≡ some (itoa (pos m.packets_dropped)))
              × ((read_metric (codes "rtsp_proxy_bytes_forwarded_total") (exposition uptime m)
                    ≡ some (itoa (pos m.bytes_forwarded)))
                  × ((read_metric (codes "rtsp_proxy_reconnects_total") (exposition uptime m)
                        ≡ some (itoa (pos m.reconnects)))
                      × ((read_metric (codes "rtsp_proxy_active_streams") (exposition uptime m)
                            ≡ some (itoa m.active_streams))
                          × ((read_metric (codes "rtsp_proxy_active_clients") (exposition uptime m)
                                ≡ some (itoa m.active_clients))
                              × ((read_metric
                                      (codes "rtsp_proxy_auth_failures_total")
                                      (exposition uptime m)
                                    ≡ some (itoa (pos m.auth_failures)))
                                  × (read_metric
                                        (codes "rtsp_proxy_connect_errors_total")
                                        (exposition uptime m)
                                      ≡ some (itoa (pos m.connect_errors))))))))))
unfolding read_line metric_lines has_prefix
exposition-read uptime m u =
    let at = λ (name : Bytes). read_metric-exposition name uptime m u in
    (at _, (at _, (at _, (at _, (at _, (at _, (at _, (at _, at _))))))))
