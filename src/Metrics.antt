-- ===== src/Metrics.antt =====
-- rtspproxy/metrics.go: the counters, their text in the exposition format of Prometheus, and the
-- server that serves it. The uptime, which is a float, is given as its text.
pub mod Reading
use rtsp_proxy.Prelude.Int.{ℤ, pos, leb_ℤ}
use rtsp_proxy.Prelude.{
  ℕ, Bool, true, false, not, List, [], ◌∷◌, ◌++◌, Option, none, some, Bytes, codes, if◌then◌else◌,
}
use rtsp_proxy.Text.Number.{itoa}

-- The counters are unsigned and the gauges signed 64-bit numbers.
pub record Metrics : Type 0 where
  pub packets_forwarded : ℕ
  pub packets_dropped : ℕ
  pub bytes_forwarded : ℕ
  pub reconnects : ℕ
  pub active_streams : ℤ
  pub active_clients : ℤ
  pub auth_failures : ℕ
  pub connect_errors : ℕ

-- A metric of the text: its name, its help, its kind and its value.
pub data Metric : Type 0 where
  metric : Bytes → Bytes → Bytes → Bytes → Metric

-- The three lines of a metric, before those of the others.
unfoldable pub metric_lines : List Metric → List Bytes
metric_lines [] = []
metric_lines (metric name help kind value ∷ ms) =
    (codes "# HELP " ++ (name ++ (b' ' ∷ help)))
    ∷ (codes "# TYPE " ++ (name ++ (b' ' ∷ kind)))
    ∷ (name ++ (b' ' ∷ value))
    ∷ metric_lines ms

abbrev pub all_metrics : Bytes → Metrics → List Metric
all_metrics uptime m =
    metric (codes "rtsp_proxy_uptime_seconds") (codes "Time since process start.") (codes "gauge")
      uptime
    ∷ metric (codes "rtsp_proxy_packets_forwarded_total")
        (codes "RTP packets forwarded to clients.") (codes "counter")
        (itoa (pos m.packets_forwarded))
    ∷ metric (codes "rtsp_proxy_packets_dropped_total")
        (codes "RTP packets dropped (slow clients).") (codes "counter")
        (itoa (pos m.packets_dropped))
    ∷ metric (codes "rtsp_proxy_bytes_forwarded_total") (codes "Bytes of RTP data forwarded.")
        (codes "counter") (itoa (pos m.bytes_forwarded))
    ∷ metric (codes "rtsp_proxy_reconnects_total") (codes "Upstream reconnect attempts.")
        (codes "counter") (itoa (pos m.reconnects))
    ∷ metric (codes "rtsp_proxy_active_streams") (codes "Currently active streams.") (codes "gauge")
        (itoa m.active_streams)
    ∷ metric (codes "rtsp_proxy_active_clients") (codes "Currently connected clients.")
        (codes "gauge") (itoa m.active_clients)
    ∷ metric (codes "rtsp_proxy_auth_failures_total") (codes "Authentication failures.")
        (codes "counter") (itoa (pos m.auth_failures))
    ∷ metric (codes "rtsp_proxy_connect_errors_total") (codes "Upstream connect/dial errors.")
        (codes "counter") (itoa (pos m.connect_errors))
    ∷ []

unfoldable pub print_lines : List Bytes → Bytes
print_lines [] = []
print_lines (l ∷ ls) = l ++ (b'\n' ∷ print_lines ls)

-- What the handler writes.
unfoldable pub exposition : Bytes → Metrics → Bytes
unfolding metric_lines print_lines
exposition uptime m = print_lines (metric_lines (all_metrics uptime m))

-- The metrics server: none, or one on a port.
abbrev pub MetricsServer : Type 0
MetricsServer = Option ℤ

-- StartMetricsServer, with the outcome of net.Listen; the flag says whether the error is nil.
unfoldable pub start_metrics_server : ℤ → Bool → MetricsServer → MetricsServer × Bool
start_metrics_server port listens server =
    if leb_ℤ port (pos 0) then (server, true) else elim server [
      | some p ↦ (some p, true)
      | none ↦ (if listens then (some port, true) else (none, false))
    ]

-- ShutdownMetricsServer, with the outcome of the server's own shutdown.
unfoldable pub shutdown_metrics_server : Bool → MetricsServer → MetricsServer × Bool
shutdown_metrics_server fine none = (none, true)
shutdown_metrics_server fine (some port) = (none, fine)
