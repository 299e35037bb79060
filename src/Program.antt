-- ===== src/Program.antt =====
-- cmd/main.go: the flags, and the order of start and end. What the system returns is an argument.
use rtsp_proxy.Config.{Config, default_config, seconds, IsSane}
use rtsp_proxy.Metrics.{MetricsServer, start_metrics_server, shutdown_metrics_server}
use rtsp_proxy.Prelude.Int.{ℤ, pos, leb_ℤ, ◌≤ℤ◌}
use rtsp_proxy.Manager.{StreamManager}
use rtsp_proxy.Remote.{Net}
use rtsp_proxy.Server
use rtsp_proxy.Server.{Server, Round, new_server, listen, accept_loop}
use rtsp_proxy.Url.{Url}
use rtsp_proxy.Prelude.{
  ℕ, List, ◌≡◌, ◌↔◌, refl, arith, Bool, true, false, not, ◌||◌, ◌&&◌, none, some, Bytes, bytes_eq,
  codes, if◌then◌else◌,
}

pub record Flags : Type 0 where
  pub log : Bytes
  pub port : ℤ
  pub verbose : Bool
  pub idle_timeout : ℤ
  pub packet_queue_size : ℤ
  pub buffer_size : ℤ
  pub dial_timeout : ℤ
  pub metrics_port : ℤ

abbrev pub default_flags : Flags
default_flags = record {
  log = codes "-";
  port = pos 554;
  verbose = false;
  idle_timeout = seconds 20;
  packet_queue_size = pos 1000;
  buffer_size = pos 65536;
  dial_timeout = seconds 5;
  metrics_port = pos 0;
}

-- The overrides of GlobalConfig.
unfoldable pub apply_flags : Flags → Config → Config
apply_flags f c = record c {
  idle_timeout = f.idle_timeout;
  packet_queue_size = f.packet_queue_size;
  buffer_size = f.buffer_size;
  dial_timeout = f.dial_timeout;
  metrics_port = f.metrics_port;
}

-- What happens in a run: whether the log file opens, whether the metrics port can be listened on,
-- whether the server's address resolves and can be listened on, the rounds of its accept loop until
-- the signal, what the clients do while it waits for them, whether they are gone in time, and
-- whether the metrics server ends without an error.
pub record World : Type 0 where
  pub log_opens : Bool
  pub metrics_listens : Bool
  pub resolves : Bool
  pub listens : Bool
  pub rounds : List Round
  pub waits : StreamManager × ℕ → StreamManager × ℕ
  pub finished : Bool
  pub metrics_fine : Bool

-- How main ends: the exit status, the configuration, and the metrics server that is left.
pub record Exit : Type 0 where
  pub exit_code : ℕ
  pub config : Config
  pub metrics : MetricsServer

abbrev pub exit_with : ℕ → Config → MetricsServer → Exit
exit_with n config metrics = record { exit_code = n; config = config; metrics = metrics }

-- The configuration that main starts the proxy with is sane exactly when the flags are: nothing
-- repairs a dial timeout or a queue size that is not positive, or a buffer of less than 4096 bytes.
pub apply_flags-IsSane :
    (f : Flags)
    → IsSane (apply_flags f default_config)
      ↔ ((pos 1 ≤ℤ f.dial_timeout) × (pos 1 ≤ℤ f.packet_queue_size) × (pos 4096 ≤ℤ f.buffer_size))
unfolding apply_flags
apply_flags-IsSane f = (
  λ s. (s.dial, s.queue, s.buffer),
  λ h. record { dial = h.0; read = omega arith; write = omega arith; queue = h.1; buffer = h.2 },
)

-- Everything that main asks for goes well.
abbrev pub all_well : Flags → World → Bool
all_well f w =
    (bytes_eq f.log (codes "-") || w.log_opens)
    && ((leb_ℤ f.metrics_port (pos 0) || w.metrics_listens)
        && ((w.resolves && w.listens) && w.finished))

module _ (md5_hex : Bytes → Bytes) (url_print : Url → Bytes) (nets : Bytes → Bytes → Net)
    (now : ℕ) where
  -- The server of a run, until the signal and after Shutdown, and whether its error is nil.
  unfoldable pub served_until : World → Server → Server × Bool
  served_until w s =
      Server.shutdown md5_hex url_print nets now w.waits w.finished (accept_loop w.rounds s).0

  -- From the metrics server on.
  unfoldable pub serve : Flags → World → Config → MetricsServer → Exit
  unfolding served_until
  serve f w config metrics =
      let (server, bound) = listen f.port w.resolves w.listens new_server in
      if not bound
      then exit_with 1 config metrics
      else (let (_, fine) = served_until w server in
          if not fine
          then exit_with 1 config metrics
          else exit_with 0 config (shutdown_metrics_server w.metrics_fine metrics).0)

  unfoldable pub main : Flags → World → Exit
  unfolding serve
  main f w =
      if not (bytes_eq f.log (codes "-") || w.log_opens)
      then exit_with 1 default_config none
      else (let config = apply_flags f default_config in
          let (metrics, fine) = start_metrics_server f.metrics_port w.metrics_listens none in
          if fine then serve f w config metrics else exit_with 1 config metrics)

  serve_exit :
      (f : Flags) (w : World) (c : Config) (m : MetricsServer)
      → if (w.resolves && w.listens) && w.finished
        then serve f w c m ≡ exit_with 0 c none
        else (serve f w c m).exit_code ≡ 1
  unfolding serve served_until listen Server.shutdown shutdown_metrics_server
  serve_exit f w c m = ground arith

  -- The exit status is 0, with the flags in force and no metrics server left, exactly when the log
  -- opens, both ports can be listened on, and the clients are gone before Shutdown times out;
  -- otherwise it is 1.
  pub main_exit :
      (f : Flags) (w : World)
      → if all_well f w
        then main f w ≡ exit_with 0 (apply_flags f default_config) none
        else (main f w).exit_code ≡ 1
  unfolding main start_metrics_server
  main_exit f w =
      outcome (bytes_eq f.log (codes "-") || w.log_opens) (leb_ℤ f.metrics_port (pos 0))
        w.metrics_listens refl refl refl
    where
      outcome :
          (log off up : Bool)
          → (bytes_eq f.log (codes "-") || w.log_opens) ≡ log
          → leb_ℤ f.metrics_port (pos 0) ≡ off
          → w.metrics_listens ≡ up
          → if all_well f w
            then main f w ≡ exit_with 0 (apply_flags f default_config) none
            else (main f w).exit_code ≡ 1
      outcome false off up a b c = rw a refl
      outcome true true up a b c = rw (a, b) (serve_exit f w (apply_flags f default_config) none)
      outcome true false true a b c =
          rw (a, b, c) (serve_exit f w (apply_flags f default_config) (some f.metrics_port))
      outcome true false false a b c = rw (a, b, c) refl
