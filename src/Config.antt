-- ===== src/Config.antt =====
-- rtspproxy/config.go: the parameters (durations in nanoseconds) and Validate.
use rtsp_proxy.Prelude.Int.{ℤ, pos, leb_ℤ, ltb_ℤ, ◌≤ℤ◌}
use rtsp_proxy.Prelude.{ℕ, ◌*◌, ◌≡◌, refl, arith, List, [], ◌∷◌, if◌then◌else◌}

pub record Config : Type 0 where
  pub dial_timeout : ℤ
  pub read_timeout : ℤ
  pub write_timeout : ℤ
  pub keepalive_int : ℤ
  pub idle_timeout : ℤ
  pub reconnect_backoff : List ℤ
  pub packet_queue_size : ℤ
  pub buffer_size : ℤ
  pub metrics_port : ℤ

abbrev pub seconds : ℕ → ℤ
seconds n = pos (n * 1_000_000_000)

abbrev pub default_config : Config
default_config = record {
  dial_timeout = seconds 5;
  read_timeout = seconds 1;
  write_timeout = seconds 5;
  keepalive_int = seconds 55;
  idle_timeout = seconds 20;
  reconnect_backoff = seconds 1 ∷ seconds 2 ∷ seconds 5 ∷ seconds 10 ∷ seconds 30 ∷ [];
  packet_queue_size = pos 1000;
  buffer_size = pos 65536;
  metrics_port = pos 0;
}

unfoldable pub validate : Config → Config
validate c = record c {
  dial_timeout = if leb_ℤ c.dial_timeout (pos 0) then seconds 5 else c.dial_timeout;
  read_timeout = if leb_ℤ c.read_timeout (pos 0) then seconds 1 else c.read_timeout;
  write_timeout = if leb_ℤ c.write_timeout (pos 0) then seconds 5 else c.write_timeout;
  packet_queue_size = if leb_ℤ c.packet_queue_size (pos 0) then pos 1000 else c.packet_queue_size;
  buffer_size = if ltb_ℤ c.buffer_size (pos 4096) then pos 65536 else c.buffer_size;
}

-- The bounds that Validate is meant to enforce.
pub record IsSane (c : Config) : Type 0 where
  pub dial : pos 1 ≤ℤ c.dial_timeout
  pub read : pos 1 ≤ℤ c.read_timeout
  pub write : pos 1 ≤ℤ c.write_timeout
  pub queue : pos 1 ≤ℤ c.packet_queue_size
  pub buffer : pos 4096 ≤ℤ c.buffer_size

pub validate-IsSane : (c : Config) → IsSane (validate c)
unfolding validate
validate-IsSane c = record {
  dial = ground arith;
  read = ground arith;
  write = ground arith;
  queue = ground arith;
  buffer = ground arith;
}

-- A sane configuration is left as it is.
pub validate_sane : (c : Config) → IsSane c → validate c ≡ c
unfolding validate
validate_sane c v = ground arith

-- Validate makes every configuration sane, whatever the flags gave: positive network timeouts and
-- queue size, and a buffer of 4096 bytes at least. Applied again it changes nothing more, and it
-- never touches the idle timeout, the reconnect backoff, the keep-alive and the metrics port.
pub validate_repairs :
    (c : Config)
    → IsSane (validate c)
      × (validate (validate c) ≡ validate c)
      × ((validate c).idle_timeout ≡ c.idle_timeout)
      × ((validate c).reconnect_backoff ≡ c.reconnect_backoff)
      × ((validate c).keepalive_int ≡ c.keepalive_int)
      × ((validate c).metrics_port ≡ c.metrics_port)
unfolding validate
validate_repairs c =
    (validate-IsSane c, validate_sane (validate c) (validate-IsSane c), refl, refl, refl, refl)
