-- ===== src/ReadLoop/Whole.antt =====
-- readLoop of rtspproxy/stream.go from the bytes of the camera to the stream.
use rtsp_proxy.Exchange.{Link}
use rtsp_proxy.Framing.{Left, breaks}
use rtsp_proxy.Prelude.{ℕ, false, [], Option, none, some, Bytes}
use rtsp_proxy.ReadLoop.{gets, times_out, fails, Round, Outcome, failed, after_left}
use rtsp_proxy.Remote.{Net}
use rtsp_proxy.Url.{Url}

-- A round in which bytes arrive, or nothing before the timeout.
abbrev pub arrival : ℕ → Net → Option Bytes → Round
arrival now net none = record { done = false; now = now; net = net; read = times_out }
arrival now net (some chunk) = record { done = false; now = now; net = net; read = gets chunk }

abbrev pub bytes_of : Option Bytes → Bytes
bytes_of none = []
bytes_of (some chunk) = chunk

-- The round in which the read fails.
abbrev pub hang_up : ℕ → Net → Round
hang_up now net = record { done = false; now = now; net = net; read = fails }

abbrev pub ends_with : Option Link → Left → Outcome
ends_with out left = after_left out left (λ b l. failed l)

-- The inner loop does not give way to a read.
abbrev IsLast : Left → Type 0
IsLast (breaks b) = ⊥
IsLast _ = Unit
