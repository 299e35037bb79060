-- ===== src/Session.antt =====
-- rtspproxy/session.go: an upstream session, its transports and its keep-alive ticker.
pub mod KeepAlive
pub mod Lookup
use rtsp_proxy.Prelude.Int.{ℤ, pos, ltb_ℤ, ◌-ℤ◌, times, wrap}
use rtsp_proxy.Prelude.{
  ℕ, suc, Bool, true, false, List, [], ◌∷◌, ◌++◌, Option, none, some, Bytes, ◌^◌, if◌then◌else◌,
  length,
}
use rtsp_proxy.Transport.{Transport, new_transport, serves}

-- `quit` says whether the quit channel is there; it is closed and set to nil in one step.
pub record Session : Type 0 where
  pub session : Bytes
  pub timeout : ℤ
  pub transports : List Transport
  pub started : Bool
  pub quit : Bool

unfoldable pub new_session : Bytes → ℤ → Session
new_session id timeout = record {
  session = id;
  timeout = timeout;
  transports = [];
  started = false;
  quit = false;
}

-- The loop over the transports of a session: the first one that serves, and its place.
unfoldable pub find_transport : Bytes → Bytes → Bytes → List Transport → Option (ℕ × Transport)
find_transport name protocol com_type [] = none
find_transport name protocol com_type (t ∷ ts) =
    if serves name protocol com_type t
    then some (0, t)
    else elim (find_transport name protocol com_type ts) [
      | none ↦ none
      | some (i, u) ↦ some (suc i, u)
    ]

-- LookupTransport returns the transport, by its place, and adds it if there is none.
unfoldable pub lookup_transport : Session → Bytes → Bytes → Bytes → Session × ℕ
lookup_transport s name protocol com_type =
    elim (find_transport name protocol com_type s.transports) [
      | some (i, t) ↦ (s, i)
      | none ↦ (
        record s { transports = s.transports ++ new_transport name protocol com_type ∷ [] },
        length s.transports,
      )
    ]

unfoldable pub stop : Session → Session
stop s = if s.started then record s { started = false; quit = false } else s

-- What StartUpstream does: nothing when it runs already, or a ticker with this interval in
-- nanoseconds; time.NewTicker panics on an interval that is not positive.
pub data Started : Type 0 where
  already : Started
  ticking : ℤ → Started
  panics : Started

abbrev pub second : ℕ
second = 1_000_000_000

-- The interval of the ticker, in 64-bit arithmetic.
unfoldable pub interval : ℤ → ℤ
interval timeout =
    let t = wrap (timeout -ℤ pos 5) in
    let t' = if ltb_ℤ t (pos 0) then pos 1 else t in wrap (times t' second)

unfoldable pub start_upstream : Session → Session × Started
start_upstream s = if s.started then (s, already) else (
  record s { started = true; quit = true },
  (if ltb_ℤ (pos 0) (interval s.timeout) then ticking (interval s.timeout) else panics),
)
