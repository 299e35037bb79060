-- ===== src/Ticker.antt =====
-- The goroutine of StartUpstream in rtspproxy/session.go, which keeps a session of the camera alive.
-- What its select takes, and what happens while its requests wait, are arguments.
pub mod Steady
use rtsp_proxy.Exchange.{Link, Wait, Got, got, lost, panicked}
use rtsp_proxy.Prelude.Dict.{bytes_eq_inst, insert}
use rtsp_proxy.Prelude.{ℕ, Bool, true, false, List, [], ◌∷◌, Option, Bytes, codes, if◌then◌else◌}
use rtsp_proxy.Request.{Request, new_request}
use rtsp_proxy.Sequence.{call}
use rtsp_proxy.Url.{Url, rtsp_url}

-- The request of a tick.
abbrev pub get_parameter : Bytes → Bytes → Bytes → Request
get_parameter host path id =
    let request = new_request (codes "GET_PARAMETER") (rtsp_url host path) [] in
    record request { headers = insert (codes "Session") id request.headers }

-- A turn of the loop: a tick, with whether the stream has lost its remote by then and with the waits
-- of its request; or the end, because the session is stopped or the stream is done.
pub data Turn : Type 0 where
  ticks : Bool → (ℕ → Wait) → Turn
  quits : Turn
  stream_ends : Turn

-- After some turns the goroutine still runs, has returned, or has panicked.
pub data Ticked : Type 0 where
  running : Link → Ticked
  returned : Link → Ticked
  crashed : Ticked

-- The result of the request is not looked at.
abbrev pub after_tick : (Link → Ticked) → Got (Unit {0}) → Ticked
after_tick rest (got a l) = rest l
after_tick rest (lost e l) = rest l
after_tick rest panicked = crashed

module _ (md5_hex : Bytes → Bytes) (url_print : Url → Bytes) (url_parse : Bytes → Option Url) where
  unfoldable pub keep_alive : Bytes → List Turn → Link → Ticked
  unfolding new_request
  keep_alive id [] l = running l
  keep_alive id (quits ∷ turns) l = returned l
  keep_alive id (stream_ends ∷ turns) l = returned l
  keep_alive id (ticks lost_remote waits ∷ turns) l =
      if lost_remote
      then returned l
      else after_tick (keep_alive id turns)
          (call md5_hex url_print url_parse waits (get_parameter l.remote.host l.stream.path id) l)
