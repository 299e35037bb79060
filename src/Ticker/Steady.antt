-- ===== src/Ticker/Steady.antt =====
-- The keep-alive of rtspproxy/session.go with a camera that answers.
use rtsp_proxy.Exchange.Answered.{Replies}
use rtsp_proxy.Exchange.{Link, Wait}
use rtsp_proxy.Prelude.{ℕ, suc, ◌≡◌, true, List, [], Option, Bytes}
use rtsp_proxy.Exchange.Sent.{Sends}
use rtsp_proxy.Remote.{Remote}
use rtsp_proxy.Request.{Request}
use rtsp_proxy.Ticker.{get_parameter, Ticked, running}
use rtsp_proxy.Url.{Url}

-- This many requests of ticks have been written, and nothing else.
pub data Pinged (url_print : Url → Bytes) (q : Request) : List Bytes → ℕ → List Bytes → Type 0 where
  no_ping : {before : List Bytes} → Pinged url_print q before 0 before
  ping :
      {before middle after : List Bytes} {n : ℕ}
      → Sends url_print q before middle
      → Pinged url_print q middle n after
      → Pinged url_print q before (suc n) after

-- It still runs on the same stream, with its connection and an empty queue, and has written a
-- GET_PARAMETER for each of `n` ticks.
abbrev pub RunsOn : (Url → Bytes) → Bytes → ℕ → Link → Ticked → Type 0
RunsOn url_print id n l out =
    (r' : Remote) × ((out ≡ running (record { stream = l.stream; remote = r' }))
      × ((r'.requests ≡ [])
          × ((r'.conn ≡ true)
              × Pinged url_print (get_parameter l.remote.host l.stream.path id) l.remote.written n
                  r'.written)))

module _ (md5_hex : Bytes → Bytes) (url_print : Url → Bytes) (url_parse : Bytes → Option Url) where
  -- The camera answers the request of a tick, by a response that is no error.
  abbrev pub Answers : Bytes → Link → (ℕ → Wait) → Type 0
  Answers id l waits =
      (host : Bytes)
      → Replies md5_hex url_print url_parse (waits 0) (get_parameter host l.stream.path id) l.stream
          l.stream
