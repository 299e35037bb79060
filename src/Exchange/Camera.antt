-- ===== src/Exchange/Camera.antt =====
-- The wait of SendRequestSync while readLoop hands messages of the camera to HandleUpstreamResponse
-- of rtspproxy/remote.go, and nothing else happens.
use rtsp_proxy.Exchange.{Link, Wake, received, expired}
use rtsp_proxy.Prelude.{ℕ, Bool, false, ◌||◌, List, [], ◌∷◌, Option, Bytes, ◌==◌, if◌then◌else◌}
use rtsp_proxy.Remote.{Net}
use rtsp_proxy.Upstream.{Handled, ignored, retried, answered, crashed, handle_upstream_response}
use rtsp_proxy.Url.{Url}

-- A message, with the network of the request that it may bring about.
pub record Heard : Type 0 where
  pub net : Net
  pub recv : Bytes

abbrev pub has_channel : ℕ → List ℕ → Bool
has_channel channel [] = false
has_channel channel (c ∷ cs) = c == channel || has_channel channel cs

-- The status goes into the channels of the request; the call goes on if its own is one of them.
-- A panic ends the program, and wakes no one.
abbrev pub notify : ℕ → (Link → Link × Wake) → Link → Handled → Link × Wake
notify channel rest l ignored = rest l
notify channel rest l (retried s r) = rest (record { stream = s; remote = r })
notify channel rest l (answered s r status channels) =
    if has_channel channel channels
    then (record { stream = s; remote = r }, received status)
    else rest (record { stream = s; remote = r })
notify channel rest l crashed = (l, expired)

module _ (md5_hex : Bytes → Bytes) (url_print : Url → Bytes) (url_parse : Bytes → Option Url) where
  unfoldable pub camera_says : List Heard → ℕ → Link → Link × Wake
  camera_says [] channel l = (l, expired)
  camera_says (h ∷ hs) channel l =
      notify channel (camera_says hs channel) l
        (handle_upstream_response md5_hex url_print url_parse h.net l.stream l.remote h.recv)
