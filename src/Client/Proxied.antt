-- ===== src/Client/Proxied.antt =====
-- The first request of a client for rtsp://proxy/rtsp/camera: ParseCommand of rtspproxy/request.go and
-- what incomingRequestHandler of rtspproxy/client.go makes of the URL.
use rtsp_proxy.Client.Target.{targeted, resolve-camera}
use rtsp_proxy.Client.{Client, resolved, is_empty, resolve}
use rtsp_proxy.Message.Headers.{HasNo}
use rtsp_proxy.Message.{ok}
use rtsp_proxy.Prelude.{
  ℕ, ◌≡◌, ◌≢◌, ap, ◌∙◌, true, false, [], ◌∷◌, ◌++◌, Option, some, Bytes, codes,
}
use rtsp_proxy.Request.ProxyUrl.{IsHost, Port, rewrite_url-proxied}
use rtsp_proxy.Request.RoundTrip.{command_line, parse_command-print}
use rtsp_proxy.Request.{Request, blank_request, parse_command}
use rtsp_proxy.Response.Status.{IsWord}
use rtsp_proxy.Text.{has_prefix}
use rtsp_proxy.Url.{Url}

-- The URL of a camera behind the proxy: the proxy's host, its port if there is one, and what follows
-- the scheme in the URL of the camera.
abbrev pub behind_proxy : ℕ → Bytes → Bytes → Bytes → Bytes
behind_proxy h proxy port camera =
    codes "rtsp://" ++ ((h ∷ proxy) ++ (port ++ (codes "/rtsp/" ++ camera)))

abbrev pub first_request : Bytes → Bytes → Bytes → Url → Request
first_request method raw_url version u = record blank_request {
  method = method;
  raw_url = raw_url;
  protocol_version = version;
  url = some u;
}

-- The command line of a client's first request names a camera behind the proxy,
-- rtsp://proxy[:port]/rtsp/camera. It is read with the URL that url.Parse makes of rtsp://camera, and
-- the host, the path and the credentials of this URL become the client's target. The camera's host
-- has no at sign, and its path is neither empty nor / nor begins with /rtsp/.
pub parse_command-targeted :
    (url_parse : Bytes → Option Url) (c : Client) (method version : Bytes) (h : ℕ)
    (proxy port camera : Bytes) (u : Url) (d : ℕ) (path : Bytes)
    → is_empty c.host ≡ true
    → IsWord method
    → method ≢ []
    → IsWord (behind_proxy h proxy port camera)
    → IsWord version
    → version ≢ []
    → IsHost (h ∷ proxy)
    → Port port
    → url_parse (codes "rtsp://" ++ camera) ≡ some u
    → u.path ≡ b'/' ∷ d ∷ path
    → has_prefix (d ∷ path) (codes "rtsp/") ≡ false
    → HasNo b'@' u.host
    → (parse_command url_parse blank_request
          (command_line method (behind_proxy h proxy port camera) version)
        ≡ ok (first_request method (behind_proxy h proxy port camera) version u))
      × (resolve c (first_request method (behind_proxy h proxy port camera) version u) u
          ≡ resolved (targeted c u) u)
parse_command-targeted url_parse c method version h proxy port camera u d path e m nm w v nv i o p s
      n a =
    (
      parse_command-print url_parse blank_request method (behind_proxy h proxy port camera) version
          u m nm w (λ e. cc) v nv (ap url_parse (rewrite_url-proxied h proxy port camera i o) ∙ p),
      resolve-camera c (first_request method (behind_proxy h proxy port camera) version u) u d path
          e s n a,
    )
