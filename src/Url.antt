-- ===== src/Url.antt =====
-- Go's url.URL, as far as the proxy looks into it; url.Parse and URL.String are parameters of what
-- uses them. `rest` stands for the query, the fragment and the flags.
use rtsp_proxy.Prelude.{List, [], ◌∷◌, Option, none, Bytes, codes, bytes_eq, if◌then◌else◌}
use rtsp_proxy.Text.{split}

pub record Url : Type 0 where
  pub scheme : Bytes
  pub user : Option (Bytes × Option Bytes)
  pub host : Bytes
  pub path : Bytes
  pub rest : Bytes

-- &url.URL{Scheme: "rtsp", Host: host, Path: path}
abbrev pub rtsp_url : Bytes → Bytes → Url
rtsp_url host path = record {
  scheme = codes "rtsp";
  user = none;
  host = host;
  path = path;
  rest = [];
}

-- The host of GetURL: the part before the first colon, if the one behind it is 554.
abbrev pub default_port : List Bytes → Bytes → Bytes
default_port (h ∷ p ∷ _) host = if bytes_eq p (codes "554") then h else host
default_port _ host = host

-- Request.GetURL, on the URL of the request.
unfoldable pub get_url : Url → Url
get_url u = record u { user = none; host = default_port (split u.host b':') u.host }
