-- ===== src/Client.antt =====
-- rtspproxy/client.go: the target of a client, and the answers that need no transport. What
-- happens to a stream while a handler waits for it is a function on the stream.
pub mod Identity
pub mod Proxied
pub mod Target
pub mod Answer
use rtsp_proxy.Message.{Headers, header_get}
use rtsp_proxy.Prelude.Dict.{Dict, bytes_eq_inst, lookup, insert}
use rtsp_proxy.Prelude.Int.{ℤ, pos}
use rtsp_proxy.Prelude.{
  ℕ, zero, suc, ◌-◌, Bool, true, false, not, ◌&&◌, ◌||◌, List, [], ◌∷◌, ◌++◌, Option, none, some,
  Bytes, bytes_eq, codes, if◌then◌else◌, length,
}
use rtsp_proxy.Request.{Request}
use rtsp_proxy.Response.{Response, new_response}
use rtsp_proxy.Stream.{Stream, is_state, destroyed, start, remove_client}
use rtsp_proxy.Text.Number.{itoa}
use rtsp_proxy.Text.{contains, has_prefix, split_n, trim_prefix}
use rtsp_proxy.Url.{Url}

-- `id` tells clients apart, as their pointers do.
pub record Client : Type 0 where
  pub id : ℕ
  pub local_addr : Bytes
  pub remote_addr : Bytes
  pub host : Bytes
  pub base_path : Bytes
  pub username : Bytes
  pub password : Bytes

abbrev pub is_empty : Bytes → Bool
is_empty [] = true
is_empty (c ∷ cs) = false

-- User.Username and User.Password, "" where there is none.
abbrev pub username_of : Option (Bytes × Option Bytes) → Bytes
username_of none = []
username_of (some (name, _)) = name

abbrev pub password_of : Option (Bytes × Option Bytes) → Bytes
password_of none = []
password_of (some (_, none)) = []
password_of (some (_, some word)) = word

-- The test `len(parts) >= 2 && parts[0] == "rtsp"`: the host and the path behind the prefix.
unfoldable pub proxied_target : List Bytes → Option (Bytes × Bytes)
proxied_target (p ∷ host ∷ []) = if bytes_eq p (codes "rtsp") then some (host, codes "/") else none
proxied_target (p ∷ host ∷ rest ∷ _) =
    if bytes_eq p (codes "rtsp") then some (host, b'/' ∷ rest) else none
proxied_target _ = none

abbrev pub set_credentials : Client → List Bytes → Client
set_credentials c (name ∷ word ∷ []) = record c { username = name; password = word }
set_credentials c _ = c

abbrev pub split_host : Client → List Bytes → Client
split_host c (auth ∷ host ∷ _) = set_credentials (record c { host = host }) (split_n 1 auth b':')
split_host c _ = c

-- The credentials in front of the host.
unfoldable pub with_credentials : Client → Client
with_credentials c = if contains c.host (codes "@") then split_host c (split_n 1 c.host b'@') else c

-- What the first request of a client comes to: a target, with the URL as it is left in the
-- request, or an answer about the proxy itself, after which the connection ends.
pub data Resolved : Type 0 where
  resolved : Client → Url → Resolved
  probed : Response → Resolved

unfoldable pub probe_answer : Request → Response
probe_answer request = record (new_response (pos 200) (codes "OK" ∷ [])) {
  headers = insert (codes "CSeq") (header_get request.headers (codes "CSeq")) (
      insert (codes "Server") (codes "RTSP-Proxy/1.0") (
        insert (codes "Public") (codes "OPTIONS, DESCRIBE, SETUP, PLAY, TEARDOWN, GET_PARAMETER")
          []));
}

abbrev pub is_probe : Request → Url → Bool
is_probe request u =
    bytes_eq request.method (codes "OPTIONS")
    && (bytes_eq u.path (codes "*") || (bytes_eq u.path (codes "/") || is_empty u.path))

-- The block for a client that has no host yet.
unfoldable pub resolve : Client → Request → Url → Resolved
unfolding proxied_target with_credentials probe_answer
resolve c request u =
    let c' = record c { username = username_of u.user; password = password_of u.user } in
    if not (is_empty c.host)
    then resolved c u
    else elim (proxied_target (split_n 2 (trim_prefix u.path (codes "/")) b'/')) [
      | some (host, path) ↦
          resolved (record (with_credentials (record c' { host = host })) { base_path = path })
            (record u { path = path })
      | none ↦
          if is_probe request u
          then probed (probe_answer request)
          else resolved
              (record (with_credentials (record c' { host = u.host })) { base_path = u.path }) u
    ]

unfoldable pub response_unsupported_transport : Response
response_unsupported_transport =
    record (new_response (pos 461) (codes "Unsupported Transport" ∷ [])) {
      headers =
          insert (codes "Supported") (codes "RTP/AVP/TCP")
            (insert (codes "Transport") (codes "RTP/AVP/TCP;unicast;interleaved=0-1") []);
    }

abbrev pub response_not_found : Response
response_not_found = new_response (pos 404) (codes "Stream Not Found" ∷ [])

abbrev pub response_bad_request : Response
response_bad_request = new_response (pos 400) (codes "Bad Request" ∷ [])

abbrev pub ok_response : Response
ok_response = new_response (pos 200) (codes "OK" ∷ [])

abbrev pub set_header : Bytes → Bytes → Response → Response
set_header k v r = record r { headers = insert k v r.headers }

unfoldable pub handle_get_parameter : Stream → Request → Response
handle_get_parameter s request =
    set_header (codes "Server") s.server_name
      (set_header (codes "Session") (header_get request.headers (codes "Session")) ok_response)

-- The stream after the call, and the answer.
unfoldable pub handle_options : ℕ → (Stream → Stream) → Stream → Stream × Response
handle_options now waits s =
    let s' = if is_empty s.options then waits (start now s).0 else s in
    (
      s',
      set_header (codes "Server") s'.server_name (
          set_header (codes "Public")
            (if is_empty s'.options
              then codes "OPTIONS, DESCRIBE, SETUP, PLAY, TEARDOWN, GET_PARAMETER"
              else s'.options)
            ok_response),
    )

-- Replace every occurrence of `old`, which is not empty; `k` bytes of one are still to be skipped.
unfoldable pub replace_from : Bytes → Bytes → ℕ → Bytes → Bytes
replace_from old new k [] = []
replace_from old new (suc k) (c ∷ cs) = replace_from old new k cs
replace_from old new zero (c ∷ cs) =
    let skipped = replace_from old new (length old - 1) cs in
    let kept = replace_from old new zero cs in
    if has_prefix (c ∷ cs) old then new ++ skipped else c ∷ kept

abbrev pub proxy_ip : Client → Bytes
proxy_ip c =
    if bytes_eq c.local_addr (codes "0.0.0.0") || bytes_eq c.local_addr (codes "127.0.0.1")
    then codes "127.0.0.1"
    else c.local_addr

-- How a wait for a stream ends.
pub data Woken : Type 0 where
  server_done signalled timed_out : Woken

unfoldable pub sdp_answer : Client → Stream → Response
unfolding replace_from
sdp_answer c s =
    let body = replace_from (codes "0.0.0.0") (proxy_ip c) 0 s.sdp in
    record (set_header (codes "Content-Length") (itoa (pos (length body))) (
      set_header (codes "Server") s.server_name
        (set_header (codes "Content-Type") (codes "application/sdp") ok_response))) { body = body }

abbrev pub described : Client → Stream → Woken → Response
described c s server_done = response_bad_request
described c s signalled = if is_state s.state destroyed then response_not_found else sdp_answer c s
described c s timed_out = if is_empty s.sdp then response_bad_request else sdp_answer c s

unfoldable pub handle_describe : ℕ → (Stream → Stream) → Woken → Client → Stream → Stream × Response
unfolding sdp_answer
handle_describe now waits woken c s = let s' = waits (start now s).0 in (s', described c s' woken)

unfoldable pub handle_play : Client → Stream → Request → Response
handle_play c s request =
    set_header (codes "RTP-Info")
      (codes "url=rtsp://" ++ (proxy_ip c ++ (s.path ++ codes ";seq=0;rtptime=0")))
      (set_header (codes "Server") s.server_name (
        set_header (codes "Session") (header_get request.headers (codes "Session"))
          (set_header (codes "Range") (header_get request.headers (codes "Range")) ok_response)))

unfoldable pub handle_teardown : ℕ → Client → Stream → Request → Stream × Response
handle_teardown now c s request =
    let s' = remove_client now s c.id in
    (
      s',
      set_header (codes "Server") s'.server_name
          (set_header (codes "Session") (header_get request.headers (codes "Session")) ok_response),
    )

abbrev pub set_cseq : Bytes → Response → Response
set_cseq [] r = r
set_cseq (c ∷ cs) r = set_header (codes "CSeq") (c ∷ cs) r

abbrev pub set_server : Option Bytes → Response → Response
set_server none r = set_header (codes "Server") (codes "RTSP-Proxy/1.0") r
set_server (some []) r = set_header (codes "Server") (codes "RTSP-Proxy/1.0") r
set_server (some (c ∷ cs)) r = r

-- What is added to every answer before it is written.
unfoldable pub complete : Request → Response → Response
complete request r =
    let r' =
      set_cseq (header_get request.headers (codes "CSeq"))
        (set_header (codes "Via") (codes "RTSP-Proxy") r) in
    set_server (lookup (codes "Server") r'.headers) r'
