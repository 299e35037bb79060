-- ===== src/Remote.antt =====
-- rtspproxy/remote.go: the connection to a camera, its request queue and its authentication.
-- The request objects that the queue points to are kept in `objects`, under their numbers. The
-- socket, MD5, the cnonce and URL.String are arguments. The parts that write into the stream are
-- in Upstream.
use rtsp_proxy.Digest.{Digest, new_digest, compute_response, parse_www_authenticate}
use rtsp_proxy.Message.{Headers}
use rtsp_proxy.Prelude.Dict.{Dict, bytes_eq_inst, nat_eq, lookup, insert}
use rtsp_proxy.Prelude.Int.{ℤ, pos, to_byte}
use rtsp_proxy.Prelude.{
  ℕ, ◌+◌, ◌/◌, ◌%◌, Bool, true, false, not, ◌||◌, List, [], ◌∷◌, ◌++◌, Option, none, some, Bytes,
  codes, if◌then◌else◌, length,
}
use rtsp_proxy.Request.{Request, new_request, print_request}
use rtsp_proxy.Text.Base64.{encode64}
use rtsp_proxy.Text.Number.{itoa}
use rtsp_proxy.Text.{equal_fold, split, split_n}
use rtsp_proxy.Url.{Url, rtsp_url, get_url}

-- An element of the list `requests`: its own identity and the number of the request it points to.
pub record Pending : Type 0 where
  pub element : ℕ
  pub request : ℕ

pub record Remote : Type 0 where
  pub host : Bytes
  -- whether RemoteConn is not nil
  pub conn : Bool
  pub local_addr : Bytes
  pub local_port : Bytes
  pub remote_addr : Bytes
  pub remote_port : Bytes
  pub current_cseq : ℕ
  pub requests : List Pending
  pub objects : Dict ℕ Request
  pub next_element : ℕ
  pub digest : Digest
  -- what has been written to the socket, the latest last
  pub written : List Bytes

abbrev is_empty : Bytes → Bool
is_empty [] = true
is_empty (c ∷ cs) = false

-- NewRemote, once the host has been resolved.
unfoldable pub new_remote : Bytes → Bytes → Bytes → Remote
new_remote host username password = record {
  host = host;
  conn = false;
  local_addr = [];
  local_port = [];
  remote_addr = [];
  remote_port = [];
  current_cseq = 0;
  requests = [];
  objects = [];
  next_element = 0;
  digest =
      if is_empty username
      then new_digest
      else record new_digest { username = username; password = password };
  written = [];
}

-- Disconnect and disconnectLocked
unfoldable pub disconnect : Remote → Remote
disconnect r =
    if r.conn
    then record r {
      conn = false;
      digest = record r.digest { nonce = []; nc = 0 };
      requests = [];
      current_cseq = 0;
    }
    else r

abbrev first : List Bytes → Bytes
first [] = []
first (x ∷ xs) = x

abbrev second : List Bytes → Bytes
second (x ∷ y ∷ xs) = y
second _ = []

pub data SendError : Type 0 where
  shutting_down connect_failed write_failed not_connected : SendError

-- What the network does in one call: the outcome of a dial, with the addresses of the socket, and
-- of each write.
pub record Net : Type 0 where
  pub server_done : Bool
  pub dials : Option (Bytes × Bytes)
  pub writes : Bool
  pub writes_data : Bool
  pub cnonce : Bytes

pub data Outcome : Type 0 where
  done : Remote → Outcome
  failed : SendError → Remote → Outcome

abbrev pub remote_of : Outcome → Remote
remote_of (done r) = r
remote_of (failed e r) = r

unfoldable pub dial_locked : Net → Remote → Outcome
dial_locked net r = if net.server_done then failed shutting_down r else elim net.dials [
  | none ↦ failed connect_failed r
  | some (here, there) ↦ done (record r {
    conn = true;
    local_addr = first (split here b':');
    local_port = second (split here b':');
    remote_addr = first (split there b':');
    remote_port = second (split there b':');
    current_cseq = 0;
  })
]

abbrev quoted : Bytes → Bytes → Bytes
quoted name value = name ++ (b'=' ∷ b'"' ∷ (value ++ (b'"' ∷ [])))

-- The value of the Authorization header for a digest with a nonce.
unfoldable pub digest_authorization : Digest → Bytes → Bytes × Bytes × Bytes → Bytes
digest_authorization d uri (response, nc_str, cnonce) =
    codes "Digest "
    ++ (quoted (codes "username") d.username
        ++ (codes ", "
            ++ (quoted (codes "realm") d.realm
                ++ (codes ", "
                    ++ (quoted (codes "nonce") d.nonce
                        ++ (codes ", "
                            ++ (quoted (codes "uri") uri
                                ++ (codes ", "
                                    ++ (quoted (codes "response") response
                                        ++ ((if is_empty d.qop
                                              then []
                                              else codes ", qop="
                                                ++ (d.qop
                                                    ++ (codes ", nc="
                                                        ++ (nc_str
                                                            ++ (codes ", "
                                                            ++ quoted (codes "cnonce") cnonce)))))
                                            ++ ((if is_empty d.opaque
                                                  then []
                                                  else codes ", "
                                                    ++ quoted (codes "opaque") d.opaque)
                                                ++ (if is_empty d.algorithm
                                                      || equal_fold d.algorithm (codes "MD5")
                                                    then []
                                                    else codes ", algorithm="
                                                      ++ d.algorithm))))))))))))

unfoldable pub basic_authorization : Digest → Bytes
basic_authorization d = codes "Basic " ++ encode64 (d.username ++ (b':' ∷ d.password))

abbrev pub set_authorization : Headers → Option Bytes → Headers
set_authorization headers none = headers
set_authorization headers (some v) = insert (codes "Authorization") v headers

module _ (md5_hex : Bytes → Bytes) (url_print : Url → Bytes) where
  -- createAuthenticatorStr: the digest after it, and the header to set, if any.
  unfoldable pub create_authenticator : Bytes → Digest → Request → Url → Digest × Option Bytes
  unfolding digest_authorization basic_authorization
  create_authenticator cnonce d request url =
      if is_empty d.realm || (is_empty d.username || is_empty d.password)
      then (d, none)
      else if not (is_empty d.nonce)
      then (let uri = url_print (get_url url) in
          let (d', parts) = compute_response md5_hex cnonce d request.method uri in
          (d', some (digest_authorization d' uri parts)))
      else (d, some (basic_authorization d))

  -- The part of SendRequest with a connection: number the request, authenticate and write it.
  unfoldable pub write_request : Net → Remote → ℕ → Request → Url → Outcome
  unfolding create_authenticator
  write_request net r id request url =
      let cseq = r.current_cseq + 1 in
      let numbered = insert (codes "CSeq") (itoa (pos cseq)) request.headers in
      let (digest, auth) = create_authenticator net.cnonce r.digest request url in
      let request' = record request { headers = set_authorization numbered auth } in
      let r' = record r {
        current_cseq = cseq;
        digest = digest;
        objects = insert id request' r.objects;
      } in
      if net.writes
      then elim (print_request url_print request') [
        | none ↦ done r'
        | some raw ↦ done (record r' { written = r'.written ++ raw ∷ [] })
      ]
      else failed write_failed (disconnect r')

  abbrev pub send_known : Net → Remote → ℕ → Option Request → Outcome
  send_known net r id none = done r
  send_known net r id (some request) = elim request.url [
    | none ↦ done r
    | some url ↦ write_request net r id request url
  ]

  -- SendRequest on the request object with this number.
  unfoldable pub send_request : Net → Remote → ℕ → Outcome
  unfolding write_request dial_locked
  send_request net r id =
      if r.conn then send_known net r id (lookup id r.objects) else elim (dial_locked net r) [
        | failed e r' ↦ failed e r'
        | done r' ↦ send_known net r' id (lookup id r'.objects)
      ]

  -- SendTeardown, its error ignored; the request is a new object.
  unfoldable pub send_teardown : Net → Remote → Bytes → Bytes → Remote
  unfolding send_request new_request
  send_teardown net r path session =
      let request = new_request (codes "TEARDOWN") (rtsp_url r.host path) [] in
      let id = length r.objects in
      remote_of (
        send_request net
          (record r {
            objects =
                insert id
                  (record request { headers = insert (codes "Session") session request.headers })
                  r.objects;
          })
          id)

-- The header of interleaved data: '$', the channel and the length, in one byte and two.
unfoldable pub binary_header : ℤ → ℕ → Bytes
binary_header channel n = b'$' ∷ to_byte channel ∷ n / 256 % 256 ∷ n % 256 ∷ []

unfoldable pub send_binary : Net → Remote → ℤ → Bytes → Outcome
unfolding binary_header
send_binary net r channel payload =
    if not r.conn
    then failed not_connected r
    else if not net.writes
    then failed write_failed (disconnect r)
    else if not net.writes_data
    then failed write_failed (
        disconnect
          (record r { written = r.written ++ binary_header channel (length payload) ∷ [] }))
    else done
        (record r { written = r.written ++ binary_header channel (length payload) ∷ payload ∷ [] })

-- handleAuthenticationFailure
unfoldable pub handle_authentication_failure : Remote → Bytes → Remote × Bool
handle_authentication_failure r params =
    let c = parse_www_authenticate params in
    if is_empty params || (is_empty r.digest.username || is_empty r.digest.password)
    then (r, false)
    else if c.is_digest
    then (
      record r {
        digest = record r.digest {
          realm = c.realm;
          nonce = c.nonce;
          qop = c.qop;
          opaque = c.opaque;
          algorithm = c.algorithm;
          nc = 0;
        };
      },
      true,
    )
    else if not (is_empty c.realm)
    then (record r { digest = record r.digest { realm = c.realm; nonce = [] } }, true)
    else (r, false)

abbrev pub store_param : List Bytes → Dict Bytes Bytes → Dict Bytes Bytes
store_param (k ∷ v ∷ _) m = insert k v m
store_param _ m = m

-- The loop over name=value parameters of parseTransport and handlePlay.
unfoldable pub read_params : List Bytes → Dict Bytes Bytes → Dict Bytes Bytes
read_params [] m = m
read_params (p ∷ ps) m = read_params ps (store_param (split_n 1 p b'=') m)

-- parseTransport returns (protocol, comType, params).
abbrev pub transport_parts : List Bytes → Bytes × Bytes × Dict Bytes Bytes
transport_parts [] = ([], codes "unicast", [])
transport_parts (protocol ∷ []) = (protocol, codes "unicast", [])
transport_parts (protocol ∷ com_type ∷ params) = (protocol, com_type, read_params params [])

unfoldable pub parse_transport : Bytes → Bytes × Bytes × Dict Bytes Bytes
unfolding read_params
parse_transport [] = ([], [], [])
parse_transport (c ∷ cs) = transport_parts (split (c ∷ cs) b';')
