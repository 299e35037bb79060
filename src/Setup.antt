-- ===== src/Setup.antt =====
-- handleSetup of rtspproxy/client.go. What happens to the stream while the handler waits for it is a
-- function on the stream.
pub mod Present
pub mod Forwarding
pub mod Mapping
use rtsp_proxy.Client.{
  Client, Woken, server_done, signalled, timed_out, response_not_found, response_bad_request,
  ok_response, set_header, is_empty,
}
use rtsp_proxy.Handlers.{file_name, path_of}
use rtsp_proxy.Message.{header_get, or_else}
use rtsp_proxy.Prelude.Dict.{Dict, bytes_eq_inst, nat_eq, lookup}
use rtsp_proxy.Prelude.{
  ℕ, zero, suc, ◌+◌, ◌-◌, ◌==◌, List, [], ◌∷◌, ◌++◌, Option, none, some, Bytes, bytes_eq, codes,
  if◌then◌else◌, drop,
}
use rtsp_proxy.Remote.{parse_transport}
use rtsp_proxy.Request.{Request}
use rtsp_proxy.Response.{Response}
use rtsp_proxy.Sequence.{lookup_upstream}
use rtsp_proxy.Session.{Session}
use rtsp_proxy.Stream.{Stream, is_state, playing, destroyed, start, add_client, map_channel}
use rtsp_proxy.Text.Number.{atoi}
use rtsp_proxy.Text.{has_prefix, split}
use rtsp_proxy.Transport.{Transport, Substream}

-- How many bytes [^;]* takes.
unfoldable pub value_length : Bytes → ℕ
value_length [] = 0
value_length (c ∷ cs) = let n = value_length cs in if c == b';' then 0 else suc n

abbrev pub at_least_one : ℕ → ℕ → Option ℕ
at_least_one key zero = none
at_least_one key (suc n) = some (key + suc n)

-- (destination|source)=[^;]+ at the front of a text: its length.
unfoldable pub param_length : Bytes → Option ℕ
unfolding value_length
param_length s =
    if has_prefix s (codes "destination=")
    then at_least_one 12 (value_length (drop 12 s))
    else if has_prefix s (codes "source=")
    then at_least_one 7 (value_length (drop 7 s))
    else none

-- The same with ;? in front of it, which stands at a semicolon or at none.
unfoldable pub match_length : Bytes → Option ℕ
unfolding param_length
match_length [] = none
match_length (c ∷ cs) =
    if c == b';'
    then elim (param_length cs) [ none ↦ none | some n ↦ some (suc n) ]
    else param_length (c ∷ cs)

-- ReplaceAllString(transport, ""), from the place where `skip` bytes of a match are still left.
unfoldable pub clean_from : ℕ → Bytes → Bytes
unfolding match_length
clean_from skip [] = []
clean_from (suc skip) (c ∷ cs) = clean_from skip cs
clean_from zero (c ∷ cs) = elim (match_length (c ∷ cs)) [
  | none ↦ c ∷ clean_from zero cs
  | some n ↦ clean_from (n - 1) cs
]

abbrev pub clean_transport : Bytes → Bytes
clean_transport = clean_from 0

-- MapChannel for one channel of the transport; `none` is the panic of a nil substream.
abbrev pub map_substream : ℕ → ℕ → Bytes → Transport → Stream → Option Stream
map_substream client i text t s = elim (lookup i t.substreams) [
  | none ↦ none
  | some sub ↦ some (map_channel s client sub.channel (atoi text).value)
]

abbrev pub then_map : ℕ → ℕ → Bytes → Transport → Option Stream → Option Stream
then_map client i text t none = none
then_map client i text t (some s) = map_substream client i text t s

-- The channels that the client asked for.
unfoldable pub map_channels : ℕ → List Bytes → Transport → Stream → Option Stream
map_channels client [] t s = some s
map_channels client (a ∷ []) t s = map_substream client 0 a t s
map_channels client (a ∷ b ∷ _) t s = then_map client 1 b t (map_substream client 0 a t s)

abbrev pub map_interleaved : ℕ → Bytes → Transport → Stream → Option Stream
map_interleaved client [] t s = some s
map_interleaved client (c ∷ cs) t s = map_channels client (split (c ∷ cs) b'-') t s

abbrev setup_ip : Client → Bytes
setup_ip c = if bytes_eq c.local_addr (codes "0.0.0.0") then codes "127.0.0.1" else c.local_addr

unfoldable pub setup_response : Client → Bytes → Bytes → Transport → Stream → Response
unfolding clean_from
setup_response c transport id t s = set_header (codes "Server") s.server_name (
    set_header (codes "Session") (id ++ codes ";timeout=60") (
      set_header (codes "Cache-Control") (codes "must-revalidate") (
        set_header (codes "Transport")
          (clean_transport transport
            ++ (codes ";ssrc="
                ++ (t.ssrc
                    ++ (codes ";destination="
                        ++ (c.remote_addr ++ (codes ";source=" ++ setup_ip c))))))
          ok_response)))

abbrev pub answered_by :
    Client → Bytes → Bytes → Transport → Option Stream → Option (Stream × Response)
answered_by c transport id t none = none
answered_by c transport id t (some s) = some (s, setup_response c transport id t s)

-- The client joins the stream and its channels are mapped.
unfoldable pub join :
    ℕ → Client → Bytes → Bytes → Session → Transport → Stream → Option (Stream × Response)
unfolding map_channels setup_response
join queue_size c transport interleaved session t s =
    answered_by c transport session.session t
      (map_interleaved c.id interleaved t (add_client queue_size s c.id session.session))

abbrev pub join_found :
    ℕ
    → Client
    → Bytes
    → Dict Bytes Bytes
    → Stream
    → Option (Session × Transport)
    → Option (Stream × Response)
join_found queue_size c transport params s none = some (s, response_bad_request)
join_found queue_size c transport params s (some (session, t)) =
    join queue_size c transport (or_else (lookup (codes "interleaved") params) []) session t s

-- The part behind the wait.
unfoldable pub find_and_join : ℕ → Client → Bytes → Bytes → Stream → Option (Stream × Response)
unfolding join
find_and_join queue_size c name transport s =
    let (protocol, com_type, params) = parse_transport transport in
    join_found queue_size c transport params s (lookup_upstream s name protocol com_type)

abbrev pub joined : ℕ → Client → Bytes → Bytes → Stream → Woken → Option (Stream × Response)
joined queue_size c name transport s server_done = some (s, response_bad_request)
joined queue_size c name transport s signalled =
    if is_state s.state destroyed
    then some (s, response_not_found)
    else find_and_join queue_size c name transport s
joined queue_size c name transport s timed_out =
    if is_state s.state playing
    then find_and_join queue_size c name transport s
    else some (s, response_bad_request)

-- The stream after the call and the answer; `none` is a panic.
unfoldable pub handle_setup :
    ℕ → ℕ → (Stream → Stream) → Woken → Client → Stream → Request → Option (Stream × Response)
unfolding find_and_join file_name
handle_setup queue_size now waits woken c s request =
    joined queue_size c (file_name [] (path_of request.url))
      (header_get request.headers (codes "Transport")) (waits (start now s).0) woken
