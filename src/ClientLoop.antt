-- ===== src/ClientLoop.antt =====
-- incomingRequestHandler of rtspproxy/client.go: what the bytes of a client are cut into, and what
-- becomes of each piece. The socket is a list of chunks, as its reads return them; read timeouts
-- change nothing and are left out. url.Parse is an argument.
pub mod Frames
pub mod Serving
pub mod Leaving
pub mod Ending
pub mod Staying
pub mod Arriving
pub mod Mapped
use rtsp_proxy.Client
use rtsp_proxy.Client.{
  Client, Woken, Resolved, resolved, probed, resolve, response_unsupported_transport,
  response_bad_request, complete, is_empty,
}
use rtsp_proxy.Manager.{StreamManager, get_stream, update_object}
use rtsp_proxy.Message.{Result, ok, err, header_get}
use rtsp_proxy.Prelude.Dict.{Dict, nat_eq, lookup}
use rtsp_proxy.Prelude.Int.{ℤ, pos, eq_ℤ}
use rtsp_proxy.Prelude.{
  ℕ, zero, suc, ◌+◌, ◌*◌, Bool, true, false, not, ◌&&◌, List, [], ◌∷◌, ◌++◌, Option, none, some,
  Bytes, bytes_eq, codes, ◌==◌, ltb, leb, if◌then◌else◌, length, take, drop,
}
use rtsp_proxy.Remote.{Remote, Net, remote_of, send_binary}
use rtsp_proxy.Request.{Request, new_request_from_buffer}
use rtsp_proxy.Response.{Response}
use rtsp_proxy.Session.Lookup.{get_elem?}
use rtsp_proxy.Setup.{handle_setup}
use rtsp_proxy.Stream.{Stream, remove_client}
use rtsp_proxy.Text.{contains}
use rtsp_proxy.Url.{Url}

-- A frame of interleaved data, on the client's channel, or the text of a request.
pub data Event : Type 0 where
  binary : ℕ → Bytes → Event
  asks : Bytes → Event

-- The frame at the front of a buffer that starts with '$', and what is behind it.
unfoldable pub cut_frame : Bytes → Option (Event × Bytes)
cut_frame (dollar ∷ channel ∷ hi ∷ lo ∷ behind) =
    let n = hi * 256 + lo in
    if ltb (length behind) n then none else some (binary channel (take n behind), drop n behind)
cut_frame _ = none

-- What a read leads to: another read, a piece, or reads into a full buffer, which return nothing.
pub data Cut : Type 0 where
  read_more : Bytes → Cut
  piece : Event → Bytes → Cut
  full : Cut

abbrev pub frame_or_more : ℕ → Bytes → Option (Event × Bytes) → Cut
frame_or_more size buffer none = if leb size (length buffer) then full else read_more buffer
frame_or_more size buffer (some (e, behind)) = piece e behind

-- The buffer after a read.
unfoldable pub cut_piece : ℕ → Bytes → Cut
unfolding cut_frame
cut_piece size [] = read_more []
cut_piece size (c ∷ cs) =
    if c == b'$' then frame_or_more size (c ∷ cs) (cut_frame (c ∷ cs)) else piece (asks (c ∷ cs)) []

-- How the reading ends: the client closes the connection, with these bytes in the buffer, or the
-- loop turns without reading.
pub data Ended : Type 0 where
  closed : Bytes → Ended
  spins : Ended

unfoldable pub client_read : ℕ → Bytes → List Bytes → List Event × Ended
unfolding cut_piece
client_read size buffer [] = ([], closed buffer)
client_read size buffer (chunk ∷ chunks) = elim (cut_piece size (buffer ++ chunk)) [
  | read_more rest ↦ client_read size rest chunks
  | piece e rest ↦ let (events, end) = client_read size rest chunks in (e ∷ events, end)
  | full ↦ ([], spins)
]

-- The upstream channel for data of a client: the first that is mapped to its channel.
unfoldable pub upstream_channel : ℤ → Dict ℤ ℤ → ℤ
upstream_channel channel [] = channel
upstream_channel channel ((u, c) ∷ m) =
    let rest = upstream_channel channel m in if eq_ℤ c channel then u else rest

-- The proxy as one client sees it; `current` is the number of its stream.
pub record Proxy : Type 0 where
  pub manager : StreamManager
  pub client : Client
  pub current : Option ℕ

-- What the world does while an event is handled.
pub record Visit : Type 0 where
  pub now : ℕ
  pub queue_size : ℕ
  pub waits : Stream → Stream
  pub woken : Woken
  pub net : Net

abbrev pub change_stream : ℕ → (Stream → Stream) → Proxy → Proxy
change_stream n f p = record p {
  manager = record p.manager { objects = update_object n f p.manager.objects };
}

abbrev pub channels_of : ℕ → Stream → Dict ℤ ℤ
channels_of client s = elim (lookup client s.clients) [ none ↦ [] | some cs ↦ cs.channels ]

-- Data of a client on a stream that has a remote goes to the camera, an error ignored.
unfoldable pub forward_binary : Net → ℕ → ℕ → Bytes → Stream → Stream
unfolding upstream_channel
forward_binary net client channel payload s = elim s.remote [
  | none ↦ s
  | some r ↦ record s {
    remote = some (
        remote_of
          (send_binary net r (upstream_channel (pos channel) (channels_of client s)) payload));
  }
]

unfoldable pub handle_binary : Visit → Proxy → ℕ → Bytes → Proxy
unfolding forward_binary
handle_binary v p channel payload = elim p.current [
  | none ↦ p
  | some n ↦ change_stream n (forward_binary v.net p.client.id channel payload) p
]

-- A Transport header that asks for UDP.
abbrev pub wants_udp : Bytes → Bool
wants_udp transport =
    not (is_empty transport)
    && (contains transport (codes "RTP/AVP") && not (contains transport (codes "RTP/AVP/TCP")))

-- The switch on the method: the stream after the handler, and its answer; `none` is a panic.
unfoldable pub answer : Visit → Client → Stream → Request → Option (Stream × Response)
answer v c s request =
    if bytes_eq request.method (codes "OPTIONS")
    then some (Client.handle_options v.now v.waits s)
    else if bytes_eq request.method (codes "DESCRIBE")
    then some (Client.handle_describe v.now v.waits v.woken c s)
    else if bytes_eq request.method (codes "SETUP")
    then (if wants_udp (header_get request.headers (codes "Transport"))
        then some (s, response_unsupported_transport)
        else handle_setup v.queue_size v.now v.waits v.woken c s request)
    else if bytes_eq request.method (codes "PLAY")
    then some (s, Client.handle_play c s request)
    else if bytes_eq request.method (codes "TEARDOWN")
    then some (Client.handle_teardown v.now c s request)
    else if bytes_eq request.method (codes "GET_PARAMETER")
    then some (s, Client.handle_get_parameter s request)
    else some (s, response_bad_request)

-- What a request comes to: an answer, after which the loop goes on, the end of the connection, with
-- an answer or without, or a panic.
pub data Served : Type 0 where
  answers : Proxy → Response → Served
  hangs_up : Proxy → Option Response → Served
  crashes : Served

abbrev pub answered_by : ℕ → Request → Proxy → Option (Stream × Response) → Served
answered_by n request p none = crashes
answered_by n request p (some (s, response)) =
    answers (change_stream n (λ _. s) p) (complete request response)

-- The stream is there, since GetStream has just returned it.
abbrev pub serve_on : Visit → Request → Proxy → ℕ → Option Stream → Served
serve_on v request p n none = crashes
serve_on v request p n (some s) = answered_by n request p (answer v p.client s request)

-- With the target of the client: LookupStream and the switch.
unfoldable pub serve_target : Visit → Request → Client → Proxy → Served
unfolding answer
serve_target v request c p =
    let (m, n) = get_stream v.now p.manager c.host c.username c.password c.base_path in
    serve_on v request (record { manager = m; client = c; current = some n }) n
      (get_elem? m.objects n)

abbrev pub serve_resolved : Visit → Request → Proxy → Resolved → Served
serve_resolved v request p (probed response) = hangs_up p (some response)
serve_resolved v request p (resolved c u) = serve_target v (record request { url = some u }) c p

-- A request that was read has a URL.
abbrev pub serve_parsed : Visit → Proxy → Request → Option Url → Served
serve_parsed v p request none = crashes
serve_parsed v p request (some u) = serve_resolved v request p (resolve p.client request u)

module _ (url_parse : Bytes → Option Url) where
  unfoldable pub serve_request : Visit → Proxy → Bytes → Served
  unfolding serve_target
  serve_request v p text = elim (new_request_from_buffer url_parse text) [
    | none ↦ crashes
    | some (err e) ↦ hangs_up p none
    | some (ok request) ↦ serve_parsed v p request request.url
  ]

  -- The deferred end of the handler: the client leaves its stream.
  unfoldable pub leave : ℕ → Proxy → Proxy
  leave now p = elim p.current [
    | none ↦ p
    | some n ↦ change_stream n (λ s. remove_client now s p.client.id) p
  ]

  -- The handler over the pieces of a connection, each with what the world does meanwhile: the
  -- answers, and the proxy at its end; `none` after a panic.
  unfoldable pub run_client : ℕ → Proxy → List (Visit × Event) → List Response × Option Proxy
  unfolding serve_request handle_binary leave
  run_client now p [] = ([], some (leave now p))
  run_client now p ((v, binary channel payload) ∷ events) =
      run_client now (handle_binary v p channel payload) events
  run_client now p ((v, asks text) ∷ events) = elim (serve_request v p text) [
    | answers p' response ↦
        let (responses, end) = run_client now p' events in (response ∷ responses, end)
    | hangs_up p' none ↦ ([], some (leave now p'))
    | hangs_up p' (some response) ↦ (response ∷ [], some (leave now p'))
    | crashes ↦ ([], none)
  ]
