-- ===== src/Upstream.antt =====
-- HandleUpstreamResponse of rtspproxy/remote.go: the queue of requests and the answer to a 401.
-- url.Parse, URL.String and MD5 are arguments. The block is one step: nothing else touches the queue
-- while a response is handled.
pub mod Answers
pub mod Queue
use rtsp_proxy.Message.{Headers, Result, ok, err, header_get, or_else}
use rtsp_proxy.Prelude.Dict.{Dict, bytes_eq_inst, nat_eq, lookup, insert, delete}
use rtsp_proxy.Prelude.Int.{ℤ, pos, leb_ℤ, eq_ℤ}
use rtsp_proxy.Prelude.{
  ℕ, zero, suc, ◌+◌, Bool, true, false, not, ◌&&◌, ◌||◌, List, [], ◌∷◌, ◌++◌, Option, none, some,
  Bytes, bytes_eq, codes, ◌==◌, if◌then◌else◌,
}
use rtsp_proxy.Remote.{
  Remote, Pending, Net, remote_of, send_request, handle_authentication_failure, read_params,
  parse_transport,
}
use rtsp_proxy.Request.{Request}
use rtsp_proxy.Response.{Response, new_response_from_buffer}
use rtsp_proxy.Session.{Session, Started, panics, lookup_transport, start_upstream}
use rtsp_proxy.Stream.{Stream, lookup_session}
use rtsp_proxy.Text.Number.{itoa, atoi}
use rtsp_proxy.Text.{split, split_n}
use rtsp_proxy.Transport.{Transport, Substream, new_substream}
use rtsp_proxy.Url.{Url}
use rtsp_proxy.Handlers.{handle_method}

abbrev pub is_empty : Bytes → Bool
is_empty [] = true
is_empty (c ∷ cs) = false

-- What a message comes to: it is ignored, its request is sent again, the request is answered with a
-- status for these channels, or a handler panics.
pub data Handled : Type 0 where
  ignored : Handled
  retried : Stream → Remote → Handled
  answered : Stream → Remote → Bytes → List ℕ → Handled
  crashed : Handled

unfoldable pub has_element : ℕ → List Pending → Bool
has_element e [] = false
has_element e (p ∷ ps) = p.element == e || has_element e ps

unfoldable pub remove_element : ℕ → List Pending → List Pending
remove_element e [] = []
remove_element e (p ∷ ps) =
    let rest = remove_element e ps in if p.element == e then ps else p ∷ rest

-- Remove the request from the queue and tell its subscribers.
unfoldable pub conclude : Pending → Request → Stream → Remote → Bytes → Handled
unfolding has_element remove_element
conclude p request s r status =
    answered s (record r { requests = remove_element p.element r.requests }) status
      (if has_element p.element r.requests then request.subscriptions else [])

unfoldable pub error_status : Response → Bytes
error_status response = codes "error " ++ (itoa response.code ++ (codes ": " ++ response.status))

module _ (md5_hex : Bytes → Bytes) (url_print : Url → Bytes) (url_parse : Bytes → Option Url) where
  -- The first 401 to a request, with a WWW-Authenticate header.
  unfoldable pub challenge : Net → Stream → Remote → Pending → Request → Bytes → Handled
  unfolding conclude
  challenge net s r p request params =
      let (r', fine) = handle_authentication_failure r params in
      if not (is_empty r.digest.username) && (not (is_empty r.digest.password) && fine)
      then retried s (
          remote_of (
            send_request md5_hex url_print net
              (record r' {
                objects =
                    insert p.request (record request { attempts = request.attempts + 1 })
                      r'.objects;
              })
              p.request))
      else conclude p request s r' (codes "unauthorized")

  abbrev pub conclude_ok : Pending → Request → Remote → Option Stream → Handled
  conclude_ok p request r none = crashed
  conclude_ok p request r (some s) = conclude p request s r (codes "ok")

  -- A response to the request at the front of the queue.
  unfoldable pub respond : Net → Stream → Remote → Pending → Request → Response → Handled
  unfolding challenge handle_method error_status conclude
  respond net s r p request response =
      let params = header_get response.headers (codes "WWW-Authenticate") in
      if eq_ℤ response.code (pos 401) && request.attempts == 0
      then (if is_empty params
          then conclude p request s r (codes "ok")
          else challenge net s r p request params)
      else if leb_ℤ (pos 400) response.code
      then conclude p request s r (error_status response)
      else conclude_ok p request r (handle_method url_parse s request response)

  abbrev pub respond_to : Net → Stream → Remote → Pending → Response → Option Request → Handled
  respond_to net s r p response none = ignored
  respond_to net s r p response (some request) = respond net s r p request response

  abbrev pub respond_front : Net → Stream → Remote → Response → List Pending → Handled
  respond_front net s r response [] = ignored
  respond_front net s r response (p ∷ ps) =
      respond_to net s r p response (lookup p.request r.objects)

  unfoldable pub handle_upstream_response : Net → Stream → Remote → Bytes → Handled
  unfolding respond
  handle_upstream_response net s r recv = elim (new_response_from_buffer recv) [
    | none ↦ ignored
    | some (err e) ↦ ignored
    | some (ok response) ↦ respond_front net s r response r.requests
  ]
