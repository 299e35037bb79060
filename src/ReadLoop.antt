-- ===== src/ReadLoop.antt =====
-- readLoop of rtspproxy/stream.go with what it does to the stream: Framing cuts the bytes, and the
-- items go to dispatch and to HandleUpstreamResponse.
pub mod Whole
use rtsp_proxy.Exchange.{Link}
use rtsp_proxy.Fanout.{dispatch}
use rtsp_proxy.Framing.{
  Item, packet, message, Left, breaks, panics, hangs, out_of_fuel, drain, clear_full,
}
use rtsp_proxy.Prelude.Int.{pos}
use rtsp_proxy.Prelude.{
  ℕ, Bool, true, false, List, [], ◌∷◌, ◌++◌, Option, none, some, Bytes, if◌then◌else◌,
}
use rtsp_proxy.Remote.{Net, Remote}
use rtsp_proxy.Stream.{Stream}
use rtsp_proxy.Upstream.{Handled, ignored, retried, answered, crashed, handle_upstream_response}
use rtsp_proxy.Url.{Url}

-- What a read of the socket gives: bytes, a timeout, or another error.
pub data Read : Type 0 where
  gets : Bytes → Read
  times_out : Read
  fails : Read

-- A round of the loop: whether the context is done before it, the time and the network of the items
-- in the buffer, and the read at its end.
pub record Round : Type 0 where
  pub done : Bool
  pub now : ℕ
  pub net : Net
  pub read : Read

-- The loop goes on with its buffer, has returned without or with an error, has panicked, or turns for
-- ever.
pub data Outcome : Type 0 where
  reading : Bytes → Link → Outcome
  stopped : Link → Outcome
  failed : Link → Outcome
  broken : Outcome
  hung : Outcome

-- What is left of a message that has been handled, for the stream; none after a panic.
abbrev pub after_message : Link → Handled → Option Link
after_message l ignored = some l
after_message l (retried s r) = some (record { stream = s; remote = r })
after_message l (answered s r status channels) = some (record { stream = s; remote = r })
after_message l crashed = none

abbrev pub after_left : Option Link → Left → (Bytes → Link → Outcome) → Outcome
after_left none left rest = broken
after_left (some l) (breaks b) rest = rest b l
after_left (some l) panics rest = broken
after_left (some l) _ rest = hung

abbrev pub go_on : Option Link → (Link → Option Link) → Option Link
go_on none f = none
go_on (some l) f = f l

module _ (md5_hex : Bytes → Bytes) (url_print : Url → Bytes) (url_parse : Bytes → Option Url) where
  unfoldable pub handle_item : ℕ → Net → Item → Link → Option Link
  handle_item now net (packet channel p) l =
      some (record l { stream = dispatch now l.stream (pos channel) p })
  handle_item now net (message m) l =
      after_message l (handle_upstream_response md5_hex url_print url_parse net l.stream l.remote m)

  unfoldable pub handle_items : ℕ → Net → List Item → Link → Option Link
  unfolding handle_item
  handle_items now net [] l = some l
  handle_items now net (x ∷ xs) l = go_on (handle_item now net x l) (handle_items now net xs)

  -- readLoop over the rounds that there are.
  unfoldable pub read_stream : ℕ → Bytes → List Round → Link → Outcome
  unfolding handle_items
  read_stream size buffer [] l = reading buffer l
  read_stream size buffer (r ∷ rs) l =
      if r.done
      then stopped l
      else (let (items, left) = drain buffer in
          after_left (handle_items r.now r.net items l) left (λ rest l'. elim r.read [
            | gets chunk ↦ read_stream size (clear_full size rest ++ chunk) rs l'
            | times_out ↦ read_stream size (clear_full size rest) rs l'
            | fails ↦ failed l'
          ]))

  -- readLoop from its start: `none` is the error that there is no remote, or that it has no connection.
  unfoldable pub start_reading : ℕ → List Round → Stream → Option Remote → Option Outcome
  unfolding read_stream
  start_reading size rs s none = none
  start_reading size rs s (some r) =
      if r.conn then some (read_stream size [] rs (record { stream = s; remote = r })) else none
