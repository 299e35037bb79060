-- ===== src/Exchange.antt =====
-- rtspproxy/ipc.go and SendRequestSync of rtspproxy/remote.go. What the other goroutines do while
-- the call waits for its channel is a function on the stream and the remote.
pub mod Camera
pub mod Kept
pub mod Sent
pub mod Answered
pub mod Retried
pub mod Harmless
use rtsp_proxy.Prelude.Dict.{Dict, bytes_eq_inst, nat_eq, lookup, insert}
use rtsp_proxy.Prelude.Int.{ℤ, pos}
use rtsp_proxy.Prelude.{
  ℕ, zero, suc, ◌+◌, Bool, true, false, List, [], ◌∷◌, ◌++◌, none, some, Bytes, bytes_eq, codes,
  ◌==◌, if◌then◌else◌,
}
use rtsp_proxy.Remote.{Remote, Pending, Net, SendError, Outcome, done, failed, send_request}
use rtsp_proxy.Request.{Request}
use rtsp_proxy.Stream.{Stream}
use rtsp_proxy.Url.{Url}

-- `channel` tells the channels apart.
pub record Ipc : Type 0 where
  pub channel : ℕ
  pub timeout : ℤ
  pub closed : Bool

unfoldable pub new_ipc : ℕ → List ℤ → Ipc
new_ipc channel args = record {
  channel = channel;
  timeout = elim args [ [] ↦ pos 10 | t ∷ ts ↦ t ];
  closed = false;
}

-- Which case the select of GetResponse takes.
pub data Wake : Type 0 where
  received : Bytes → Wake
  cancelled : Wake
  expired : Wake

abbrev pub result_of : Wake → Bytes
result_of (received status) = status
result_of cancelled = codes "timeout"
result_of expired = codes "timeout"

unfoldable pub get_response : Wake → Ipc → Bytes × Ipc
get_response wake ipc = (result_of wake, record ipc { closed = true })

-- A stream with its remote.
pub record Link : Type 0 where
  pub stream : Stream
  pub remote : Remote

-- One wait: the network of the call, what happens until the channel of the call wakes it, and
-- whether the stream and the server are done by then.
pub record Wait : Type 0 where
  pub net : Net
  pub meanwhile : ℕ → Link → Link × Wake
  pub stream_done : Bool
  pub server_done : Bool

pub data SyncError : Type 0 where
  not_sent : SendError → SyncError
  stream_destroyed server_shut_down : SyncError
  status : Bytes → SyncError
  timeout_after_retry no_transport no_tracks : SyncError

-- What a call comes to: a value, an error, or a panic.
pub data Got {ℓ} (A : Type ℓ) : Type ℓ where
  got : A → Link → Got A
  lost : SyncError → Link → Got A
  panicked : Got A

-- request.Subscriptions holds just this channel.
abbrev pub subscribe : ℕ → Request → Request
subscribe channel request = record request { subscriptions = channel ∷ [] }

abbrev pub change_request : (Request → Request) → ℕ → Dict ℕ Request → Dict ℕ Request
change_request f id objects = elim (lookup id objects) [
  | none ↦ objects
  | some request ↦ insert id (f request) objects
]

-- The request with a new channel, which gets the number of its new element of the queue.
unfoldable pub enqueue : ℕ → Remote → Remote
enqueue id r = record r {
  objects = change_request (subscribe r.next_element) id r.objects;
  requests = r.requests ++ record { element = r.next_element; request = id } ∷ [];
  next_element = r.next_element + 1;
}

-- The loop that removes the first element with this request.
unfoldable pub remove_request : ℕ → List Pending → List Pending
remove_request id [] = []
remove_request id (p ∷ ps) =
    let rest = remove_request id ps in if p.request == id then ps else p ∷ rest

unfoldable pub forget : ℕ → Remote → Remote
unfolding remove_request
forget id r = record r { requests = remove_request id r.requests }

abbrev pub fresh_attempts : Request → Request
fresh_attempts request = record request { attempts = 0 }

-- Before the second attempt.
unfoldable pub reset : ℕ → Remote → Remote
reset id r = record r {
  digest = record r.digest { nonce = []; nc = 0 };
  objects = change_request fresh_attempts id r.objects;
}

-- One pass of the loop: it returns, or goes on.
pub data Attempted : Type 0 where
  returned : Got (Unit {0}) → Attempted
  once_more : Link → Attempted

-- Behind the wait, with the result of GetResponse.
unfoldable pub settle : ℕ → ℕ → Bytes → Link → Attempted
unfolding forget reset
settle attempt id result l =
    if bytes_eq result (codes "timeout")
    then (let r = forget id l.remote in
        if attempt == 0
        then once_more (record l { remote = reset id r })
        else returned (lost (status result) (record l { remote = r })))
    else if bytes_eq result (codes "ok")
    then returned (got tt l)
    else returned (lost (status result) l)

abbrev pub awaited : Wait → ℕ → ℕ → ℕ → Link × Wake → Attempted
awaited w attempt channel id (l, wake) =
    if w.stream_done
    then returned (lost stream_destroyed l)
    else if w.server_done
    then returned (lost server_shut_down l)
    else settle attempt id (get_response wake (new_ipc channel (pos 10 ∷ []))).0 l

abbrev pub sent : Wait → ℕ → ℕ → ℕ → Stream → Outcome → Attempted
sent w attempt channel id s (failed e r) =
    returned (lost (not_sent e) (record { stream = s; remote = forget id r }))
sent w attempt channel id s (done r) =
    awaited w attempt channel id (w.meanwhile channel (record { stream = s; remote = r }))

module _ (md5_hex : Bytes → Bytes) (url_print : Url → Bytes) where
  unfoldable pub attempt_once : Wait → ℕ → ℕ → Link → Attempted
  unfolding enqueue forget settle get_response
  attempt_once w attempt id l =
      sent w attempt l.remote.next_element id l.stream
        (send_request md5_hex url_print w.net (enqueue id l.remote) id)

  -- The loop, with the passes that are left; `waits` has a wait for each attempt.
  unfoldable pub attempts_from : ℕ → (ℕ → Wait) → ℕ → ℕ → Link → Got (Unit {0})
  unfolding attempt_once
  attempts_from zero waits attempt id l = lost timeout_after_retry l
  attempts_from (suc left) waits attempt id l = elim (attempt_once (waits attempt) attempt id l) [
    | returned out ↦ out
    | once_more l' ↦ attempts_from left waits (attempt + 1) id l'
  ]

  -- SendRequestSync on the request object with this number.
  unfoldable pub send_request_sync : (ℕ → Wait) → ℕ → Link → Got (Unit {0})
  unfolding attempts_from
  send_request_sync waits id l = attempts_from 2 waits 0 id l
