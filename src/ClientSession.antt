-- ===== src/ClientSession.antt =====
-- rtspproxy/client_session.go: a client's subscription, with its bounded packet queue. The queue
-- is the contents of the Go channel, `capacity` its size. A packet is its bytes.
pub mod Queue
use rtsp_proxy.Prelude.Dict.{Dict}
use rtsp_proxy.Prelude.Int.{ℤ}
use rtsp_proxy.Prelude.{
  ℕ, Bool, true, false, List, [], ◌∷◌, ◌++◌, Option, none, some, Bytes, ltb, if◌then◌else◌, length,
}

pub record ClientSession : Type 0 where
  pub session_id : Bytes
  pub queue : List Bytes
  pub capacity : ℕ
  -- whether quit has been closed
  pub quit : Bool
  pub active : Bool
  -- upstream channel to client channel
  pub channels : Dict ℤ ℤ

unfoldable pub new_client_session : ℕ → Bytes → ClientSession
new_client_session packet_queue_size id = record {
  session_id = id;
  queue = [];
  capacity = packet_queue_size;
  quit = false;
  active = false;
  channels = [];
}

-- Start; the flag says whether the goroutine `run` is started.
unfoldable pub start : ClientSession → ClientSession × Bool
start cs = if cs.active then (cs, false) else (record cs { active = true }, true)

-- Stop; the flag says whether quit is closed by this call (a second close would panic).
unfoldable pub stop : ClientSession → ClientSession × Bool
stop cs = if cs.active then (record cs { active = false; quit = true }, true) else (cs, false)

-- Push sends without blocking.
unfoldable pub push : ClientSession → Bytes → ClientSession × Bool
push cs packet =
    if ltb (length cs.queue) cs.capacity
    then (record cs { queue = cs.queue ++ packet ∷ [] }, true)
    else (cs, false)

unfoldable pub queue_depth : ClientSession → ℕ
queue_depth cs = length cs.queue

-- What the environment decides in one round of `run`: which ready case the select takes, and
-- whether the client's write channel takes the packet within 100 ms.
pub data Choice : Type 0 where
  quitting : Choice
  server_done : Choice
  forward : Bool → Choice

-- What a round does: it returns (after the queue has been drained), it hands a packet to the
-- client's writer, it drops a packet and destroys the slow client, or it waits.
pub data Ran : Type 0 where
  returned : Ran
  forwarded : Bytes → Ran
  slow : Bytes → Ran
  waiting : Ran

abbrev drained : ClientSession → ClientSession
drained cs = record cs { queue = [] }

unfoldable pub forward_packet : ClientSession → List Bytes → Bool → ClientSession × Ran
forward_packet cs [] accepts = (cs, waiting)
forward_packet cs (p ∷ ps) true = (record cs { queue = ps }, forwarded p)
forward_packet cs (p ∷ ps) false = (drained cs, slow p)

-- One round of `run`. The quit case is ready only when quit is closed.
unfoldable pub run_round : ClientSession → Choice → ClientSession × Ran
unfolding forward_packet
run_round cs quitting = if cs.quit then (drained cs, returned) else (cs, waiting)
run_round cs server_done = (drained cs, returned)
run_round cs (forward accepts) = forward_packet cs cs.queue accepts
