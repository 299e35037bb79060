-- ===== src/ClientSession/Queue.antt =====
-- Sequences of what happens to the packet queue of rtspproxy/client_session.go.
use rtsp_proxy.ClientSession.{
  ClientSession, new_client_session, start, stop, push, Choice, quitting, server_done, forward, Ran,
  forwarded, forward_packet, run_round,
}
use rtsp_proxy.Prelude.{
  ℕ, ◌≤◌, ◌≡◌, refl, ap, sym, ◌∙◌, arith, Bool, true, false, List, [], ◌∷◌, ◌++◌, Bytes, ltb,
  if◌then◌else◌, length, length-append, append_assoc, append-nil, Bool-cases, inl, inr,
}

-- What other goroutines and the session's own do to it, in some order.
pub data Event : Type 0 where
  pushes : Bytes → Event
  runs : Choice → Event
  starts stops : Event

unfoldable pub step : ClientSession → Event → ClientSession
unfolding push run_round start stop
step cs (pushes p) = (push cs p).0
step cs (runs c) = (run_round cs c).0
step cs starts = (start cs).0
step cs stops = (stop cs).0

unfoldable pub run : ClientSession → List Event → ClientSession
run cs [] = cs
run cs (e ∷ es) = run (step cs e) es

-- The packets that Push has accepted, and those that have gone to the client's writer.
accepted_now : ClientSession → Event → List Bytes
accepted_now cs (pushes p) = if (push cs p).1 then p ∷ [] else []
accepted_now cs _ = []

abbrev from_ran : Ran → List Bytes
from_ran (forwarded p) = p ∷ []
from_ran _ = []

sent_now : ClientSession → Event → List Bytes
sent_now cs (runs c) = from_ran (run_round cs c).1
sent_now cs _ = []

unfoldable pub accepted : ClientSession → List Event → List Bytes
unfolding accepted_now
accepted cs [] = []
accepted cs (e ∷ es) = accepted_now cs e ++ accepted (step cs e) es

unfoldable pub sent : ClientSession → List Event → List Bytes
unfolding sent_now
sent cs [] = []
sent cs (e ∷ es) = sent_now cs e ++ sent (step cs e) es

-- `Sub xs ys`: xs is ys with some members left out, in the same order.
pub data Sub {ℓ} {A : Type ℓ} : List A → List A → Type ℓ where
  nil : Sub [] []
  keep : (x : A) {xs ys : List A} → Sub xs ys → Sub (x ∷ xs) (x ∷ ys)
  skip : (x : A) {xs ys : List A} → Sub xs ys → Sub xs (x ∷ ys)

Sub-refl {ℓ} : {A : Type ℓ} (xs : List A) → Sub xs xs
Sub-refl [] = nil
Sub-refl (x ∷ xs) = keep x (Sub-refl xs)

Sub-skip_all {ℓ} : {A : Type ℓ} (zs : List A) {xs ys : List A} → Sub xs ys → Sub xs (zs ++ ys)
Sub-skip_all [] h = h
Sub-skip_all (z ∷ zs) h = skip z (Sub-skip_all zs h)

Sub-keep_all {ℓ} :
    {A : Type ℓ} (zs : List A) {xs ys : List A} → Sub xs ys → Sub (zs ++ xs) (zs ++ ys)
Sub-keep_all [] h = h
Sub-keep_all (z ∷ zs) h = keep z (Sub-keep_all zs h)

-- One event: what is sent, and what may still be sent, comes from the queue and what is accepted.
abbrev Fifo : ClientSession → Event → Type 0
Fifo cs e =
    (more : List Bytes) (out : List Bytes)
    → Sub out ((step cs e).queue ++ more)
    → Sub (sent_now cs e ++ out) (cs.queue ++ (accepted_now cs e ++ more))

forward-Fifo :
    (cs : ClientSession) (q : List Bytes) (b : Bool)
    → (more out : List Bytes)
    → Sub out ((forward_packet (record cs { queue = q }) q b).0.queue ++ more)
    → Sub (from_ran (forward_packet (record cs { queue = q }) q b).1 ++ out) (q ++ more)
unfolding forward_packet
forward-Fifo cs [] b more out h = h
forward-Fifo cs (p ∷ ps) true more out h = keep p h
forward-Fifo cs (p ∷ ps) false more out h = Sub-skip_all (p ∷ ps) h

step-Fifo : (cs : ClientSession) (e : Event) → Fifo cs e
unfolding step sent_now accepted_now
step-Fifo cs (pushes p) more out h = elim (Bool-cases (ltb (length cs.queue) cs.capacity)) [
  | inl e ↦ rw e (rw (e, step, append_assoc) at h)
  | inr e ↦ rw e (rw (e, step) at h)
]
step-Fifo cs (runs quitting) more out h = elim (Bool-cases cs.quit) [
  | inl e ↦ rw e (Sub-skip_all cs.queue (rw (e, step) at h))
  | inr e ↦ rw e (rw (e, step) at h)
]
step-Fifo cs (runs server_done) more out h = Sub-skip_all cs.queue h
step-Fifo cs (runs (forward b)) more out h = forward-Fifo cs cs.queue b more out h
step-Fifo cs starts more out h = elim (Bool-cases cs.active) [
  | inl e ↦ rw (e, step) at h
  | inr e ↦ rw (e, step) at h
]
step-Fifo cs stops more out h = elim (Bool-cases cs.active) [
  | inl e ↦ rw (e, step) at h
  | inr e ↦ rw (e, step) at h
]

-- Whatever the session's goroutine and the others do, in whatever order: the packets that go to
-- the client's writer, followed by those still in the queue, are the packets that were queued and
-- those that Push has accepted since, in the same order, with some left out; none is sent twice.
pub sent-Sub :
    (cs : ClientSession) (es : List Event)
    → Sub (sent cs es ++ (run cs es).queue) (cs.queue ++ accepted cs es)
unfolding sent accepted run
sent-Sub cs [] = rw append-nil (Sub-refl cs.queue)
sent-Sub cs (e ∷ es) =
    rw append_assoc (step-Fifo cs e (accepted (step cs e) es) _ (sent-Sub (step cs e) es))

-- A session that is not told to stop, and whose client keeps up, loses nothing.
abbrev pub IsLive : List Event → Type 0
IsLive [] = Unit
IsLive (pushes p ∷ es) = IsLive es
IsLive (runs (forward true) ∷ es) = IsLive es
IsLive (starts ∷ es) = IsLive es
IsLive (_ ∷ es) = ⊥

forward-lossless :
    (cs : ClientSession) (q : List Bytes)
    → from_ran (forward_packet (record cs { queue = q }) q true).1
        ++ (forward_packet (record cs { queue = q }) q true).0.queue
      ≡ q
unfolding forward_packet
forward-lossless cs [] = refl
forward-lossless cs (p ∷ ps) = refl

step-lossless :
    (cs : ClientSession) (e : Event) (es : List Event)
    → IsLive (e ∷ es)
    → sent_now cs e ++ (step cs e).queue ≡ cs.queue ++ accepted_now cs e
unfolding step sent_now accepted_now
step-lossless cs (pushes p) es h = elim (Bool-cases (ltb (length cs.queue) cs.capacity)) [
  | inl e ↦ rw (e, step)
  | inr e ↦ rw (e, step, append-nil)
]
step-lossless cs (runs (forward true)) es h = rw append-nil (forward-lossless cs cs.queue)
step-lossless cs starts es h = elim (Bool-cases cs.active) [
  | inl e ↦ rw (e, step, append-nil)
  | inr e ↦ rw (e, step, append-nil)
]
step-lossless cs _ es h = absurd h

IsLive-tail : (e : Event) (es : List Event) → IsLive (e ∷ es) → IsLive es
IsLive-tail (pushes p) es h = h
IsLive-tail (runs (forward true)) es h = h
IsLive-tail starts es h = h
IsLive-tail _ es h = absurd h

-- As long as the session is not stopped, the server runs and the client's writer takes each packet
-- in time, nothing is lost: what was sent and what is queued are all that was queued and accepted.
pub sent-lossless :
    (cs : ClientSession) (es : List Event)
    → IsLive es
    → sent cs es ++ (run cs es).queue ≡ cs.queue ++ accepted cs es
unfolding sent accepted run
sent-lossless cs [] h = rw append-nil
sent-lossless cs (e ∷ es) h =
    append_assoc (sent_now cs e) (sent (step cs e) es) _
    ∙ ap (◌++◌ (sent_now cs e)) (sent-lossless (step cs e) es (IsLive-tail e es h))
    ∙ sym (append_assoc (sent_now cs e) (step cs e).queue _)
    ∙ ap (λ t. t ++ accepted (step cs e) es) (step-lossless cs e es h)
    ∙ append_assoc cs.queue (accepted_now cs e) _

step-bounded :
    (cs : ClientSession) (e : Event)
    → (length cs.queue ≤ cs.capacity)
    → (length (step cs e).queue ≤ (step cs e).capacity)
unfolding step
step-bounded cs (pushes p) v = ground (arith, length-append cs.queue (p ∷ []))
step-bounded cs (runs quitting) v = ground arith
step-bounded cs (runs server_done) v = ground arith
step-bounded cs (runs (forward b)) v = ground arith
step-bounded cs starts v = ground arith
step-bounded cs stops v = ground arith

step-capacity : (cs : ClientSession) (e : Event) → (step cs e).capacity ≡ cs.capacity
unfolding step
step-capacity cs (pushes p) = ground arith
step-capacity cs (runs quitting) = ground arith
step-capacity cs (runs server_done) = refl
step-capacity cs (runs (forward b)) = ground arith
step-capacity cs starts = ground arith
step-capacity cs stops = ground arith

run-within :
    (cs : ClientSession) (es : List Event) (n : ℕ)
    → cs.capacity ≡ n
    → length cs.queue ≤ cs.capacity
    → length (run cs es).queue ≤ n
unfolding run
run-within cs [] n e h = omega arith
run-within cs (v ∷ es) n e h =
    run-within (step cs v) es n (step-capacity cs v ∙ e) (step-bounded cs v h)

-- The queue never holds more packets than the size that NewClientSession gave it.
pub run-bounded :
    (size : ℕ) (id : Bytes) (es : List Event)
    → length (run (new_client_session size id) es).queue ≤ size
unfolding new_client_session
run-bounded size id es = run-within (new_client_session size id) es size refl (omega arith)
