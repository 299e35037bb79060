-- ===== src/ClientWriter/Order.antt =====
-- What the socket of a client gets from its write channel.
use rtsp_proxy.ClientSession.Queue.{Sub, nil, keep, skip, Event, sent, accepted, run, sent-Sub}
use rtsp_proxy.ClientSession.{ClientSession}
use rtsp_proxy.ClientWriter.{
  Writer, writing, draining, gone, Connection, capacity, new_connection, Sent, sends, send, Ready,
  server_done, received, Taken, whole, part, write_next, drain_next, writer_turn, writer_round,
  destroy, destroy_end,
}
use rtsp_proxy.Prelude.Int.{ℤ}
use rtsp_proxy.Prelude.{
  ◌≤◌, ◌≡◌, refl, sym, subst, arith, List, [], ◌∷◌, ◌++◌, Bytes, ltb, length, length-append,
  append_assoc, append-nil, Bool-cases, inl, inr,
}

-- What a send adds to the data, and the connection after it.
abbrev pub taken : Bytes → Sent → List Bytes
taken p (sends d) = p ∷ []
taken p _ = []

abbrev pub left_by : Connection → Sent → Connection
left_by c (sends d) = d
left_by c _ = c

-- The states that a connection gets into, with the data that the channel has accepted on the way.
pub data Reach (active : ℤ) : List Bytes → Connection → Type 0 where
  start : Reach active [] (new_connection active)
  sending :
      {all : List Bytes} {c : Connection} (p : Bytes)
      → Reach active all c
      → Reach active (all ++ taken p (send c p)) (left_by c (send c p))
  turning :
      {all : List Bytes} {c : Connection} (ready : Ready)
      → Reach active all c
      → Reach active all (writer_round c ready)
  destroying :
      {all : List Bytes} {c : Connection} → Reach active all c → Reach active all (destroy c).0
  ending :
      {all : List Bytes} {c : Connection} → Reach active all c → Reach active all (destroy_end c)

-- What was accepted is what was written, what was thrown away, which is nothing as long as the
-- writer writes, and what is still in the channel, which has room for no more than its capacity.
pub data Inv (all : List Bytes) (c : Connection) : Type 0 where
  inv :
      (lost : List Bytes)
      → all ≡ c.written ++ (lost ++ c.channel)
      → (c.writer ≡ writing → lost ≡ [])
      → length c.channel ≤ capacity
      → Inv all c

Inv-send :
    (all : List Bytes) (c : Connection) (p : Bytes)
    → Inv all c
    → Inv (all ++ taken p (send c p)) (left_by c (send c p))
unfolding send
Inv-send all c p (inv lost e w b) = elim (Bool-cases c.closed) [
  | inl k ↦ rw (k, append-nil) (inv lost e w b)
  | inr k ↦ elim (Bool-cases (ltb (length c.channel) capacity)) [
    | inl r ↦
        rw (k, r)
          (inv lost (rw e (rw (append_assoc, append_assoc) refl)) w
            (rw length-append (ground arith)))
    | inr r ↦ rw (k, r, append-nil) (inv lost e w b)
  ]
]

Inv-write :
    (all : List Bytes) (c : Connection) (takes : Taken) (ps : List Bytes)
    → c.writer ≡ writing
    → all ≡ c.written ++ ps
    → length ps ≤ capacity
    → c.channel ≡ ps
    → Inv all (write_next c takes ps)
unfolding write_next
Inv-write all c takes [] w e b f = elim (Bool-cases c.closed) [
  | inl k ↦ rw k (inv [] (rw f e) (λ x. refl) (rw f b))
  | inr k ↦ rw k (inv [] (rw f e) (λ x. refl) (rw f b))
]
Inv-write all c (part n) (p ∷ ps) w e b f = inv (p ∷ []) e (λ x. cc) (ground arith)
Inv-write all c whole (p ∷ ps) w e b f = elim (Bool-cases c.socket_closed) [
  | inl k ↦ rw k (inv (p ∷ []) e (λ x. cc) (ground arith))
  | inr k ↦ rw k (inv [] (rw append_assoc e) (λ x. refl) (ground arith))
]

Inv-drain :
    (all : List Bytes) (c : Connection) (lost ps : List Bytes)
    → c.writer ≡ draining
    → all ≡ c.written ++ (lost ++ ps)
    → length ps ≤ capacity
    → c.channel ≡ ps
    → Inv all (drain_next c ps)
unfolding drain_next
Inv-drain all c lost [] w e b f = elim (Bool-cases c.closed) [
  | inl k ↦ rw k (inv lost (rw f e) (λ x. cc) (rw f b))
  | inr k ↦ rw k (inv lost (rw f e) (λ x. cc) (rw f b))
]
Inv-drain all c lost (p ∷ ps) w e b f =
    inv (lost ++ p ∷ []) (rw append_assoc e) (λ x. cc) (ground arith)

Inv-turn :
    (all : List Bytes) (c : Connection) (w : Writer) (ready : Ready)
    → c.writer ≡ w
    → Inv all c
    → Inv all (writer_turn w c ready)
unfolding writer_turn
Inv-turn all c writing server_done k (inv lost e w b) = inv lost e (λ x. cc) b
Inv-turn all c writing (received takes) k (inv lost e w b) =
    Inv-write all c takes c.channel k (rw (w k) at e) b refl
Inv-turn all c draining ready k (inv lost e w b) = Inv-drain all c lost c.channel k e b refl
Inv-turn all c gone ready k (inv lost e w b) = inv lost e w b

pub Reach-Inv : {active : ℤ} {all : List Bytes} {c : Connection} → Reach active all c → Inv all c
unfolding new_connection writer_round destroy destroy_end
Reach-Inv start = inv [] refl (λ w. refl) (ground arith)
Reach-Inv (sending {all} {c} p r) = Inv-send all c p (Reach-Inv r)
Reach-Inv (turning {all} {c} ready r) = Inv-turn all c c.writer ready refl (Reach-Inv r)
Reach-Inv (destroying {all} {c} r) = elim (Reach-Inv r) [
  | inv lost e w b ↦ elim (Bool-cases c.destroyed) [
    | inl k ↦ rw k (inv lost e w b)
    | inr k ↦ rw k (inv lost e w b)
  ]
]
Reach-Inv (ending {all} {c} r) = elim (Reach-Inv r) [ inv lost e w b ↦ inv lost e w b ]

Sub-front : (xs ys : List Bytes) → Sub xs (xs ++ ys)
Sub-front [] [] = nil
Sub-front [] (y ∷ ys) = skip y (Sub-front [] ys)
Sub-front (x ∷ xs) ys = keep x (Sub-front xs ys)

Sub-trans : {xs ys zs : List Bytes} → Sub xs ys → Sub ys zs → Sub xs zs
Sub-trans h (skip z k) = skip z (Sub-trans h k)
Sub-trans (keep x h) (keep _ k) = keep x (Sub-trans h k)
Sub-trans (skip x h) (keep _ k) = skip x (Sub-trans h k)
Sub-trans nil nil = nil

-- From the queue of a session to the socket of its client: what the socket has taken whole is what was
-- queued and what Push has accepted, in the same order, with some left out and none twice, in
-- whatever order the goroutines act, when the write channel gets its data from the session.
pub written-Sub :
    (active : ℤ) (c : Connection) (cs : ClientSession) (es : List Event)
    → Reach active (sent cs es) c
    → Sub c.written (cs.queue ++ accepted cs es)
written-Sub active c cs es r = elim (Reach-Inv r) [
  | inv lost e w b ↦
      Sub-trans
        (Sub-trans (subst (Sub c.written) (sym e) (Sub-front c.written (lost ++ c.channel)))
          (Sub-front (sent cs es) (run cs es).queue))
        (sent-Sub cs es)
]
