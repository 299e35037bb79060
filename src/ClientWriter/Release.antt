-- ===== src/ClientWriter/Release.antt =====
-- Destroy of rtspproxy/client.go, and the wait for the writer in it.
use rtsp_proxy.ClientWriter.{
  Writer, writing, draining, gone, Connection, Ready, server_done, received, Taken, whole, part,
  write_next, drain_next, writer_turn, writer_round, destroy, send, panics,
}
use rtsp_proxy.Prelude.{
  ℕ, ◌+◌, ◌≤◌, ◌-◌, ◌≡◌, refl, arith, true, false, List, [], ◌∷◌, Bytes, length,
}

-- The rounds of the writer.
unfoldable pub writer_rounds : Connection → List Ready → Connection
writer_rounds c [] = c
writer_rounds c (r ∷ rs) = writer_rounds (writer_round c r) rs

-- The rounds that the writer still has to do, once the channel is closed.
abbrev work : Writer → List Bytes → ℕ
work writing ps = length ps + 2
work draining ps = length ps + 1
work gone ps = 0

-- A connection on its way out: nothing can be sent or written, and Destroy has been called.
data IsEnding (written : List Bytes) (c : Connection) : Type 0 where
  is_ending :
      c.closed ≡ true
      → c.socket_closed ≡ true
      → c.destroyed ≡ true
      → c.written ≡ written
      → IsEnding written c

-- A round keeps that, and takes work away if there is some.
data Turned (w : List Bytes) (k : ℕ) (c : Connection) : Type 0 where
  turned : IsEnding w c → work c.writer c.channel ≤ k - 1 → Turned w k c

write-Turned :
    (w : List Bytes) (c : Connection) (takes : Taken) (ps : List Bytes)
    → IsEnding w c
    → c.channel ≡ ps
    → Turned w (length ps + 2) (write_next c takes ps)
unfolding write_next
write-Turned w c takes [] (is_ending a b d e) l =
    rw a (turned (is_ending refl b d e) (rw l (ground arith)))
write-Turned w c whole (p ∷ ps) (is_ending a b d e) l =
    rw b (turned (is_ending a refl d e) (ground arith))
write-Turned w c (part n) (p ∷ ps) (is_ending a b d e) l = turned (is_ending a b d e) (ground arith)

drain-Turned :
    (w : List Bytes) (c : Connection) (ps : List Bytes)
    → IsEnding w c
    → c.writer ≡ draining
    → c.channel ≡ ps
    → Turned w (length ps + 1) (drain_next c ps)
unfolding drain_next
drain-Turned w c [] (is_ending a b d e) k l = rw a (turned (is_ending refl b d e) (ground arith))
drain-Turned w c (p ∷ ps) (is_ending a b d e) k l = turned (is_ending a b d e) (rw k (ground arith))

turn-Turned :
    (w : List Bytes) (c : Connection) (s : Writer) (r : Ready)
    → c.writer ≡ s
    → IsEnding w c
    → Turned w (work s c.channel) (writer_turn s c r)
unfolding writer_turn
turn-Turned w c writing server_done k (is_ending a b d e) =
    turned (is_ending a b d e) (ground arith)
turn-Turned w c writing (received takes) k h = write-Turned w c takes c.channel h refl
turn-Turned w c draining r k h = drain-Turned w c c.channel h k refl
turn-Turned w c gone r k h = turned h (rw k (ground arith))

no_work : (s : Writer) (ps : List Bytes) → work s ps ≤ 0 → s ≡ gone
no_work writing ps h = ground arith
no_work draining ps h = ground arith
no_work gone ps h = refl

-- The writer is gone, and the socket has this.
data IsOver (w : List Bytes) (c : Connection) : Type 0 where
  is_over : c.writer ≡ gone → IsEnding w c → IsOver w c

rounds-IsOver :
    (w : List Bytes) (rs : List Ready) (c : Connection)
    → IsEnding w c
    → work c.writer c.channel ≤ length rs
    → IsOver w (writer_rounds c rs)
unfolding writer_rounds writer_round
rounds-IsOver w [] c h k = is_over (no_work c.writer c.channel k) h
rounds-IsOver w (r ∷ rs) c h k = elim (turn-Turned w c c.writer r refl h) [
  | turned t l ↦ rounds-IsOver w rs (writer_turn c.writer c r) t (ground arith)
]

abbrev destroy_of : Connection → Connection
destroy_of c = record c { destroyed = true; socket_closed = true; closed = true }

-- The first Destroy of a client always gets past its wait: whatever the writer is doing, and whatever
-- the socket and the server do meanwhile, after as many rounds as there are data in the channel, and
-- two more, the writer is gone. The socket gets nothing more, nothing can be sent, and a further
-- Destroy does nothing.
pub destroy-Ends :
    (c : Connection) (rs : List Ready)
    → c.destroyed ≡ false
    → length c.channel + 2 ≤ length rs
    → ((writer_rounds (destroy c).0 rs).writer ≡ gone)
      × (((writer_rounds (destroy c).0 rs).written ≡ c.written)
          × ((send (writer_rounds (destroy c).0 rs) [] ≡ panics)
              × ((destroy (writer_rounds (destroy c).0 rs)).1 ≡ false)))
unfolding destroy send
destroy-Ends c rs f k = rw f (
    over (writer_rounds (destroy_of c) rs) (
      rounds-IsOver c.written rs (destroy_of c) (is_ending refl refl refl refl)
        (rounds_enough c.writer)))
  where
    rounds_enough : (s : Writer) → work s c.channel ≤ length rs
    rounds_enough writing = ground arith
    rounds_enough draining = ground arith
    rounds_enough gone = ground arith

    over :
        (d : Connection)
        → IsOver c.written d
        → (d.writer ≡ gone)
          × ((d.written ≡ c.written) × ((send d [] ≡ panics) × ((destroy d).1 ≡ false)))
    over d (is_over g (is_ending a b e w)) = (g, (w, (rw a refl, rw e refl)))
