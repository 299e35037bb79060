-- ===== src/Fanout.antt =====
-- dispatch of rtspproxy/stream.go: the fan-out of one packet to the queues of the clients, in the
-- order in which the map is iterated. The 64-bit counters wrap.
pub mod Isolation
use rtsp_proxy.ClientSession.{ClientSession, push}
use rtsp_proxy.Prelude.Dict.{Dict, lookup}
use rtsp_proxy.Prelude.Int.{ℤ, pos, to_byte, int_eq}
use rtsp_proxy.Prelude.{
  ℕ, suc, ◌+◌, ◌%◌, ◌^◌, Bool, true, false, List, [], ◌∷◌, ◌++◌, Option, none, some, Bytes,
  if◌then◌else◌, length,
}
use rtsp_proxy.Stream.{Stream}

abbrev pub add64 : ℕ → ℕ → ℕ
add64 a b = (a + b) % 2 ^ 64

-- The copy of a packet with the client's channel in its second byte; a packet has four at least.
unfoldable pub for_channel : ℤ → Bytes → Bytes
for_channel channel (dollar ∷ _ ∷ rest) = dollar ∷ to_byte channel ∷ rest
for_channel channel short = short

-- What becomes of one client: its session, and whether a packet was dropped.
unfoldable pub deliver : ℤ → Bytes → ClientSession → ClientSession × Bool
unfolding push for_channel
deliver channel packet cs = elim (lookup channel cs.channels) [
  | none ↦ (cs, false)
  | some client_channel ↦
      let (cs', sent) = push cs (for_channel client_channel packet) in
      (cs', if sent then false else true)
]

-- The sessions after the fan-out, and the number of packets dropped.
unfoldable pub deliver_all : ℤ → Bytes → Dict ℕ ClientSession → Dict ℕ ClientSession × ℕ
deliver_all channel packet [] = ([], 0)
deliver_all channel packet ((client, cs) ∷ m) =
    let (cs', dropped) = deliver channel packet cs in
    let (m', n) = deliver_all channel packet m in
    ((client, cs') ∷ m', (if dropped then suc n else n))

unfoldable pub dispatch : ℕ → Stream → ℤ → Bytes → Stream
unfolding deliver_all
dispatch now s channel packet =
    let (clients, dropped) = deliver_all channel packet s.clients in
    record s {
      packets_forwarded = add64 s.packets_forwarded 1;
      bytes_forwarded = add64 s.bytes_forwarded (length packet);
      session_bytes_forwarded = add64 s.session_bytes_forwarded (length packet);
      last_pkt_time = now;
      clients = clients;
      packets_dropped = add64 s.packets_dropped dropped;
    }
