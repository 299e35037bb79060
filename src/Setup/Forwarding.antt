-- ===== src/Setup/Forwarding.antt =====
-- handleSetup of rtspproxy/client.go and dispatch of rtspproxy/stream.go: a channel that is mapped.
use rtsp_proxy.ClientSession.{ClientSession}
use rtsp_proxy.Fanout.Isolation.{receives, packet_for, map_session, dispatch-isolated}
use rtsp_proxy.Fanout.{dispatch}
use rtsp_proxy.Prelude.Dict.{bytes_eq_inst, nat_eq, lookup}
use rtsp_proxy.Prelude.Int.{ℤ, pos, int_eq}
use rtsp_proxy.Prelude.{ℕ, ◌<◌, ◌≡◌, ap, ◌∙◌, arith, ◌∷◌, Option, some, Bytes}
use rtsp_proxy.Stream.{Stream}

-- The client's session sends upstream channel `u` to its channel `c`.
abbrev pub Maps : ℕ → ℤ → ℤ → Stream → Type 0
Maps client u c s =
    (cs : ClientSession) × ((lookup client s.clients ≡ some cs) × (lookup u cs.channels ≡ some c))

-- Each packet that the stream dispatches on upstream channel `u` gets into the client's queue, with
-- `c` for its channel byte, if the queue has room.
abbrev pub Forwards : ℕ → ℤ → ℕ → Stream → Type 0
Forwards client u c s =
    (cs : ClientSession) × ((lookup client s.clients ≡ some cs)
      × ((later dollar channel : ℕ) (rest : Bytes)
          → lookup client (dispatch later s u (dollar ∷ channel ∷ rest)).clients
            ≡ some (receives cs (some (dollar ∷ c ∷ rest)))))

packet_for-mapped :
    (u : ℤ) (c dollar channel : ℕ) (rest : Bytes) (cs : ClientSession)
    → c < 256
    → lookup u cs.channels ≡ some (pos c)
    → packet_for u (dollar ∷ channel ∷ rest) cs ≡ some (dollar ∷ c ∷ rest)
packet_for-mapped u c dollar channel rest cs l e =
    rw (e, packet_for) (ap (λ (b : ℕ). some (dollar ∷ b ∷ rest)) (omega arith))

pub Maps-Forwards :
    (client : ℕ) (u : ℤ) (c : ℕ) (s : Stream)
    → c < 256
    → Maps client u (pos c) s
    → Forwards client u c s
Maps-Forwards client u c s l (cs, (found, mapped)) = (
  cs,
  (
    found,
    λ later dollar channel rest.
        (dispatch-isolated later s u (dollar ∷ channel ∷ rest) client (omega arith)).0
        ∙ ap
            (map_session
              (λ (v : ClientSession). receives v (packet_for u (dollar ∷ channel ∷ rest) v)))
            found
        ∙ ap (λ (o : Option Bytes). some (receives cs o))
            (packet_for-mapped u c dollar channel rest cs l mapped),
  ),
)
