-- ===== src/Fanout/Isolation.antt =====
-- dispatch of rtspproxy/stream.go, client by client.
use rtsp_proxy.ClientSession.{ClientSession, push}
use rtsp_proxy.Fanout.{add64, for_channel, deliver, deliver_all, dispatch}
use rtsp_proxy.Prelude.Dict.{Dict, nat_eq, lookup}
use rtsp_proxy.Prelude.Int.{ℤ, int_eq, to_byte}
use rtsp_proxy.Prelude.{
  ℕ, ◌+◌, ◌≤◌, ◌≡◌, take, drop, refl, ap, arith, [], ◌∷◌, ◌++◌, Option, none, some, Bytes, ltb,
  if◌then◌else◌, length, Bool-cases, inl, inr, Option-cases, ◌==◌,
}
use rtsp_proxy.Stream.{Stream}

-- The packet that a client gets, or that its full queue refuses.
abbrev pub packet_for : ℤ → Bytes → ClientSession → Option Bytes
packet_for channel packet cs = elim (lookup channel cs.channels) [
  | none ↦ none
  | some c ↦ some (take 1 packet ++ (to_byte c ∷ drop 2 packet))
]

-- What a client that has a packet coming is left with: the packet at the end of its queue if there
-- is room, and the same session if there is none.
abbrev pub receives : ClientSession → Option Bytes → ClientSession
receives cs none = cs
receives cs (some p) =
    if ltb (length cs.queue) cs.capacity then record cs { queue = cs.queue ++ p ∷ [] } else cs

abbrev pub misses : ClientSession → Option Bytes → ℕ
misses cs none = 0
misses cs (some p) = if ltb (length cs.queue) cs.capacity then 0 else 1

abbrev pub all_misses : ℤ → Bytes → Dict ℕ ClientSession → ℕ
all_misses channel packet [] = 0
all_misses channel packet ((k, cs) ∷ m) =
    misses cs (packet_for channel packet cs) + all_misses channel packet m

packet_for-none :
    (channel : ℤ) (packet : Bytes) (cs : ClientSession)
    → lookup channel cs.channels ≡ none
    → packet_for channel packet cs ≡ none
packet_for-none channel packet cs e = rw (e, packet_for)

packet_for-some :
    (channel c : ℤ) (packet : Bytes) (cs : ClientSession)
    → lookup channel cs.channels ≡ some c
    → packet_for channel packet cs ≡ some (take 1 packet ++ (to_byte c ∷ drop 2 packet))
packet_for-some channel c packet cs e = rw (e, packet_for)

for_channel-bytes :
    (c : ℤ) (packet : Bytes)
    → 2 ≤ length packet
    → for_channel c packet ≡ take 1 packet ++ (to_byte c ∷ drop 2 packet)
unfolding for_channel
for_channel-bytes c [] h = absurd (omega arith)
for_channel-bytes c (d ∷ []) h = absurd (omega arith)
for_channel-bytes c (d ∷ x ∷ rest) h = refl

deliver-receives :
    (channel : ℤ) (packet : Bytes) (cs : ClientSession)
    → 2 ≤ length packet
    → ((deliver channel packet cs).0 ≡ receives cs (packet_for channel packet cs))
      × ((if (deliver channel packet cs).1 then 1 else 0)
          ≡ misses cs (packet_for channel packet cs))
unfolding deliver push
deliver-receives channel packet cs h = elim (Option-cases (lookup channel cs.channels)) [
  | inl e ↦ rw (packet_for-none channel packet cs e, e, deliver) (refl, refl)
  | inr (c, e) ↦ elim (Bool-cases (ltb (length cs.queue) cs.capacity)) [
    | inl f ↦
        rw (packet_for-some channel c packet cs e, e, deliver, for_channel-bytes c packet h, f)
          (refl, refl)
    | inr f ↦
        rw (packet_for-some channel c packet cs e, e, deliver, for_channel-bytes c packet h, f)
          (refl, refl)
  ]
]

abbrev pub map_session :
    (ClientSession → ClientSession) → Option ClientSession → Option ClientSession
map_session f none = none
map_session f (some cs) = some (f cs)

deliver_all-lookup :
    (channel : ℤ) (packet : Bytes) (m : Dict ℕ ClientSession) (client : ℕ)
    → 2 ≤ length packet
    → lookup client (deliver_all channel packet m).0
      ≡ map_session (λ cs. receives cs (packet_for channel packet cs)) (lookup client m)
unfolding deliver_all lookup
deliver_all-lookup channel packet [] client h = refl
deliver_all-lookup channel packet ((k, cs) ∷ m) client h = elim (Bool-cases (k == client)) [
  | inl e ↦ rw e (ap some (deliver-receives channel packet cs h).0)
  | inr e ↦ rw e (deliver_all-lookup channel packet m client h)
]

deliver_all-dropped :
    (channel : ℤ) (packet : Bytes) (m : Dict ℕ ClientSession)
    → 2 ≤ length packet
    → (deliver_all channel packet m).1 ≡ all_misses channel packet m
unfolding deliver_all
deliver_all-dropped channel packet [] h = refl
deliver_all-dropped channel packet ((k, cs) ∷ m) h =
    ground (arith, (deliver-receives channel packet cs h).1, deliver_all-dropped channel packet m h)

-- Each client is served by itself, whoever else is slow: after dispatch of a packet of two bytes or
-- more, a client that has mapped the channel has the packet, with its own channel in the second
-- byte, at the end of its queue if there was room; with a full queue, or with no mapping, its session
-- is unchanged. No client is added or removed, and the packets that found a full queue are counted
-- as dropped.
pub dispatch-isolated :
    (now : ℕ) (s : Stream) (channel : ℤ) (packet : Bytes) (client : ℕ)
    → 2 ≤ length packet
    → (lookup client (dispatch now s channel packet).clients
        ≡ map_session (λ cs. receives cs (packet_for channel packet cs)) (lookup client s.clients))
      × ((dispatch now s channel packet).packets_dropped
          ≡ add64 s.packets_dropped (all_misses channel packet s.clients))
unfolding dispatch
dispatch-isolated now s channel packet client h = (
  deliver_all-lookup channel packet s.clients client h,
  ap (add64 s.packets_dropped) (deliver_all-dropped channel packet s.clients h),
)
