-- ===== src/Framing.antt =====
-- readLoop of rtspproxy/stream.go: cutting the bytes from the camera into interleaved packets and
-- RTSP messages. The buffer is its first `length` bytes; the socket is a list of chunks.
pub mod Turns
pub mod Chunks
pub mod Wire
pub mod RoundTrip
pub mod Faults
use rtsp_proxy.Message.{parse_content_length}
use rtsp_proxy.Prelude.Int.{ℤ, pos, negsuc, ◌+ℤ◌, wrap}
use rtsp_proxy.Prelude.{
  ℕ, zero, suc, ◌+◌, ◌*◌, Bool, List, [], ◌∷◌, ◌++◌, Option, none, some, Bytes, ◌==◌, ltb,
  if◌then◌else◌, length, take, drop,
}
use rtsp_proxy.Text.Search.{index}

-- What is dispatched: an interleaved packet with its four-byte header, on a channel, or a message
-- for HandleUpstreamResponse.
pub data Item : Type 0 where
  packet : ℕ → Bytes → Item
  message : Bytes → Item

-- One turn of the inner loop: break for more data, an item and what is behind it, a panic of the
-- slice buffer[:totalMsgLen] at a negative length, or a turn that hands on an empty message and
-- consumes nothing, so that the next turn is the same.
pub data Turn : Type 0 where
  need_more : Turn
  item : Item → Bytes → Turn
  crash : Turn
  spin : Turn

-- A packet, on its whole header.
unfoldable pub cut_packet : ℕ → ℕ → ℕ → Bytes → Turn
cut_packet channel hi lo behind =
    let n = hi * 256 + lo in
    if ltb (length behind) n
    then need_more
    else item (packet channel (b'$' ∷ channel ∷ hi ∷ lo ∷ take n behind)) (drop n behind)

-- A message, by the place of the empty line and the Content-Length.
unfoldable pub cut_total : Bytes → ℤ → Turn
cut_total buffer (negsuc n) = crash
cut_total buffer (pos zero) = spin
cut_total buffer (pos (suc n)) =
    if ltb (length buffer) (suc n)
    then need_more
    else item (message (take (suc n) buffer)) (drop (suc n) buffer)

abbrev pub empty_line : Bytes
empty_line = b'\r' ∷ b'\n' ∷ b'\r' ∷ b'\n' ∷ []

unfoldable pub cut_message : Bytes → Turn
unfolding cut_total
cut_message buffer = elim (index buffer empty_line) [
  | none ↦ need_more
  | some eol ↦ cut_total buffer (wrap (pos (eol + 4) +ℤ parse_content_length (take eol buffer)))
]

abbrev interleaved : Bytes → Turn
interleaved (channel ∷ hi ∷ lo ∷ behind) = cut_packet channel hi lo behind
interleaved _ = need_more

unfoldable pub next_item : Bytes → Turn
unfolding cut_packet cut_message
next_item [] = need_more
next_item (c ∷ cs) = if c == b'$' then interleaved cs else cut_message (c ∷ cs)

-- How the inner loop ends: it breaks with these bytes left, panics, or turns for ever, with an empty
-- message in each turn, of which the first is among the items.
pub data Left : Type 0 where
  breaks : Bytes → Left
  panics : Left
  hangs : Left
  out_of_fuel : Left

unfoldable pub process : ℕ → Bytes → List Item × Left
process zero buffer = ([], out_of_fuel)
process (suc fuel) buffer = elim (next_item buffer) [
  | need_more ↦ ([], breaks buffer)
  | crash ↦ ([], panics)
  | spin ↦ (message [] ∷ [], hangs)
  | item x behind ↦ let (items, left) = process fuel behind in (x ∷ items, left)
]

-- The inner loop with enough fuel for its buffer.
unfoldable pub drain : Bytes → List Item × Left
unfolding process
drain buffer = process (suc (length buffer)) buffer

-- `if length == len(buffer) { length = 0 }`
unfoldable pub clear_full : ℕ → Bytes → Bytes
clear_full size buffer = if length buffer == size then [] else buffer

-- The read loop on the chunks that the socket gives, until it has given all of them.
unfoldable pub read_loop : ℕ → Bytes → List Bytes → List Item × Left
read_loop size buffer [] = drain buffer
read_loop size buffer (chunk ∷ chunks) =
    let (items, left) = drain buffer in
    elim left [
      | breaks rest ↦
          let (more, end) = read_loop size (clear_full size rest ++ chunk) chunks in
          (items ++ more, end)
      | other ↦ (items, other)
    ]
