-- ===== src/Framing/Wire.antt =====
-- What a camera sends, as bytes, and how it is cut when all of it is there.
use rtsp_proxy.Framing.Chunks.{drain_item, drain_more}
use rtsp_proxy.Framing.Turns.{cut_message_at}
use rtsp_proxy.Framing.{
  Item, packet, message, item, cut_packet, cut_total, empty_line, cut_message, next_item, breaks,
  drain,
}
use rtsp_proxy.Message.{parse_content_length}
use rtsp_proxy.Prelude.Int.{pos, ◌+ℤ◌, wrap, max_int}
use rtsp_proxy.Prelude.{
  ℕ, zero, suc, ◌+◌, ◌*◌, ◌/◌, ◌%◌, ◌≤◌, ◌<◌, ◌≡◌, refl, ap, ◌∙◌, arith, false, List, [], ◌∷◌, ◌++◌,
  map, some, Bytes, ◌==◌, length, length-append, take, take-append, drop-append, append_assoc, All,
}
use rtsp_proxy.Text.Search.{index, index-append}

-- What a camera puts on the connection: a packet on a channel, or a message with header and body.
pub data Sent : Type 0 where
  rtp : ℕ → Bytes → Sent
  rtsp : Bytes → Bytes → Sent

abbrev pub encode : Sent → Bytes
encode (rtp channel payload) =
    b'$' ∷ channel ∷ length payload / 256 ∷ length payload % 256 ∷ payload
encode (rtsp head body) = head ++ (empty_line ++ body)

-- How it is dispatched.
abbrev pub as_item : Sent → Item
as_item (rtp channel payload) = packet channel (encode (rtp channel payload))
as_item (rtsp head body) = message (encode (rtsp head body))

abbrev pub NoDollar : Bytes → Type 0
NoDollar [] = ⊥
NoDollar (c ∷ cs) = (c == b'$') ≡ false

-- A payload has at most 65535 bytes. A header block does not start with a dollar sign and has no
-- empty line in it, and its Content-Length is the length of the body.
abbrev pub IsWire : Sent → Type 0
IsWire (rtp channel payload) = length payload < 65536
IsWire (rtsp head body) =
    NoDollar head
    × (index (head ++ empty_line) empty_line ≡ some (length head))
    × (parse_content_length head ≡ pos (length body))
    × (length head + 4 + length body ≤ max_int)

packet_cut :
    (channel : ℕ) (payload rest : Bytes)
    → length payload < 65536
    → next_item (encode (rtp channel payload) ++ rest) ≡ item (as_item (rtp channel payload)) rest
unfolding next_item cut_packet
packet_cut channel payload rest h =
    let n : length payload / 256 * 256 + length payload % 256 ≡ length payload = omega arith in
    rw n (
      ground (
        arith,
        length-append payload rest,
        take-append payload rest (length payload) refl,
        drop-append payload rest (length payload) refl,
      ))

cut_total-here :
    (text rest : Bytes) (n : ℕ)
    → n ≡ length text
    → 0 < n
    → cut_total (text ++ rest) (pos n) ≡ item (message text) rest
unfolding cut_total
cut_total-here text rest zero e p = absurd (omega arith)
cut_total-here text rest (suc n) e p = ground (
  arith,
  length-append text rest,
  take-append text rest (suc n) e,
  drop-append text rest (suc n) e,
)

wrap_sum : (a b : ℕ) → a + b ≤ max_int → wrap (pos a +ℤ pos b) ≡ pos (a + b)
wrap_sum a b h = ground arith

cut_message-here :
    (head body rest : Bytes)
    → IsWire (rtsp head body)
    → cut_message ((head ++ (empty_line ++ body)) ++ rest)
      ≡ item (message (head ++ (empty_line ++ body))) rest
cut_message-here head body rest (d, i, n, h) =
    let text = head ++ (empty_line ++ body) in
    let whole : text ++ rest ≡ (head ++ empty_line) ++ (body ++ rest) = simp append_assoc in
    let found : index (text ++ rest) empty_line ≡ some (length head) =
      ap (λ t. index t empty_line) whole
      ∙ index-append (head ++ empty_line) (body ++ rest) empty_line (length head) i in
    let front : take (length head) (text ++ rest) ≡ head =
      ap (take (length head)) (append_assoc head (empty_line ++ body) rest)
      ∙ take-append head ((empty_line ++ body) ++ rest) (length head) refl in
    cut_message_at (text ++ rest) (length head) found
    ∙ ap (cut_total (text ++ rest)) (
        ap (λ t. wrap (pos (length head + 4) +ℤ parse_content_length t)) front
        ∙ ap (λ z. wrap (pos (length head + 4) +ℤ z)) n
        ∙ wrap_sum (length head + 4) (length body) h)
    ∙ cut_total-here text rest (length head + 4 + length body)
        (omega (arith, length-append head (empty_line ++ body), length-append empty_line body))
        (omega arith)

pub next_item-message :
    (c : ℕ) (cs : Bytes) → (c == b'$') ≡ false → next_item (c ∷ cs) ≡ cut_message (c ∷ cs)
unfolding next_item
next_item-message c cs h = rw h

message_cut :
    (head body rest : Bytes)
    → IsWire (rtsp head body)
    → next_item (encode (rtsp head body) ++ rest) ≡ item (as_item (rtsp head body)) rest
message_cut [] body rest (d, i, n, h) = absurd d
message_cut (c ∷ cs) body rest w = next_item-message c _ w.0 ∙ cut_message-here (c ∷ cs) body rest w

-- The first thing on the connection is what is cut first.
pub next_item-encode :
    (w : Sent) (rest : Bytes) → IsWire w → next_item (encode w ++ rest) ≡ item (as_item w) rest
next_item-encode (rtp channel payload) rest h = packet_cut channel payload rest h
next_item-encode (rtsp head body) rest h = message_cut head body rest h

abbrev pub encode_all : List Sent → Bytes
encode_all [] = []
encode_all (w ∷ ws) = encode w ++ encode_all ws

pub drain-nil : drain [] ≡ ([], breaks [])
drain-nil = drain_more [] (unfold next_item in refl)

pub drain-encode_all :
    (ws : List Sent) → All IsWire ws → drain (encode_all ws) ≡ (map as_item ws, breaks [])
drain-encode_all [] h = drain-nil
drain-encode_all (w ∷ ws) h =
    drain_item _ (encode_all ws) (as_item w) (next_item-encode w (encode_all ws) h.0)
    ∙ ap (λ p. (as_item w ∷ p.0, p.1)) (drain-encode_all ws h.1)
