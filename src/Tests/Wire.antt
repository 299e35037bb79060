-- ===== src/Tests/Wire.antt =====
-- The read loop of rtspproxy/stream.go on concrete bytes.
use rtsp_proxy.Framing.Chunks.{Fits}
use rtsp_proxy.Framing.Faults.{next_item-negative, read_loop-oversize}
use rtsp_proxy.Framing.Wire.{Sent, rtp, rtsp, encode, encode_all, drain-nil, as_item, IsWire}
use rtsp_proxy.Framing.RoundTrip.{read_loop-encode_all}
use rtsp_proxy.Framing.Turns.{extend, next_item-append}
use rtsp_proxy.Framing.{need_more, crash, spin, next_item, breaks, drain, empty_line, read_loop}
use rtsp_proxy.Exchange.{Link}
use rtsp_proxy.Remote.{Net, new_remote}
use rtsp_proxy.Stream.{new_stream}
use rtsp_proxy.Message.{parse_content_length}
use rtsp_proxy.Prelude.Int.{pos, negsuc}
use rtsp_proxy.Prelude.{
  suc, ◌+◌, ◌<◌, ◌≡◌, ◌≢◌, ◌⊎◌, refl, ap, sym, ◌∙◌, arith, List, [], ◌∷◌, ◌++◌, map, Option, none,
  some, false, true, Bytes, codes, length, take, drop,
}
use rtsp_proxy.Text.Number.{atoi}
use rtsp_proxy.Text.Search.{index}
use rtsp_proxy.Text.{has_prefix, trim_space}

abbrev head : Bytes
head = codes "RTSP/1.0 200 OK\r\nContent-Length: 2"

abbrev body : Bytes
body = codes "v="

abbrev a_packet : Sent
a_packet = rtp 1 (7 ∷ 8 ∷ 9 ∷ [])

abbrev sent_items : List Sent
sent_items = a_packet ∷ rtsp head body ∷ a_packet ∷ []

-- The bytes in three chunks, none of which ends where an item ends.
abbrev chunks : List Bytes
chunks =
    take 3 (encode_all sent_items)
    ∷ take 30 (drop 3 (encode_all sent_items))
    ∷ drop 33 (encode_all sent_items)
    ∷ []

head_ends : index (head ++ empty_line) empty_line ≡ some (length head)
unfolding index has_prefix
head_ends = refl

head-length : parse_content_length head ≡ pos (length body)
unfolding parse_content_length atoi trim_space
head-length = refl

message-IsWire : IsWire (rtsp head body)
message-IsWire = (refl, head_ends, head-length, omega arith)

packet-IsWire : IsWire a_packet
packet-IsWire = omega arith

read_loop-encode_all_example : read_loop 4096 [] chunks ≡ (map as_item sent_items, breaks [])
read_loop-encode_all_example =
    read_loop-encode_all sent_items 4096 chunks (omega arith)
      (packet-IsWire, (message-IsWire, (packet-IsWire, tt)))
      (omega arith, (omega arith, (omega arith, tt))) refl

-- A packet cut in two.
abbrev halves : List Bytes
halves = take 5 (encode a_packet) ∷ drop 5 (encode a_packet) ∷ []

first_half : (drain (take 5 (encode a_packet))).1 ≡ breaks (take 5 (encode a_packet))
unfolding drain next_item
first_half = refl

breaks-parts : {r t : Bytes} → breaks r ≡ breaks t → r ≡ t
breaks-parts e = cc

halves-Fits : Fits 4096 [] halves
halves-Fits = λ rest e.
    let nil : rest ≡ [] = breaks-parts (sym e ∙ ap (λ p. p.1) drain-nil) in
    (
      (λ h. omega (arith, h, ap length nil)),
      λ rest' f.
          let same : rest' ≡ take 5 (encode a_packet) =
            breaks-parts
              (sym f ∙ ap (λ r. (drain (r ++ take 5 (encode a_packet))).1) nil ∙ first_half) in
          ((λ h. omega (arith, h, ap length same)), tt),
    )

packet_there : next_item (encode a_packet) ≢ need_more
unfolding next_item
packet_there = λ e. cc

next_item-append_example :
    next_item (encode a_packet ++ (5 ∷ [])) ≡ extend (next_item (encode a_packet)) (5 ∷ [])
next_item-append_example = next_item-append (encode a_packet) (5 ∷ []) packet_there

abbrev negative_head : Bytes
negative_head = codes "A\r\nContent-Length: -30"

negative_ends : index (negative_head ++ empty_line) empty_line ≡ some (length negative_head)
unfolding index has_prefix
negative_ends = refl

negative_length : parse_content_length negative_head ≡ negsuc 29
unfolding parse_content_length atoi trim_space
negative_length = refl

next_item-negative_example :
    ((suc 29 ≡ length negative_head + 4)
      × (next_item (negative_head ++ (empty_line ++ body)) ≡ spin))
    ⊎ ((length negative_head + 4 < suc 29)
        × (next_item (negative_head ++ (empty_line ++ body)) ≡ crash))
next_item-negative_example =
    next_item-negative negative_head body 29 refl negative_ends negative_length (omega arith)
      (omega arith)

read_loop-oversize_example :
    read_loop 5 [] ((b'$' ∷ 1 ∷ 0 ∷ 3 ∷ 7 ∷ []) ∷ (8 ∷ 9 ∷ []) ∷ []) ≡ read_loop 5 (8 ∷ 9 ∷ []) []
read_loop-oversize_example =
    read_loop-oversize 5 1 (7 ∷ 8 ∷ 9 ∷ []) (b'$' ∷ 1 ∷ 0 ∷ 3 ∷ 7 ∷ []) (8 ∷ 9 ∷ []) (8 ∷ 9 ∷ []) []
      (omega arith) (omega arith) refl refl

-- The same bytes with a timeout between them, and then the camera hangs up.
abbrev arrivals : List (Option Bytes)
arrivals =
    some (take 3 (encode_all sent_items))
    ∷ none
    ∷ some (take 30 (drop 3 (encode_all sent_items)))
    ∷ some (drop 33 (encode_all sent_items))
    ∷ []

abbrev net : Net
net = record { server_done = false; dials = none; writes = true; writes_data = true; cnonce = [] }

abbrev watched : Link
watched = record {
  stream = new_stream 5 (codes "cam") (codes "u") (codes "p") (codes "/a");
  remote = new_remote (codes "cam") (codes "u") (codes "p");
}
