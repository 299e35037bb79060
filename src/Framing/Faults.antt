-- ===== src/Framing/Faults.antt =====
-- What the read loop does with a camera that does not keep to the rules.
use rtsp_proxy.Framing.Chunks.{drain_more}
use rtsp_proxy.Framing.Wire.{rtp, encode, NoDollar, next_item-message, drain-nil}
use rtsp_proxy.Framing.RoundTrip.{short_turn}
use rtsp_proxy.Framing.Turns.{cut_message_at}
use rtsp_proxy.Framing.{
  Item, Left, crash, spin, cut_total, empty_line, next_item, breaks, drain, clear_full, read_loop,
}
use rtsp_proxy.Message.{parse_content_length}
use rtsp_proxy.Prelude.Int.{pos, negsuc, ◌+ℤ◌, wrap, max_int}
use rtsp_proxy.Prelude.{
  ℕ, suc, ◌+◌, ◌-◌, ◌≤◌, ◌<◌, ◌≡◌, ◌⊎◌, inl, inr, Bool-cases, ==_iff, refl, ap, sym, ◌∙◌, arith,
  List, [], ◌∷◌, ◌++◌, some, Bytes, ◌==◌, length, take-append, append_assoc, append-nil,
}
use rtsp_proxy.Text.Search.{index, index-append}

wrap_negative : (a n : ℕ) → n ≤ max_int → a ≤ n → wrap (pos a +ℤ negsuc n) ≡ negsuc (n - a)
wrap_negative a n k l = ground arith

wrap_zero : (a n : ℕ) → suc n ≡ a → n ≤ max_int → wrap (pos a +ℤ negsuc n) ≡ pos 0
wrap_zero a n e h = ground arith

negative_total :
    (head rest : Bytes) (n : ℕ)
    → NoDollar head
    → index (head ++ empty_line) empty_line ≡ some (length head)
    → parse_content_length head ≡ negsuc n
    → next_item (head ++ (empty_line ++ rest))
      ≡ cut_total (head ++ (empty_line ++ rest)) (wrap (pos (length head + 4) +ℤ negsuc n))
negative_total [] rest n d i l = absurd d
negative_total (c ∷ cs) rest n d i l =
    let head = c ∷ cs in
    let found : index (head ++ (empty_line ++ rest)) empty_line ≡ some (length head) =
      ap (λ t. index t empty_line) (sym (append_assoc head empty_line rest))
      ∙ index-append (head ++ empty_line) rest empty_line (length head) i in
    next_item-message c _ d
    ∙ cut_message_at (head ++ (empty_line ++ rest)) (length head) found
    ∙ ap
        (λ t.
          cut_total (head ++ (empty_line ++ rest))
            (wrap (pos (length head + 4) +ℤ parse_content_length t)))
        (take-append head (empty_line ++ rest) (length head) refl)
    ∙ ap (λ z. cut_total (head ++ (empty_line ++ rest)) (wrap (pos (length head + 4) +ℤ z))) l

-- A message whose negative Content-Length -(n + 1) outweighs its header block stops the proxy:
-- when the header block with its empty line has exactly n + 1 bytes the loop turns for ever without
-- consuming anything, and when it has fewer, the slice of the buffer panics.
pub next_item-negative :
    (head rest : Bytes) (n : ℕ)
    → NoDollar head
    → index (head ++ empty_line) empty_line ≡ some (length head)
    → parse_content_length head ≡ negsuc n
    → n ≤ max_int
    → length head + 4 ≤ suc n
    → ((suc n ≡ length head + 4) × (next_item (head ++ (empty_line ++ rest)) ≡ spin))
      ⊎ ((length head + 4 < suc n) × (next_item (head ++ (empty_line ++ rest)) ≡ crash))
unfolding cut_total
next_item-negative head rest n d i l hn hh = elim (Bool-cases (suc n == length head + 4)) [
  | inl e ↦
      let same : suc n ≡ length head + 4 = (==_iff (suc n) (length head + 4)).0 e in
      inl (
        same,
        negative_total head rest n d i l ∙ ap (cut_total _) (wrap_zero (length head + 4) n same hn),
      )
  | inr e ↦
      let less : length head + 4 ≤ n = ground arith in
      inr (
        omega arith,
        negative_total head rest n d i l
            ∙ ap (cut_total _) (wrap_negative (length head + 4) n hn less),
      )
]

clear_full-eq : (size : ℕ) (b : Bytes) → length b ≡ size → clear_full size b ≡ []
unfolding clear_full
clear_full-eq size b e = ground arith

read_loop-waits :
    (size : ℕ) (b rest c : Bytes) (cs : List Bytes)
    → drain b ≡ ([], breaks rest)
    → read_loop size b (c ∷ cs) ≡ read_loop size (clear_full size rest ++ c) cs
unfolding read_loop
read_loop-waits size b rest c cs e =
    rw (e, read_loop)
      (ap
        (λ (p : List Item × Left). (
          p.0 ++ (read_loop size (clear_full size rest ++ c) cs).0,
          (read_loop size (clear_full size rest ++ c) cs).1,
        ))
        e)

read_loop-start :
    (size : ℕ) (c : Bytes) (cs : List Bytes) → read_loop size [] (c ∷ cs) ≡ read_loop size c cs
read_loop-start size c cs =
    read_loop-waits size [] [] c cs drain-nil
    ∙ ap (λ t. read_loop size (t ++ c) cs) (clear_full-nil size)
  where
    clear_full-nil : (n : ℕ) → clear_full n [] ≡ []
    clear_full-nil n = unfold clear_full in ground arith

-- A packet that is larger than the buffer, header included, is lost: once its first bytes have
-- filled the buffer they are thrown away, and what follows, the rest of the packet first, is read
-- as if it were the start of an item. With the default buffer of 65536 bytes these are the packets
-- with a payload of more than 65532 bytes, which the two-byte length allows.
pub read_loop-oversize :
    (size channel : ℕ) (payload b r c : Bytes) (cs : List Bytes)
    → length payload < 65536
    → size < length (encode (rtp channel payload))
    → b ++ r ≡ encode (rtp channel payload)
    → length b ≡ size
    → read_loop size [] (b ∷ c ∷ cs) ≡ read_loop size c cs
read_loop-oversize size channel payload b r c cs h large e full =
    let waits = drain_more b (
      short_turn (rtp channel payload) b r [] (next_item b) h
        (e ∙ sym (append-nil (encode (rtp channel payload)))) (omega arith) refl) in
    read_loop-start size b (c ∷ cs)
    ∙ read_loop-waits size b b c cs waits
    ∙ ap (λ t. read_loop size (t ++ c) cs) (clear_full-eq size b full)
