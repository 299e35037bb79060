-- ===== src/Framing/Turns.antt =====
-- One turn of the inner loop of readLoop in rtspproxy/stream.go, with more bytes behind the buffer.
use rtsp_proxy.Framing.{
  Turn, need_more, item, crash, spin, cut_packet, cut_total, interleaved, empty_line, cut_message,
  next_item,
}
use rtsp_proxy.Message.{parse_content_length}
use rtsp_proxy.Prelude.Int.{ℤ, pos, negsuc, ◌+ℤ◌, wrap}
use rtsp_proxy.Prelude.{
  ℕ, zero, suc, ◌+◌, ◌*◌, ◌<◌, ◌≡◌, ◌≢◌, refl, ap, sym, ◌∙◌, arith, [], ◌∷◌, ◌++◌, none, some,
  Bytes, ◌==◌, ltb, length, length-append, length-drop, take, take-append_le, drop-append_le,
  Bool-cases, inl, inr, Option-cases,
}
use rtsp_proxy.Text.Search.{index, index_fits, index-append}

-- The same turn on a longer buffer.
abbrev pub extend : Turn → Bytes → Turn
extend (item x rest) more = item x (rest ++ more)
extend t more = t

cut_packet-append :
    (channel hi lo : ℕ) (behind more : Bytes)
    → cut_packet channel hi lo behind ≢ need_more
    → cut_packet channel hi lo (behind ++ more) ≡ extend (cut_packet channel hi lo behind) more
unfolding cut_packet
cut_packet-append channel hi lo behind more h =
    elim (Bool-cases (ltb (length behind) (hi * 256 + lo))) [
      | inl e ↦ absurd (h (rw e))
      | inr e ↦ ground (
        arith,
        length-append behind more,
        take-append_le (hi * 256 + lo) behind more (ground arith),
        drop-append_le (hi * 256 + lo) behind more (ground arith),
      )
    ]

cut_total-append :
    (buffer more : Bytes) (total : ℤ)
    → cut_total buffer total ≢ need_more
    → cut_total (buffer ++ more) total ≡ extend (cut_total buffer total) more
unfolding cut_total
cut_total-append buffer more (negsuc n) h = refl
cut_total-append buffer more (pos zero) h = refl
cut_total-append buffer more (pos (suc n)) h = elim (Bool-cases (ltb (length buffer) (suc n))) [
  | inl e ↦ absurd (h (rw e))
  | inr e ↦ ground (
    arith,
    length-append buffer more,
    take-append_le (suc n) buffer more (ground arith),
    drop-append_le (suc n) buffer more (ground arith),
  )
]

abbrev pub total_at : Bytes → ℕ → ℤ
total_at buffer eol = wrap (pos (eol + 4) +ℤ parse_content_length (take eol buffer))

pub cut_message_at :
    (buffer : Bytes) (eol : ℕ)
    → index buffer empty_line ≡ some eol
    → cut_message buffer ≡ cut_total buffer (total_at buffer eol)
unfolding cut_message
cut_message_at buffer eol e = rw (e, cut_message)

pub cut_message-none :
    (buffer : Bytes) → index buffer empty_line ≡ none → cut_message buffer ≡ need_more
unfolding cut_message
cut_message-none buffer e = rw (e, cut_message)

cut_message-append :
    (buffer more : Bytes)
    → cut_message buffer ≢ need_more
    → cut_message (buffer ++ more) ≡ extend (cut_message buffer) more
cut_message-append buffer more h = elim (Option-cases (index buffer empty_line)) [
  | inl e ↦ absurd (h (cut_message-none buffer e))
  | inr (eol, e) ↦
      let fits = index_fits buffer empty_line eol e in
      let same : total_at (buffer ++ more) eol ≡ total_at buffer eol =
        ap (λ t. wrap (pos (eol + 4) +ℤ parse_content_length t))
          (take-append_le eol buffer more (omega arith)) in
      let here = cut_message_at buffer eol e in
      cut_message_at (buffer ++ more) eol (index-append buffer more empty_line eol e)
      ∙ ap (cut_total (buffer ++ more)) same
      ∙ cut_total-append buffer more (total_at buffer eol) (λ q. h (here ∙ q))
      ∙ ap (λ t. extend t more) (sym here)
]

interleaved-append :
    (s more : Bytes)
    → interleaved s ≢ need_more
    → interleaved (s ++ more) ≡ extend (interleaved s) more
interleaved-append [] more h = absurd (h refl)
interleaved-append (a ∷ []) more h = absurd (h refl)
interleaved-append (a ∷ b ∷ []) more h = absurd (h refl)
interleaved-append (a ∷ b ∷ c ∷ s) more h = cut_packet-append a b c s more h

-- What can be cut from the buffer is cut in the same way when more bytes have arrived.
pub next_item-append :
    (buffer more : Bytes)
    → next_item buffer ≢ need_more
    → next_item (buffer ++ more) ≡ extend (next_item buffer) more
unfolding next_item
next_item-append [] more h = absurd (h refl)
next_item-append (c ∷ cs) more h = elim (Bool-cases (c == b'$')) [
  | inl e ↦ rw e (interleaved-append cs more (λ q. h (rw e q)))
  | inr e ↦ rw e (cut_message-append (c ∷ cs) more (λ q. h (rw e q)))
]

-- An item takes at least a byte.
abbrev pub Shrinks : Bytes → Turn → Type 0
Shrinks buffer (item x rest) = length rest < length buffer
Shrinks buffer _ = Unit

cut_packet-Shrinks :
    (channel hi lo : ℕ) (behind : Bytes)
    → Shrinks (b'$' ∷ channel ∷ hi ∷ lo ∷ behind) (cut_packet channel hi lo behind)
unfolding cut_packet
cut_packet-Shrinks channel hi lo behind = ground (arith, length-drop (hi * 256 + lo) behind)

cut_total-Shrinks : (buffer : Bytes) (total : ℤ) → Shrinks buffer (cut_total buffer total)
unfolding cut_total
cut_total-Shrinks buffer (negsuc n) = tt
cut_total-Shrinks buffer (pos zero) = tt
cut_total-Shrinks buffer (pos (suc n)) = ground (arith, length-drop (suc n) buffer)

cut_message-Shrinks : (buffer : Bytes) → Shrinks buffer (cut_message buffer)
cut_message-Shrinks buffer = elim (Option-cases (index buffer empty_line)) [
  | inl e ↦ rw (cut_message-none buffer e) tt
  | inr (eol, e) ↦ rw (cut_message_at buffer eol e) (cut_total-Shrinks buffer (total_at buffer eol))
]

interleaved-Shrinks : (s : Bytes) → Shrinks (b'$' ∷ s) (interleaved s)
interleaved-Shrinks [] = tt
interleaved-Shrinks (a ∷ []) = tt
interleaved-Shrinks (a ∷ b ∷ []) = tt
interleaved-Shrinks (a ∷ b ∷ c ∷ s) = cut_packet-Shrinks a b c s

pub next_item-Shrinks : (buffer : Bytes) → Shrinks buffer (next_item buffer)
unfolding next_item
next_item-Shrinks [] = tt
next_item-Shrinks (c ∷ cs) = elim (Bool-cases (c == b'$')) [
  | inl e ↦ rw e (dollar (interleaved cs) (interleaved-Shrinks cs))
  | inr e ↦ rw e (cut_message-Shrinks (c ∷ cs))
]
  where
    dollar : (t : Turn) → Shrinks (b'$' ∷ cs) t → Shrinks (c ∷ cs) t
    dollar (item x rest) h = h
    dollar need_more h = tt
    dollar crash h = tt
    dollar spin h = tt
