-- ===== src/Framing/Chunks.antt =====
-- readLoop of rtspproxy/stream.go and the chunks in which the bytes arrive.
use rtsp_proxy.Framing.Turns.{extend, Shrinks, next_item-append, next_item-Shrinks}
use rtsp_proxy.Framing.{
  Item, message, Turn, need_more, item, crash, spin, next_item, Left, breaks, panics, hangs,
  out_of_fuel, process, drain, clear_full, read_loop,
}
use rtsp_proxy.Prelude.{
  ℕ, zero, suc, ◌<◌, ◌≡◌, ◌≢◌, refl, ap, sym, ◌∙◌, subst, arith, List, [], ◌∷◌, ◌++◌, Bytes, length,
  append_assoc, append-nil,
}

-- A turn, and the inner loop from there on.
abbrev after_turn : ℕ → Bytes → Turn → List Item × Left
after_turn fuel buffer t = elim t [
  | need_more ↦ ([], breaks buffer)
  | crash ↦ ([], panics)
  | spin ↦ (message [] ∷ [], hangs)
  | item x behind ↦ let (items, left) = process fuel behind in (x ∷ items, left)
]

after_turn-fuel :
    (f g : ℕ) (buffer : Bytes) (t : Turn)
    → Shrinks buffer t
    → ((b : Bytes) → length b < length buffer → process f b ≡ process g b)
    → after_turn f buffer t ≡ after_turn g buffer t
after_turn-fuel f g buffer need_more s h = refl
after_turn-fuel f g buffer crash s h = refl
after_turn-fuel f g buffer spin s h = refl
after_turn-fuel f g buffer (item x rest) s h = ap (λ p. (x ∷ p.0, p.1)) (h rest s)

-- Any fuel beyond the length of the buffer gives the same.
process-fuel :
    (f g : ℕ) (buffer : Bytes)
    → length buffer < f
    → length buffer < g
    → process f buffer ≡ process g buffer
unfolding process
process-fuel zero g buffer l m = absurd (omega arith)
process-fuel (suc f) zero buffer l m = absurd (omega arith)
process-fuel (suc f) (suc g) buffer l m =
    after_turn-fuel f g buffer (next_item buffer) (next_item-Shrinks buffer)
      (λ b k. process-fuel f g b (omega arith) (omega arith))

abbrev push_item : Item → List Item × Left → List Item × Left
push_item x p = (x ∷ p.0, p.1)

pub drain_item :
    (buffer rest : Bytes) (x : Item)
    → next_item buffer ≡ item x rest
    → drain buffer ≡ push_item x (drain rest)
unfolding drain process
drain_item buffer rest x e =
    rw (e, process)
      (ap (push_item x) (
        process-fuel (length buffer) (suc (length rest)) rest (shorter (next_item-Shrinks buffer))
          (omega arith)))
  where
    shorter : Shrinks buffer (next_item buffer) → length rest < length buffer
    shorter h = rw e at h

pub drain_more :
    (buffer : Bytes) → next_item buffer ≡ need_more → drain buffer ≡ ([], breaks buffer)
unfolding drain process
drain_more buffer e = rw (e, process)

drain_crash : (buffer : Bytes) → next_item buffer ≡ crash → drain buffer ≡ ([], panics)
unfolding drain process
drain_crash buffer e = rw (e, process)

drain_spin : (buffer : Bytes) → next_item buffer ≡ spin → drain buffer ≡ (message [] ∷ [], hangs)
unfolding drain process
drain_spin buffer e = rw (e, process)

-- What the loop does when more bytes arrive after it has drained the buffer.
abbrev pub resume : List Item × Left → Bytes → List Item × Left
resume (items, breaks rest) more = (items ++ (drain (rest ++ more)).0, (drain (rest ++ more)).1)
resume (items, left) more = (items, left)

resume-push :
    (x : Item) (p : List Item × Left) (more : Bytes)
    → resume (push_item x p) more ≡ push_item x (resume p more)
resume-push x (items, breaks rest) more = refl
resume-push x (items, panics) more = refl
resume-push x (items, hangs) more = refl
resume-push x (items, out_of_fuel) more = refl

ne-item : {x : Item} {rest : Bytes} {t : Turn} → t ≡ item x rest → t ≢ need_more
ne-item e = λ q. cc

drain-append_turn :
    (n : ℕ) (buffer more : Bytes) (t : Turn)
    → length buffer < n
    → next_item buffer ≡ t
    → ((b : Bytes) → length b < length buffer → drain (b ++ more) ≡ resume (drain b) more)
    → drain (buffer ++ more) ≡ resume (drain buffer) more
drain-append_turn n buffer more need_more l e ih = rw (drain_more buffer e)
drain-append_turn n buffer more crash l e ih =
    drain_crash (buffer ++ more)
      (next_item-append buffer more (λ q. cc) ∙ ap (λ t. extend t more) e)
    ∙ sym (ap (λ p. resume p more) (drain_crash buffer e))
drain-append_turn n buffer more spin l e ih =
    drain_spin (buffer ++ more) (next_item-append buffer more (λ q. cc) ∙ ap (λ t. extend t more) e)
    ∙ sym (ap (λ p. resume p more) (drain_spin buffer e))
drain-append_turn n buffer more (item x rest) l e ih =
    drain_item (buffer ++ more) (rest ++ more) x
      (next_item-append buffer more (ne-item e) ∙ ap (λ t. extend t more) e)
    ∙ ap (push_item x) (ih rest (subst (Shrinks buffer) e (next_item-Shrinks buffer)))
    ∙ sym (resume-push x (drain rest) more)
    ∙ sym (ap (λ p. resume p more) (drain_item buffer rest x e))

drain-append_below :
    (n : ℕ) (buffer more : Bytes)
    → length buffer < n
    → drain (buffer ++ more) ≡ resume (drain buffer) more
drain-append_below zero buffer more l = absurd (omega arith)
drain-append_below (suc n) buffer more l =
    drain-append_turn (suc n) buffer more (next_item buffer) l refl
      (λ b k. drain-append_below n b more (omega arith))

-- Draining a buffer and going on with the bytes that are left when more arrive cuts the same items
-- as draining all the bytes at once.
pub drain-append : (buffer more : Bytes) → drain (buffer ++ more) ≡ resume (drain buffer) more
drain-append buffer more = drain-append_below (suc (length buffer)) buffer more (omega arith)

abbrev pub concat : List Bytes → Bytes
concat [] = []
concat (c ∷ cs) = c ++ concat cs

-- The loop never finds the buffer full of an unfinished item, so that it clears nothing.
abbrev pub Fits : ℕ → Bytes → List Bytes → Type 0
Fits size buffer [] = Unit
Fits size buffer (c ∷ cs) =
    (rest : Bytes)
    → (drain buffer).1 ≡ breaks rest
    → (length rest ≢ size) × Fits size (rest ++ c) cs

abbrev loop_from : ℕ → Bytes → List Bytes → List Item × Left → List Item × Left
loop_from size chunk chunks p = elim (p.1) [
  | breaks rest ↦
      let (more, end) = read_loop size (clear_full size rest ++ chunk) chunks in (p.0 ++ more, end)
  | other ↦ (p.0, other)
]

clear_full-ne : (size : ℕ) (rest : Bytes) → length rest ≢ size → clear_full size rest ≡ rest
unfolding clear_full
clear_full-ne size rest h = ground arith

loop_from-resume :
    (size : ℕ) (chunk : Bytes) (chunks : List Bytes) (p : List Item × Left)
    → ((rest : Bytes)
        → p.1 ≡ breaks rest
        → (length rest ≢ size)
          × (read_loop size (rest ++ chunk) chunks ≡ drain ((rest ++ chunk) ++ concat chunks)))
    → loop_from size chunk chunks p ≡ resume p (chunk ++ concat chunks)
loop_from-resume size chunk chunks (items, breaks rest) h =
    let (ne, e) = h rest refl in
    ap
      (λ b.
        (items ++ (read_loop size (b ++ chunk) chunks).0, (read_loop size (b ++ chunk) chunks).1))
      (clear_full-ne size rest ne)
    ∙ ap (λ q. (items ++ q.0, q.1)) (e ∙ ap drain (append_assoc rest chunk (concat chunks)))
loop_from-resume size chunk chunks (items, panics) h = refl
loop_from-resume size chunk chunks (items, hangs) h = refl
loop_from-resume size chunk chunks (items, out_of_fuel) h = refl

-- As long as the buffer does not fill up with one unfinished item, the read loop dispatches the
-- same packets and messages in the same order however the bytes are divided into chunks: those
-- that it cuts from all the bytes at once. It also ends in the same way, by a break, by the panic
-- or in the endless turn.
pub read_loop-drain :
    (size : ℕ) (buffer : Bytes) (chunks : List Bytes)
    → Fits size buffer chunks
    → read_loop size buffer chunks ≡ drain (buffer ++ concat chunks)
unfolding read_loop
read_loop-drain size buffer [] h = ap drain (sym (append-nil buffer))
read_loop-drain size buffer (c ∷ cs) h =
    loop_from-resume size c cs (drain buffer)
      (λ rest e. let (ne, fits) = h rest e in (ne, read_loop-drain size (rest ++ c) cs fits))
    ∙ sym (drain-append buffer (c ++ concat cs))
