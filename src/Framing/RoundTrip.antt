-- ===== src/Framing/RoundTrip.antt =====
-- readLoop of rtspproxy/stream.go on what a camera sends, in chunks.
use rtsp_proxy.Framing.Chunks.{concat, Fits, drain_item, drain_more, read_loop-drain}
use rtsp_proxy.Framing.Turns.{extend, next_item-append}
use rtsp_proxy.Framing.{
  Item, Turn, need_more, item, crash, spin, next_item, breaks, drain, read_loop,
}
use rtsp_proxy.Prelude.{
  ℕ, ◌≤◌, ◌<◌, ◌≡◌, refl, ap, sym, ◌∙◌, subst, arith, true, List, [], ◌∷◌, ◌++◌, map, Bytes, ltb,
  length, length-append, Bool-cases, inl, inr, append_assoc, All,
}
use rtsp_proxy.Framing.Wire.{
  Sent, encode, as_item, IsWire, next_item-encode, encode_all, drain-nil, drain-encode_all,
}

-- A buffer at least as long as the first of two parts starts with it.
pub split_longer :
    (b more v t : Bytes) → b ++ more ≡ v ++ t → length v ≤ length b → (r : Bytes) × (b ≡ v ++ r)
split_longer b more [] t e h = (b, refl)
split_longer [] more (x ∷ v) t e h = absurd (omega arith)
split_longer (c ∷ b) more (x ∷ v) t e h =
    let (r, q) = split_longer b more v t (tail_eq e) (omega arith) in (r, cons_eq r q)
  where
    tail_eq : c ∷ (b ++ more) ≡ x ∷ (v ++ t) → b ++ more ≡ v ++ t
    tail_eq p = cc

    cons_eq : (r : Bytes) → b ≡ v ++ r → c ∷ b ≡ x ∷ (v ++ r)
    cons_eq r q = cc

abbrev pub IsShort : ℕ → Sent → Type 0
IsShort size w = length (encode w) ≤ size

item-parts : {x y : Item} {r t : Bytes} → item x r ≡ item y t → r ≡ t
item-parts e = cc

-- A part of an item that is not whole gives nothing yet.
pub short_turn :
    (w : Sent) (b more t : Bytes) (turn : Turn)
    → IsWire w
    → b ++ more ≡ encode w ++ t
    → length b < length (encode w)
    → next_item b ≡ turn
    → turn ≡ need_more
short_turn w b more t need_more h e l n = refl
short_turn w b more t crash h e l n = absurd (
    cc (
      next_item-append b more (λ q. cc),
      next_item-encode w t h,
      ap next_item e,
      ap (λ u. extend u more) n,
    ))
short_turn w b more t spin h e l n = absurd (
    cc (
      next_item-append b more (λ q. cc),
      next_item-encode w t h,
      ap next_item e,
      ap (λ u. extend u more) n,
    ))
short_turn w b more t (item x rest) h e l n =
    let same : rest ++ more ≡ t = item-parts (
      sym (next_item-append b more (λ q. cc) ∙ ap (λ u. extend u more) n)
      ∙ ap next_item e
      ∙ next_item-encode w t h) in
    absurd (
      omega (
        arith,
        ap length e,
        ap length same,
        length-append b more,
        length-append rest more,
        length-append (encode w) t,
      ))

breaks-parts : {r t : Bytes} → breaks r ≡ breaks t → r ≡ t
breaks-parts e = cc

append_eq_nil : (b more : Bytes) → b ++ more ≡ [] → b ≡ []
append_eq_nil [] more h = refl
append_eq_nil (c ∷ cs) more h = absurd (cc)

append_cancel : (v r more t : Bytes) → (v ++ r) ++ more ≡ v ++ t → r ++ more ≡ t
append_cancel [] r more t h = h
append_cancel (c ∷ v) r more t h = append_cancel v r more t (cc)

-- What is left of a buffer that holds a part of what the camera sends: it is shorter than an item,
-- and together with what is to come it is the rest of what the camera sends.
record Rest (size : ℕ) (rest more : Bytes) : Type 0 where
  unread : List Sent
  wire : All IsWire unread
  small : All (IsShort size) unread
  pieces : rest ++ more ≡ encode_all unread
  short : length rest < size

Rest-same :
    (size : ℕ) (b rest more : Bytes)
    → breaks b ≡ breaks rest
    → Rest size b more
    → Rest size rest more
Rest-same size b rest more e r = subst (λ t. Rest size t more) (breaks-parts e) r

drain-Rest :
    (ws : List Sent) (size : ℕ) (b more rest : Bytes)
    → 0 < size
    → All IsWire ws
    → All (IsShort size) ws
    → b ++ more ≡ encode_all ws
    → (drain b).1 ≡ breaks rest
    → Rest size rest more
drain-Rest [] size b more rest p h k e d =
    let nil = append_eq_nil b more e in
    Rest-same size b rest more (ap breaks nil ∙ sym (ap (λ q. q.1) (ap drain nil ∙ drain-nil)) ∙ d)
      (record {
        unread = [];
        wire = tt;
        small = tt;
        pieces = e;
        short = omega (arith, ap length nil);
      })
drain-Rest (w ∷ ws) size b more rest p h k e d =
    elim (Bool-cases (ltb (length b) (length (encode w)))) [
      | inl less ↦
          let waits =
            drain_more b
              (short_turn w b more (encode_all ws) (next_item b) h.0 e (ground arith) refl) in
          Rest-same size b rest more (sym (ap (λ q. q.1) waits) ∙ d)
            (record { unread = w ∷ ws; wire = h; small = k; pieces = e; short = below less })
      | inr long ↦
          let (r, q) = split_longer b more (encode w) (encode_all ws) e (ground arith) in
          drain-Rest ws size r more rest p h.1 k.1
            (append_cancel (encode w) r more (encode_all ws) (ap (λ t. t ++ more) (sym q) ∙ e))
            (sym
                (ap (λ u. u.1) (ap drain q ∙ drain_item _ r (as_item w) (next_item-encode w r h.0)))
              ∙ d)
    ]
  where
    below : ltb (length b) (length (encode w)) ≡ true → length b < size
    below s = ground (arith, k.0)

wire-Fits :
    (ws : List Sent) (size : ℕ) (b : Bytes) (chunks : List Bytes)
    → 0 < size
    → All IsWire ws
    → All (IsShort size) ws
    → b ++ concat chunks ≡ encode_all ws
    → Fits size b chunks
wire-Fits ws size b [] p h k e = tt
wire-Fits ws size b (c ∷ cs) p h k e = λ rest d.
    let r = drain-Rest ws size b (c ++ concat cs) rest p h k e d in
    (
      λ q. omega (arith, r.short),
      wire-Fits r.unread size (rest ++ c) cs p r.wire r.small
          (append_assoc rest c (concat cs) ∙ r.pieces),
    )

-- However the bytes from the camera are divided into chunks: the read loop dispatches exactly the
-- packets and messages that the camera sent, each whole, in their order, and ends with an empty
-- buffer. The packets are at most 65535 bytes, the messages say the length of their body, and each
-- item, header included, fits the buffer.
pub read_loop-encode_all :
    (ws : List Sent) (size : ℕ) (chunks : List Bytes)
    → 0 < size
    → All IsWire ws
    → All (IsShort size) ws
    → concat chunks ≡ encode_all ws
    → read_loop size [] chunks ≡ (map as_item ws, breaks [])
read_loop-encode_all ws size chunks p h k e =
    read_loop-drain size [] chunks (wire-Fits ws size [] chunks p h k e)
    ∙ ap drain e
    ∙ drain-encode_all ws h
