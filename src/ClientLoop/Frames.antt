-- ===== src/ClientLoop/Frames.antt =====
-- The reading loop of rtspproxy/client.go on interleaved data.
use rtsp_proxy.ClientLoop.{
  Event, binary, cut_frame, read_more, piece, cut_piece, Ended, closed, client_read,
}
use rtsp_proxy.Framing.Chunks.{concat}
use rtsp_proxy.Framing.RoundTrip.{split_longer}
use rtsp_proxy.Prelude.{
  ℕ, Bool, true, false, ◌+◌, ◌-◌, ◌*◌, ◌/◌, ◌%◌, ◌≤◌, ◌<◌, ◌≡◌, refl, sym, ap, ◌∙◌, arith, List, [],
  ◌∷◌, ◌++◌, map, Bytes, ltb, length, length-append, take-append, drop-append, append-nil,
  append_assoc, All, Bool-cases, inl, inr, if◌then◌else◌,
}

pub record Frame : Type 0 where
  pub channel : ℕ
  pub payload : Bytes

abbrev pub encode : Frame → Bytes
encode f = b'$' ∷ f.channel ∷ length f.payload / 256 ∷ length f.payload % 256 ∷ f.payload

abbrev pub encode_all : List Frame → Bytes
encode_all [] = []
encode_all (f ∷ fs) = encode f ++ encode_all fs

abbrev pub as_event : Frame → Event
as_event f = binary f.channel f.payload

-- The length has two bytes, and the frame fits the buffer.
abbrev pub Fits : ℕ → Frame → Type 0
Fits size f = (length f.payload < 65536) × (length (encode f) ≤ size)

cut_piece-encode :
    (size : ℕ) (f : Frame) (rest : Bytes)
    → length f.payload < 65536
    → cut_piece size (encode f ++ rest) ≡ piece (as_event f) rest
unfolding cut_piece cut_frame
cut_piece-encode size f rest h =
    let n : length f.payload / 256 * 256 + length f.payload % 256 ≡ length f.payload =
      omega arith in
    rw n (
      ground (
        arith,
        length-append f.payload rest,
        take-append f.payload rest (length f.payload) refl,
        drop-append f.payload rest (length f.payload) refl,
      ))

-- A part of a frame that is not whole is kept for the next read.
cut_piece-short :
    (size : ℕ) (b more t : Bytes) (f : Frame)
    → Fits size f
    → b ++ more ≡ encode f ++ t
    → length b < length (encode f)
    → cut_piece size b ≡ read_more b
unfolding cut_piece cut_frame
cut_piece-short size [] more t f h e l = refl
cut_piece-short size (c ∷ []) more t f h e l = let d : c ≡ b'$' = cc in ground arith
cut_piece-short size (c ∷ x ∷ []) more t f h e l = let d : c ≡ b'$' = cc in ground arith
cut_piece-short size (c ∷ x ∷ hi ∷ []) more t f h e l = let d : c ≡ b'$' = cc in ground arith
cut_piece-short size (c ∷ x ∷ hi ∷ lo ∷ behind) more t f h e l =
    let d : c ≡ b'$' = cc in
    let i : hi ≡ length f.payload / 256 = cc in
    let j : lo ≡ length f.payload % 256 = cc in ground arith

-- What the lengths alone say: a read that brings the end of the frame at the front handles it, and no
-- more than one; `have` bytes are in the buffer before it. The frames handled, and those left.
abbrev pub scheduled : ℕ → List ℕ → List Frame → List Frame × List Frame
scheduled have [] fs = ([], fs)
scheduled have (n ∷ ns) [] = ([], [])
scheduled have (n ∷ ns) (f ∷ fs) =
    let wait = scheduled (have + n) ns (f ∷ fs) in
    let (handled, left) = scheduled (have + n - length (encode f)) ns fs in
    if ltb (have + n) (length (encode f)) then wait else (f ∷ handled, left)

abbrev pub as_read : List Frame × List Frame → List Event × Ended
as_read (handled, left) = (map as_event handled, closed (encode_all left))

client_read-piece :
    (size : ℕ) (buffer chunk : Bytes) (chunks : List Bytes) (e : Event) (rest : Bytes)
    → cut_piece size (buffer ++ chunk) ≡ piece e rest
    → client_read size buffer (chunk ∷ chunks)
      ≡ (e ∷ (client_read size rest chunks).0, (client_read size rest chunks).1)
unfolding client_read
client_read-piece size buffer chunk chunks e rest h = rw (h, client_read)

client_read-more :
    (size : ℕ) (buffer chunk : Bytes) (chunks : List Bytes) (rest : Bytes)
    → cut_piece size (buffer ++ chunk) ≡ read_more rest
    → client_read size buffer (chunk ∷ chunks) ≡ client_read size rest chunks
unfolding client_read
client_read-more size buffer chunk chunks rest h = rw (h, client_read)

nil-append : (a b : Bytes) → a ++ b ≡ [] → a ≡ []
nil-append [] b e = refl
nil-append (c ∷ cs) b e = absurd (cc)

append-cancel : (a b c : Bytes) → a ++ b ≡ a ++ c → b ≡ c
append-cancel [] b c e = e
append-cancel (x ∷ xs) b c e = append-cancel xs b c (cc)

cut_piece-nil : (size : ℕ) (b : Bytes) → b ≡ [] → cut_piece size b ≡ read_more b
unfolding cut_piece
cut_piece-nil size b e = ap (cut_piece size) e ∙ ap read_more (sym e)

scheduled_none : (have : ℕ) (ns : List ℕ) → scheduled have ns [] ≡ ([], [])
scheduled_none have [] = refl
scheduled_none have (n ∷ ns) = refl

scheduled_wait :
    (have more n : ℕ) (ns : List ℕ) (f : Frame) (fs : List Frame)
    → ltb (have + n) (length (encode f)) ≡ true
    → more ≡ have + n
    → scheduled more ns (f ∷ fs) ≡ scheduled have (n ∷ ns) (f ∷ fs)
scheduled_wait have more n ns f fs e m =
    ap (λ k. scheduled k ns (f ∷ fs)) m ∙ sym (if-first _ _ _ e)
  where
    if-first : (b : Bool) (x y : List Frame × List Frame) → b ≡ true → (if b then x else y) ≡ x
    if-first b x y e = rw e

scheduled_handle :
    (have rest n : ℕ) (ns : List ℕ) (f : Frame) (fs : List Frame)
    → ltb (have + n) (length (encode f)) ≡ false
    → rest ≡ have + n - length (encode f)
    → (f ∷ (scheduled rest ns fs).0, (scheduled rest ns fs).1) ≡ scheduled have (n ∷ ns) (f ∷ fs)
scheduled_handle have rest n ns f fs e m =
    ap (λ k. (f ∷ (scheduled k ns fs).0, (scheduled k ns fs).1)) m ∙ sym (if-second _ _ _ e)
  where
    if-second : (b : Bool) (x y : List Frame × List Frame) → b ≡ false → (if b then x else y) ≡ y
    if-second b x y e = rw e

-- However the interleaved data of a client is divided into reads, its frames are handled whole and in
-- order: each read that brings the end of the first frame that is not handled yet handles this frame,
-- and no other; at the end the frames that are not handled are in the buffer, whole.
pub client_read-scheduled :
    (size : ℕ) (chunks : List Bytes) (buffer : Bytes) (fs : List Frame)
    → All (Fits size) fs
    → buffer ++ concat chunks ≡ encode_all fs
    → client_read size buffer chunks
      ≡ as_read (scheduled (length buffer) (map (λ (c : Bytes). length c) chunks) fs)
unfolding client_read
client_read-scheduled size [] buffer fs h e =
    ap (λ (b : Bytes). ([], closed b)) (sym (append-nil buffer) ∙ e)
client_read-scheduled size (chunk ∷ chunks) buffer [] h e =
    let joined = append_assoc buffer chunk (concat chunks) ∙ e in
    client_read-more size buffer chunk chunks (buffer ++ chunk)
      (cut_piece-nil size (buffer ++ chunk) (nil-append (buffer ++ chunk) (concat chunks) joined))
    ∙ client_read-scheduled size chunks (buffer ++ chunk) [] h joined
    ∙ ap as_read (scheduled_none (length (buffer ++ chunk)) _)
client_read-scheduled size (chunk ∷ chunks) buffer (f ∷ fs) h e =
    let b = buffer ++ chunk in
    let joined = append_assoc buffer chunk (concat chunks) ∙ e in
    let long_as = length-append buffer chunk in
    elim (Bool-cases (ltb (length buffer + length chunk) (length (encode f)))) [
      | inl short ↦
          client_read-more size buffer chunk chunks b
            (cut_piece-short size b (concat chunks) (encode_all fs) f h.0 joined (ground arith))
          ∙ client_read-scheduled size chunks b (f ∷ fs) h joined
          ∙ ap as_read
              (scheduled_wait (length buffer) (length b) (length chunk) _ f fs short long_as)
      | inr long ↦
          let (r, q) =
            split_longer b (concat chunks) (encode f) (encode_all fs) joined (ground arith) in
          let behind =
            sym (append_assoc (encode f) r (concat chunks))
            ∙ ap (λ (x : Bytes). x ++ concat chunks) (sym q)
            ∙ joined in
          client_read-piece size buffer chunk chunks (as_event f) r
            (ap (cut_piece size) q ∙ cut_piece-encode size f r h.0.0)
          ∙ ap (λ (x : List Event × Ended). (as_event f ∷ x.0, x.1))
              (client_read-scheduled size chunks r fs h.1
                (append-cancel (encode f) (r ++ concat chunks) (encode_all fs) behind))
          ∙ ap as_read (
              scheduled_handle (length buffer) (length r) (length chunk) _ f fs long (
                omega (arith, long_as, ap (λ (x : Bytes). length x) q, length-append (encode f) r)))
    ]
