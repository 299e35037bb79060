-- ===== src/Sequence/Channels.antt =====
-- The channels that doConnectSequence of rtspproxy/stream.go asks for, as handleSetup of
-- rtspproxy/remote.go reads them from an answer.
use rtsp_proxy.Client.Target.{split_n-append}
use rtsp_proxy.Handlers.{with_channels, set_up}
use rtsp_proxy.Prelude.Dict.{
  bytes_eq_inst, nat_eq, lookup, insert, lookup-insert, lookup-insert_self,
}
use rtsp_proxy.Prelude.Int.{ℤ, pos, max_int}
use rtsp_proxy.Prelude.{
  ℕ, ◌+◌, ◌*◌, ◌≤◌, ◌≡◌, refl, ap, ◌∙◌, arith, false, List, [], ◌∷◌, ◌++◌, some, Bytes, bytes_eq,
  codes, All-append, ◌==◌,
}
use rtsp_proxy.Remote.{transport_parts, store_param, read_params, parse_transport}
use rtsp_proxy.Sequence.{interleaved_pair}
use rtsp_proxy.Text.Number.RoundTrip.{atoi-itoa_pos}
use rtsp_proxy.Text.Number.{Atoi, itoa, atoi}
use rtsp_proxy.Text.Split.{
  HasNo, split-append, split-whole, split-two, itoa-HasNo_dash, itoa-HasNo_semicolon,
}
use rtsp_proxy.Text.{split, split_n}
use rtsp_proxy.Transport.{Transport, Substream, new_substream}

abbrev pair : ℕ → Bytes
pair i = itoa (pos (i * 2)) ++ (b'-' ∷ itoa (pos (i * 2 + 1)))

abbrev key : Bytes
key = codes "interleaved"

pair-HasNo_semicolon : (i : ℕ) → HasNo b';' (pair i)
pair-HasNo_semicolon i =
    All-append (λ c. (c == b';') ≡ false) (itoa (pos (i * 2))) (b'-' ∷ itoa (pos (i * 2 + 1)))
      (itoa-HasNo_semicolon (i * 2)) (refl, itoa-HasNo_semicolon (i * 2 + 1))

interleaved_pair-split :
    (i : ℕ)
    → split (interleaved_pair i) b';'
      ≡ codes "RTP/AVP/TCP" ∷ codes "unicast" ∷ (key ++ (b'=' ∷ pair i)) ∷ []
unfolding interleaved_pair
interleaved_pair-split i =
    let param = key ++ (b'=' ∷ pair i) in
    split-append b';' (codes "RTP/AVP/TCP") (codes "unicast" ++ (b';' ∷ param)) (ground arith)
    ∙ ap (λ (ps : List Bytes). codes "RTP/AVP/TCP" ∷ ps)
        (split-append b';' (codes "unicast") param (ground arith)
          ∙ ap (λ (ps : List Bytes). codes "unicast" ∷ ps)
              (split-whole b';' param (
                All-append (λ c. (c == b';') ≡ false) (codes "interleaved=") (pair i) (ground arith)
                  (pair-HasNo_semicolon i))))

parse_transport-interleaved_pair :
    (i : ℕ)
    → parse_transport (interleaved_pair i)
      ≡ (codes "RTP/AVP/TCP", codes "unicast", (key, pair i) ∷ [])
unfolding parse_transport interleaved_pair insert read_params split_n
parse_transport-interleaved_pair i =
    ap transport_parts (interleaved_pair-split i)
    ∙ ap (λ (ps : List Bytes). (codes "RTP/AVP/TCP", codes "unicast", store_param ps []))
        (split_n-append 0 b'=' key (pair i) (ground arith))

-- The substream with this number has this channel.
abbrev pub ChannelAt : ℕ → Transport → ℤ → Type 0
ChannelAt n t c = (sub : Substream) × ((lookup n t.substreams ≡ some sub) × (sub.channel ≡ c))

abbrev numbered : Bytes → ℕ → Substream
numbered name n = record (new_substream name) { channel = (atoi (itoa (pos n))).value }

set_up-pair :
    (name : Bytes) (i : ℕ) (t : Transport)
    → (set_up name ((key, pair i) ∷ []) t).substreams
      ≡ insert 1 (numbered name (i * 2 + 1)) (insert 0 (numbered name (i * 2)) t.substreams)
unfolding set_up lookup bytes_eq
set_up-pair name i t =
    ap (λ (ps : List Bytes). with_channels name ps t.substreams)
      (split-two b'-' (itoa (pos (i * 2))) (itoa (pos (i * 2 + 1))) (itoa-HasNo_dash (i * 2))
        (itoa-HasNo_dash (i * 2 + 1)))

-- When the camera repeats the Transport header of the SETUP for track i, the transport of the track
-- gets the channels 2 * i and 2 * i + 1, whatever it was before; as long as they fit 64 bits.
pub set_up-interleaved_pair :
    (name : Bytes) (i : ℕ) (t : Transport)
    → i * 2 + 1 ≤ max_int
    → ChannelAt 0 (set_up name (parse_transport (interleaved_pair i)).2 t) (pos (i * 2))
      × ChannelAt 1 (set_up name (parse_transport (interleaved_pair i)).2 t) (pos (i * 2 + 1))
set_up-interleaved_pair name i t h = rw (parse_transport-interleaved_pair i) (
    rw (set_up-pair name i t) (
      (
        numbered name (i * 2),
        (
          lookup-insert 1 0 (numbered name (i * 2 + 1)) _
              ∙ lookup-insert_self 0 (numbered name (i * 2)) t.substreams,
          ap (λ (a : Atoi). a.value) (atoi-itoa_pos (i * 2) (omega arith)),
        ),
      ),
      (
        numbered name (i * 2 + 1),
        (
          lookup-insert_self 1 (numbered name (i * 2 + 1)) _,
          ap (λ (a : Atoi). a.value) (atoi-itoa_pos (i * 2 + 1) h),
        ),
      ),
    ))
