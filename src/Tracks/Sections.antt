-- ===== src/Tracks/Sections.antt =====
-- The tracks of an SDP that is made of sections.
use rtsp_proxy.Text.Split.{HasNo, split-append, split-whole}
use rtsp_proxy.Prelude.{
  ◌≡◌, ◌≢◌, ◌⊎◌, inl, inr, refl, ap, ◌∙◌, arith, Bool, true, false, List, [], ◌∷◌, ◌++◌,
  append_assoc, map, Bytes, bytes_eq, bytes_eq_iff, codes, eq_refl, All, length, drop-append,
}
use rtsp_proxy.Text.{has_prefix, split, trim_prefix, trim_space}
use rtsp_proxy.Tracks.Resolved.{Resolves, resolve_track-Resolves}
use rtsp_proxy.Tracks.{
  media_mark, control_mark, base_after, session_base, resolve_track, track_of, collect,
  or_base_path, parse_tracks,
}

-- A media section: its media line, other lines, the line with its control URL, and other lines; and
-- the track that the control URL stands for.
pub record Section : Type 0 where
  pub media_line : Bytes
  pub attributes : List Bytes
  pub control_line : Bytes
  pub behind : List Bytes
  pub control : Bytes
  pub track : Bytes

-- A trimmed line that names no control URL, or only the wildcard.
abbrev pub NamesNone : Bytes → Type 0
NamesNone line = (has_prefix line control_mark ≡ false) ⊎ (line ≡ control_mark ++ codes "*")

-- A line that is no media line and names no control URL, with any white space around it.
abbrev pub IsOther : Bytes → Type 0
IsOther line = (has_prefix (trim_space line) media_mark ≡ false) × NamesNone (trim_space line)

-- A line with this control URL, which is no wildcard, and any white space around it.
pub record Names (line control : Bytes) : Type 0 where
  pub trimmed : trim_space line ≡ control_mark ++ control
  pub no_wildcard : control ≢ codes "*"

pub record IsSection (base : Bytes) (s : Section) : Type 0 where
  pub media : has_prefix (trim_space s.media_line) media_mark ≡ true
  pub others : All IsOther s.attributes
  pub names : Names s.control_line s.control
  pub more_others : All IsOther s.behind
  pub resolves : Resolves base s.control s.track

abbrev pub section_lines : Section → List Bytes
section_lines s = s.media_line ∷ (s.attributes ++ (s.control_line ∷ s.behind))

abbrev pub all_lines : List Section → List Bytes
all_lines [] = []
all_lines (s ∷ ss) = section_lines s ++ all_lines ss

has_prefix-append : (p t : Bytes) → has_prefix (p ++ t) p ≡ true
unfolding has_prefix
has_prefix-append [] t = refl
has_prefix-append (c ∷ p) t = rw (eq_refl c, has_prefix-append p t) refl

trim_prefix-append : (p t : Bytes) → trim_prefix (p ++ t) p ≡ t
unfolding trim_prefix
trim_prefix-append p t = rw (has_prefix-append p t) (drop-append p t (length p) refl)

control-no-media : (t : Bytes) → has_prefix (control_mark ++ t) media_mark ≡ false
unfolding has_prefix
control-no-media t = refl

other_track : (base line : Bytes) → NamesNone line → track_of base line ≡ []
unfolding track_of trim_prefix has_prefix bytes_eq
other_track base line (inl h) = rw h refl
other_track base line (inr e) = ap (track_of base) e ∙ refl

control_track :
    (base control : Bytes)
    → control ≢ codes "*"
    → track_of base (control_mark ++ control) ≡ resolve_track base control ∷ []
unfolding track_of
control_track base control h =
    rw (has_prefix-append control_mark control, trim_prefix-append control_mark control)
      (ground (arith, bytes_eq_iff control (codes "*")))

collect-others :
    (base : Bytes) (ls rest : List Bytes)
    → All IsOther ls
    → collect base true (ls ++ rest) ≡ collect base true rest
unfolding collect
collect-others base [] rest h = refl
collect-others base (l ∷ ls) rest h =
    rw (h.0.0, other_track base (trim_space l) h.0.1) (collect-others base ls rest h.1)

collect-session :
    (base : Bytes) (ls rest : List Bytes)
    → All (λ l. has_prefix (trim_space l) media_mark ≡ false) ls
    → collect base false (ls ++ rest) ≡ collect base false rest
unfolding collect
collect-session base [] rest h = refl
collect-session base (l ∷ ls) rest h = rw h.0 (collect-session base ls rest h.1)

collect-no-media :
    (base line : Bytes) (rest : List Bytes)
    → has_prefix (trim_space line) media_mark ≡ false
    → collect base false (line ∷ rest) ≡ collect base false rest
unfolding collect
collect-no-media base line rest h = rw (h, collect) refl

others-no-media :
    (ls : List Bytes) → All IsOther ls → All (λ l. has_prefix (trim_space l) media_mark ≡ false) ls
others-no-media [] h = tt
others-no-media (l ∷ ls) h = (h.0.0, others-no-media ls h.1)

collect-media :
    (base : Bytes) (b : Bool) (line : Bytes) (rest : List Bytes)
    → has_prefix (trim_space line) media_mark ≡ true
    → collect base b (line ∷ rest) ≡ collect base true rest
unfolding collect
collect-media base b line rest e = rw (e, collect) refl

Names-no-media :
    (line control : Bytes) → Names line control → has_prefix (trim_space line) media_mark ≡ false
Names-no-media line control n =
    ap (λ l. has_prefix l media_mark) n.trimmed ∙ control-no-media control

collect-control :
    (base line control : Bytes) (rest : List Bytes)
    → Names line control
    → collect base true (line ∷ rest) ≡ resolve_track base control ∷ collect base true rest
unfolding collect
collect-control base line control rest n =
    rw (Names-no-media line control n, collect)
      (ap (λ ts. ts ++ collect base true rest)
        (ap (track_of base) n.trimmed ∙ control_track base control n.no_wildcard))

collect-section :
    (base : Bytes) (b : Bool) (s : Section) (rest : List Bytes)
    → IsSection base s
    → collect base b (section_lines s ++ rest) ≡ s.track ∷ collect base true rest
collect-section base b s rest v =
    collect-media base b s.media_line _ v.media
    ∙ ap (collect base true) (append_assoc s.attributes (s.control_line ∷ s.behind) rest)
    ∙ collect-others base s.attributes (s.control_line ∷ (s.behind ++ rest)) v.others
    ∙ collect-control base s.control_line s.control (s.behind ++ rest) v.names
    ∙ ap (◌∷◌ (resolve_track base s.control)) (collect-others base s.behind rest v.more_others)
    ∙ ap (λ (t : Bytes). t ∷ collect base true rest)
        (resolve_track-Resolves base s.control s.track v.resolves)

collect-sections :
    (base : Bytes) (b : Bool) (ss : List Section)
    → All (IsSection base) ss
    → collect base b (all_lines ss) ≡ map (λ s. s.track) ss
unfolding collect
collect-sections base b [] h = refl
collect-sections base b (s ∷ ss) h =
    collect-section base b s (all_lines ss) h.0
    ∙ ap (◌∷◌ s.track) (collect-sections base true ss h.1)

base_after-other : (line base : Bytes) → NamesNone line → base_after line base ≡ base
unfolding base_after trim_prefix has_prefix bytes_eq
base_after-other line base (inl h) = rw h refl
base_after-other line base (inr e) = ap (λ l. base_after l base) e ∙ refl

session_base-others :
    (ls rest : List Bytes) (base : Bytes)
    → All IsOther ls
    → session_base (ls ++ rest) base ≡ session_base rest base
unfolding session_base
session_base-others [] rest base h = refl
session_base-others (l ∷ ls) rest base h =
    rw (h.0.0, base_after-other (trim_space l) base h.0.1) (session_base-others ls rest base h.1)

base_after-control :
    (control base : Bytes)
    → control ≢ codes "*"
    → base_after (control_mark ++ control) base ≡ control
unfolding base_after
base_after-control control base h =
    rw (has_prefix-append control_mark control, trim_prefix-append control_mark control)
      (ground (arith, bytes_eq_iff control (codes "*")))

session_base-control :
    (line control base : Bytes) (rest : List Bytes)
    → Names line control
    → session_base (line ∷ rest) base ≡ session_base rest control
unfolding session_base
session_base-control line control base rest n =
    rw (Names-no-media line control n, session_base)
      (ap (session_base rest)
        (ap (λ l. base_after l base) n.trimmed ∙ base_after-control control base n.no_wildcard))

session_base-sections :
    (ss : List Section) (base urls : Bytes)
    → All (IsSection urls) ss
    → session_base (all_lines ss) base ≡ base
unfolding session_base
session_base-sections [] base urls h = refl
session_base-sections (s ∷ ss) base urls h = rw (h.0.media, session_base) refl

-- The lines of an SDP with a control URL for the session.
abbrev pub sdp_lines : List Bytes → Bytes → List Bytes → List Section → List Bytes
sdp_lines pre base_line post ss = pre ++ base_line ∷ (post ++ all_lines ss)

abbrev pub join_lines : List Bytes → Bytes
join_lines [] = []
join_lines (l ∷ []) = l
join_lines (l ∷ ls) = l ++ (b'\n' ∷ join_lines ls)

split-join_lines :
    (ls : List Bytes) → ls ≢ [] → All (HasNo b'\n') ls → split (join_lines ls) b'\n' ≡ ls
split-join_lines [] n h = absurd (n refl)
split-join_lines (l ∷ []) n h = split-whole b'\n' l h.0
split-join_lines (l ∷ k ∷ ls) n h =
    split-append b'\n' l (join_lines (k ∷ ls)) h.0
    ∙ ap (◌∷◌ l) (split-join_lines (k ∷ ls) (λ e. cc) h.1)

sdp_lines-ne-nil :
    (pre : List Bytes) (base : Bytes) (post : List Bytes) (ss : List Section)
    → sdp_lines pre base post ss ≢ []
sdp_lines-ne-nil [] base post ss = λ e. cc
sdp_lines-ne-nil (l ∷ pre) base post ss = λ e. cc

-- The tracks of an SDP with a control URL for the session, among any other lines, and media
-- sections with one control URL each, among any other lines: what the control URLs of the sections
-- stand for against that of the session, in the order of the sections; one empty track if there are
-- no sections. White space around a line does not matter, nor an empty line at the end.
pub parse_tracks-sections :
    (pre : List Bytes) (base_line base : Bytes) (post : List Bytes) (ss : List Section)
    → All IsOther pre
    → Names base_line base
    → All IsOther post
    → All (IsSection base) ss
    → All (HasNo b'\n') (sdp_lines pre base_line post ss)
    → parse_tracks (join_lines (sdp_lines pre base_line post ss))
      ≡ or_base_path (map (λ s. s.track) ss)
unfolding parse_tracks
parse_tracks-sections pre base_line base post ss hp n hq hs hn =
    let lines = sdp_lines pre base_line post ss in
    let found : session_base lines [] ≡ base =
      session_base-others pre _ [] hp
      ∙ session_base-control base_line base [] (post ++ all_lines ss) n
      ∙ session_base-others post (all_lines ss) base hq
      ∙ session_base-sections ss base base hs in
    ap (λ ls. or_base_path (collect (session_base ls []) false ls))
      (split-join_lines lines (sdp_lines-ne-nil pre base_line post ss) hn)
    ∙ ap (λ b. or_base_path (collect b false lines)) found
    ∙ ap or_base_path (
        collect-session base pre _ (others-no-media pre hp)
        ∙ collect-no-media base base_line (post ++ all_lines ss) (Names-no-media base_line base n)
        ∙ collect-session base post (all_lines ss) (others-no-media post hq)
        ∙ collect-sections base false ss hs)
