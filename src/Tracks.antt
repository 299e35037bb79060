-- ===== src/Tracks.antt =====
-- parseTracks of rtspproxy/stream.go: the control URLs of the media sections of an SDP.
pub mod Resolved
pub mod Sections
use rtsp_proxy.Prelude.{
  Bool, true, false, not, ◌&&◌, List, [], ◌∷◌, ◌++◌, Bytes, bytes_eq, codes, if◌then◌else◌,
}
use rtsp_proxy.Text.{has_prefix, split, trim_left, trim_prefix, trim_right, trim_space}

abbrev pub media_mark : Bytes
media_mark = codes "m="

abbrev pub control_mark : Bytes
control_mark = codes "a=control:"

-- The base after a line of the session.
unfoldable pub base_after : Bytes → Bytes → Bytes
base_after line base =
    let control = trim_prefix line control_mark in
    if has_prefix line control_mark && not (bytes_eq control (codes "*")) then control else base

-- The first loop, over the lines of the session, up to the first media section.
unfoldable pub session_base : List Bytes → Bytes → Bytes
unfolding base_after
session_base [] base = base
session_base (line ∷ lines) base =
    let rest = session_base lines (base_after (trim_space line) base) in
    if has_prefix (trim_space line) media_mark then base else rest

-- A control URL is kept when it is absolute, and resolved against an absolute base.
unfoldable pub resolve_track : Bytes → Bytes → Bytes
resolve_track base control =
    if has_prefix control (codes "rtsp://")
    then control
    else if has_prefix base (codes "rtsp://")
    then trim_right base b'/' ++ (b'/' ∷ trim_left control b'/')
    else control

-- What a line of a media section adds.
unfoldable pub track_of : Bytes → Bytes → List Bytes
unfolding resolve_track
track_of base line =
    let control = trim_prefix line control_mark in
    if has_prefix line control_mark && not (bytes_eq control (codes "*"))
    then resolve_track base control ∷ []
    else []

-- The second loop.
unfoldable pub collect : Bytes → Bool → List Bytes → List Bytes
unfolding track_of
collect base in_media [] = []
collect base in_media (line ∷ lines) =
    let in_section = collect base true lines in
    let same = collect base in_media lines in
    if has_prefix (trim_space line) media_mark
    then in_section
    else if in_media
    then track_of base (trim_space line) ++ same
    else same

abbrev pub or_base_path : List Bytes → List Bytes
or_base_path [] = [] ∷ []
or_base_path (t ∷ ts) = t ∷ ts

unfoldable pub parse_tracks : Bytes → List Bytes
unfolding session_base collect
parse_tracks sdp =
    let lines = split sdp b'\n' in or_base_path (collect (session_base lines []) false lines)
