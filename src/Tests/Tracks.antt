-- ===== src/Tests/Tracks.antt =====
-- The tracks of a concrete SDP, with line ends of two bytes.
use rtsp_proxy.Prelude.{◌≡◌, inl, inr, refl, arith, [], ◌∷◌, Bytes, codes}
use rtsp_proxy.Text.{has_prefix, trim_space}
use rtsp_proxy.Tracks.Resolved.{put_together, absolute}
use rtsp_proxy.Tracks.Sections.{
  Section, IsOther, Names, IsSection, sdp_lines, join_lines, parse_tracks-sections,
}
use rtsp_proxy.Tracks.{parse_tracks}

abbrev video : Section
video = record {
  media_line = codes "m=video 0 RTP/AVP 96\r";
  attributes = codes "b=AS:5\r" ∷ [];
  control_line = codes "a=control:/trackID=0\r";
  behind = codes "a=rtpmap:96 H264/90000\r" ∷ [];
  control = codes "/trackID=0";
  track = codes "rtsp://cam/a/trackID=0";
}

abbrev audio : Section
audio = record {
  media_line = codes "m=audio 0 RTP/AVP 97\r";
  attributes = [];
  control_line = codes "a=control:rtsp://cam/b\r";
  behind = [] ∷ [];
  control = codes "rtsp://cam/b";
  track = codes "rtsp://cam/b";
}

abbrev cam : Bytes
cam = codes "rtsp://cam/a/"

version_line : IsOther (codes "v=0\r")
unfolding trim_space has_prefix
version_line = (refl, inl refl)

wildcard_line : IsOther (codes "a=control:*\r")
unfolding trim_space has_prefix
wildcard_line = (refl, inr refl)

bandwidth_line : IsOther (codes "b=AS:5\r")
unfolding trim_space has_prefix
bandwidth_line = (refl, inl refl)

format_line : IsOther (codes "a=rtpmap:96 H264/90000\r")
unfolding trim_space has_prefix
format_line = (refl, inl refl)

empty_line : IsOther []
unfolding trim_space has_prefix
empty_line = (refl, inl refl)

base-Names : Names (codes "a=control:rtsp://cam/a/\r") cam
unfolding trim_space
base-Names = record { trimmed = refl; no_wildcard = λ e. cc }

video-IsSection : IsSection cam video
unfolding trim_space has_prefix
video-IsSection = record {
  media = refl;
  others = (bandwidth_line, tt);
  names = record { trimmed = refl; no_wildcard = λ e. cc };
  more_others = (format_line, tt);
  resolves =
      put_together (codes "rtsp://cam/") b'a' 1 1 (codes "trackID=0") refl refl refl refl refl;
}

audio-IsSection : IsSection cam audio
unfolding trim_space has_prefix
audio-IsSection = record {
  media = refl;
  others = tt;
  names = record { trimmed = refl; no_wildcard = λ e. cc };
  more_others = (empty_line, tt);
  resolves = absolute (codes "cam/b");
}

parse_tracks-sections_example :
    parse_tracks (
      join_lines (
        sdp_lines
          (codes "v=0\r" ∷ [])
          (codes "a=control:rtsp://cam/a/\r")
          (codes "a=control:*\r" ∷ [])
          (video ∷ audio ∷ [])))
    ≡ codes "rtsp://cam/a/trackID=0" ∷ codes "rtsp://cam/b" ∷ []
parse_tracks-sections_example =
    parse_tracks-sections (codes "v=0\r" ∷ []) (codes "a=control:rtsp://cam/a/\r") cam
      (codes "a=control:*\r" ∷ []) (video ∷ audio ∷ []) (version_line, tt) base-Names
      (wildcard_line, tt) (video-IsSection, (audio-IsSection, tt)) (ground arith)
