-- ===== src/Transport.antt =====
-- rtspproxy/transport.go and rtspproxy/substream.go. The pointer from a transport to its session
-- is the place of the transport in the session's list.
use rtsp_proxy.Prelude.Dict.{Dict}
use rtsp_proxy.Prelude.Int.{ℤ, pos, negsuc}
use rtsp_proxy.Prelude.{ℕ, Bool, ◌&&◌, [], Bytes, bytes_eq}

pub record Substream : Type 0 where
  pub substream_name : Bytes
  pub port : ℤ
  pub channel : ℤ
  pub host : Bytes
  pub seq : ℤ
  pub rtp_time : ℤ

unfoldable pub new_substream : Bytes → Substream
new_substream name = record {
  substream_name = name;
  port = pos 0;
  channel = negsuc 0;
  host = [];
  seq = pos 0;
  rtp_time = pos 0;
}

pub record Transport : Type 0 where
  pub substream_name : Bytes
  pub protocol : Bytes
  pub com_type : Bytes
  pub ssrc : Bytes
  pub substreams : Dict ℕ Substream

unfoldable pub new_transport : Bytes → Bytes → Bytes → Transport
new_transport name protocol com_type = record {
  substream_name = name;
  protocol = protocol;
  com_type = com_type;
  ssrc = [];
  substreams = [];
}

-- The test of both LookupTransport loops.
abbrev pub serves : Bytes → Bytes → Bytes → Transport → Bool
serves name protocol com_type t =
    bytes_eq t.substream_name name && (bytes_eq t.protocol protocol && bytes_eq t.com_type com_type)
