-- ===== src/Setup/Mapping.antt =====
-- handleSetup of rtspproxy/client.go: the channels of the client.
use rtsp_proxy.Setup.Forwarding.{Forwards}
use rtsp_proxy.Client.{Client}
use rtsp_proxy.ClientSession.{ClientSession}
use rtsp_proxy.Prelude.Dict.{Dict, bytes_eq_inst, nat_eq}
use rtsp_proxy.Prelude.Int.{pos, int_eq}
use rtsp_proxy.Prelude.{ℕ, ◌≡◌, ◌∷◌, ◌++◌, Option, some, Bytes}
use rtsp_proxy.Request.{Request}
use rtsp_proxy.Response.{Response}
use rtsp_proxy.Session.{Session}
use rtsp_proxy.Setup.{setup_response}
use rtsp_proxy.Stream
use rtsp_proxy.Stream.{
  Stream, add_new_client, map_channel, stop_idle_timer, start_connect_loop, disconnected,
}
use rtsp_proxy.Text.Number.{itoa, atoi}
use rtsp_proxy.Transport.{Transport, Substream}

-- The stream after both channels have been mapped.
abbrev mapped_both : Stream → ℕ → Substream → Substream → Bytes → Bytes → Stream
mapped_both s client s0 s1 a b =
    map_channel (map_channel s client s0.channel (atoi a).value) client s1.channel (atoi b).value

-- The text of a pair of channels.
abbrev pub channel_pair : ℕ → ℕ → Bytes
channel_pair a b = itoa (pos a) ++ (b'-' ∷ itoa (pos b))

-- After the wait, with a transport of two substreams, the client joins the stream and has its
-- channels.
abbrev pub Joined :
    Client
    → Bytes
    → Session
    → Transport
    → Substream
    → Substream
    → ℕ
    → ℕ
    → Option (Stream × Response)
    → Type 0
Joined c transport session t s0 s1 a b out =
    (s' : Stream) × ((out ≡ some (s', setup_response c transport session.session t s'))
      × (Forwards c.id s0.channel a s' × Forwards c.id s1.channel b s'))
