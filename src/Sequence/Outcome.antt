-- ===== src/Sequence/Outcome.antt =====
-- Outcomes of doConnectSequence of rtspproxy/stream.go and of the requests that it makes.
use rtsp_proxy.Exchange.Answered.{Replies, send_request_sync-answered}
use rtsp_proxy.Exchange.Kept.{Kept, kept, Harmless}
use rtsp_proxy.Exchange.Sent.{Ready}
use rtsp_proxy.Exchange.{Link, Wait, Got, got, lost, panicked}
use rtsp_proxy.Handlers.{handle_options}
use rtsp_proxy.Message.{header_get}
use rtsp_proxy.Prelude.Dict.{nat_eq, lookup-insert_self}
use rtsp_proxy.Prelude.{
  ℕ, ◌≡◌, refl, ap, subst, ◌∙◌, true, [], some, Option, Bytes, codes, length, if◌then◌else◌,
}
use rtsp_proxy.Remote.{Remote}
use rtsp_proxy.Request.{Request, new_request}
use rtsp_proxy.Response.{Response}
use rtsp_proxy.Sequence.Signals.{
  AllHarmless, bind-Kept, setup_all-Kept, play_upstream-Kept, do_connect_sequence-Kept,
}
use rtsp_proxy.Sequence.{
  Call, bind, Waits, add_object, is_empty, call, get_options, get_sdp, after_sdp,
  do_connect_sequence,
}
use rtsp_proxy.Stream.Invariant.{Promises}
use rtsp_proxy.Stream.Waiting.{
  Signals, is_closed, close_sdp, close_sdp-IsConsistent, close_once-closes, close_once-keeps,
}
use rtsp_proxy.Stream.{StreamState}
use rtsp_proxy.Tracks.{parse_tracks}
use rtsp_proxy.Url.{Url, rtsp_url}

bind-eq-got {ℓ κ} :
    {A : Type ℓ} {B : Type κ} (g : Got A) (f : A → Call B) (b : B) (l' : Link)
    → bind g f ≡ got b l'
    → (a : A) × ((l : Link) × ((g ≡ got a l) × (f a l ≡ got b l')))
bind-eq-got (got a l) f b l' e = (a, (l, (refl, e)))
bind-eq-got (lost x l) f b l' e = absurd (cc)
bind-eq-got panicked f b l' e = absurd (cc)

close_sdp-Promises :
    (state : StreamState) (g : Signals) → Promises state g → Promises state (close_sdp g)
close_sdp-Promises state g v = record {
  consistent = close_sdp-IsConsistent g v.consistent;
  playing_ready = λ e. close_once-keeps g.sdp_ready_ch g.ready_ch g.closed (v.playing_ready e);
  destroyed_ready = λ e. close_once-keeps g.sdp_ready_ch g.ready_ch g.closed (v.destroyed_ready e);
  destroyed_sdp = λ e. close_once-closes g.sdp_ready_ch g.closed;
}

-- The clients that wait for the SDP have been told.
abbrev pub SdpTold : StreamState → Signals → Type 0
SdpTold state g = is_closed g.sdp_ready_ch g.closed ≡ true

-- As long as what happens during its waits keeps the promises of the signals, the connect sequence
-- keeps them, wherever it ends.
pub do_connect_sequence-Promises :
    (md5_hex : Bytes → Bytes) (url_print : Url → Bytes) (url_parse : Bytes → Option Url) (w : Waits)
    (l : Link)
    → AllHarmless Promises w
    → Promises l.stream.state l.stream.signals
    → Kept Promises (do_connect_sequence md5_hex url_print url_parse w l)
do_connect_sequence-Promises md5_hex url_print url_parse w l k h =
    do_connect_sequence-Kept Promises md5_hex url_print url_parse w l close_sdp-Promises k h

SdpTold-got :
    (l : Link) → Kept SdpTold {A = Unit {0}} (got tt l) → SdpTold l.stream.state l.stream.signals
SdpTold-got l (kept h) = h

module _ (md5_hex : Bytes → Bytes) (url_print : Url → Bytes) (url_parse : Bytes → Option Url) where
  published-Kept :
      (w : Waits) (path sdp : Bytes) (l : Link)
      → ((i n : ℕ) → Harmless SdpTold (w.setup i n))
      → ((i : ℕ) → Harmless SdpTold (w.play i))
      → Kept SdpTold (after_sdp md5_hex url_print url_parse w path sdp l)
  published-Kept w path sdp l j k =
      bind-Kept SdpTold _ _
        (setup_all-Kept SdpTold md5_hex url_print url_parse w.setup (parse_tracks sdp) _ j
          (close_once-closes l.stream.signals.sdp_ready_ch l.stream.signals.closed))
        (λ id m h. play_upstream-Kept SdpTold md5_hex url_print url_parse w.play path id m k h)

-- When the connect sequence succeeds, the clients that wait for the SDP have been told, provided
-- that nothing during its SETUP and PLAY requests replaces their channel.
pub do_connect_sequence-SdpTold :
    (md5_hex : Bytes → Bytes) (url_print : Url → Bytes) (url_parse : Bytes → Option Url) (w : Waits)
    (l l' : Link)
    → ((i n : ℕ) → Harmless SdpTold (w.setup i n))
    → ((i : ℕ) → Harmless SdpTold (w.play i))
    → do_connect_sequence md5_hex url_print url_parse w l ≡ got tt l'
    → SdpTold l'.stream.state l'.stream.signals
unfolding do_connect_sequence
do_connect_sequence-SdpTold md5_hex url_print url_parse w l l' j k e =
    let path = l.stream.path in
    let (sdp, (l1, (_, f))) =
      bind-eq-got
        (bind (get_options md5_hex url_print url_parse w.options path l)
          (λ a. get_sdp md5_hex url_print url_parse w.describe path))
        (after_sdp md5_hex url_print url_parse w path) tt l' e in
    SdpTold-got l' (
      subst (Kept SdpTold) f
        (published-Kept md5_hex url_print url_parse w l.stream.path sdp l1 j k))

pub add_object-Ready :
    (q : Request) (l : Link)
    → l.remote.conn ≡ true
    → l.remote.requests ≡ []
    → (u : Url) × (q.url ≡ some u)
    → Ready (length l.remote.objects) q (record l { remote = add_object q l.remote })
add_object-Ready q l c e u = record {
  connected = c;
  alone = e;
  known = lookup-insert_self (length l.remote.objects) q l.remote.objects;
  located = u;
}

-- The first time that OPTIONS is asked for, on a connected remote with an empty queue and a camera
-- that answers by a response that is no error, GetOptions returns the Public header of the response,
-- which is stored in the stream together with its Server header, and the queue is empty again.
pub get_options-answered :
    (md5_hex : Bytes → Bytes) (url_print : Url → Bytes) (url_parse : Bytes → Option Url)
    (waits : ℕ → Wait) (path : Bytes) (l : Link) (response : Response)
    → l.stream.options ≡ []
    → l.remote.conn ≡ true
    → l.remote.requests ≡ []
    → Replies md5_hex url_print url_parse
        (waits 0)
        (new_request (codes "OPTIONS") (rtsp_url l.remote.host path) [])
        l.stream
        (handle_options l.stream response)
    → (r' : Remote) × ((get_options md5_hex url_print url_parse waits path l
          ≡ got
              (header_get response.headers (codes "Public"))
              (record { stream = handle_options l.stream response; remote = r' }))
        × (r'.requests ≡ []))
unfolding get_options handle_options
get_options-answered md5_hex url_print url_parse waits path l response o c e b =
    let request = new_request (codes "OPTIONS") (rtsp_url l.remote.host path) [] in
    let (r', (f, (alone, _))) =
      send_request_sync-answered md5_hex url_print url_parse waits (length l.remote.objects) request
        (record l { remote = add_object request l.remote }) (handle_options l.stream response)
        (add_object-Ready request l c e (rtsp_url l.remote.host path, refl)) b in
    (
      r',
      (
        ap
              (λ (b : Bytes).
                if is_empty b
                then bind (call md5_hex url_print url_parse waits request l)
                    (λ a l'. got l'.stream.options l')
                else got l.stream.options l)
              o
            ∙ ap (λ (g : Got (Unit {0})). bind g (λ a l'. got l'.stream.options l')) f,
        alone,
      ),
    )
