-- ===== src/Tests/Requests.antt =====
-- Requests of rtspproxy/request.go on concrete texts, with a URL that is its own text.
use rtsp_proxy.Digest.Challenges.{challenge_text, parse_www_authenticate-challenge_text}
use rtsp_proxy.Digest.{parse_www_authenticate}
use rtsp_proxy.Digest.Authorization.{Scans, blank_header, parse_authorization_header}
use rtsp_proxy.Text.Search.{index}
use rtsp_proxy.Prelude.Dict.{bytes_eq_inst}
use rtsp_proxy.Prelude.{
  bytes_eq, ◌≡◌, refl, arith, true, [], ◌∷◌, ◌++◌, Option, some, Bytes, codes, drop,
}
use rtsp_proxy.Request.ProxyUrl.{at_port, rewrite_url-proxied}
use rtsp_proxy.Request.{Request, rewrite_url}
use rtsp_proxy.Text.{has_prefix}
use rtsp_proxy.Url.{Url, rtsp_url}

-- url.Parse and URL.String on URLs of one host.
abbrev prefix : Bytes
prefix = codes "rtsp://cam"

abbrev read_url : Bytes → Option Url
read_url text = some (rtsp_url (codes "cam") (drop 10 text))

abbrev write_url : Url → Bytes
write_url u = prefix ++ u.path

abbrev target : Url
target = rtsp_url (codes "cam") (codes "/a")

abbrev asked : Request
asked = record {
  method = codes "PLAY";
  raw_url = [];
  url = some target;
  protocol_version = codes "RTSP/1.0";
  headers = (codes "Cseq", codes "7") ∷ [];
  body = [];
  attempts = 0;
  subscriptions = [];
}

abbrev text : Bytes
text = codes "PLAY rtsp://cam/a RTSP/1.0\r\nCseq: 7\r\n\r\n"

rewrite_url-proxied_example :
    rewrite_url
      (codes "rtsp://" ++ (codes "proxy" ++ (codes ":554" ++ (codes "/rtsp/" ++ codes "cam/a"))))
    ≡ codes "rtsp://" ++ codes "cam/a"
rewrite_url-proxied_example =
    rewrite_url-proxied b'p' (codes "roxy") (codes ":554") (codes "cam/a") (ground arith)
      (at_port b'5' (codes "54") (ground arith))

-- A scan that reads no item, as of a format that has no meaning, and one that reads one field.
abbrev no_scan : Bytes → Scans
no_scan fields = record { pair_count = 0; name_count = 0; parameter = []; value = [] }

abbrev user_scan : Bytes → Scans
user_scan fields = record {
  pair_count = 2;
  name_count = 1;
  parameter = codes "Username";
  value = codes "u";
}

unread :
    parse_authorization_header no_scan (codes "Authorization: Digest username=\"u\"")
    ≡ some blank_header
unfolding parse_authorization_header index has_prefix
unread = refl

user_read :
    parse_authorization_header user_scan (codes "Authorization: Digest Username=\"u\"\r\n")
    ≡ some (record blank_header { username = codes "u" })
unfolding parse_authorization_header index has_prefix bytes_eq
user_read = refl

parse_www_authenticate-challenge_text_example :
    ((parse_www_authenticate
        (challenge_text (codes "IP Camera") (codes "4=f") (codes ", qop=auth"))).is_digest
      ≡ true)
    × (((parse_www_authenticate
            (challenge_text (codes "IP Camera") (codes "4=f") (codes ", qop=auth"))).realm
          ≡ codes "IP Camera")
        × ((parse_www_authenticate
              (challenge_text (codes "IP Camera") (codes "4=f") (codes ", qop=auth"))).nonce
            ≡ codes "4=f"))
parse_www_authenticate-challenge_text_example =
    parse_www_authenticate-challenge_text (codes "IP Camera") (codes "4=f") (codes ", qop=auth")
      (ground arith) (ground arith) (ground arith)
