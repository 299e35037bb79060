-- ===== src/Client/Answer.antt =====
-- The headers that rtspproxy/client.go adds to an answer.
use rtsp_proxy.Client.{set_header, set_server, complete}
use rtsp_proxy.Message.{header_get}
use rtsp_proxy.Prelude.Dict.{bytes_eq_inst, lookup, lookup-insert, lookup-insert_self}
use rtsp_proxy.Prelude.{
  ℕ, ◌≡◌, ◌≢◌, refl, ◌∙◌, ap, false, [], ◌∷◌, Option, none, some, Bytes, codes, bytes_eq,
  if◌then◌else◌,
}
use rtsp_proxy.Request.{Request}
use rtsp_proxy.Response.{Response}

-- A header that has been set is there, and another is as it was.
set_header-lookup :
    (k j v : Bytes) (r : Response)
    → lookup j (set_header k v r).headers ≡ (if bytes_eq k j then some v else lookup j r.headers)
set_header-lookup k j v r = lookup-insert k j v r.headers

-- A Server header that is not empty is there.
abbrev pub NamesServer : Response → Type 0
NamesServer r = (n : Bytes) × ((lookup (codes "Server") r.headers ≡ some n) × (n ≢ []))

default_server :
    (r : Response) → NamesServer (set_header (codes "Server") (codes "RTSP-Proxy/1.0") r)
default_server r = (
  codes "RTSP-Proxy/1.0",
  (lookup-insert_self (codes "Server") (codes "RTSP-Proxy/1.0") r.headers, (λ e. cc)),
)

server_named :
    (o : Option Bytes) (r : Response)
    → lookup (codes "Server") r.headers ≡ o
    → NamesServer (set_server o r)
server_named none r h = default_server r
server_named (some []) r h = default_server r
server_named (some (c ∷ cs)) r h = (c ∷ cs, (h, (λ e. cc)))

server_other :
    (j : Bytes) (s : Option Bytes) (r : Response)
    → bytes_eq (codes "Server") j ≡ false
    → lookup j (set_server s r).headers ≡ lookup j r.headers
server_other j none r h =
    set_header-lookup (codes "Server") j (codes "RTSP-Proxy/1.0") r
    ∙ ap (λ b. if b then some (codes "RTSP-Proxy/1.0") else lookup j r.headers) h
server_other j (some []) r h =
    set_header-lookup (codes "Server") j (codes "RTSP-Proxy/1.0") r
    ∙ ap (λ b. if b then some (codes "RTSP-Proxy/1.0") else lookup j r.headers) h
server_other j (some (c ∷ cs)) r h = refl

-- Every answer to a request with a CSeq carries that CSeq, Via, and a Server header that is not
-- empty, whatever its handler made.
pub complete-headers :
    (request : Request) (r : Response) (c : ℕ) (cs : Bytes)
    → header_get request.headers (codes "CSeq") ≡ c ∷ cs
    → (lookup (codes "CSeq") (complete request r).headers ≡ some (c ∷ cs))
      × (lookup (codes "Via") (complete request r).headers ≡ some (codes "RTSP-Proxy"))
      × NamesServer (complete request r)
unfolding complete bytes_eq
complete-headers request r c cs h =
    let via = set_header (codes "Via") (codes "RTSP-Proxy") r in
    let numbered = set_header (codes "CSeq") (c ∷ cs) via in
    rw h (
      server_other (codes "CSeq") (lookup (codes "Server") numbered.headers) numbered refl
          ∙ lookup-insert_self (codes "CSeq") (c ∷ cs) via.headers,
      server_other (codes "Via") (lookup (codes "Server") numbered.headers) numbered refl
          ∙ set_header-lookup (codes "CSeq") (codes "Via") (c ∷ cs) via
          ∙ lookup-insert_self (codes "Via") (codes "RTSP-Proxy") r.headers,
      server_named (lookup (codes "Server") numbered.headers) numbered refl,
    )
