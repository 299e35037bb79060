-- ===== src/Client/Identity.antt =====
-- The target of a client in incomingRequestHandler of rtspproxy/client.go: who the client is.
use rtsp_proxy.Client.{
  Client, Resolved, resolved, probed, resolve, is_empty, proxied_target, set_credentials,
  split_host, with_credentials, is_probe, probe_answer, username_of, password_of,
}
use rtsp_proxy.Prelude.Dict.{bytes_eq_inst, nat_eq}
use rtsp_proxy.Prelude.Int.{int_eq}
use rtsp_proxy.Prelude.{
  ℕ, ◌≡◌, refl, Bool, true, false, not, List, [], ◌∷◌, Option, none, some, Bytes, codes,
  if◌then◌else◌,
}
use rtsp_proxy.Request.{Request}
use rtsp_proxy.Text.{contains, split_n, trim_prefix}
use rtsp_proxy.Url.{Url}

-- The client stays itself when it gets its target.
abbrev pub SameId : ℕ → Resolved → Type 0
SameId id (resolved c u) = c.id ≡ id
SameId id (probed response) = Unit

set_credentials-id : (c : Client) (ps : List Bytes) → (set_credentials c ps).id ≡ c.id
set_credentials-id c [] = refl
set_credentials-id c (a ∷ []) = refl
set_credentials-id c (a ∷ b ∷ []) = refl
set_credentials-id c (a ∷ b ∷ d ∷ ps) = refl

split_host-id : (c : Client) (ps : List Bytes) → (split_host c ps).id ≡ c.id
split_host-id c [] = refl
split_host-id c (a ∷ []) = refl
split_host-id c (a ∷ host ∷ ps) = set_credentials-id (record c { host = host }) (split_n 1 a b':')

if-id : (b : Bool) (c d : Client) (id : ℕ) → c.id ≡ id → d.id ≡ id → (if b then c else d).id ≡ id
if-id true c d id h k = h
if-id false c d id h k = k

with_credentials-id : (c : Client) → (with_credentials c).id ≡ c.id
unfolding with_credentials
with_credentials-id c =
    if-id (contains c.host (codes "@")) (split_host c (split_n 1 c.host b'@')) c c.id
      (split_host-id c (split_n 1 c.host b'@')) refl

if-SameId :
    (b : Bool) (x y : Resolved) (id : ℕ)
    → SameId id x
    → SameId id y
    → SameId id (if b then x else y)
if-SameId true x y id h k = h
if-SameId false x y id h k = k

pub resolve-SameId : (c : Client) (q : Request) (u : Url) → SameId c.id (resolve c q u)
unfolding resolve
resolve-SameId c q u =
    if-SameId (not (is_empty c.host)) (resolved c u) _ c.id refl
      (found (proxied_target (split_n 2 (trim_prefix u.path (codes "/")) b'/')))
  where
    found :
        (o : Option (Bytes × Bytes))
        → SameId c.id (elim o [
          | some (host, path) ↦
              resolved
                (record (with_credentials (record c {
                  username = username_of u.user;
                  password = password_of u.user;
                  host = host;
                })) { base_path = path })
                (record u { path = path })
          | none ↦
              if is_probe q u
              then probed (probe_answer q)
              else resolved
                  (record (with_credentials (record c {
                    username = username_of u.user;
                    password = password_of u.user;
                    host = u.host;
                  })) { base_path = u.path })
                  u
        ])
    found none = if-SameId (is_probe q u) (probed (probe_answer q)) _ c.id tt (
        with_credentials-id (record c {
          username = username_of u.user;
          password = password_of u.user;
          host = u.host;
        }))
    found (some (host, path)) =
        with_credentials-id
          (record c { username = username_of u.user; password = password_of u.user; host = host })
