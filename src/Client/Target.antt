-- ===== src/Client/Target.antt =====
-- The target in a request of the form rtsp://proxy/rtsp/[user:password@]host/path.
use rtsp_proxy.Client.{
  Client, resolved, is_empty, username_of, password_of, proxied_target, set_credentials, split_host,
  with_credentials, resolve, is_probe,
}
use rtsp_proxy.Message.Headers.{HasNo}
use rtsp_proxy.Prelude.{
  ℕ, zero, suc, ◌≡◌, ◌⊎◌, inl, inr, refl, sym, ap, ◌∙◌, arith, true, false, List, [], ◌∷◌, ◌++◌,
  none, some, Bytes, bytes_eq, bytes_eq_iff, Bool-cases, codes, ◌==◌, eq_refl, if◌then◌else◌,
  All-append,
}
use rtsp_proxy.Request.{Request}
use rtsp_proxy.Text.{contains, has_prefix, split_n, trim_prefix, grow}
use rtsp_proxy.Url.{Url}

-- A piece in front of a separator is the first that is split off.
pub split_n-append :
    (n sep : ℕ) (a b : Bytes)
    → HasNo sep a
    → split_n (suc n) (a ++ (sep ∷ b)) sep ≡ a ∷ split_n n b sep
unfolding split_n
split_n-append n sep [] b h = rw (eq_refl sep) refl
split_n-append n sep (c ∷ a) b h = rw h.0 (ap (grow c) (split_n-append n sep a b h.1))

pub split_n-whole : (n sep : ℕ) (a : Bytes) → HasNo sep a → split_n n a sep ≡ a ∷ []
unfolding split_n
split_n-whole zero sep a h = refl
split_n-whole (suc n) sep [] h = refl
split_n-whole (suc n) sep (c ∷ a) h = rw h.0 (ap (grow c) (split_n-whole (suc n) sep a h.1))

contains-no : (sep : ℕ) (a : Bytes) → HasNo sep a → contains a (sep ∷ []) ≡ false
unfolding contains has_prefix
contains-no sep [] h = refl
contains-no sep (c ∷ a) h = rw h.0 (contains-no sep a h.1)

contains-there : (sep : ℕ) (a b : Bytes) → contains (a ++ (sep ∷ b)) (sep ∷ []) ≡ true
unfolding contains has_prefix
contains-there sep [] b = ground (arith, eq_refl sep)
contains-there sep (c ∷ a) b = ground (arith, contains-there sep a b)

-- The credentials and the host are taken apart.
with_credentials-append :
    (c : Client) (name word host : Bytes)
    → HasNo b':' name
    → HasNo b'@' name
    → HasNo b'@' word
    → with_credentials (record c { host = (name ++ (b':' ∷ word)) ++ (b'@' ∷ host) })
      ≡ record c { host = host; username = name; password = word }
unfolding with_credentials split_n
with_credentials-append c name word host hn an aw =
    let auth = name ++ (b':' ∷ word) in
    let whole = auth ++ (b'@' ∷ host) in
    let plain : HasNo b'@' auth =
      All-append (λ d. (d == b'@') ≡ false) name (b':' ∷ word) an (refl, aw) in
    ap
      (λ b.
        if b
        then split_host (record c { host = whole }) (split_n 1 whole b'@')
        else record c { host = whole })
      (contains-there b'@' auth host)
    ∙ ap (split_host (record c { host = whole })) (split_n-append 0 b'@' auth host plain)
    ∙ ap (set_credentials (record c { host = host })) (split_n-append 0 b':' name word hn)

with_credentials-plain :
    (c : Client) (host : Bytes)
    → HasNo b'@' host
    → with_credentials (record c { host = host }) ≡ record c { host = host }
unfolding with_credentials
with_credentials-plain c host h = rw (contains-no b'@' host h) refl

abbrev with_user : Client → Url → Client
with_user c u = record c { username = username_of u.user; password = password_of u.user }

trimmed : (t : Bytes) → trim_prefix (codes "/rtsp/" ++ t) (codes "/") ≡ codes "rtsp" ++ (b'/' ∷ t)
unfolding trim_prefix has_prefix
trimmed t = refl

target_at :
    (path host rest : Bytes)
    → HasNo b'/' host
    → path ≡ codes "/rtsp/" ++ (host ++ (b'/' ∷ rest))
    → proxied_target (split_n 2 (trim_prefix path (codes "/")) b'/') ≡ some (host, b'/' ∷ rest)
unfolding proxied_target split_n bytes_eq
target_at path host rest h p =
    let t = host ++ (b'/' ∷ rest) in
    ap (λ q. proxied_target (split_n 2 (trim_prefix q (codes "/")) b'/')) p
    ∙ ap (λ q. proxied_target (split_n 2 q b'/')) (trimmed t)
    ∙ ap proxied_target (split_n-append 1 b'/' (codes "rtsp") t (refl, (refl, (refl, (refl, tt)))))
    ∙ ap (λ q. proxied_target (codes "rtsp" ∷ q)) (split_n-append 0 b'/' host rest h)

resolve_at :
    (c : Client) (request : Request) (u : Url) (host rest : Bytes)
    → is_empty c.host ≡ true
    → HasNo b'/' host
    → u.path ≡ codes "/rtsp/" ++ (host ++ (b'/' ∷ rest))
    → resolve c request u
      ≡ resolved
          (record (with_credentials (record (with_user c u) { host = host })) {
            base_path = b'/' ∷ rest;
          })
          (record u { path = b'/' ∷ rest })
unfolding resolve
resolve_at c request u host rest e h p = rw (e, target_at u.path host rest h p) refl

-- The first request of a client, with a URL whose path is /rtsp/user:password@host/path, as it is
-- when the request names only this path: the host, the path and the credentials become the
-- client's target, and the path is what is left in the request. There is no colon in the user name, no at sign in user name and password and no slash
-- in the three.
pub resolve-proxied :
    (c : Client) (request : Request) (u : Url) (name word host rest : Bytes)
    → is_empty c.host ≡ true
    → HasNo b':' name
    → HasNo b'@' name
    → HasNo b'@' word
    → HasNo b'/' ((name ++ (b':' ∷ word)) ++ (b'@' ∷ host))
    → u.path ≡ codes "/rtsp/" ++ (((name ++ (b':' ∷ word)) ++ (b'@' ∷ host)) ++ (b'/' ∷ rest))
    → resolve c request u
      ≡ resolved
          (record c { host = host; base_path = b'/' ∷ rest; username = name; password = word })
          (record u { path = b'/' ∷ rest })
resolve-proxied c request u name word host rest e hn an aw h p =
    resolve_at c request u _ rest e h p
    ∙ ap (λ d. resolved (record d { base_path = b'/' ∷ rest }) (record u { path = b'/' ∷ rest }))
        (with_credentials-append (with_user c u) name word host hn an aw)

-- The same without credentials in the path: the credentials are those of the URL, and empty if it
-- has none.
pub resolve-plain :
    (c : Client) (request : Request) (u : Url) (host rest : Bytes)
    → is_empty c.host ≡ true
    → HasNo b'@' host
    → HasNo b'/' host
    → u.path ≡ codes "/rtsp/" ++ (host ++ (b'/' ∷ rest))
    → resolve c request u
      ≡ resolved
          (record c {
            host = host;
            base_path = b'/' ∷ rest;
            username = username_of u.user;
            password = password_of u.user;
          })
          (record u { path = b'/' ∷ rest })
resolve-plain c request u host rest e a h p =
    resolve_at c request u host rest e h p
    ∙ ap (λ d. resolved (record d { base_path = b'/' ∷ rest }) (record u { path = b'/' ∷ rest }))
        (with_credentials-plain (with_user c u) host a)

-- A text has no separator, or it has a first one.
separated :
    (sep : ℕ) (t : Bytes)
    → HasNo sep t ⊎ ((a : Bytes) × ((b : Bytes) × ((t ≡ a ++ (sep ∷ b)) × HasNo sep a)))
separated sep [] = inl tt
separated sep (c ∷ t) = elim (Bool-cases (c == sep)) [
  | inl e ↦ inr ([], (t, (ground arith, tt)))
  | inr e ↦ elim (separated sep t) [
    | inl h ↦ inl (e, h)
    | inr (a, (b, (q, h))) ↦ inr (c ∷ a, (b, (ap (◌∷◌ c) q, (e, h))))
  ]
]

proxied_target-other :
    (a : Bytes) (parts : List Bytes)
    → bytes_eq a (codes "rtsp") ≡ false
    → proxied_target (a ∷ parts) ≡ none
unfolding proxied_target
proxied_target-other a [] e = refl
proxied_target-other a (h ∷ []) e = rw e refl
proxied_target-other a (h ∷ r ∷ parts) e = rw e refl

rtsp-has_prefix :
    (a b : Bytes) → a ≡ codes "rtsp" → has_prefix (a ++ (b'/' ∷ b)) (codes "rtsp/") ≡ true
unfolding has_prefix
rtsp-has_prefix a b e = ap (λ s. has_prefix (s ++ (b'/' ∷ b)) (codes "rtsp/")) e ∙ refl

no_rtsp :
    (a b : Bytes)
    → has_prefix (a ++ (b'/' ∷ b)) (codes "rtsp/") ≡ false
    → bytes_eq a (codes "rtsp") ≡ true
    → bytes_eq a (codes "rtsp") ≡ false
no_rtsp a b h e =
    let f = rtsp-has_prefix a b (ground (arith, bytes_eq_iff a (codes "rtsp"))) in absurd (cc)

has_prefix-rtsp :
    (a b : Bytes)
    → has_prefix (a ++ (b'/' ∷ b)) (codes "rtsp/") ≡ false
    → bytes_eq a (codes "rtsp") ≡ false
unfolding has_prefix
has_prefix-rtsp a b h = elim (Bool-cases (bytes_eq a (codes "rtsp"))) [
  | inl e ↦ no_rtsp a b h e
  | inr e ↦ e
]

-- A path that does not begin with rtsp/ is no target behind the proxy.
proxied_target-camera :
    (t : Bytes) → has_prefix t (codes "rtsp/") ≡ false → proxied_target (split_n 2 t b'/') ≡ none
unfolding proxied_target
proxied_target-camera t h = elim (separated b'/' t) [
  | inl n ↦ ap proxied_target (split_n-whole 2 b'/' t n)
  | inr (a, (b, (q, n))) ↦
      ap (λ s. proxied_target (split_n 2 s b'/')) q
      ∙ ap proxied_target (split_n-append 1 b'/' a b n)
      ∙ proxied_target-other a (split_n 1 b b'/')
          (has_prefix-rtsp a b (ap (λ s. has_prefix s (codes "rtsp/")) (sym q) ∙ h))
]

-- What an OPTIONS request asks of the proxy itself is not asked with a path.
is_probe-path :
    (request : Request) (u : Url) (d : ℕ) (path : Bytes)
    → u.path ≡ b'/' ∷ d ∷ path
    → is_probe request u ≡ false
unfolding bytes_eq
is_probe-path request u d path e = rw e (ground arith)

-- The target that the URL of a camera gives the client.
abbrev pub targeted : Client → Url → Client
targeted c u = record c {
  host = u.host;
  base_path = u.path;
  username = username_of u.user;
  password = password_of u.user;
}

-- The URL of a camera gives the client its target.
pub resolve-camera :
    (c : Client) (request : Request) (u : Url) (d : ℕ) (path : Bytes)
    → is_empty c.host ≡ true
    → u.path ≡ b'/' ∷ d ∷ path
    → has_prefix (d ∷ path) (codes "rtsp/") ≡ false
    → HasNo b'@' u.host
    → resolve c request u ≡ resolved (targeted c u) u
unfolding resolve trim_prefix has_prefix
resolve-camera c request u d path e p n a =
    let none_there : proxied_target (split_n 2 (trim_prefix u.path (codes "/")) b'/') ≡ none =
      ap (λ s. proxied_target (split_n 2 (trim_prefix s (codes "/")) b'/')) p
      ∙ proxied_target-camera (d ∷ path) n in
    rw (e, none_there, is_probe-path request u d path p, resolve)
      (ap (λ d. resolved (record d { base_path = u.path }) u)
        (with_credentials-plain (with_user c u) u.host a))
