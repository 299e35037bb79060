-- ===== src/Manager/Key.antt =====
-- The key that GetStream of rtspproxy/stream_manager.go makes of a target.
use rtsp_proxy.Manager.{stream_key}
use rtsp_proxy.Message.Headers.{HasNo}
use rtsp_proxy.Prelude.Dict.{bytes_eq_inst}
use rtsp_proxy.Prelude.{ℕ, ◌≡◌, refl, ap, sym, ◌∙◌, [], ◌∷◌, ◌++◌, Bytes, ==_iff}

cons-head : {a b : ℕ} {x y : Bytes} → a ∷ x ≡ b ∷ y → a ≡ b
cons-head e = cc

cons-tail : {a b : ℕ} {x y : Bytes} → a ∷ x ≡ b ∷ y → x ≡ y
cons-tail e = cc

-- A text that does not hold the separator is cut off in one way only.
pub separated :
    (c : ℕ) (a b x y : Bytes)
    → HasNo c a
    → HasNo c b
    → a ++ (c ∷ x) ≡ b ++ (c ∷ y)
    → (a ≡ b) × (x ≡ y)
separated c [] [] x y h k e = (refl, cons-tail e)
separated c [] (d ∷ b) x y h k e = absurd (cc ((==_iff d c).1 (sym (cons-head e)), k.0))
separated c (d ∷ a) [] x y h k e = absurd (cc ((==_iff d c).1 (cons-head e), h.0))
separated c (d ∷ a) (f ∷ b) x y h k e =
    let (p, q) = separated c a b x y h.1 k.1 (cons-tail e) in (cc (p, cons-head e), q)

-- The target of a stream: no colon in the user name, no at sign in the password, no slash in the
-- host, and a path that starts with a slash.
pub record IsTarget (host username password path : Bytes) : Type 0 where
  pub user_plain : HasNo b':' username
  pub password_plain : HasNo b'@' password
  pub host_plain : HasNo b'/' host
  pub below : Bytes
  pub rooted : path ≡ b'/' ∷ below

-- Under these conditions two targets with the same key are the same: host, user name, password and
-- path.
pub stream_key-injective :
    (host username password path host' username' password' path' : Bytes)
    → IsTarget host username password path
    → IsTarget host' username' password' path'
    → stream_key host username password path ≡ stream_key host' username' password' path'
    → (host ≡ host') × (username ≡ username') × (password ≡ password') × (path ≡ path')
stream_key-injective host username password path host' username' password' path' t t' e =
    let (u, rest) = separated b':' username username' _ _ t.user_plain t'.user_plain e in
    let (p, rest') =
      separated b'@' password password' _ _ t.password_plain t'.password_plain rest in
    let rooted : host ++ (b'/' ∷ t.below) ≡ host' ++ (b'/' ∷ t'.below) =
      ap (λ q. host ++ q) (sym t.rooted) ∙ rest' ∙ ap (λ q. host' ++ q) t'.rooted in
    let (h, below) = separated b'/' host host' t.below t'.below t.host_plain t'.host_plain rooted in
    (h, u, p, t.rooted ∙ ap (λ q. b'/' ∷ q) below ∙ sym t'.rooted)
