-- ===== src/Digest/Challenges.antt =====
-- ParseWWWAuthenticate of rtspproxy/digest.go on what a camera sends.
use rtsp_proxy.Digest.{
  eat, until_quote, quoted_here, leftmost, extract_param, digest_here, digest_challenge,
  parse_www_authenticate,
}
use rtsp_proxy.Prelude.Dict.{bytes_eq_inst}
use rtsp_proxy.Prelude.{
  ℕ, ◌≡◌, refl, ◌∙◌, arith, true, false, [], ◌∷◌, ◌++◌, Option, none, some, Bytes, codes, All, ◌==◌,
  Bool-cases, inl, inr,
}
use rtsp_proxy.Text.Split.{HasNo}
use rtsp_proxy.Text.{lower}

until_quote-append : (v t : Bytes) → HasNo b'"' v → until_quote (v ++ (b'"' ∷ t)) ≡ some v
unfolding until_quote
until_quote-append [] t h = refl
until_quote-append (c ∷ cs) t h = rw h.0 (rw (until_quote-append cs t h.1) refl)

-- A letter of a name is neither a quote nor an equals sign.
abbrev IsName : Bytes → Type 0
IsName = All (λ p. (lower p == lower b'"') ≡ false)

lower_equals : (c : ℕ) → (c == b'=') ≡ false → (lower b'=' == lower c) ≡ false
lower_equals c h = ground arith

-- A name with an equals sign and a quote behind it does not stand in front of a quote that no equals
-- sign comes before.
eat-none :
    (name r t : Bytes)
    → IsName name
    → HasNo b'=' r
    → eat (name ++ (b'=' ∷ b'"' ∷ [])) (r ++ (b'"' ∷ t)) ≡ none
unfolding eat
eat-none [] [] t n h = refl
eat-none [] (c ∷ cs) t n h = rw (lower_equals c h.0) refl
eat-none (p ∷ ps) [] t n h = rw n.0 refl
eat-none (p ∷ ps) (c ∷ cs) t n h = elim (Bool-cases (lower p == lower c)) [
  | inl e ↦ rw e (eat-none ps cs t n.1 h.1)
  | inr e ↦ rw e refl
]

leftmost-none :
    (match : Bytes → Option Bytes) (c : ℕ) (cs : Bytes)
    → match (c ∷ cs) ≡ none
    → leftmost match (c ∷ cs) ≡ leftmost match cs
unfolding leftmost
leftmost-none match c cs e = rw (e, leftmost) refl

leftmost-some :
    (match : Bytes → Option Bytes) (s v : Bytes) → match s ≡ some v → leftmost match s ≡ some v
unfolding leftmost
leftmost-some match [] v e = e
leftmost-some match (c ∷ cs) v e = rw (e, leftmost) refl

quoted_here-none :
    (name s : Bytes) → eat (name ++ (b'=' ∷ b'"' ∷ [])) s ≡ none → quoted_here name s ≡ none
unfolding quoted_here
quoted_here-none name s e = rw (e, quoted_here) refl

extract_quoted :
    (name s v : Bytes) → leftmost (quoted_here name) s ≡ some v → extract_param name s ≡ v
unfolding extract_param
extract_quoted name s v e = rw (e, extract_param) refl

leftmost-skip :
    (name r t : Bytes)
    → IsName name
    → HasNo b'=' r
    → leftmost (quoted_here name) (r ++ (b'"' ∷ t)) ≡ leftmost (quoted_here name) (b'"' ∷ t)
leftmost-skip name [] t n h = refl
leftmost-skip name (c ∷ cs) t n h =
    leftmost-none (quoted_here name) c (cs ++ (b'"' ∷ t))
      (quoted_here-none name (c ∷ (cs ++ (b'"' ∷ t))) (eat-none name (c ∷ cs) t n h))
    ∙ leftmost-skip name cs t n h.1

-- A challenge as cameras write it.
abbrev pub challenge_text : Bytes → Bytes → Bytes → Bytes
challenge_text realm nonce more =
    codes "Digest realm=\"" ++ (realm ++ (codes "\", nonce=\"" ++ (nonce ++ (b'"' ∷ more))))

-- The realm and the nonce of a digest challenge are read back, whatever comes behind them: neither
-- holds a quote, and the realm holds no equals sign.
pub parse_www_authenticate-challenge_text :
    (realm nonce more : Bytes)
    → HasNo b'"' realm
    → HasNo b'=' realm
    → HasNo b'"' nonce
    → ((parse_www_authenticate (challenge_text realm nonce more)).is_digest ≡ true)
      × (((parse_www_authenticate (challenge_text realm nonce more)).realm ≡ realm)
          × ((parse_www_authenticate (challenge_text realm nonce more)).nonce ≡ nonce))
unfolding parse_www_authenticate digest_challenge leftmost digest_here eat quoted_here
parse_www_authenticate-challenge_text realm nonce more q e n = (
  refl,
  (
    extract_quoted (codes "realm") (challenge_text realm nonce more) realm (
        leftmost-some (quoted_here (codes "realm"))
          (codes "realm=\"" ++ (realm ++ (codes "\", nonce=\"" ++ (nonce ++ (b'"' ∷ more))))) realm
          (until_quote-append realm _ q)),
    extract_quoted (codes "nonce") (challenge_text realm nonce more) nonce (
        leftmost-skip (codes "nonce") realm (codes ", nonce=\"" ++ (nonce ++ (b'"' ∷ more)))
          (ground arith) e
        ∙ leftmost-some (quoted_here (codes "nonce")) (codes "nonce=\"" ++ (nonce ++ (b'"' ∷ more)))
            nonce (until_quote-append nonce more n)),
  ),
)
