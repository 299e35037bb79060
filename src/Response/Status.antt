-- ===== src/Response/Status.antt =====
-- Printing a status line and parsing it.
use rtsp_proxy.HeaderBlock.{is_blank, word}
use rtsp_proxy.Message.Lines.{IsLine}
use rtsp_proxy.Message.{ok, is_eol}
use rtsp_proxy.Prelude.Int.{pos}
use rtsp_proxy.Text.Number.RoundTrip.{IsDigit, itoa_nat-IsDigit, atoi-itoa_nat}
use rtsp_proxy.Text.Number.{digits, itoa_nat}
use rtsp_proxy.Text.{rune_string}
use rtsp_proxy.Response.{Response, phrase, status_code, is_empty, check_status, parse_status}
use rtsp_proxy.Prelude.{
  ℕ, suc, ◌-◌, ◌≤◌, ◌<◌, false, [], ◌∷◌, ◌++◌, ◌≡◌, ◌≢◌, refl, ap, ◌∙◌, arith, Bytes, All,
  All-append, length,
}

-- A word of the first line: ASCII with no blank and no line end in it.
abbrev pub IsWord : Bytes → Type 0
IsWord = All (λ c. (c < 128) × (is_blank c ≡ false) × (is_eol c ≡ false))

-- A reason phrase: ASCII with no line end in it.
abbrev pub IsPhrase : Bytes → Type 0
IsPhrase = All (λ c. (c < 128) × (is_eol c ≡ false))

pub rune_string_ascii : (c : ℕ) → c < 128 → rune_string c ≡ c ∷ []
unfolding rune_string
rune_string_ascii c h = ground arith

pub word-append : (w rest : Bytes) → IsWord w → word (w ++ (b' ' ∷ rest)) ≡ (w, b' ' ∷ rest)
unfolding word
word-append [] rest h = refl
word-append (c ∷ cs) rest h = rw (h.0.1, word-append cs rest h.1, rune_string_ascii c h.0.0)

phrase-IsPhrase : (s : Bytes) → IsPhrase s → phrase s ≡ s
unfolding phrase
phrase-IsPhrase [] h = refl
phrase-IsPhrase (c ∷ cs) h = rw (h.0.1, phrase-IsPhrase cs h.1, rune_string_ascii c h.0.0)

digits-three : (f n : ℕ) → 100 ≤ n → n ≤ 999 → length (digits (suc (suc (suc f))) n []) ≡ 3
unfolding digits
digits-three f n lo hi = ground arith

itoa_nat-three : (n : ℕ) → 100 ≤ n → n ≤ 999 → length (itoa_nat n) ≡ 3
unfolding itoa_nat
itoa_nat-three n lo hi =
    let e : suc n ≡ suc (suc (suc (n - 2))) = omega arith in
    ap (λ f. length (digits f n [])) e ∙ digits-three (n - 2) n lo hi

digits-IsWord : (s : Bytes) → All IsDigit s → IsWord s
digits-IsWord [] h = tt
digits-IsWord (c ∷ cs) h = ((omega arith, ground arith, ground arith), digits-IsWord cs h.1)

pub IsWord-IsLine : (w : Bytes) → IsWord w → IsLine w
IsWord-IsLine [] h = tt
IsWord-IsLine (c ∷ cs) h = (h.0.2, IsWord-IsLine cs h.1)

IsPhrase-IsLine : (w : Bytes) → IsPhrase w → IsLine w
IsPhrase-IsLine [] h = tt
IsPhrase-IsLine (c ∷ cs) h = (h.0.1, IsPhrase-IsLine cs h.1)

pub is_empty-false : (s : Bytes) → s ≢ [] → is_empty s ≡ false
is_empty-false [] h = absurd (h refl)
is_empty-false (c ∷ cs) h = refl

status_code-itoa : (n : ℕ) → 100 ≤ n → n ≤ 999 → status_code (itoa_nat n) ≡ ok (pos n)
unfolding status_code
status_code-itoa n lo hi = rw (itoa_nat-three n lo hi, atoi-itoa_nat n (omega arith))

abbrev pub status_line : Bytes → ℕ → Bytes → Bytes
status_line version n status = version ++ (b' ' ∷ (itoa_nat n ++ (b' ' ∷ status)))

pub status_line-IsLine :
    (version : Bytes) (n : ℕ) (status : Bytes)
    → IsWord version
    → IsPhrase status
    → IsLine (status_line version n status)
status_line-IsLine version n status hv hs = All-append _ version _ (IsWord-IsLine version hv) (
  refl,
  All-append _ (itoa_nat n) _
      (IsWord-IsLine (itoa_nat n) (digits-IsWord (itoa_nat n) (itoa_nat-IsDigit n)))
      (refl, IsPhrase-IsLine status hs),
)

check_status-ok :
    (r : Response) (version status : Bytes) (n : ℕ)
    → version ≢ []
    → status ≢ []
    → 0 < n
    → check_status r version status (pos n)
      ≡ ok (record r { status = status; protocol_version = version; code = pos n })
unfolding check_status
check_status-ok r version status n nv ns lo =
    rw (is_empty-false version nv, is_empty-false status ns) (ground arith)

-- ParseStatus reads back a status line.
pub parse_status-print :
    (r : Response) (version : Bytes) (n : ℕ) (status : Bytes)
    → IsWord version
    → version ≢ []
    → IsPhrase status
    → status ≢ []
    → 100 ≤ n
    → n ≤ 999
    → parse_status r (status_line version n status)
      ≡ ok (record r { status = status; protocol_version = version; code = pos n })
unfolding parse_status
parse_status-print r version n status hv nv hs ns lo hi =
    rw
      (
        word-append version (itoa_nat n ++ (b' ' ∷ status)) hv,
        word-append (itoa_nat n) status (digits-IsWord (itoa_nat n) (itoa_nat-IsDigit n)),
        status_code-itoa n lo hi,
        phrase-IsPhrase status hs,
      )
      (check_status-ok r version status n nv ns (omega arith))
