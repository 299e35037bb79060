-- ===== src/Manager/Directory.antt =====
-- What GetStream and RemoveStream of rtspproxy/stream_manager.go promise: a directory of targets, in
-- which the keys of the manager do not appear.
use rtsp_proxy.Manager.{StreamManager, new_stream_manager, stream_key, get_stream, remove_stream}
use rtsp_proxy.Manager.Key.{IsTarget, stream_key-injective}
use rtsp_proxy.Prelude.Dict.{bytes_eq_inst, lookup, insert, lookup-insert, lookup-delete}
use rtsp_proxy.Stream.{new_stream}
use rtsp_proxy.Prelude.Int.{pos, ◌+ℤ◌}
use rtsp_proxy.Prelude.{
  ℕ, ◌+◌, ◌≡◌, refl, ap, ◌∙◌, arith, Bool, ◌&&◌, List, [], ◌∷◌, ◌++◌, Option, none, some, Bytes,
  bytes_eq, bytes_eq_iff, if◌then◌else◌, length, length-append, All, Option-cases, inl, inr,
}

pub record Target : Type 0 where
  pub host : Bytes
  pub username : Bytes
  pub password : Bytes
  pub path : Bytes

abbrev pub IsProper : Target → Type 0
IsProper t = IsTarget t.host t.username t.password t.path

abbrev pub same_target : Target → Target → Bool
same_target t u =
    bytes_eq t.host u.host
    && (bytes_eq t.username u.username
        && (bytes_eq t.password u.password && bytes_eq t.path u.path))

-- Which stream a target has, and the number of the next new stream.
pub record Directory : Type 0 where
  pub find : Target → Option ℕ
  pub next : ℕ

abbrev pub empty_directory : Directory
empty_directory = record { find = λ t. none; next = 0 }

abbrev pub with_target : Target → Directory → Directory
with_target t d = record {
  find = λ u. if same_target t u then some d.next else d.find u;
  next = d.next + 1;
}

unfoldable pub get : Target → Directory → Directory × ℕ
get t d = elim (d.find t) [ some n ↦ (d, n) | none ↦ (with_target t d, d.next) ]

abbrev pub without_target : Target → Directory → Directory
without_target t d = record d { find = λ u. if same_target t u then none else d.find u }

-- A call of the manager, and the numbers of the streams that calls of GetStream return.
pub data Call : Type 0 where
  gets : ℕ → Target → Call
  removes : Target → Call

abbrev pub target_of : Call → Target
target_of (gets now t) = t
target_of (removes t) = t

unfoldable pub promised : List Call → Directory → List ℕ
unfolding get
promised [] d = []
promised (gets now t ∷ cs) d = let (d', n) = get t d in n ∷ promised cs d'
promised (removes t ∷ cs) d = promised cs (without_target t d)

unfoldable pub returned : List Call → StreamManager → List ℕ
returned [] m = []
returned (gets now t ∷ cs) m =
    let (m', n) = get_stream now m t.host t.username t.password t.path in n ∷ returned cs m'
returned (removes t ∷ cs) m =
    returned cs (remove_stream m (stream_key t.host t.username t.password t.path))

abbrev key : Target → Bytes
key t = stream_key t.host t.username t.password t.path

same_target-key :
    (t u : Target) → IsProper t → IsProper u → bytes_eq (key t) (key u) ≡ same_target t u
same_target-key t u p q = ground (
  arith,
  bytes_eq_iff (key t) (key u),
  bytes_eq_iff t.host u.host,
  bytes_eq_iff t.username u.username,
  bytes_eq_iff t.password u.password,
  bytes_eq_iff t.path u.path,
  stream_key-injective t.host t.username t.password t.path u.host u.username u.password u.path p q,
)

-- The manager has exactly the streams of the directory, under their keys.
data Implements (m : StreamManager) (d : Directory) : Type 0 where
  implements :
      length m.objects ≡ d.next
      → ((t : Target) → IsProper t → lookup (key t) m.streams ≡ d.find t)
      → Implements m d

-- A call ends in an implementation again, with the same number.
data Agree (out : StreamManager × ℕ) (want : Directory × ℕ) : Type 0 where
  agree : Implements out.0 want.0 → out.1 ≡ want.1 → Agree out want

made-Implements :
    (now : ℕ) (m : StreamManager) (d : Directory) (t : Target)
    → Implements m d
    → IsProper t
    → Implements
        (record {
          streams = insert (key t) (length m.objects) m.streams;
          objects = m.objects ++ new_stream now t.host t.username t.password t.path ∷ [];
          active = m.active +ℤ pos 1;
        })
        (with_target t d)
made-Implements now m d t (implements c f) p =
    implements (rw length-append (ap (λ n. n + 1) c)) (λ u q.
      lookup-insert (key t) (key u) (length m.objects) m.streams
      ∙ rw (same_target-key t u p q, f u q, c) refl)

get-Agree :
    (now : ℕ) (m : StreamManager) (d : Directory) (t : Target)
    → Implements m d
    → IsProper t
    → Agree (get_stream now m t.host t.username t.password t.path) (get t d)
unfolding get_stream get
get-Agree now m d t (implements c f) p = elim (Option-cases (d.find t)) [
  | inl e ↦
      rw (f t p ∙ e, get_stream)
        (rw (e, get) (agree (made-Implements now m d t (implements c f) p) c))
  | inr (n, e) ↦ rw (f t p ∙ e, get_stream) (rw (e, get) (agree (implements c f) refl))
]

without_target-Implements :
    (m : StreamManager) (d : Directory) (t : Target)
    → Implements m d
    → IsProper t
    → Implements (remove_stream m (key t)) (without_target t d)
unfolding remove_stream
without_target-Implements m d t (implements c f) p =
    implements c
      (λ u q. lookup-delete (key t) (key u) m.streams ∙ rw (same_target-key t u p q, f u q) refl)

calls-agree :
    (cs : List Call) (m : StreamManager) (d : Directory)
    → Implements m d
    → All (λ c. IsProper (target_of c)) cs
    → returned cs m ≡ promised cs d
unfolding returned promised
calls-agree [] m d i h = refl
calls-agree (gets now t ∷ cs) m d i (p, h) = elim (get-Agree now m d t i p) [
  | agree j e ↦ rw e (ap (λ ns. (get t d).1 ∷ ns) (calls-agree cs _ _ j h))
]
calls-agree (removes t ∷ cs) m d i (p, h) =
    calls-agree cs (remove_stream m (key t)) (without_target t d)
      (without_target-Implements m d t i p) h

-- Whatever calls are made with proper targets, the manager returns the streams that the directory
-- promises: one new stream for a target that has none, and the same for exactly this target until it
-- is removed.
pub returned-promised :
    (cs : List Call)
    → All (λ c. IsProper (target_of c)) cs
    → returned cs new_stream_manager ≡ promised cs empty_directory
unfolding lookup
returned-promised cs h =
    calls-agree cs new_stream_manager empty_directory (implements refl (λ t p. refl)) h
