-- ===== src/Manager/Isolation.antt =====
-- GetStream and RemoveStream of rtspproxy/stream_manager.go and the targets of streams.
use rtsp_proxy.Manager.{StreamManager, stream_key, key_of, get_stream, remove_stream}
use rtsp_proxy.Prelude.Int.{pos, ◌+ℤ◌}
use rtsp_proxy.Prelude.Dict.{
  bytes_eq_inst, lookup, insert, delete, lookup-insert, lookup-delete, lookup-insert_self,
}
use rtsp_proxy.Prelude.{
  ℕ, zero, suc, ◌≡◌, inl, inr, refl, ap, sym, ◌∙◌, subst, arith, List, [], ◌∷◌, ◌++◌, Option, none,
  some, Bytes, bytes_eq, bytes_eq_iff, if◌then◌else◌, length, Bool-cases, Option-cases,
}
use rtsp_proxy.Stream.{Stream, new_stream}
use rtsp_proxy.Manager.Key.{IsTarget, stream_key-injective}

abbrev pub object : ℕ → List Stream → Option Stream
object n [] = none
object zero (s ∷ ss) = some s
object (suc n) (s ∷ ss) = object n ss

object-append :
    (n : ℕ) (s t : Stream) (ss : List Stream)
    → object n ss ≡ some s
    → object n (ss ++ t ∷ []) ≡ some s
object-append n s t [] h = absurd (cc)
object-append zero s t (u ∷ ss) h = h
object-append (suc n) s t (u ∷ ss) h = object-append n s t ss h

object-last : (ss : List Stream) (t : Stream) → object (length ss) (ss ++ t ∷ []) ≡ some t
object-last [] t = refl
object-last (s ∷ ss) t = object-last ss t

-- The stream with a number is for this key, and has a proper target.
pub record Serves (objects : List Stream) (key : Bytes) (n : ℕ) : Type 0 where
  pub stream : Stream
  pub there : object n objects ≡ some stream
  pub same_key : key_of stream ≡ key
  pub target : IsTarget stream.host stream.username stream.password stream.path

abbrev pub IsManaged : StreamManager → Type 0
IsManaged m = (key : Bytes) (n : ℕ) → lookup key m.streams ≡ some n → Serves m.objects key n

Serves-append :
    (objects : List Stream) (key : Bytes) (n : ℕ) (t : Stream)
    → Serves objects key n
    → Serves (objects ++ t ∷ []) key n
Serves-append objects key n t v = record {
  stream = v.stream;
  there = object-append n v.stream t objects v.there;
  same_key = v.same_key;
  target = v.target;
}

-- Where the stream of a target stands, and that it is no other's: its host, user name, password and
-- path are the ones asked for.
pub record IsFor (m : StreamManager) (n : ℕ) (host username password path : Bytes) : Type 0 where
  pub stream : Stream
  pub there : object n m.objects ≡ some stream
  pub host_same : stream.host ≡ host
  pub username_same : stream.username ≡ username
  pub password_same : stream.password ≡ password
  pub path_same : stream.path ≡ path

module _ (now : ℕ) (m : StreamManager) (host username password path : Bytes) where
  known_at :
      (n : ℕ)
      → lookup (stream_key host username password path) m.streams ≡ some n
      → get_stream now m host username password path ≡ (m, n)
  unfolding get_stream
  known_at n e = rw (e, get_stream)

  abbrev made : StreamManager
  made = record {
    streams = insert (stream_key host username password path) (length m.objects) m.streams;
    objects = m.objects ++ new_stream now host username password path ∷ [];
    active = m.active +ℤ pos 1;
  }

  unknown_at :
      lookup (stream_key host username password path) m.streams ≡ none
      → get_stream now m host username password path ≡ (made, length m.objects)
  unfolding get_stream
  unknown_at e = rw (e, get_stream)

  new-Serves :
      IsTarget host username password path
      → Serves made.objects (stream_key host username password path) (length m.objects)
  unfolding new_stream
  new-Serves t = record {
    stream = new_stream now host username password path;
    there = object-last m.objects _;
    same_key = refl;
    target = t;
  }

  made-IsManaged : IsManaged m → IsTarget host username password path → IsManaged made
  made-IsManaged v t key n e =
      elim (Bool-cases (bytes_eq (stream_key host username password path) key)) [
        | inl q ↦
            let same : length m.objects ≡ n = some-value (
              sym (ap (λ b. if b then some (length m.objects) else lookup key m.streams) q)
              ∙ sym (
                  lookup-insert (stream_key host username password path) key (length m.objects)
                    m.streams)
              ∙ e) in
            subst (λ k. Serves made.objects key k) same
              (subst (λ k. Serves made.objects k (length m.objects)) ((bytes_eq_iff _ key).0 q)
                (new-Serves t))
        | inr q ↦ Serves-append m.objects key n _ (
            v key n (
              sym (ap (λ b. if b then some (length m.objects) else lookup key m.streams) q)
              ∙ sym (
                  lookup-insert (stream_key host username password path) key (length m.objects)
                    m.streams)
              ∙ e))
      ]
    where
      some-value : {a b : ℕ} → some a ≡ some b → a ≡ b
      some-value p = cc

  new-IsFor : IsFor made (length m.objects) host username password path
  unfolding new_stream
  new-IsFor = record {
    stream = new_stream now host username password path;
    there = object-last m.objects _;
    host_same = refl;
    username_same = refl;
    password_same = refl;
    path_same = refl;
  }

  known-IsFor :
      (n : ℕ)
      → IsTarget host username password path
      → Serves m.objects (stream_key host username password path) n
      → IsFor m n host username password path
  known-IsFor n t v =
      let (h, u, p, q) =
        stream_key-injective v.stream.host v.stream.username v.stream.password v.stream.path host
          username password path v.target t v.same_key in
      record {
        stream = v.stream;
        there = v.there;
        host_same = h;
        username_same = u;
        password_same = p;
        path_same = q;
      }

  made-finds :
      lookup (stream_key host username password path) made.streams ≡ some (length m.objects)
  made-finds =
      lookup-insert_self (stream_key host username password path) (length m.objects) m.streams

-- GetStream for a proper target, on a manager all of whose streams have proper targets: the
-- stream is the one of exactly this host, user name, password and path, so no credentials are
-- ever mixed up; asking again gives the same stream and makes none; and the manager stays so.
pub get_stream-isolated :
    (now later : ℕ) (m : StreamManager) (host username password path : Bytes)
    → IsManaged m
    → IsTarget host username password path
    → IsManaged (get_stream now m host username password path).0
      × IsFor
          (get_stream now m host username password path).0
          (get_stream now m host username password path).1
          host
          username
          password
          path
      × (get_stream later
            (get_stream now m host username password path).0
            host
            username
            password
            path
          ≡ get_stream now m host username password path)
get_stream-isolated now later m host username password path v t =
    let key = stream_key host username password path in
    elim (Option-cases (lookup key m.streams)) [
      | inl e ↦ rw (unknown_at now m host username password path e) (
        made-IsManaged now m host username password path v t,
        new-IsFor now m host username password path,
        known_at later (made now m host username password path) host username password path
            (length m.objects) (made-finds now m host username password path),
      )
      | inr (n, e) ↦ rw (known_at now m host username password path n e) (
        v,
        known-IsFor now m host username password path n t (v key n e),
        known_at later m host username password path n e,
      )
    ]

-- RemoveStream forgets the stream of its key and no other; a manager all of whose streams have
-- proper targets stays so.
pub remove_stream-removes :
    (m : StreamManager) (key other : Bytes)
    → IsManaged m
    → IsManaged (remove_stream m key)
      × (lookup key (remove_stream m key).streams ≡ none)
      × (lookup other (remove_stream m key).streams
          ≡ (if bytes_eq key other then none else lookup other m.streams))
unfolding remove_stream
remove_stream-removes m key other v = (
  (λ k n e. v k n (kept k n e)),
  ground (arith, lookup-delete key key m.streams, bytes_eq_iff key key),
  lookup-delete key other m.streams,
)
  where
    kept :
        (k : Bytes) (n : ℕ) → lookup k (delete key m.streams) ≡ some n → lookup k m.streams ≡ some n
    kept k n e = ground (arith, lookup-delete key k m.streams)
