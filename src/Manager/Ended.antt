-- ===== src/Manager/Ended.antt =====
-- Shutdown of rtspproxy/stream_manager.go and the streams of the manager.
use rtsp_proxy.Lifecycle.Released.{destroyed_there}
use rtsp_proxy.Lifecycle.{destroy}
use rtsp_proxy.Manager.Isolation.{object}
use rtsp_proxy.Manager.{
  StreamManager, remove_stream, update_object, end_stream, end_streams, shutdown,
}
use rtsp_proxy.Prelude.Dict.{Dict, bytes_eq_inst, lookup, lookup-delete}
use rtsp_proxy.Prelude.{
  ℕ, zero, suc, ◌≡◌, ◌≢◌, inl, inr, refl, subst, ap, sym, ◌∙◌, arith, true, List, [], ◌∷◌, none,
  some, Bytes, bytes_eq, ◌==◌, ==_iff, Bool-cases,
}
use rtsp_proxy.Remote.{Net}
use rtsp_proxy.Stream.{Stream, destroyed, ready}
use rtsp_proxy.Url.{Url}

-- The stream with this number is there, and not in the state Ready.
abbrev pub IsAlive : ℕ → List Stream → Type 0
IsAlive n ss = (s : Stream) × ((object n ss ≡ some s) × (s.state ≢ ready))

-- The stream with this number is there, destroyed and cancelled.
abbrev pub IsEnded : ℕ → List Stream → Type 0
IsEnded n ss =
    (s : Stream) × ((object n ss ≡ some s) × (s.state ≡ destroyed) × (s.cancelled ≡ true))

IsEnded-IsAlive : (n : ℕ) (ss : List Stream) → IsEnded n ss → IsAlive n ss
IsEnded-IsAlive n ss (s, (at, d, c)) = (s, (at, (λ e. cc)))

module _ (f : Stream → Stream) where
  object-update :
      (n : ℕ) (ss : List Stream) (s : Stream)
      → object n ss ≡ some s
      → object n (update_object n f ss) ≡ some (f s)
  object-update n [] s e = absurd (cc)
  object-update zero (t ∷ ss) s e = cc
  object-update (suc n) (t ∷ ss) s e = object-update n ss s e

  object-update_other :
      (n m : ℕ) (ss : List Stream) → n ≢ m → object n (update_object m f ss) ≡ object n ss
  object-update_other n m [] h = refl
  object-update_other zero zero (t ∷ ss) h = absurd (h refl)
  object-update_other zero (suc m) (t ∷ ss) h = refl
  object-update_other (suc n) zero (t ∷ ss) h = refl
  object-update_other (suc n) (suc m) (t ∷ ss) h = object-update_other n m ss (λ e. h (ap suc e))

module _ (md5_hex : Bytes → Bytes) (url_print : Url → Bytes) (nets : Bytes → Bytes → Net)
    (now : ℕ) where
  abbrev ended : Bytes → Stream → Stream
  ended key s = (destroy md5_hex url_print (nets key) now s).stream

  ended_there :
      (key : Bytes) (s : Stream)
      → s.state ≢ ready
      → ((ended key s).state ≡ destroyed) × ((ended key s).cancelled ≡ true)
  unfolding destroy
  ended_there key s h = (destroyed_there now s h, refl)

  ends :
      (key : Bytes) (n : ℕ) (ss : List Stream)
      → IsAlive n ss
      → IsEnded n (update_object n (ended key) ss)
  ends key n ss (s, (at, h)) = (
    ended key s,
    (object-update (ended key) n ss s at, (ended_there key s h).0, (ended_there key s h).1),
  )

  keeps_IsEnded :
      (key : Bytes) (n m : ℕ) (ss : List Stream)
      → IsEnded n ss
      → IsEnded n (update_object m (ended key) ss)
  keeps_IsEnded key n m ss e = elim (Bool-cases (n == m)) [
    | inl q ↦
        subst (λ k. IsEnded n (update_object k (ended key) ss)) ((==_iff n m).0 q)
          (ends key n ss (IsEnded-IsAlive n ss e))
    | inr q ↦
        let same : object n (update_object m (ended key) ss) ≡ object n ss =
          object-update_other (ended key) n m ss (λ p. cc ((==_iff n m).1 p)) in
        (e.0, (same ∙ e.1.0, e.1.1, e.1.2))
  ]

  keeps_IsAlive :
      (key : Bytes) (n m : ℕ) (ss : List Stream)
      → IsAlive n ss
      → IsAlive n (update_object m (ended key) ss)
  keeps_IsAlive key n m ss a = elim (Bool-cases (n == m)) [
    | inl q ↦
        subst (λ k. IsAlive n (update_object k (ended key) ss)) ((==_iff n m).0 q)
          (IsEnded-IsAlive n _ (ends key n ss a))
    | inr q ↦
        let same : object n (update_object m (ended key) ss) ≡ object n ss =
          object-update_other (ended key) n m ss (λ p. cc ((==_iff n m).1 p)) in
        (a.0, (same ∙ a.1.0, a.1.1))
  ]

  end_streams-keeps :
      (l : Dict Bytes ℕ) (m : StreamManager) (n : ℕ)
      → IsEnded n m.objects
      → IsEnded n (end_streams md5_hex url_print nets now l m).objects
  unfolding end_streams end_stream remove_stream
  end_streams-keeps [] m n e = e
  end_streams-keeps ((key, j) ∷ l) m n e =
      end_streams-keeps l (end_stream md5_hex url_print nets now key j m) n
        (keeps_IsEnded key n j m.objects e)

  end_streams-IsEnded :
      (l : Dict Bytes ℕ) (m : StreamManager) (key : Bytes) (n : ℕ)
      → lookup key l ≡ some n
      → IsAlive n m.objects
      → IsEnded n (end_streams md5_hex url_print nets now l m).objects
  unfolding end_streams end_stream remove_stream lookup
  end_streams-IsEnded [] m key n h a = absurd (cc)
  end_streams-IsEnded ((k, j) ∷ l) m key n h a = elim (Bool-cases (bytes_eq k key)) [
    | inl q ↦
        let same : j ≡ n = ground arith in
        end_streams-keeps l (end_stream md5_hex url_print nets now k j m) n (
          subst (λ i. IsEnded n (update_object i (ended k) m.objects)) (sym same)
            (ends k n m.objects a))
    | inr q ↦
        end_streams-IsEnded l (end_stream md5_hex url_print nets now k j m) key n (ground arith)
          (keeps_IsAlive k n j m.objects a)
  ]

  end_streams-none :
      (l : Dict Bytes ℕ) (m : StreamManager) (key : Bytes)
      → lookup key m.streams ≡ none
      → lookup key (end_streams md5_hex url_print nets now l m).streams ≡ none
  unfolding end_streams end_stream remove_stream
  end_streams-none [] m key h = h
  end_streams-none ((k, j) ∷ l) m key h =
      end_streams-none l (end_stream md5_hex url_print nets now k j m) key
        (ground (arith, lookup-delete k key m.streams))

  end_streams-forgets :
      (l : Dict Bytes ℕ) (m : StreamManager) (key : Bytes) (n : ℕ)
      → lookup key l ≡ some n
      → lookup key (end_streams md5_hex url_print nets now l m).streams ≡ none
  unfolding end_streams end_stream remove_stream lookup
  end_streams-forgets [] m key n h = absurd (cc)
  end_streams-forgets ((k, j) ∷ l) m key n h = elim (Bool-cases (bytes_eq k key)) [
    | inl q ↦
        end_streams-none l (end_stream md5_hex url_print nets now k j m) key
          (ground (arith, lookup-delete k key m.streams))
    | inr q ↦
        end_streams-forgets l (end_stream md5_hex url_print nets now k j m) key n (ground arith)
  ]

-- Shutdown ends every stream that the manager knows, whose number is that of a stream in any state
-- but Ready: it is destroyed and cancelled, and the manager has forgotten its key.
pub shutdown-IsEnded :
    (md5_hex : Bytes → Bytes) (url_print : Url → Bytes) (nets : Bytes → Bytes → Net) (now : ℕ)
    (m : StreamManager) (key : Bytes) (n : ℕ)
    → lookup key m.streams ≡ some n
    → IsAlive n m.objects
    → IsEnded n (shutdown md5_hex url_print nets now m).objects
      × (lookup key (shutdown md5_hex url_print nets now m).streams ≡ none)
unfolding shutdown
shutdown-IsEnded md5_hex url_print nets now m key n h a = (
  end_streams-IsEnded md5_hex url_print nets now m.streams m key n h a,
  end_streams-forgets md5_hex url_print nets now m.streams m key n h,
)
