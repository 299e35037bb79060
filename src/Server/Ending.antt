-- ===== src/Server/Ending.antt =====
-- Shutdown of rtspproxy/server.go.
use rtsp_proxy.Manager.Ended.{IsAlive, IsEnded, shutdown-IsEnded}
use rtsp_proxy.Manager.{StreamManager}
use rtsp_proxy.Prelude.Dict.{bytes_eq_inst, lookup}
use rtsp_proxy.Prelude.{ℕ, ◌≡◌, refl, Bool, true, false, List, [], ◌∷◌, map, All, none, some, Bytes}
use rtsp_proxy.Remote.{Net}
use rtsp_proxy.Server.{
  Server, Round, accept_round, accept_loop, cancel_streams, stop_accepting, shutdown,
}
use rtsp_proxy.Stream.{Stream}
use rtsp_proxy.Url.{Url}

cancelled_loop : (rs : List Round) (s : Server) → s.cancelled ≡ true → (accept_loop rs s).1 ≡ []
unfolding accept_loop accept_round
cancelled_loop [] s e = refl
cancelled_loop (r ∷ rs) s e = rw e refl

-- The streams and the count of clients when the wait of Shutdown is over: it begins with every stream
-- cancelled.
abbrev pub waited : (StreamManager × ℕ → StreamManager × ℕ) → Server → StreamManager
waited waits s = (waits (cancel_streams s.stream_manager, s.clients)).0

-- How Shutdown leaves a stream of the manager: ended and forgotten with a nil error, or with an error
-- as the wait left it.
abbrev pub Leaves : Bool → Bytes → ℕ → StreamManager → Server × Bool → Type 0
Leaves true key n m (s, fine) =
    (fine ≡ true)
    × (IsEnded n s.stream_manager.objects × (lookup key s.stream_manager.streams ≡ none))
Leaves false key n m (s, fine) = (fine ≡ false) × (s.stream_manager ≡ m)

-- Every stream that the manager had made is cancelled when the wait begins.
abbrev pub AllCancelled : StreamManager → Type 0
AllCancelled m = All (λ (x : Stream). x.cancelled ≡ true) m.objects

cancelled-All :
    (xs : List Stream)
    → All
        (λ (x : Stream). x.cancelled ≡ true)
        (map (λ (x : Stream). record x { cancelled = true }) xs)
cancelled-All [] = tt
cancelled-All (x ∷ xs) = (refl, cancelled-All xs)

-- After Shutdown no client is accepted any more, and all streams are cancelled before it waits. If the
-- clients are gone in time, every stream that the manager knows after the wait, with the number of a
-- stream in any state but Ready, is ended and forgotten, and the error is nil; if not, an error is
-- returned, and the manager and its streams are left as they are after the wait.
pub shutdown-Leaves :
    (md5_hex : Bytes → Bytes) (url_print : Url → Bytes) (nets : Bytes → Bytes → Net) (now : ℕ)
    (waits : StreamManager × ℕ → StreamManager × ℕ) (finished : Bool) (s : Server)
    (rounds : List Round) (key : Bytes) (n : ℕ)
    → lookup key (waited waits s).streams ≡ some n
    → IsAlive n (waited waits s).objects
    → ((accept_loop rounds (shutdown md5_hex url_print nets now waits finished s).0).1 ≡ [])
      × (AllCancelled (stop_accepting s).stream_manager
          × Leaves finished key n
              (waited waits s)
              (shutdown md5_hex url_print nets now waits finished s))
unfolding shutdown stop_accepting
shutdown-Leaves md5_hex url_print nets now waits true s rounds key n k a = (
  cancelled_loop rounds _ refl,
  (
    cancelled-All s.stream_manager.objects,
    (refl, shutdown-IsEnded md5_hex url_print nets now (waited waits s) key n k a),
  ),
)
shutdown-Leaves md5_hex url_print nets now waits false s rounds key n k a =
    (cancelled_loop rounds _ refl, (cancelled-All s.stream_manager.objects, (refl, refl)))
