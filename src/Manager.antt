-- ===== src/Manager.antt =====
-- rtspproxy/stream_manager.go: the streams by their keys. Every stream ever made is kept in
-- `objects`, and its number is its place there.
pub mod Key
pub mod Isolation
pub mod Ended
pub mod Directory
use rtsp_proxy.Prelude.Dict.{Dict, bytes_eq_inst, lookup, insert, delete}
use rtsp_proxy.Prelude.{ℕ, zero, suc, ◌+◌, List, [], ◌∷◌, ◌++◌, Option, none, some, Bytes, length}
use rtsp_proxy.Lifecycle.{destroy}
use rtsp_proxy.Prelude.Int.{ℤ, pos, ◌+ℤ◌, ◌-ℤ◌}
use rtsp_proxy.Remote.{Net}
use rtsp_proxy.Url.{Url}
use rtsp_proxy.Stream.{Stream, new_stream}

-- `active` is the gauge GlobalMetrics.ActiveStreams.
pub record StreamManager : Type 0 where
  pub streams : Dict Bytes ℕ
  pub objects : List Stream
  pub active : ℤ

abbrev pub new_stream_manager : StreamManager
new_stream_manager = record { streams = []; objects = []; active = pos 0 }

-- fmt.Sprintf("%s:%s@%s%s", username, password, host, path)
abbrev pub stream_key : Bytes → Bytes → Bytes → Bytes → Bytes
stream_key host username password path = username ++ (b':' ∷ (password ++ (b'@' ∷ (host ++ path))))

abbrev pub key_of : Stream → Bytes
key_of s = stream_key s.host s.username s.password s.path

unfoldable pub get_stream : ℕ → StreamManager → Bytes → Bytes → Bytes → Bytes → StreamManager × ℕ
get_stream now m host username password path =
    elim (lookup (stream_key host username password path) m.streams) [
      | some n ↦ (m, n)
      | none ↦ (
        record {
          streams = insert (stream_key host username password path) (length m.objects) m.streams;
          objects = m.objects ++ new_stream now host username password path ∷ [];
          active = m.active +ℤ pos 1;
        },
        length m.objects,
      )
    ]

unfoldable pub remove_stream : StreamManager → Bytes → StreamManager
remove_stream m key = record m { streams = delete key m.streams }

abbrev pub update_object : ℕ → (Stream → Stream) → List Stream → List Stream
update_object n f [] = []
update_object zero f (s ∷ ss) = f s ∷ ss
update_object (suc n) f (s ∷ ss) = s ∷ update_object n f ss

module _ (md5_hex : Bytes → Bytes) (url_print : Url → Bytes) (nets : Bytes → Bytes → Net) where
  -- Destroy of a stream of the manager, with the callback onDestroy that GetStream has set.
  unfoldable pub end_stream : ℕ → Bytes → ℕ → StreamManager → StreamManager
  unfolding remove_stream
  end_stream now key n m =
      let m' = remove_stream m key in
      record m' {
        objects =
            update_object n (λ s. (destroy md5_hex url_print (nets key) now s).stream) m'.objects;
        active = m'.active -ℤ pos 1;
      }

  -- The loop of Shutdown over the streams that it has listed.
  unfoldable pub end_streams : ℕ → Dict Bytes ℕ → StreamManager → StreamManager
  end_streams now [] m = m
  end_streams now ((key, n) ∷ l) m = end_streams now l (end_stream now key n m)

  unfoldable pub shutdown : ℕ → StreamManager → StreamManager
  unfolding end_streams
  shutdown now m = end_streams now m.streams m
