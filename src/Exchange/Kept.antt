-- ===== src/Exchange/Kept.antt =====
-- What SendRequestSync of rtspproxy/remote.go does to the state and the signals of a stream.
use rtsp_proxy.Exchange.{
  Link, Wait, Wake, Got, got, lost, panicked, Attempted, returned, once_more, settle, awaited, sent,
  attempt_once, attempts_from, send_request_sync,
}
use rtsp_proxy.Prelude.Dict.{bytes_eq_inst}
use rtsp_proxy.Prelude.{
  ℕ, zero, suc, ◌+◌, Bool, true, false, Bytes, bytes_eq, codes, ◌==◌, if◌then◌else◌,
}
use rtsp_proxy.Remote.{Outcome, done, failed}
use rtsp_proxy.Stream.Waiting.{Signals}
use rtsp_proxy.Stream.{Stream, StreamState}
use rtsp_proxy.Url.{Url}

module _ (P : StreamState → Signals → Type 0) where
  abbrev pub On : Stream → Type 0
  On s = P s.state s.signals

  abbrev pub Ends {ℓ} : {A : Type ℓ} → Got A → Type 0
  Ends (got a l) = On l.stream
  Ends (lost e l) = On l.stream
  Ends panicked = Unit

  -- Wherever the call ends.
  pub data Kept {ℓ} {A : Type ℓ} (g : Got A) : Type 0 where
    kept : Ends g → Kept g

  -- What others do while the call waits does not break it.
  abbrev pub Harmless : Wait → Type 0
  Harmless w = (channel : ℕ) (l : Link) → On l.stream → On (w.meanwhile channel l).0.stream

  pub if-Kept {ℓ} :
      {A : Type ℓ} (b : Bool) (x y : Got A) → Kept x → Kept y → Kept (if b then x else y)
  if-Kept true x y h k = h
  if-Kept false x y h k = k

  abbrev Tried : Attempted → Type 0
  Tried (returned g) = Kept g
  Tried (once_more l) = On l.stream

  if-Tried : (b : Bool) (x y : Attempted) → Tried x → Tried y → Tried (if b then x else y)
  if-Tried true x y h k = h
  if-Tried false x y h k = k

  settle-Tried : (n id : ℕ) (result : Bytes) (l : Link) → On l.stream → Tried (settle n id result l)
  unfolding settle
  settle-Tried n id result l h =
      if-Tried (bytes_eq result (codes "timeout")) _ _ (if-Tried (n == 0) _ _ h (kept h))
        (if-Tried (bytes_eq result (codes "ok")) _ _ (kept h) (kept h))

  awaited-Tried :
      (w : Wait) (n channel id : ℕ) (a : Link × Wake)
      → On a.0.stream
      → Tried (awaited w n channel id a)
  awaited-Tried w n channel id (l, wake) h =
      if-Tried w.stream_done _ _ (kept h)
        (if-Tried w.server_done _ _ (kept h) (settle-Tried n id _ l h))

  sent-Tried :
      (w : Wait) (n channel id : ℕ) (s : Stream) (o : Outcome)
      → Harmless w
      → On s
      → Tried (sent w n channel id s o)
  sent-Tried w n channel id s (failed e r) k h = kept h
  sent-Tried w n channel id s (done r) k h =
      awaited-Tried w n channel id (w.meanwhile channel (record { stream = s; remote = r }))
        (k channel (record { stream = s; remote = r }) h)

  module _ (md5_hex : Bytes → Bytes) (url_print : Url → Bytes) where
    attempts_from-Kept :
        (left : ℕ) (waits : ℕ → Wait) (n id : ℕ) (l : Link)
        → ((i : ℕ) → Harmless (waits i))
        → On l.stream
        → Kept (attempts_from md5_hex url_print left waits n id l)
    unfolding attempts_from attempt_once
    attempts_from-Kept zero waits n id l k h = kept h
    attempts_from-Kept (suc left) waits n id l k h =
        next (attempt_once md5_hex url_print (waits n) n id l)
          (sent-Tried (waits n) n l.remote.next_element id l.stream _ (k n) h)
          (λ l' h'. attempts_from-Kept left waits (n + 1) id l' k h')
      where
        next :
            (a : Attempted)
            → Tried a
            → ((l' : Link)
                → On l'.stream
                → Kept (attempts_from md5_hex url_print left waits (n + 1) id l'))
            → Kept (elim a [
              | returned out ↦ out
              | once_more l' ↦ attempts_from md5_hex url_print left waits (n + 1) id l'
            ])
        next (returned out) t f = t
        next (once_more l') t f = f l' t

    pub send_request_sync-Kept :
        (waits : ℕ → Wait) (id : ℕ) (l : Link)
        → ((i : ℕ) → Harmless (waits i))
        → On l.stream
        → Kept (send_request_sync md5_hex url_print waits id l)
    unfolding send_request_sync
    send_request_sync-Kept waits id l k h = attempts_from-Kept 2 waits 0 id l k h
