-- ===== src/Setup/Present.antt =====
-- AddClient of rtspproxy/stream.go, as handleSetup of rtspproxy/client.go calls it: the client is there.
use rtsp_proxy.ClientSession.{ClientSession, start, new_client_session}
use rtsp_proxy.Prelude.Dict.{bytes_eq_inst, nat_eq, lookup, insert, lookup-insert_self}
use rtsp_proxy.Prelude.Int.{int_eq}
use rtsp_proxy.Prelude.{
  ℕ, Bool, ◌≡◌, inl, inr, true, false, some, Bytes, Option-cases, Bool-cases, if◌then◌else◌,
}
use rtsp_proxy.Stream.{
  Stream, is_state, add_client, add_new_client, stop_idle_timer, start_connect_loop, disconnected,
}

-- The stream has a session for this client.
abbrev pub Has : ℕ → Stream → Type 0
Has client s = (cs : ClientSession) × (lookup client s.clients ≡ some cs)

start_connect_loop-Has :
    (client : ℕ) (s : Stream) → Has client s → Has client (start_connect_loop s).0
unfolding start_connect_loop
start_connect_loop-Has client s h = elim (Bool-cases s.loop_started) [
  | inl e ↦ rw e h
  | inr e ↦ rw e h
]

if-Has :
    (client : ℕ) (b : Bool) (x y : Stream)
    → Has client x
    → Has client y
    → Has client (if b then x else y)
if-Has client true x y h k = h
if-Has client false x y h k = k

add_new_client-Has :
    (queue_size : ℕ) (s : Stream) (client : ℕ) (id : Bytes)
    → Has client (add_new_client queue_size s client id)
unfolding add_new_client
add_new_client-Has queue_size s client id =
    if-Has client (is_state s.state disconnected) _ _ (start_connect_loop-Has client _ there) there
  where
    there : Has client (record s {
      clients = insert client (start (new_client_session queue_size id)).0 s.clients;
    })
    there = (_, lookup-insert_self client _ s.clients)

-- Once AddClient has returned, the client is there.
pub add_client-Has :
    (queue_size : ℕ) (s : Stream) (client : ℕ) (id : Bytes)
    → Has client (add_client queue_size s client id)
unfolding add_client
add_client-Has queue_size s client id = elim (Option-cases (lookup client s.clients)) [
  | inl e ↦ rw (e, add_client) (add_new_client-Has queue_size (stop_idle_timer s) client id)
  | inr (cs, e) ↦ rw (e, add_client) (cs, e)
]
