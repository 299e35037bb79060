-- ===== src/ClientWriter.antt =====
-- rtspproxy/client.go: NewClient, the goroutine `writer` behind the write channel of a client, and
-- Destroy. Buffer pools are left out; whether the socket takes the data is an argument.
pub mod Order
pub mod Release
use rtsp_proxy.Client.{Client}
use rtsp_proxy.Prelude.Int.{ℤ, pos, ◌-ℤ◌}
use rtsp_proxy.Prelude.{
  ℕ, Bool, true, false, not, ◌&&◌, List, [], ◌∷◌, ◌++◌, Option, none, some, Bytes, ltb, take,
  if◌then◌else◌, length,
}
use rtsp_proxy.Text.{split}

-- The writer takes data until it returns, then empties the channel until that is closed, and is gone.
pub data Writer : Type 0 where
  writing draining gone : Writer

-- The channel with its contents, whether it and the socket are closed, what the socket has taken
-- whole, the start of a packet that it has taken in part before the writer returned, and the flag
-- and the gauge that Destroy changes.
pub record Connection : Type 0 where
  pub channel : List Bytes
  pub closed : Bool
  pub socket_closed : Bool
  pub written : List Bytes
  pub torn : Bytes
  pub writer : Writer
  pub destroyed : Bool
  pub active_clients : ℤ

abbrev pub capacity : ℕ
capacity = 200

-- The connection that NewClient makes, with the gauge as it counts it.
unfoldable pub new_connection : ℤ → Connection
new_connection active = record {
  channel = [];
  closed = false;
  socket_closed = false;
  written = [];
  torn = [];
  writer = writing;
  destroyed = false;
  active_clients = active;
}

-- The client that it makes: its addresses are read up to the first colon, which must be there.
abbrev pub host_and_port : List Bytes → Option Bytes
host_and_port (host ∷ port ∷ _) = some host
host_and_port _ = none

unfoldable pub new_client : ℕ → Bytes → Bytes → Option Client
new_client id local remote = elim (host_and_port (split local b':')) [
  | none ↦ none
  | some local_addr ↦ elim (host_and_port (split remote b':')) [
    | none ↦ none
    | some remote_addr ↦ some (record {
      id = id;
      local_addr = local_addr;
      remote_addr = remote_addr;
      host = [];
      base_path = [];
      username = [];
      password = [];
    })
  ]
]

-- A send on the write channel: it waits while the channel is full, and panics when it is closed.
pub data Sent : Type 0 where
  waits panics : Sent
  sends : Connection → Sent

unfoldable pub send : Connection → Bytes → Sent
send c packet =
    if c.closed
    then panics
    else if ltb (length c.channel) capacity
    then sends (record c { channel = c.channel ++ packet ∷ [] })
    else waits

-- What the socket takes of one write: all of it, or with an error no more than some bytes of it.
pub data Taken : Type 0 where
  whole : Taken
  part : ℕ → Taken

-- The case that the select of the writer takes, with what the socket takes of the data.
pub data Ready : Type 0 where
  server_done : Ready
  received : Taken → Ready

-- The loop and the deferred drain take one value of the channel in a round, or see that it is closed;
-- otherwise they wait. A closed socket takes nothing.
unfoldable pub write_next : Connection → Taken → List Bytes → Connection
write_next c taken [] = if c.closed then record c { writer = draining } else c
write_next c (part n) (packet ∷ rest) = record c {
  channel = rest;
  torn = if c.socket_closed then [] else take n packet;
  writer = draining;
}
write_next c whole (packet ∷ rest) =
    if c.socket_closed
    then record c { channel = rest; writer = draining }
    else record c { channel = rest; written = c.written ++ packet ∷ [] }

unfoldable pub drain_next : Connection → List Bytes → Connection
drain_next c [] = if c.closed then record c { writer = gone } else c
drain_next c (packet ∷ rest) = record c { channel = rest }

unfoldable pub writer_turn : Writer → Connection → Ready → Connection
unfolding write_next drain_next
writer_turn writing c server_done = record c { writer = draining }
writer_turn writing c (received takes) = write_next c takes c.channel
writer_turn draining c ready = drain_next c c.channel
writer_turn gone c ready = c

unfoldable pub writer_round : Connection → Ready → Connection
unfolding writer_turn
writer_round c ready = writer_turn c.writer c ready

-- Destroy up to the wait for the writer; the flag says whether this call goes on.
unfoldable pub destroy : Connection → Connection × Bool
destroy c =
    if c.destroyed
    then (c, false)
    else (record c { destroyed = true; socket_closed = true; closed = true }, true)

-- The end of Destroy, once the writer is gone.
unfoldable pub destroy_end : Connection → Connection
destroy_end c = record c { active_clients = c.active_clients -ℤ pos 1 }
