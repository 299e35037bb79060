-- ===== src/Tests/Program.antt =====
-- A run of the program, its metrics, and the writer of a client, on concrete inputs.
use rtsp_proxy.ClientSession.Queue.{Sub, runs, sent, accepted}
use rtsp_proxy.ClientSession.{ClientSession, new_client_session, forward, run_round, forward_packet}
use rtsp_proxy.ClientWriter
use rtsp_proxy.ClientWriter.Order.{Reach, start, sending, turning, written-Sub}
use rtsp_proxy.ClientWriter.Release.{writer_rounds, destroy-Ends}
use rtsp_proxy.ClientWriter.{
  Connection, Ready, received, whole, part, server_done, gone, send, panics, new_connection,
  writer_round,
}
use rtsp_proxy.Config.{default_config}
use rtsp_proxy.Metrics.Reading.{OneLine, read_metric, exposition-read}
use rtsp_proxy.Metrics.{Metrics, exposition}
use rtsp_proxy.Prelude.Int.{pos, negsuc}
use rtsp_proxy.Prelude.{
  ◌≡◌, refl, arith, true, false, List, [], ◌∷◌, ◌++◌, some, none, Bytes, codes, bytes_eq,
}
use rtsp_proxy.Program.{Flags, default_flags, apply_flags, World, exit_with, main, main_exit}
use rtsp_proxy.Remote.{Net}
use rtsp_proxy.Server.{connected, timed_out}
use rtsp_proxy.Text.Number.{itoa}
use rtsp_proxy.Url.{Url}

abbrev md5 : Bytes → Bytes
md5 t = t

abbrev print : Url → Bytes
print u = u.path

abbrev net : Bytes → Bytes → Net
net key id = record {
  server_done = false;
  dials = none;
  writes = true;
  writes_data = true;
  cnonce = [];
}

abbrev flags : Flags
flags = record default_flags { metrics_port = pos 9100 }

-- A client comes, the accept times out, and the client leaves before the server shuts down.
abbrev world : World
world = record {
  log_opens = false;
  metrics_listens = true;
  resolves = true;
  listens = true;
  rounds =
      record { done_before = false; accepted = connected 3; done_after = false }
      ∷ record { done_before = false; accepted = timed_out; done_after = false }
      ∷ [];
  waits = λ (manager, clients). (manager, 0);
  finished = true;
  metrics_fine = false;
}

main_exit_example :
    main md5 print net 9 flags world ≡ exit_with 0 (apply_flags flags default_config) none
unfolding bytes_eq
main_exit_example = main_exit md5 print net 9 flags world

abbrev counted : Metrics
counted = record {
  packets_forwarded = 12;
  packets_dropped = 0;
  bytes_forwarded = 18446744073709551615;
  reconnects = 1;
  active_streams = pos 2;
  active_clients = negsuc 0;
  auth_failures = 3;
  connect_errors = 4;
}

abbrev uptime : Bytes
uptime = codes "12.5"

uptime-OneLine : OneLine uptime
uptime-OneLine = ground arith

abbrev Reads : Bytes → Bytes → Type 0
Reads name value = read_metric name (exposition uptime counted) ≡ some value

exposition-read_example :
    Reads (codes "rtsp_proxy_uptime_seconds") uptime
    × (Reads (codes "rtsp_proxy_packets_forwarded_total") (itoa (pos 12))
        × (Reads (codes "rtsp_proxy_packets_dropped_total") (itoa (pos 0))
            × (Reads (codes "rtsp_proxy_bytes_forwarded_total") (itoa (pos 18446744073709551615))
                × (Reads (codes "rtsp_proxy_reconnects_total") (itoa (pos 1))
                    × (Reads (codes "rtsp_proxy_active_streams") (itoa (pos 2))
                        × (Reads (codes "rtsp_proxy_active_clients") (itoa (negsuc 0))
                            × (Reads (codes "rtsp_proxy_auth_failures_total") (itoa (pos 3))
                                × Reads
                                    (codes "rtsp_proxy_connect_errors_total")
                                    (itoa (pos 4)))))))))
exposition-read_example = exposition-read uptime counted uptime-OneLine

abbrev queued : ClientSession
queued = record (new_client_session 2 (codes "s")) { queue = codes "a" ∷ codes "b" ∷ [] }

-- The connection after one packet has gone through the channel to the socket.
abbrev through : Connection
through = record (new_connection (pos 1)) { written = codes "a" ∷ [] }

through-Reach : Reach (pos 1) (sent queued (runs (forward true) ∷ [])) through
unfolding sent run_round forward_packet new_connection send writer_round new_client_session
through-Reach = turning (received whole) (sending (codes "a") start)

written-Sub_example :
    Sub through.written (queued.queue ++ accepted queued (runs (forward true) ∷ []))
written-Sub_example = written-Sub (pos 1) through queued (runs (forward true) ∷ []) through-Reach

abbrev busy : Connection
busy = record (new_connection (pos 1)) { channel = codes "a" ∷ [] }

abbrev turns : List Ready
turns = received whole ∷ server_done ∷ received (part 1) ∷ []

destroy-Ends_example :
    ((writer_rounds (ClientWriter.destroy busy).0 turns).writer ≡ gone)
    × (((writer_rounds (ClientWriter.destroy busy).0 turns).written ≡ busy.written)
        × ((send (writer_rounds (ClientWriter.destroy busy).0 turns) [] ≡ panics)
            × ((ClientWriter.destroy (writer_rounds (ClientWriter.destroy busy).0 turns)).1
                ≡ false)))
unfolding new_connection
destroy-Ends_example = destroy-Ends busy turns refl (ground arith)
