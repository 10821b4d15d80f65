-- ===== src/Client/Routes.antt =====
-- Who answers a client's request: client_rsrc_init of src/client/middfs-client-rsrc.c together with
-- handle_req_rd_fin of src/server/middfs-server-handler.c.
use middfs.Common.{ℕ, ◌≡◌, List, none, Option, some}
use middfs.Common.{◌⊎◌, ℤ}
use middfs.Errno.{enoent}
use middfs.Pkt.{Packet, packet_init, packet_error}
use middfs.Pkt.Kinds.{mpkt_response_type}
use middfs.Sock.{Sockinfo}
use middfs.Server.Clients.{Client}
use middfs.Server.Clients.Find.{Names}
use middfs.Server.Handler.States.{Deletes, Replies, Forwards}
use middfs.Conn.{HandlerE}
use middfs.Server.Clients.{Clients}
use middfs.Server.Handler.{ServerEnv, request_reply, handle_req_rd_fin_root}
use middfs.Client.Os.{ClientEnv}
use middfs.Client.Rsrc.{ClientRsrc}
use middfs.Client.Rsrc.Paths.{Configured}
use middfs.Client.Rsrc.Split.{user_rsrc}

module _ {F N : Type 0} (env : ClientEnv F N) (conf : Configured env) where
  -- The server's own reply to a request for the root.
  abbrev pub root_reply : ServerEnv → Clients → Sockinfo → Packet → HandlerE × Sockinfo × Packet
  root_reply server clients info in_pkt =
      let fresh = packet_init mpkt_response_type server.out_pkt in
      let (retv, info1, rsp) =
        handle_req_rd_fin_root server clients info in_pkt.mpkt_request fresh.mpkt_response in
      (retv, info1, record fresh { mpkt_response = rsp })

  abbrev made_rsrc : ℤ × ClientRsrc → ClientRsrc
  made_rsrc r = r.1

  -- The resource `r` is one of `owner`, and the server looks for a client of that name. If one is
  -- connected, it connects to the address and port of that client, and forwards the packet itself there, or
  -- deletes the connection when it cannot connect. If none is, it replies with ENOENT.
  abbrev pub Routed : ServerEnv → Clients → Sockinfo → Packet → ClientRsrc → Type 0
  Routed server clients info in_pkt r =
      (owner : List ℕ) × (rest : List ℕ) × (found : Option Client) × (status : HandlerE)
      × (after : Sockinfo) × (pkt : Packet) × (r ≡ user_rsrc conf.user owner rest)
      × Names owner clients.vec found
      × (request_reply server clients info in_pkt ≡ some (status, after, pkt))
      × (Deletes server info in_pkt found status
          ⊎ ((Replies server info in_pkt found status after
                × (found ≡ none)
                × (pkt ≡ packet_error enoent server.out_pkt))
              ⊎ Forwards server info in_pkt found status after pkt))
