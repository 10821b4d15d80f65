-- ===== src/Server/Handler/States.antt =====
-- The states of a connection in src/server/middfs-server-handler.c: the steps between them, and the
-- sockets that are open in each.
use middfs.Common.{ℕ, ◌+◌, ◌<◌, ◌≡◌, refl, sym, ap, ◌∙◌, arith, List, ◌++◌, true, false}
use middfs.Common.{Option, none, some, length, ◌>>=◌, ◌⊎◌, inl, inr, ℤ, is_neg, minus_one}
use middfs.Common.{size_mod, Bool-cases}
use mathlib.Core.Path.{subst}
use middfs.Pkt.{Packet, packet_init, packet_error}
use middfs.Errno.{enoent}
use middfs.Pkt.Kinds.{mpkt_response_type}
use middfs.Serial.Format.{packet_bytes}
use middfs.Serial.Valid.{IsPacket}
use middfs.Serial.Encode.Packets.{serialize_pkt-Writes}
use middfs.Buf.{IsRealloc}
use middfs.Buf.Contents.{NoMemory, Holds}
use middfs.Buf.Serialize.{buffer_serialize-Appends}
use middfs.Sock.{SockState, Sockinfo}
use middfs.Sock.{mss_none, mss_closed, mss_lstn, mss_reqrd, mss_rspwr, mss_reqfwd, mss_rspfwd}
use middfs.Conn.{HandlerE, hs_suc, hs_del, with_out_buf}
use middfs.Server.Clients.{Client, Clients, client_find}
use middfs.Server.Handler.{
  ServerEnv, root_response, reply_on_socket, handle_req_rd_fin_root, forward_to,
  handle_req_rd_fin_peer,
}
use middfs.Server.Handler.{
  asks_root, request_reply, send_pkt, is_rspfwd, handle_rsp_rd_fin, handle_req_wr_fin,
}
use middfs.Server.Handler.{handle_rsp_wr_fin, wr_fin_in, handle_pkt_wr_fin}

-- The steps of a connection that carries a request.
pub data Step : SockState → SockState → Type 0 where
  reply : Step mss_reqrd mss_rspwr
  forward : Step mss_reqrd mss_reqfwd
  forwarded : Step mss_reqfwd mss_rspfwd
  answer : Step mss_rspfwd mss_rspwr
  finish : Step mss_rspwr mss_closed

-- Which ends are open: the one that the state waits for, and both while a request is forwarded.
abbrev pub Ends : SockState → ℤ → ℤ → Type 0
Ends mss_reqrd fd_in fd_out = is_neg fd_in ≡ false
Ends mss_rspwr fd_in fd_out = is_neg fd_out ≡ false
Ends mss_reqfwd fd_in fd_out = (is_neg fd_in ≡ false) × (is_neg fd_out ≡ false)
Ends mss_rspfwd fd_in fd_out = (is_neg fd_in ≡ false) × (is_neg fd_out ≡ false)
Ends mss_lstn fd_in fd_out = is_neg fd_in ≡ false
Ends mss_none fd_in fd_out = Unit
Ends mss_closed fd_in fd_out = Unit

abbrev pub IsConn : Sockinfo → Type 0
IsConn info = Ends info.state info.in_end.fd info.out_end.fd

module _ (env : ServerEnv) (info : Sockinfo) (in_pkt : Packet) (found : Option Client) where
  -- The one who was found has an address that cannot be connected to.
  abbrev pub Deletes : HandlerE → Type 0
  Deletes status =
      (status ≡ hs_del)
      × ((d : Client) × (found ≡ some d) × (is_neg (env.inet_connect d.ip d.port) ≡ true))

  -- The socket of the request is the one to write to, and there is none to read from.
  abbrev pub Replies : HandlerE → Sockinfo → Type 0
  Replies status after =
      (status ≡ hs_suc)
      × (after.state ≡ mss_rspwr)
      × Step info.state after.state
      × (after.out_end.fd ≡ info.in_end.fd)
      × (after.in_end.fd ≡ minus_one)
      × IsConn after

  -- The packet itself is to be written to a new socket, connected to the one who was found.
  abbrev pub Forwards : HandlerE → Sockinfo → Packet → Type 0
  Forwards status after pkt =
      (status ≡ hs_suc)
      × (after.state ≡ mss_reqfwd)
      × Step info.state after.state
      × ((d : Client) × (found ≡ some d) × (after.out_end.fd ≡ env.inet_connect d.ip d.port))
      × (after.in_end.fd ≡ info.in_end.fd)
      × (pkt ≡ in_pkt)
      × IsConn after

  abbrev pub Moves : HandlerE → Sockinfo → Packet → Type 0
  Moves status after pkt =
      Deletes status
      ⊎ ((Replies status after
            × ((asks_root in_pkt.mpkt_request.mreq_rsrc.mr_path ≡ true)
                ⊎ ((found ≡ none) × (pkt ≡ packet_error enoent env.out_pkt))))
          ⊎ Forwards status after pkt)

forward_to-Moves :
    (env : ServerEnv) (info : Sockinfo) (in_pkt : Packet) (recipient : Option Client)
    → info.state ≡ mss_reqrd
    → is_neg info.in_end.fd ≡ false
    → (status : HandlerE) × (after : Sockinfo) × (pkt : Packet) × (forward_to env info in_pkt
          env.out_pkt recipient
        ≡ (status, after, pkt))
      × Moves env info in_pkt recipient status after pkt
unfolding forward_to
forward_to-Moves env info in_pkt none e h = (
  _,
  _,
  _,
  refl,
  inr (
      inl (
        (refl, refl, subst (λ s. Step s mss_rspwr) (sym e) reply, refl, refl, h),
        inr (refl, refl),
      )),
)
forward_to-Moves env info in_pkt (some recipient) e h =
    elim (Bool-cases (is_neg (env.inet_connect recipient.ip recipient.port))) [
      | inl t ↦ (
        hs_del,
        record info { state = mss_reqfwd },
        in_pkt,
        rw t,
        inl (refl, (recipient, refl, t)),
      )
      | inr t ↦ (
        hs_suc,
        record info {
          state = mss_reqfwd;
          out_end = record (info.out_end) { fd = env.inet_connect recipient.ip recipient.port };
        },
        in_pkt,
        rw t,
        inr (
            inr (
              refl,
              refl,
              subst (λ s. Step s mss_reqfwd) (sym e) forward,
              (recipient, refl, refl),
              refl,
              refl,
              (h, t),
            )),
      )
    ]

-- A request with an owner that arrives on an open connection in the state MSS_REQRD does not stop
-- the server before the reply is serialized. One of three things happens. The connection is deleted,
-- because no connection can be made to the address and port of the client that was found for the
-- owner. Or the request asks for the root or no client was found, with ENOENT as the error packet
-- then: the connection moves to MSS_RSPWR, and the socket of the request is the one to write to,
-- with none to read from. Or it moves to MSS_REQFWD, the packet itself is to be written to a new socket
-- that was connected to the address and port of the client that was found, and the
-- socket of the request is kept. In the last two the sockets that the new state needs are open.
pub request_reply-Moves :
    (env : ServerEnv) (clients : Clients) (info : Sockinfo) (in_pkt : Packet) (owner : List ℕ)
    → info.state ≡ mss_reqrd
    → is_neg info.in_end.fd ≡ false
    → in_pkt.mpkt_request.mreq_rsrc.mr_owner ≡ some owner
    → (status : HandlerE) × (after : Sockinfo) × (pkt : Packet) × (request_reply env clients info
          in_pkt
        ≡ some (status, after, pkt))
      × Moves env info in_pkt (client_find env.bsearch owner clients) status after pkt
unfolding request_reply handle_req_rd_fin_root handle_req_rd_fin_peer
request_reply-Moves env clients info in_pkt owner e h o =
    elim (Bool-cases (asks_root in_pkt.mpkt_request.mreq_rsrc.mr_path)) [
      | inl t ↦
          let fresh = packet_init mpkt_response_type env.out_pkt in
          let rsp = root_response env clients in_pkt.mpkt_request fresh.mpkt_response in
          (
            hs_suc,
            reply_on_socket info,
            record fresh { mpkt_response = rsp },
            rw t,
            inr (
                inl (
                  (refl, refl, subst (λ s. Step s mss_rspwr) (sym e) reply, refl, refl, h),
                  inl t,
                )),
          )
      | inr t ↦
          let (status, after, pkt, returns, moves) =
            forward_to-Moves env info in_pkt (client_find env.bsearch owner clients) e h in
          (
            status,
            after,
            pkt,
            rw t (
                ap
                  (λ name. name >>= (λ s.
                    some
                      (forward_to env info in_pkt env.out_pkt (client_find env.bsearch s clients))))
                  o
                ∙ ap some returns),
            moves,
          )
    ]

-- When everything has been written on a connection in the state MSS_REQFWD, the result is HS_SUC, the
-- connection moves to MSS_RSPFWD to wait for the response on the recipient's socket, and the two ends
-- have exchanged their sockets, which stay open. In the state MSS_RSPWR the result is HS_DEL, and
-- the connection moves to MSS_CLOSED.
pub handle_pkt_wr_fin-Moves :
    (clients : Clients) (info : Sockinfo)
    → IsConn info
    → (info.state ≡ mss_reqfwd) ⊎ (info.state ≡ mss_rspwr)
    → (status : HandlerE) × (after : Sockinfo) × (handle_pkt_wr_fin clients info
        ≡ some (status, after, clients))
      × Step info.state after.state
      × IsConn after
      × (((info.state ≡ mss_rspwr) × (status ≡ hs_del) × (after.state ≡ mss_closed))
          ⊎ ((info.state ≡ mss_reqfwd)
              × (status ≡ hs_suc)
              × (after.state ≡ mss_rspfwd)
              × (after.in_end.fd ≡ info.out_end.fd)
              × (after.out_end.fd ≡ info.in_end.fd)))
unfolding handle_pkt_wr_fin wr_fin_in handle_req_wr_fin handle_rsp_wr_fin
handle_pkt_wr_fin-Moves clients info h (inl e) =
    let (open_in, open_out) = subst (λ s. Ends s info.in_end.fd info.out_end.fd) e h in
    (
      _,
      _,
      ap (λ s. (let r = wr_fin_in s info in some (r.0, r.1, clients))) e,
      subst (λ s. Step s mss_rspfwd) (sym e) forwarded,
      (open_out, open_in),
      inr (e, refl, refl, refl, refl),
    )
handle_pkt_wr_fin-Moves clients info h (inr e) = (
  _,
  _,
  ap (λ s. (let r = wr_fin_in s info in some (r.0, r.1, clients))) e,
  subst (λ s. Step s mss_closed) (sym e) finish,
  tt,
  inl (e, refl, refl),
)

-- A response that arrives while the server waits for it is passed on: if the connection is not
-- deleted because memory ran out, it waits to write to the open socket of its out end, which is the
-- same as before, as is the one of its in end, and the wire form of the valid packet is appended to what that socket is to send. The fuel must exceed
-- the length of the form.
pub handle_rsp_rd_fin-Appends :
    (env : ServerEnv) (clients : Clients) (info : Sockinfo) (p : Packet) (c : List ℕ)
    → info.state ≡ mss_rspfwd
    → IsConn info
    → IsRealloc env.realloc
    → IsPacket p
    → length (packet_bytes p) < env.fuel
    → length c + length (packet_bytes p) < size_mod
    → Holds info.out_end.buf c
    → (status : HandlerE) × (after : Sockinfo) × (handle_rsp_rd_fin env clients info p
        ≡ some (status, after, clients))
      × Step info.state after.state
      × IsConn after
      × (after.out_end.fd ≡ info.out_end.fd)
      × (after.in_end.fd ≡ info.in_end.fd)
      × (((status ≡ hs_del) × Holds after.out_end.buf c × NoMemory env.realloc)
          ⊎ ((status ≡ hs_suc) × Holds after.out_end.buf (c ++ packet_bytes p)))
unfolding handle_rsp_rd_fin send_pkt
handle_rsp_rd_fin-Appends env clients info p c e h law v fuel fits holds =
    let (open_in, open_out) = subst (λ s. Ends s info.in_end.fd info.out_end.fd) e h in
    let waits : is_rspfwd info.state ≡ true = ap is_rspfwd e in
    let step : Step info.state mss_rspwr = subst (λ s. Step s mss_rspwr) (sym e) answer in
    let (buf, cases) =
      buffer_serialize-Appends env.realloc law (serialize_pkt-Writes p v (omega arith)) env.fuel
        info.out_end.buf c holds fuel fits in
    let after = with_out_buf (record info { state = mss_rspwr }) buf in
    elim cases [
      | inl (returns, kept, full) ↦
          (hs_del, after, rw (waits, returns), step, open_out, refl, refl, inl (refl, kept, full))
      | inr (returns, kept) ↦
          (hs_suc, after, rw (waits, returns), step, open_out, refl, refl, inr (refl, kept))
    ]
