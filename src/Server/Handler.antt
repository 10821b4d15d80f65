-- ===== src/Server/Handler.antt =====
-- src/server/middfs-server-handler.c: what the server does with a packet that has been read, and
-- when a packet has been written. The state shared by the connections is the list of clients.
pub mod States
use middfs.Common.{ℕ, zero, suc, ◌+◌, List, [], ◌∷◌, Bool, true, false, Option, none, some}
use middfs.Common.{if◌then◌else◌, length, ltb, ◌==◌, ◌>>=◌, ℤ, pos, negsuc, is_neg, minus_one}
use middfs.Errno.{eperm, enoent, enomem, einval}
use middfs.Pkt.{
  CString, Request, Response, Packet, packet_init, response_init, response_error, packet_error,
}
use middfs.Pkt.Kinds.{
  mpkt_connect_type, mpkt_disconnect_type, mpkt_request_type, mpkt_response_type,
}
use middfs.Pkt.Kinds.{
  mreq_readdir_type, mreq_access_type, mreq_rename_type, mrsp_dir_type, mrsp_ok_type,
}
use middfs.Serial.Reader.{DState}
use middfs.Serial.Encode.{serialize_pkt}
use middfs.Buf.{Buffer, Realloc, buffer_serialize}
use middfs.Sock.{SockState, Sockend, Sockinfo}
use middfs.Sock.{mss_none, mss_closed, mss_lstn, mss_reqrd, mss_rspwr, mss_reqfwd, mss_rspfwd}
use middfs.Conn.{HandlerE, hs_err, hs_suc, hs_new, hs_del, HandlerInfo, with_out_buf}
use middfs.Server.Clients.{
  Client, Clients, client_create, clients_add, client_find, clients_readdir,
}

-- The calls that a handler makes outside of the program, and its uninitialised packet.
pub record ServerEnv : Type 0 where
  pub realloc : Realloc
  pub fuel : ℕ
  pub qsort : List Client → List Client
  pub bsearch : Client → List Client → Option Client
  pub can_grow : Bool
  pub inet_connect : List ℕ → ℕ → ℤ
  pub peer_address : ℤ → Option (List ℕ)
  pub alloc : DState
  pub out_pkt : Packet

-- The socket turns from reading to writing.
abbrev pub reply_on_socket : Sockinfo → Sockinfo
reply_on_socket info = record info {
  state = mss_rspwr;
  out_end = record (info.out_end) { fd = info.in_end.fd };
  in_end = record (info.in_end) { fd = minus_one };
}

-- The response for the root directory; the mode of an access is its bits R_OK, W_OK and X_OK.
unfoldable pub root_response : ServerEnv → Clients → Request → Response → Response
root_response env clients req rsp =
    let rsp1 = response_init mrsp_dir_type rsp in
    let (err, dir, st) = clients_readdir clients rsp1.mrsp_dir env.alloc in
    let listing = record rsp1 { mrsp_dir = dir } in
    if req.mreq_type == mreq_readdir_type
    then if is_neg err then response_error enomem listing else listing
    else if req.mreq_type == mreq_access_type
    then if ltb req.mreq_mode 8 then response_init mrsp_ok_type rsp else response_error einval rsp
    else if req.mreq_type == mreq_rename_type
    then response_error eperm rsp
    else response_error enoent rsp

unfoldable pub handle_req_rd_fin_root :
    ServerEnv → Clients → Sockinfo → Request → Response → HandlerE × Sockinfo × Response
handle_req_rd_fin_root env clients info req rsp =
    (hs_suc, reply_on_socket info, root_response env clients req rsp)

-- The request is forwarded on a new connection, or the recipient cannot be reached.
unfoldable pub forward_to :
    ServerEnv → Sockinfo → Packet → Packet → Option Client → HandlerE × Sockinfo × Packet
forward_to env info in_pkt out_pkt none =
    (hs_suc, reply_on_socket info, packet_error enoent out_pkt)
forward_to env info in_pkt out_pkt (some recipient) =
    let tmpfd = env.inet_connect recipient.ip recipient.port in
    let waiting = record info { state = mss_reqfwd } in
    let forwarded = record waiting { out_end = record (info.out_end) { fd = tmpfd } } in
    if is_neg tmpfd then (hs_del, waiting, in_pkt) else (hs_suc, forwarded, in_pkt)

-- A null owner stops the process, in `strcmp`.
unfoldable pub handle_req_rd_fin_peer :
    ServerEnv → Clients → Sockinfo → Packet → Packet → Option (HandlerE × Sockinfo × Packet)
handle_req_rd_fin_peer env clients info in_pkt out_pkt = do
  recipient_name ← in_pkt.mpkt_request.mreq_rsrc.mr_owner
  some (forward_to env info in_pkt out_pkt (client_find env.bsearch recipient_name clients))

-- `buffer_serialize` into the buffer of the out end; HS_DEL when it fails.
unfoldable pub send_pkt : ServerEnv → Sockinfo → Packet → Option (HandlerE × Sockinfo)
send_pkt env info pkt = do
  (retv, buf) ← buffer_serialize env.realloc env.fuel (serialize_pkt pkt) info.out_end.buf
  some (if is_neg retv then hs_del else hs_suc, with_out_buf info buf)

abbrev pub is_del : HandlerE → Bool
is_del hs_del = true
is_del hs_err = false
is_del hs_suc = false
is_del hs_new = false

-- `owner == NULL || *owner == '\0'`, where `owner` is the path.
abbrev pub asks_root : CString → Bool
asks_root none = true
asks_root (some []) = true
asks_root (some (c ∷ s)) = false

unfoldable pub request_reply :
    ServerEnv → Clients → Sockinfo → Packet → Option (HandlerE × Sockinfo × Packet)
request_reply env clients info in_pkt =
    let fresh = packet_init mpkt_response_type env.out_pkt in
    let (retv, info1, rsp) =
      handle_req_rd_fin_root env clients info in_pkt.mpkt_request fresh.mpkt_response in
    if asks_root in_pkt.mpkt_request.mreq_rsrc.mr_path
    then some (retv, info1, record fresh { mpkt_response = rsp })
    else handle_req_rd_fin_peer env clients info in_pkt env.out_pkt

unfoldable pub handle_req_rd_fin :
    ServerEnv → Clients → Sockinfo → Packet → Option (HandlerE × Sockinfo × Clients)
handle_req_rd_fin env clients info in_pkt = do
  (retv, info1, out_pkt) ← request_reply env clients info in_pkt
  let sent = (do (status, info2) ← send_pkt env info1 out_pkt; some (status, info2, clients))
  if is_del retv then some (retv, info1, clients) else sent

abbrev pub is_rspfwd : SockState → Bool
is_rspfwd mss_rspfwd = true
is_rspfwd mss_none = false
is_rspfwd mss_closed = false
is_rspfwd mss_lstn = false
is_rspfwd mss_reqrd = false
is_rspfwd mss_rspwr = false
is_rspfwd mss_reqfwd = false

-- The assertion fails in any other state.
unfoldable pub handle_rsp_rd_fin :
    ServerEnv → Clients → Sockinfo → Packet → Option (HandlerE × Sockinfo × Clients)
handle_rsp_rd_fin env clients info in_pkt =
    if is_rspfwd info.state
    then (do
      (status, info1) ← send_pkt env (record info { state = mss_rspwr }) in_pkt
      some (status, info1, clients))
    else none

-- What `handle_connect` makes of the results of `client_create`; the status is HS_DEL in any case.
unfoldable pub add_created : ServerEnv → Clients → ℤ × Option Client × DState → Option Clients
add_created env clients (retv, none, st) = some clients
add_created env clients (retv, some client, st) = do
  (err, clients1) ← clients_add env.qsort env.can_grow client clients
  some clients1

unfoldable pub handle_connect :
    ServerEnv → Clients → Sockinfo → Packet → Option (HandlerE × Sockinfo × Clients)
handle_connect env clients info in_pkt = do
  created ← client_create (env.peer_address info.in_end.fd) in_pkt.mpkt_connect env.alloc
  clients1 ← add_created env clients created
  some (hs_del, info, clients1)

unfoldable pub handle_pkt_rd_fin :
    ServerEnv → Clients → Sockinfo → Packet → Option (HandlerE × Sockinfo × Clients)
handle_pkt_rd_fin env clients info in_pkt =
    if in_pkt.mpkt_type == mpkt_connect_type
    then handle_connect env clients info in_pkt
    else if in_pkt.mpkt_type == mpkt_disconnect_type
    then none
    else if in_pkt.mpkt_type == mpkt_request_type
    then handle_req_rd_fin env clients info in_pkt
    else if in_pkt.mpkt_type == mpkt_response_type
    then handle_rsp_rd_fin env clients info in_pkt
    else some (hs_del, info, clients)

-- The two ends exchange their sockets.
unfoldable pub handle_req_wr_fin : Sockinfo → HandlerE × Sockinfo
handle_req_wr_fin info = (
  hs_suc,
  record info {
    state = mss_rspfwd;
    out_end = record (info.out_end) { fd = info.in_end.fd };
    in_end = record (info.in_end) { fd = info.out_end.fd };
  },
)

unfoldable pub handle_rsp_wr_fin : Sockinfo → HandlerE × Sockinfo
handle_rsp_wr_fin info = (hs_del, record info { state = mss_closed })

-- The `switch` over the state; the assertions of the two handlers hold there.
unfoldable pub wr_fin_in : SockState → Sockinfo → HandlerE × Sockinfo
wr_fin_in mss_reqfwd info = handle_req_wr_fin info
wr_fin_in mss_rspwr info = handle_rsp_wr_fin info
wr_fin_in mss_none info = (hs_del, info)
wr_fin_in mss_closed info = (hs_del, info)
wr_fin_in mss_lstn info = (hs_del, info)
wr_fin_in mss_reqrd info = (hs_del, info)
wr_fin_in mss_rspfwd info = (hs_del, info)

unfoldable pub handle_pkt_wr_fin : Clients → Sockinfo → Option (HandlerE × Sockinfo × Clients)
handle_pkt_wr_fin clients info =
    let (status, info1) = wr_fin_in info.state info in some (status, info1, clients)

abbrev pub server_hi : ServerEnv → HandlerInfo Clients
server_hi env = record { rd_fin = handle_pkt_rd_fin env; wr_fin = handle_pkt_wr_fin }
