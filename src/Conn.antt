-- ===== src/Conn.antt =====
-- src/lib/middfs-conn.c: what happens on a connection when poll(2) has reported an event.
-- The program's own handlers, and the state `W` that they share, are parameters.
pub mod Reading
use middfs.Common.{
  ℕ, zero, suc, ◌+◌, ◌/◌, ◌%◌, List, [], ◌∷◌, ◌++◌, Bool, true, false, Option, none, some,
}
use middfs.Common.{
  if◌then◌else◌, length, set, get_elem?, ltb, leb, ◌==◌, ◌>>=◌, not, ℤ, pos, negsuc, is_neg,
  minus_one,
}
use middfs.Pkt.{Packet, zero_packet}
use middfs.Serial.Reader.{DState}
use middfs.Serial.Decode.{deserialize_pkt}
use middfs.Buf.{Buffer, Realloc, buffer_used, buffer_shift, buffer_read, buffer_write}
use middfs.Sock.{
  SockType, SockState, Sockend, Sockinfo, Socks, middfs_sockinfo_isopen, middfs_sockinfo_init,
}
use middfs.Sock.{middfs_sockinfo_delete, middfs_socks_add, middfs_socks_remove}
use middfs.Sock.{mfd_none, mfd_pkt_in, mfd_pkt_out, mfd_lstn}
use middfs.Sock.{mss_none, mss_closed, mss_lstn, mss_reqrd, mss_rspwr, mss_reqfwd, mss_rspfwd}

pub data HandlerE : Type 0 where
  hs_err hs_suc hs_new hs_del : HandlerE

-- `struct handler_info`; none is a stop of the process.
pub record HandlerInfo (W : Type 0) : Type 0 where
  pub rd_fin : W → Sockinfo → Packet → Option (HandlerE × Sockinfo × W)
  pub wr_fin : W → Sockinfo → Option (HandlerE × Sockinfo × W)

-- What the system calls of one event do.
pub record Env : Type 0 where
  pub realloc : Realloc
  pub read : ℤ → ℕ → Option (List ℕ)
  pub write : ℤ → List ℕ → Option ℕ
  pub accept : ℤ → ℤ
  pub close : ℤ → Bool
  pub grants : ℕ → Bool
  pub junk : ℕ × ℕ
  -- The memory of `new_sockinfo.revents` before it is initialised.
  pub old_revents : ℕ
  -- Whether the array of connections can grow.
  pub can_grow : Bool

abbrev pub has_pollin : ℕ → Bool
has_pollin revents = revents % 2 == 1

abbrev pub has_pollout : ℕ → Bool
has_pollout revents = revents / 4 % 2 == 1

abbrev pub with_in_buf : Sockinfo → Buffer → Sockinfo
with_in_buf info buf = record info { in_end = record (info.in_end) { buf = buf } }

abbrev pub with_out_buf : Sockinfo → Buffer → Sockinfo
with_out_buf info buf = record info { out_end = record (info.out_end) { buf = buf } }

-- The result of accepting, and the new connection, if there is one.
unfoldable pub handle_lstn_event : Env → Sockinfo → Option (HandlerE × Option Sockinfo)
handle_lstn_event env info =
    let clientfd = env.accept info.in_end.fd in
    let welcome = (do
      new_sockinfo ← middfs_sockinfo_init mfd_pkt_in clientfd minus_one env.old_revents
      some (hs_new, some new_sockinfo)) in
    if has_pollin info.revents
    then if is_neg clientfd then some (hs_del, none) else welcome
    else some (hs_suc, none)

module _ {W : Type 0} where
  -- The packet handed to `rd_fin` when all of it is there.
  unfoldable pub finish_pkt_rd :
      Env → HandlerInfo W → W → Sockinfo → Buffer → Option (HandlerE × Sockinfo × W)
  finish_pkt_rd env hi w info buf_in = do
    (bytes_required, in_pkt, st) ←
        deserialize_pkt zero_packet buf_in.mem (buffer_used buf_in)
          (record { err = 0; grants = env.grants; junk = env.junk })
    let read_on = hi.rd_fin w (with_in_buf info (buffer_shift buf_in bytes_required)) in_pkt
    if not (st.err == 0)
        then some (hs_del, with_in_buf info buf_in, w)
        else if ltb (buffer_used buf_in) bytes_required
        then some (hs_suc, with_in_buf info buf_in, w)
        else read_on

  -- What follows the call of `buffer_read`.
  unfoldable pub bytes_were_read :
      Env → HandlerInfo W → W → Sockinfo → ℤ × Buffer → Option (HandlerE × Sockinfo × W)
  bytes_were_read env hi w info (negsuc n, buf_in) = some (hs_del, with_in_buf info buf_in, w)
  bytes_were_read env hi w info (pos bytes_read, buf_in) =
      if bytes_read == 0
      then some (hs_del, with_in_buf info buf_in, w)
      else finish_pkt_rd env hi w info buf_in

  unfoldable pub handle_pkt_rd :
      Env → HandlerInfo W → W → Sockinfo → Option (HandlerE × Sockinfo × W)
  handle_pkt_rd env hi w info =
      if has_pollin info.revents
      then (do
        r ← buffer_read env.realloc (env.read info.in_end.fd) info.in_end.buf
        bytes_were_read env hi w info r)
      else none

  -- What follows the call of `buffer_write`.
  unfoldable pub bytes_were_written :
      HandlerInfo W → W → Sockinfo → ℤ × Buffer → Option (HandlerE × Sockinfo × W)
  bytes_were_written hi w info (negsuc n, buf_out) = some (hs_del, with_out_buf info buf_out, w)
  bytes_were_written hi w info (pos bytes_written, buf_out) =
      if ltb 0 bytes_written
      then some (hs_suc, with_out_buf info buf_out, w)
      else hi.wr_fin w (with_out_buf info buf_out)

  unfoldable pub handle_pkt_wr :
      Env → HandlerInfo W → W → Sockinfo → Option (HandlerE × Sockinfo × W)
  handle_pkt_wr env hi w info =
      if has_pollout info.revents
      then (do
        r ← buffer_write (env.write info.out_end.fd) info.out_end.buf
        bytes_were_written hi w info r)
      else none

  -- The `switch` over the state; the states without a packet abort.
  unfoldable pub pkt_event_in :
      SockState → Env → HandlerInfo W → W → Sockinfo → Option (HandlerE × Sockinfo × W)
  pkt_event_in mss_reqrd env hi w info = handle_pkt_rd env hi w info
  pkt_event_in mss_rspfwd env hi w info = handle_pkt_rd env hi w info
  pkt_event_in mss_rspwr env hi w info = handle_pkt_wr env hi w info
  pkt_event_in mss_reqfwd env hi w info = handle_pkt_wr env hi w info
  pkt_event_in mss_lstn env hi w info = none
  pkt_event_in mss_closed env hi w info = none
  pkt_event_in mss_none env hi w info = none

  unfoldable pub handle_pkt_event :
      Env → HandlerInfo W → W → Sockinfo → Option (HandlerE × Sockinfo × W)
  handle_pkt_event env hi w info =
      if info.revents == 0 then some (hs_suc, info, w) else pkt_event_in info.state env hi w info

  -- The `switch` over the type.
  unfoldable pub event_on :
      SockType
      → Env
      → HandlerInfo W
      → W
      → Sockinfo
      → Option (HandlerE × Sockinfo × W × Option Sockinfo)
  event_on mfd_pkt_in env hi w info = do
    (status, info1, w1) ← handle_pkt_event env hi w info
    some (status, info1, w1, none)
  event_on mfd_lstn env hi w info = do
    (status, new_sockinfo) ← handle_lstn_event env info
    some (status, info, w, new_sockinfo)
  event_on mfd_pkt_out env hi w info = none
  event_on mfd_none env hi w info = none

  unfoldable pub handle_socket_event :
      Env → HandlerInfo W → W → Sockinfo → Option (HandlerE × Sockinfo × W × Option Sockinfo)
  handle_socket_event env hi w info =
      if middfs_sockinfo_isopen info
      then event_on info.type env hi w info
      else some (hs_suc, info, w, none)

-- The `switch` over the status in `server_loop`: 0 to go on, -1 to return.
unfoldable pub handle_status : Env → ℕ → HandlerE → Option Sockinfo → Socks → Option (ℤ × Socks)
handle_status env index hs_suc new_sockinfo socks = some (pos 0, socks)
handle_status env index hs_new none socks = none
handle_status env index hs_new (some new_sockinfo) socks =
    let (err, socks1) = middfs_socks_add env.can_grow new_sockinfo socks in
    let failed = (do
      deleted ← middfs_sockinfo_delete env.close new_sockinfo
      some (minus_one, socks1)) in
    if is_neg err then failed else some (pos 0, socks1)
handle_status env index hs_del new_sockinfo socks = middfs_socks_remove env.close index socks
handle_status env index hs_err new_sockinfo socks = some (minus_one, socks)

-- The loop of `server_loop`, from `index` on for `left` connections, once poll(2) has reported. A
-- connection that is added on the way waits for the next call.
unfoldable pub server_loop_from :
    {W : Type 0} → (ℕ → Env) → HandlerInfo W → ℕ → ℕ → W → Socks → Option (ℤ × W × Socks)
server_loop_from env hi zero index w socks = some (pos 0, w, socks)
server_loop_from env hi (suc left) index w socks = do
  info ← get_elem? socks.sockinfos index
  (status, info1, w1, new_sockinfo) ← handle_socket_event (env index) hi w info
  (retv, socks1) ←
      handle_status (env index) index status new_sockinfo
        (record socks { sockinfos = set socks.sockinfos index info1 })
  let rest = server_loop_from env hi left (index + 1) w1 socks1
  if is_neg retv then some (minus_one, w1, socks1) else rest

unfoldable pub server_loop :
    {W : Type 0} → (ℕ → Env) → HandlerInfo W → W → Socks → Option (ℤ × W × Socks)
server_loop env hi w socks = server_loop_from env hi (length socks.sockinfos) 0 w socks
