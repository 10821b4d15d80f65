-- ===== src/Client/Handler.antt =====
-- src/client/middfs-client-handler.c: what the client does with a request for its own files. The
-- state that the connections share is the file system.
pub mod Answers
pub mod Responds
pub mod Descriptors
use middfs.Common.{ℕ, zero, suc, ◌+◌, ◌*◌, List, [], ◌∷◌, Bool, true, false, Option, none, some}
use middfs.Common.{if◌then◌else◌, length, ◌==◌, ◌&&◌, ◌>>=◌, ℤ, pos, negsuc, is_neg, minus_one}
use middfs.Errno.{minus, enomem}
use middfs.Util.{peek}
use middfs.Pkt.{
  Dirent, Request, Response, Packet, zero_dirent, zero_packet, packet_init, response_init,
}
use middfs.Pkt.Kinds.{
  mpkt_request_type, mpkt_response_type, mreq_getattr_type, mreq_access_type, mreq_rename_type,
  mreq_truncate_type, mreq_open_type, mreq_read_type, mreq_write_type, mreq_readdir_type,
  mrsp_ok_type, mrsp_data_type, mrsp_stat_type, mrsp_dir_type, mrsp_error_type,
}
use middfs.Serial.Encode.{serialize_pkt}
use middfs.Buf.{buffer_serialize}
use middfs.Sock.{SockState, Sockend, Sockinfo}
use middfs.Sock.{mss_none, mss_closed, mss_lstn, mss_reqrd, mss_rspwr, mss_reqfwd, mss_rspfwd}
use middfs.Conn.{HandlerE, hs_err, hs_suc, hs_new, hs_del, HandlerInfo, with_out_buf}
use middfs.Client.Os.{Sys, fails, done, Os, OsDirent, StatBuf, ClientEnv}
use middfs.Client.Rsrc.{middfs_localpath_tmp}
use middfs.Client.Rsrc.Content.{dirent_mode}

-- What a handler leaves: the status, the response and the files; none is a stop of the process.
abbrev pub Handled : Type 0 → Type 0
Handled F = Option (ℤ × Response × F)

-- A call whose success is answered by MRSP_OK.
abbrev pub answer_ok : {A : Type 0} {F : Type 0} → Response → Sys A → F → ℤ × Response × F
answer_ok rsp (fails e) files = (minus e, rsp, files)
answer_ok rsp (done a) files = (pos 0, response_init mrsp_ok_type rsp, files)

-- A response in a packet of zeros.
abbrev pub response_pkt : Response → Packet
response_pkt rsp = record (packet_init mpkt_response_type zero_packet) { mpkt_response = rsp }

-- The entry of a table for a type.
unfoldable pub handler_of : {A : Type 0} → ℕ → List (ℕ × A) → Option A
handler_of type [] = none
handler_of type ((t, handler) ∷ table) =
    let rest = handler_of type table in if type == t then some handler else rest

abbrev pub is_reqrd : SockState → Bool
is_reqrd mss_reqrd = true
is_reqrd mss_none = false
is_reqrd mss_closed = false
is_reqrd mss_lstn = false
is_reqrd mss_rspwr = false
is_reqrd mss_reqfwd = false
is_reqrd mss_rspfwd = false

abbrev pub is_rspwr : SockState → Bool
is_rspwr mss_rspwr = true
is_rspwr mss_none = false
is_rspwr mss_closed = false
is_rspwr mss_lstn = false
is_rspwr mss_reqrd = false
is_rspwr mss_reqfwd = false
is_rspwr mss_rspfwd = false

-- A negative status becomes an error response.
unfoldable pub with_status : ℤ → Response → Response
with_status (pos n) rsp = rsp
with_status (negsuc n) rsp = record rsp { mrsp_type = mrsp_error_type; mrsp_error = suc n }

-- Of the block of `size` bytes only those that were read are kept.
unfoldable pub read_answer : {F : Type 0} → Response → Sys (List ℕ) → F → ℤ × Response × F
read_answer rsp (fails e) files = (minus e, record rsp { mrsp_error = e }, files)
read_answer rsp (done bytes) files = (
  pos 0,
  record rsp {
    mrsp_type = mrsp_data_type;
    mrsp_data = record { mdata_buf = some bytes; mdata_nbytes = length bytes };
  },
  files,
)

unfoldable pub stat_answer : {F : Type 0} → Response → Sys StatBuf → F → ℤ × Response × F
stat_answer rsp (fails e) files = (minus e, rsp, files)
stat_answer rsp (done st) files = (
  pos 0,
  record rsp {
    mrsp_type = mrsp_stat_type;
    mrsp_stat = record {
      mstat_mode = st.st_mode;
      mstat_size = st.st_size;
      mstat_blocks = st.st_blocks;
      mstat_blksize = st.st_blksize;
    };
  },
  files,
)

-- The bytes at `mreq_data`; of none the pointer may be null.
unfoldable pub request_block : Request → Option (List ℕ)
request_block req =
    if req.mreq_size == 0 then some [] else (do block ← req.mreq_data; peek block req.mreq_size)

module _ {F N : Type 0} (env : ClientEnv F N) where
  unfoldable pub handle_request_read : ℤ → Request → Response → F → Handled F
  handle_request_read fd req rsp files =
      let (result, files1) = env.os.pread fd req.mreq_size req.mreq_off files in
      if env.grants req.mreq_size
      then some (read_answer rsp result files1)
      else some (minus enomem, rsp, files)

  unfoldable pub handle_request_write : ℤ → Request → Response → F → Handled F
  handle_request_write fd req rsp files = do
    block ← request_block req
    let (result, files1) = env.os.pwrite fd block req.mreq_off files
    some (answer_ok rsp result files1)

  unfoldable pub handle_request_getattr : List ℕ → Request → Response → F → Handled F
  handle_request_getattr path req rsp files =
      let (result, files1) = env.os.stat path files in some (stat_answer rsp result files1)

  -- The entries of the second pass copied into an array of `room` that `calloc` has cleared: the
  -- array, and whether `strdup` found memory for each name. A write behind the array stops.
  unfoldable pub copy_entries : ℕ → List OsDirent → Option (Bool × List Dirent)
  copy_entries zero [] = some (true, [])
  copy_entries zero (ent ∷ ents) = none
  copy_entries (suc room) [] = do (ok, rest) ← copy_entries room []; some (ok, zero_dirent ∷ rest)
  copy_entries (suc room) (ent ∷ ents) = do
    (ok, rest) ← copy_entries room ents
    let entry : Dirent = record { mde_name = some ent.d_name; mde_mode = dirent_mode ent.d_type }
    some (env.grants (length ent.d_name + 1) && ok, entry ∷ rest)

  -- The directory is read twice, to count its entries and to copy them. The stream stays open.
  unfoldable pub read_dir : ℕ → Response → F → Handled F
  read_dir dir rsp files =
      let (counted, files1) = env.os.read_entries dir files in
      let count = length counted in
      let (ents, files2) = env.os.read_entries dir (env.os.rewinddir dir files1) in
      let no_array = record rsp { mrsp_dir = record { mdir_count = count; mdir_ents = none } } in
      let copied = (do
        (ok, array) ← copy_entries count ents
        let rsp1 = record rsp { mrsp_dir = record { mdir_count = count; mdir_ents = some array } }
        some (if ok then pos 0 else minus enomem, rsp1, files2)) in
      if env.grants (count * 16) then copied else some (minus enomem, no_array, files1)

  unfoldable pub dir_opened : Response → Sys ℕ × F → Handled F
  dir_opened rsp (fails e, files) = some (minus e, rsp, files)
  dir_opened rsp (done dir, files) = read_dir dir rsp files

  unfoldable pub handle_request_readdir : List ℕ → Request → Response → F → Handled F
  handle_request_readdir path req rsp files =
      dir_opened (record rsp { mrsp_type = mrsp_dir_type }) (env.os.opendir path files)

  unfoldable pub handle_request_access : List ℕ → Request → Response → F → Handled F
  handle_request_access path req rsp files =
      let (result, files1) = env.os.access path req.mreq_mode files in
      some (answer_ok rsp result files1)

  -- The file is created with the mode 0666.
  unfoldable pub handle_request_open : List ℕ → Request → Response → F → Handled F
  handle_request_open path req rsp files =
      let (result, files1) = env.os.open_file path req.mreq_mode 438 files in
      elim result [
        | fails e ↦ some (minus e, rsp, files1)
        | done fd ↦ some (pos 0, response_init mrsp_ok_type rsp, (env.os.close (pos fd) files1).1)
      ]

  unfoldable pub handle_request_truncate : List ℕ → Request → Response → F → Handled F
  handle_request_truncate path req rsp files =
      let (result, files1) = env.os.truncate path req.mreq_size files in
      some (answer_ok rsp result files1)

  unfoldable pub handle_request_rename : List ℕ → Request → Response → F → Handled F
  handle_request_rename path req rsp files = do
    to ← middfs_localpath_tmp env req.mreq_to.mr_path
    let (result, files1) = env.os.rename path to files
    some (answer_ok rsp result files1)

  -- `handle_request_fns`: the handlers of a path and those of a descriptor, by the request's type.
  abbrev pub path_handlers : List (ℕ × (List ℕ → Request → Response → F → Handled F))
  path_handlers =
      (mreq_getattr_type, handle_request_getattr)
      ∷ (mreq_readdir_type, handle_request_readdir)
      ∷ (mreq_access_type, handle_request_access)
      ∷ (mreq_open_type, handle_request_open)
      ∷ (mreq_truncate_type, handle_request_truncate)
      ∷ (mreq_rename_type, handle_request_rename)
      ∷ []

  abbrev pub fd_handlers : List (ℕ × (ℤ → Request → Response → F → Handled F))
  fd_handlers = (mreq_read_type, handle_request_read) ∷ (mreq_write_type, handle_request_write) ∷ []

  -- A handler of a descriptor on the path, which is opened with O_RDWR and closed again.
  unfoldable pub on_opened :
      (ℤ → Request → Response → F → Handled F) → Request → Response → Sys ℕ × F → Handled F
  on_opened handler req rsp (fails e, files) = some (minus e, rsp, files)
  on_opened handler req rsp (done fd, files) = do
    (request_status, rsp1, files1) ← handler (pos fd) req rsp files
    some (request_status, rsp1, (env.os.close (pos fd) files1).1)

  -- The `switch` over the type; none within is a request that is not answered.
  unfoldable pub dispatch :
      List ℕ
      → Request
      → Response
      → F
      → Option (List ℕ → Request → Response → F → Handled F)
      → Option (ℤ → Request → Response → F → Handled F)
      → Option (Option (ℤ × Response × F))
  dispatch path req rsp files (some path_f) fd_f = do r ← path_f path req rsp files; some (some r)
  dispatch path req rsp files none (some fd_f) = do
    r ← on_opened fd_f req rsp (env.os.open_file path 2 0 files)
    some (some r)
  dispatch path req rsp files none none = some none

  unfoldable pub run_request : List ℕ → Request → Response → F → Option (Option (ℤ × Response × F))
  run_request path req rsp files =
      dispatch path req rsp files (handler_of req.mreq_type path_handlers)
        (handler_of req.mreq_type fd_handlers)

  unfoldable pub answered : Packet → F → Option (ℤ × Response × F) → HandlerE × Packet × F
  answered out_pkt files none = (hs_del, out_pkt, files)
  answered out_pkt files (some (request_status, rsp, files1)) =
      (hs_suc, record out_pkt { mpkt_response = with_status request_status rsp }, files1)

  unfoldable pub handle_request : Packet → Packet → F → Option (HandlerE × Packet × F)
  handle_request in_pkt out_pkt files = do
    let req = in_pkt.mpkt_request
    let fresh = packet_init mpkt_response_type out_pkt
    path ← middfs_localpath_tmp env req.mreq_rsrc.mr_path
    outcome ← run_request path req fresh.mpkt_response files
    some (answered fresh files outcome)

  -- The socket turns from reading to writing, when the response has been serialized.
  unfoldable pub serialize_response : Sockinfo → Packet → F → Option (HandlerE × Sockinfo × F)
  serialize_response info out_pkt files = do
    (retv, buf) ← buffer_serialize env.realloc env.fuel (serialize_pkt out_pkt) info.out_end.buf
    let failed = with_out_buf info buf
    let turned = record failed {
      state = mss_rspwr;
      out_end = record (failed.out_end) { fd = info.in_end.fd };
      in_end = record (info.in_end) { fd = minus_one };
    }
    some (if is_neg retv then (hs_del, failed, files) else (hs_suc, turned, files))

  unfoldable pub send_response : Sockinfo → HandlerE × Packet × F → Option (HandlerE × Sockinfo × F)
  send_response info (hs_del, out_pkt, files) = some (hs_del, info, files)
  send_response info (hs_suc, out_pkt, files) = serialize_response info out_pkt files
  send_response info (hs_err, out_pkt, files) = serialize_response info out_pkt files
  send_response info (hs_new, out_pkt, files) = serialize_response info out_pkt files

  -- The assertion on the state fails in any but MSS_REQRD; any packet but a request is refused.
  unfoldable pub handle_pkt_rd_fin : F → Sockinfo → Packet → Option (HandlerE × Sockinfo × F)
  handle_pkt_rd_fin files info in_pkt =
      let response = (do
        outcome ← handle_request in_pkt zero_packet files
        send_response info outcome) in
      if is_reqrd info.state
      then if in_pkt.mpkt_type == mpkt_request_type then response else some (hs_del, info, files)
      else none

  unfoldable pub handle_pkt_wr_fin : F → Sockinfo → Option (HandlerE × Sockinfo × F)
  handle_pkt_wr_fin files info = if is_rspwr info.state then some (hs_del, info, files) else none

  abbrev pub client_hi : HandlerInfo F
  client_hi = record { rd_fin = handle_pkt_rd_fin; wr_fin = handle_pkt_wr_fin }
