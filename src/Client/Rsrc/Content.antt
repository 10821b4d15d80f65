-- ===== src/Client/Rsrc/Content.antt =====
-- client_rsrc_read, client_rsrc_write and client_rsrc_readdir of
-- src/client/middfs-client-rsrc.c. The buffer and the filler function of FUSE are parameters.
use middfs.Common.{ℕ, zero, suc, ◌*◌, ◌%◌, ◌^◌, List, [], ◌∷◌, Bool}
use middfs.Common.{Option, none, some, if◌then◌else◌, length, ◌==◌, ◌||◌, not, ◌>>=◌}
use middfs.Common.{ℤ, pos, is_neg, minus_one, as_int}
use middfs.Errno.{minus, eio, enomem, eopnotsupp}
use middfs.Util.{smin, peek, poke, memcpy}
use middfs.Pkt.{CString, Dirent, Packet, entries, zero_packet}
use middfs.Pkt.Kinds.{
  mpkt_magic_value, mpkt_response_type, mreq_read_type, mreq_write_type, mreq_readdir_type,
  mrsp_ok_type, mrsp_data_type, mrsp_dir_type, mrsp_error_type,
}
use middfs.Conf.{conf_get}
use middfs.Pkt.Init.{conf_username}
use middfs.Client.Exchange.{response_validate, negated32}
use middfs.Client.Os.{Sys, fails, done, OsDirent, ClientEnv, World, StatBuf, zero_stat_buf}
use middfs.Client.Rsrc.{ClientRsrc, by_type, request_for}
use middfs.Client.Rsrc.Access.{with_request}

-- The result of `read`, and the buffer after it: the data of the response, as far as they fit.
unfoldable pub read_response : Packet → List ℕ → ℕ → Option (ℤ × List ℕ)
read_response in_pkt buf size =
    let rsp = in_pkt.mpkt_response in
    let nbytes = smin size rsp.mrsp_data.mdata_nbytes in
    let copied = (do
      buf1 ← memcpy buf rsp.mrsp_data.mdata_buf nbytes
      some (as_int nbytes, buf1)) in
    if not (in_pkt.mpkt_magic == mpkt_magic_value) || not (in_pkt.mpkt_type == mpkt_response_type)
    then some (minus eio, buf)
    else if rsp.mrsp_type == mrsp_data_type
    then copied
    else if rsp.mrsp_type == mrsp_error_type
    then some (negated32 rsp.mrsp_error, buf)
    else some (minus eio, buf)

unfoldable pub read_result : Sys (List ℕ) → List ℕ → Option (ℤ × List ℕ)
read_result (fails e) buf = some (minus e, buf)
read_result (done bytes) buf = do buf1 ← poke bytes buf; some (as_int (length bytes), buf1)

unfoldable pub write_result : Sys ℕ → ℤ
write_result (fails e) = minus e
write_result (done k) = as_int k

-- `st_mode` from the type of an entry.
abbrev pub dirent_mode : ℕ → ℕ
dirent_mode d_type = d_type * 2 ^ 12 % 2 ^ 32

-- The filler function: it takes a name and the attributes, and says whether the buffer is full.
abbrev pub Filler : Type 0 → Type 0
Filler B = B → CString → StatBuf → Bool × B

module _ {B : Type 0} (filler : Filler B) where
  -- The loop over the `count` entries of a response.
  unfoldable pub fill_dirents : ℕ → List Dirent → B → Option B
  fill_dirents zero ents buf = some buf
  fill_dirents (suc count) [] buf = none
  fill_dirents (suc count) (dirent ∷ ents) buf =
      let (full, buf1) =
        filler buf dirent.mde_name (record zero_stat_buf { st_mode = dirent.mde_mode }) in
      let rest = fill_dirents count ents buf1 in if full then some buf1 else rest

  -- The loop over the entries of a directory.
  unfoldable pub fill_entries : List OsDirent → B → B
  fill_entries [] buf = buf
  fill_entries (dir_entry ∷ ents) buf =
      let (full, buf1) = filler buf (some dir_entry.d_name) (record zero_stat_buf {
        st_ino = dir_entry.d_ino;
        st_mode = dirent_mode dir_entry.d_type;
      }) in
      let rest = fill_entries ents buf1 in if full then buf1 else rest

module _ {F N : Type 0} (env : ClientEnv F N) where
  unfoldable pub client_rsrc_read :
      ClientRsrc → List ℕ → ℕ → ℕ → World F N → Option (ℤ × List ℕ × World F N)
  client_rsrc_read client_rsrc buf size offset w =
      let out =
        with_request (request_for env mreq_read_type client_rsrc)
          (λ req. record req { mreq_size = size; mreq_off = offset }) in
      by_type client_rsrc.mr_type
        (do
          username ← conf_get env.memory conf_username env.environ
          (xchg, in_pkt, net) ← env.xchg out zero_packet w.net
          (retv, buf1) ← if is_neg xchg then some (xchg, buf) else read_response in_pkt buf size
          some (retv, buf1, record w { net = net }))
        (some (minus eopnotsupp, buf, w))
        (do
          let (result, files) = env.os.pread client_rsrc.mr_fd size offset w.files
          (retv, buf1) ← read_result result buf
          some (retv, buf1, record w { files = files }))

  -- The assertions on the response.
  unfoldable pub written_response : Packet → ℕ → Option ℤ
  written_response in_pkt size =
      if in_pkt.mpkt_magic == mpkt_magic_value
      then if in_pkt.mpkt_type == mpkt_response_type
        then if in_pkt.mpkt_response.mrsp_type == mrsp_ok_type then some (as_int size) else none
        else none
      else none

  unfoldable pub write_request : ClientRsrc → List ℕ → ℕ → ℕ → World F N → Option (ℤ × World F N)
  write_request client_rsrc block size offset w =
      let out =
        with_request (request_for env mreq_write_type client_rsrc)
          (λ req. record req { mreq_size = size; mreq_off = offset; mreq_data = some block }) in
      (do
        (xchg, in_pkt, net) ← env.xchg out env.old_pkt w.net
        retv ← if is_neg xchg then some minus_one else written_response in_pkt size
        some (retv, record w { net = net }))

  -- The user name is asserted to be there and not empty; `memdup` may find no memory.
  unfoldable pub client_rsrc_write :
      ClientRsrc → List ℕ → ℕ → ℕ → World F N → Option (ℤ × World F N)
  client_rsrc_write client_rsrc buf size offset w =
      by_type client_rsrc.mr_type
        (do
          username ← conf_get env.memory conf_username env.environ
          block ← peek buf size
          let sent = write_request client_rsrc block size offset w
          if length username == 0
              then none
              else if env.grants size
              then sent
              else some (minus enomem, w))
        (some (minus eopnotsupp, w))
        (do
          block ← peek buf size
          let (result, files) = env.os.pwrite client_rsrc.mr_fd block offset w.files
          some (write_result result, record w { files = files }))

  module _ {B : Type 0} (filler : Filler B) where
    unfoldable pub listed_response : Packet → B → Option (ℤ × B)
    listed_response in_pkt buf =
        let retv = response_validate in_pkt mrsp_dir_type in
        let dir = in_pkt.mpkt_response.mrsp_dir in
        let filled = (do
          buf1 ← fill_dirents filler dir.mdir_count (entries dir.mdir_ents) buf
          some (retv, buf1)) in
        if is_neg retv then some (retv, buf) else filled

    -- `closedir` also closes the descriptor.
    unfoldable pub listed_local : ClientRsrc → Sys ℕ → B → F → ℤ × ClientRsrc × B × F
    listed_local rsrc (fails e) buf files = (minus e, rsrc, buf, files)
    listed_local rsrc (done dir) buf files =
        let (ents, files1) = env.os.read_entries dir files in
        let (closed, files2) = env.os.closedir dir files1 in
        let buf1 = fill_entries filler ents buf in
        elim closed [
          | fails e ↦ (minus e, rsrc, buf1, files2)
          | done u ↦ (pos 0, record rsrc { mr_fd = minus_one }, buf1, files2)
        ]

    unfoldable pub client_rsrc_readdir :
        ClientRsrc → B → World F N → Option (ℤ × ClientRsrc × B × World F N)
    client_rsrc_readdir rsrc buf w =
        let over_net = (do
          (xchg, in_pkt, net) ← env.xchg (request_for env mreq_readdir_type rsrc) zero_packet w.net
          (retv, buf1) ← if is_neg xchg then some (xchg, buf) else listed_response in_pkt buf
          some (retv, rsrc, buf1, record w { net = net })) in
        let (result, files) = env.os.fdopendir rsrc.mr_fd w.files in
        let (retv, rsrc1, buf1, files1) = listed_local rsrc result buf files in
        by_type rsrc.mr_type over_net over_net
          (some (retv, rsrc1, buf1, record w { files = files1 }))
