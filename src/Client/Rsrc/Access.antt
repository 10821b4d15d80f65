-- ===== src/Client/Rsrc/Access.antt =====
-- The operations of src/client/middfs-client-rsrc.c on a resource as a whole.
use middfs.Common.{
  ℕ, ◌/◌, ◌%◌, List, Bool, true, false, Option, some, if◌then◌else◌, length, ◌==◌, ◌>>=◌,
}
use middfs.Common.{ℤ, pos, is_neg, as_int}
use middfs.Errno.{minus, exdev, eopnotsupp}
use middfs.Util.{poke}
use middfs.Pkt.{Stat, Request, Packet}
use middfs.Pkt.Kinds.{
  mreq_open_type, mreq_getattr_type, mreq_access_type, mreq_truncate_type, mreq_rename_type,
  mrsp_ok_type, mrsp_stat_type,
}
use middfs.Client.Exchange.{response_validate}
use middfs.Client.Os.{Sys, fails, done, status, ClientEnv, World, StatBuf, zero_stat_buf}
use middfs.Client.Rsrc.{
  RsrcType, mr_network, mr_local, mr_root, ClientRsrc, by_type, middfs_localpath_tmp, request_for,
  ask, on_localpath,
}

-- `flags & O_CREAT`, which is the bit 0100.
abbrev pub creates : ℕ → Bool
creates flags = flags / 64 % 2 == 1

-- S_IFDIR, and reading for the owner, the group and the others.
abbrev pub root_mode : ℕ
root_mode = 16676

unfoldable pub same_type : RsrcType → RsrcType → Bool
same_type mr_network t = by_type t true false false
same_type mr_local t = by_type t false false true
same_type mr_root t = by_type t false true false

abbrev pub with_request : Packet → (Request → Request) → Packet
with_request pkt change = record pkt { mpkt_request = change pkt.mpkt_request }

module _ {F N : Type 0} (env : ClientEnv F N) where
  unfoldable pub opened : ClientRsrc → Sys ℕ → ℤ × ClientRsrc
  opened client_rsrc (fails e) = (minus e, client_rsrc)
  opened client_rsrc (done fd) = (pos 0, record client_rsrc { mr_fd = pos fd })

  -- `mode` is read only when the flags say that it is there.
  unfoldable pub client_rsrc_open :
      ClientRsrc → ℕ → ℕ → World F N → Option (ℤ × ClientRsrc × World F N)
  client_rsrc_open client_rsrc flags mode w =
      let out =
        with_request (request_for env mreq_open_type client_rsrc)
          (λ req. record req { mreq_mode = flags }) in
      by_type client_rsrc.mr_type
        (do (retv, w1) ← ask env out mrsp_ok_type w; some (retv, client_rsrc, w1))
        (some (pos 0, client_rsrc, w))
        (do
          localpath ← middfs_localpath_tmp env client_rsrc.mr_rsrc.mr_path
          let (result, files) =
              env.os.open_file localpath flags (if creates flags then mode else 0) w.files
          let (retv, client_rsrc1) = opened client_rsrc result
          some (retv, client_rsrc1, record w { files = files }))

  abbrev pub stat_of_response : Stat → StatBuf
  stat_of_response mstat = record zero_stat_buf {
    st_mode = mstat.mstat_mode;
    st_size = mstat.mstat_size;
    st_blocks = mstat.mstat_blocks;
    st_blksize = mstat.mstat_blksize;
    st_uid = env.uid;
    st_gid = env.gid;
    st_nlink = 1;
  }

  unfoldable pub stat_result : Sys StatBuf → ℤ × StatBuf
  stat_result (fails e) = (minus e, zero_stat_buf)
  stat_result (done sb) = (pos 0, sb)

  unfoldable pub client_rsrc_lstat : ClientRsrc → World F N → Option (ℤ × StatBuf × World F N)
  client_rsrc_lstat client_rsrc w =
      by_type client_rsrc.mr_type
        (do
          (xchg, in_pkt, net) ←
              env.xchg (request_for env mreq_getattr_type client_rsrc) env.old_pkt w.net
          let w1 = record w { net = net }
          let retv = response_validate in_pkt mrsp_stat_type
          let sb = stat_of_response in_pkt.mpkt_response.mrsp_stat
          some (
              if is_neg xchg
              then (xchg, zero_stat_buf, w1)
              else if is_neg retv
              then (retv, zero_stat_buf, w1)
              else (pos 0, sb, w1)))
        (some (
          pos 0,
          record zero_stat_buf { st_mode = root_mode; st_uid = env.uid; st_gid = env.gid },
          w,
        ))
        (do
          localpath ← middfs_localpath_tmp env client_rsrc.mr_rsrc.mr_path
          let (result, files) = env.os.lstat localpath w.files
          let (retv, sb) = stat_result result
          some (retv, sb, record w { files = files }))

  -- The result and the buffer after the call.
  unfoldable pub link_result : Sys (List ℕ) → List ℕ → Option (ℤ × List ℕ)
  link_result (fails e) buf = some (minus e, buf)
  link_result (done target) buf = do buf1 ← poke target buf; some (as_int (length target), buf1)

  unfoldable pub client_rsrc_readlink :
      ClientRsrc → List ℕ → ℕ → World F N → Option (ℤ × List ℕ × World F N)
  client_rsrc_readlink client_rsrc buf bufsize w =
      by_type client_rsrc.mr_type (some (minus eopnotsupp, buf, w))
        (some (minus eopnotsupp, buf, w))
        (do
          localpath ← middfs_localpath_tmp env client_rsrc.mr_rsrc.mr_path
          let (result, files) = env.os.readlink localpath bufsize w.files
          (retv, buf1) ← link_result result buf
          some (retv, buf1, record w { files = files }))

  unfoldable pub client_rsrc_access : ClientRsrc → ℕ → World F N → Option (ℤ × World F N)
  client_rsrc_access client_rsrc mode w =
      let out =
        with_request (request_for env mreq_access_type client_rsrc)
          (λ req. record req { mreq_mode = mode }) in
      by_type client_rsrc.mr_type (ask env out mrsp_ok_type w) (ask env out mrsp_ok_type w)
        (on_localpath env client_rsrc (λ localpath. env.os.access localpath mode) w)

  -- What is not supported for any resource but a local one.
  unfoldable pub only_local :
      ClientRsrc → (List ℕ → F → Sys Unit × F) → World F N → Option (ℤ × World F N)
  only_local client_rsrc call w =
      by_type client_rsrc.mr_type (some (minus eopnotsupp, w)) (some (minus eopnotsupp, w))
        (on_localpath env client_rsrc call w)

  unfoldable pub client_rsrc_mkdir : ClientRsrc → ℕ → World F N → Option (ℤ × World F N)
  client_rsrc_mkdir client_rsrc mode =
      only_local client_rsrc (λ localpath. env.os.mkdir localpath mode)

  unfoldable pub client_rsrc_unlink : ClientRsrc → World F N → Option (ℤ × World F N)
  client_rsrc_unlink client_rsrc = only_local client_rsrc env.os.unlink

  unfoldable pub client_rsrc_rmdir : ClientRsrc → World F N → Option (ℤ × World F N)
  client_rsrc_rmdir client_rsrc = only_local client_rsrc env.os.rmdir

  unfoldable pub client_rsrc_symlink : ClientRsrc → List ℕ → World F N → Option (ℤ × World F N)
  client_rsrc_symlink client_rsrc to =
      only_local client_rsrc (λ localpath. env.os.symlink to localpath)

  -- The call goes to the descriptor of an open resource, and to the path of any other.
  unfoldable pub on_local :
      ClientRsrc
      → (ℤ → F → Sys Unit × F)
      → (List ℕ → F → Sys Unit × F)
      → World F N
      → Option (ℤ × World F N)
  on_local client_rsrc fd_call path_call w =
      let (result, files) = fd_call client_rsrc.mr_fd w.files in
      if is_neg client_rsrc.mr_fd
      then on_localpath env client_rsrc path_call w
      else some (status result, record w { files = files })

  unfoldable pub client_rsrc_truncate : ClientRsrc → ℕ → World F N → Option (ℤ × World F N)
  client_rsrc_truncate client_rsrc size w =
      let out =
        with_request (request_for env mreq_truncate_type client_rsrc)
          (λ req. record req { mreq_size = size }) in
      by_type client_rsrc.mr_type (ask env out mrsp_ok_type w) (ask env out mrsp_ok_type w) (
        on_local client_rsrc (λ fd. env.os.ftruncate fd size)
          (λ localpath. env.os.truncate localpath size) w)

  unfoldable pub client_rsrc_chmod : ClientRsrc → ℕ → World F N → Option (ℤ × World F N)
  client_rsrc_chmod client_rsrc mode w =
      by_type client_rsrc.mr_type (some (minus eopnotsupp, w)) (some (minus eopnotsupp, w)) (
        on_local client_rsrc (λ fd. env.os.fchmod fd mode)
          (λ localpath. env.os.lchmod localpath mode) w)

  unfoldable pub client_rsrc_rename : ClientRsrc → ClientRsrc → World F N → Option (ℤ × World F N)
  client_rsrc_rename from to w =
      let out =
        with_request (request_for env mreq_rename_type from)
          (λ req. record req { mreq_to = to.mr_rsrc }) in
      let local = (do
        local_to ← middfs_localpath_tmp env to.mr_rsrc.mr_path
        on_localpath env from (λ local_from. env.os.rename local_from local_to) w) in
      if same_type from.mr_type to.mr_type
      then by_type to.mr_type (ask env out mrsp_ok_type w) (ask env out mrsp_ok_type w) local
      else some (minus exdev, w)
