-- ===== src/Client/Ops.antt =====
-- src/client/middfs-client-ops.c: the operations that FUSE calls, as built for FUSE 3. The handle in
-- `fi->fh` leads to a resource; a null `fi` is none.
pub mod Handles
use middfs.Common.{ℕ, List, Option, none, some}
use middfs.Common.{if◌then◌else◌, length, set, ltb, ◌>>=◌, ℤ, pos, negsuc, is_neg, is_zero}
use middfs.Errno.{minus, enomem}
use middfs.Client.Os.{ClientEnv, World, StatBuf}
use middfs.Client.Rsrc.{ClientRsrc, client_rsrc_init, client_rsrc_delete}
use middfs.Client.Rsrc.Access.{
  client_rsrc_open, client_rsrc_lstat, client_rsrc_readlink, client_rsrc_access, client_rsrc_mkdir,
  client_rsrc_unlink, client_rsrc_rmdir, client_rsrc_symlink, client_rsrc_truncate,
  client_rsrc_chmod, client_rsrc_rename,
}
use middfs.Client.Rsrc.Content.{Filler, client_rsrc_read, client_rsrc_write, client_rsrc_readdir}

-- `(retv < 0) ? retv : res`
abbrev pub first_error : ℤ → ℤ → ℤ
first_error retv res = if is_neg retv then retv else res

-- `buf[retv] = '\0'` in a buffer with room for its bytes only.
unfoldable pub terminate : ℤ → List ℕ → Option (List ℕ)
terminate (pos i) buf = if ltb i (length buf) then some (set buf i 0) else none
terminate (negsuc n) buf = none

-- `old` is a resource variable that has not been initialised.
module _ {F N : Type 0} (env : ClientEnv F N) (old : ClientRsrc) where
  -- The temporary resource is deleted; an error of the operation comes first.
  unfoldable pub released : ClientRsrc → ℤ × World F N → ℤ × World F N
  released client_rsrc_tmp (retv, w) =
      let (res, w1) = client_rsrc_delete env (some client_rsrc_tmp) w in (first_error retv res, w1)

  -- An operation on a temporary resource for the path.
  unfoldable pub on_temporary :
      List ℕ
      → (ClientRsrc → World F N → Option (ℤ × World F N))
      → World F N
      → Option (ℤ × World F N)
  on_temporary path op w = do
    (retv, client_rsrc_tmp) ← client_rsrc_init env path old
    let used = (do r ← op client_rsrc_tmp w; some (released client_rsrc_tmp r))
    if is_neg retv then some (retv, w) else used

  unfoldable pub middfs_access : List ℕ → ℕ → World F N → Option (ℤ × World F N)
  middfs_access path mode = on_temporary path (λ rsrc. client_rsrc_access env rsrc mode)

  unfoldable pub middfs_mkdir : List ℕ → ℕ → World F N → Option (ℤ × World F N)
  middfs_mkdir path mode = on_temporary path (λ rsrc. client_rsrc_mkdir env rsrc mode)

  unfoldable pub middfs_unlink : List ℕ → World F N → Option (ℤ × World F N)
  middfs_unlink path = on_temporary path (client_rsrc_unlink env)

  unfoldable pub middfs_rmdir : List ℕ → World F N → Option (ℤ × World F N)
  middfs_rmdir path = on_temporary path (client_rsrc_rmdir env)

  -- The result of the deletion counts only when the operation returned 0.
  unfoldable pub middfs_symlink : List ℕ → List ℕ → World F N → Option (ℤ × World F N)
  middfs_symlink to from w = do
    (retv, client_rsrc_tmp) ← client_rsrc_init env from old
    let used = (do
      (retv1, w1) ← client_rsrc_symlink env client_rsrc_tmp to w
      let (res, w2) = client_rsrc_delete env (some client_rsrc_tmp) w1
      some (if is_zero retv1 then res else retv1, w2))
    if is_neg retv then some (retv, w) else used

  -- The attributes are the memory at `stbuf` after the call.
  unfoldable pub middfs_getattr :
      List ℕ → Option ClientRsrc → StatBuf → World F N → Option (ℤ × StatBuf × World F N)
  middfs_getattr path (some client_rsrc) stbuf w = client_rsrc_lstat env client_rsrc w
  middfs_getattr path none stbuf w = do
    (retv, client_rsrc_tmp) ← client_rsrc_init env path old
    let used = (do
      (retv1, sb, w1) ← client_rsrc_lstat env client_rsrc_tmp w
      let (retv2, w2) = released client_rsrc_tmp (retv1, w1)
      some (retv2, sb, w2))
    if is_neg retv then some (retv, stbuf, w) else used

  unfoldable pub middfs_readlink : List ℕ → List ℕ → ℕ → World F N → Option (ℤ × List ℕ × World F N)
  middfs_readlink path buf size w = do
    (retv, client_rsrc_tmp) ← client_rsrc_init env path old
    let used = (do
      (retv1, buf1, w1) ← client_rsrc_readlink env client_rsrc_tmp buf size w
      let (retv2, w2) = released client_rsrc_tmp (retv1, w1)
      let ended = (do buf2 ← terminate retv1 buf1; some (retv2, buf2, w2))
      if is_neg retv1 then some (retv2, buf1, w2) else ended)
    if is_neg retv then some (retv, buf, w) else used

  module _ {B : Type 0} (filler : Filler B) where
    -- The resource is opened with O_RDONLY.
    unfoldable pub list_opened : ClientRsrc → B → World F N → Option (ℤ × B × World F N)
    list_opened rsrc buf w = do
      (retv, rsrc1, w1) ← client_rsrc_open env rsrc 0 0 w
      let listed = (do
        (retv1, rsrc2, buf1, w2) ← client_rsrc_readdir env filler rsrc1 buf w1
        let (retv2, w3) = released rsrc2 (retv1, w2)
        some (retv2, buf1, w3))
      let (retv3, w4) = released rsrc1 (retv, w1)
      if is_neg retv then some (retv3, buf, w4) else listed

    unfoldable pub middfs_readdir : List ℕ → B → World F N → Option (ℤ × B × World F N)
    middfs_readdir path buf w = do
      (retv, rsrc) ← client_rsrc_init env path old
      let listed = list_opened rsrc buf w
      if is_neg retv then some (retv, buf, w) else listed

  -- When `to` has no resource, a variable that has not been initialised is deleted.
  unfoldable pub rename_to : ClientRsrc → List ℕ → World F N → Option (ℤ × World F N)
  rename_to client_rsrc_from to w = do
    (retv, client_rsrc_to) ← client_rsrc_init env to old
    let renamed = (do
      (retv1, w1) ← client_rsrc_rename env client_rsrc_from client_rsrc_to w
      let (res, w2) = client_rsrc_delete env (some client_rsrc_from) w1
      some (retv1, (client_rsrc_delete env (some client_rsrc_to) w2).1))
    if is_neg retv then none else renamed

  unfoldable pub middfs_rename : List ℕ → List ℕ → World F N → Option (ℤ × World F N)
  middfs_rename from to w = do
    (retv, client_rsrc_from) ← client_rsrc_init env from old
    let with_to = rename_to client_rsrc_from to w
    if is_neg retv then some (retv, w) else with_to

  abbrev pub middfs_link : List ℕ → List ℕ → World F N → Option (ℤ × World F N)
  middfs_link from to w = none

  unfoldable pub middfs_chmod : List ℕ → ℕ → Option ClientRsrc → World F N → Option (ℤ × World F N)
  middfs_chmod path mode (some client_rsrc) w = client_rsrc_chmod env client_rsrc mode w
  middfs_chmod path mode none w = do
    (retv, client_rsrc_tmp) ← client_rsrc_init env path old
    let changed = (do
      (retv1, w1) ← client_rsrc_chmod env client_rsrc_tmp mode w
      some (retv1, (client_rsrc_delete env (some client_rsrc_tmp) w1).1))
    if is_neg retv then some (retv, w) else changed

  unfoldable pub middfs_truncate :
      List ℕ → ℕ → Option ClientRsrc → World F N → Option (ℤ × World F N)
  middfs_truncate path size (some client_rsrc) w = client_rsrc_truncate env client_rsrc size w
  middfs_truncate path size none w =
      on_temporary path (λ rsrc. client_rsrc_truncate env rsrc size) w

  -- The resource of a new handle, or none.
  unfoldable pub open_handle :
      List ℕ → ℕ → ℕ → World F N → Option (ℤ × Option ClientRsrc × World F N)
  open_handle path flags mode w = do
    (retv, client_rsrc) ← client_rsrc_init env path old
    let opening = (do
      (retv1, client_rsrc1, w1) ← client_rsrc_open env client_rsrc flags mode w
      some (
          if is_neg retv1
          then (retv1, none, (client_rsrc_delete env (some client_rsrc1) w1).1)
          else (retv1, some client_rsrc1, w1)))
    if is_neg retv then some (retv, none, w) else opening

  -- `malloc` of a `struct client_rsrc`.
  unfoldable pub middfs_create :
      List ℕ → ℕ → ℕ → World F N → Option (ℤ × Option ClientRsrc × World F N)
  middfs_create path mode flags w =
      let opening = open_handle path flags mode w in
      if env.grants 32 then opening else some (minus enomem, none, w)

  -- Without a mode: what `va_arg` takes for it is `junk_mode`.
  unfoldable pub middfs_open :
      ℕ → List ℕ → ℕ → World F N → Option (ℤ × Option ClientRsrc × World F N)
  middfs_open junk_mode path flags w =
      let opening = (do
        (retv, handle, w1) ← open_handle path flags junk_mode w
        some (if is_neg retv then (retv, handle, w1) else (pos 0, handle, w1))) in
      if env.grants 32 then opening else some (minus enomem, none, w)

  -- The read on a temporary resource that is opened with O_RDONLY; when that fails, a null pointer
  -- is deleted in place of the resource.
  unfoldable pub read_temporary :
      ClientRsrc → List ℕ → ℕ → ℕ → World F N → Option (ℤ × List ℕ × World F N)
  read_temporary client_rsrc_tmp buf size offset w = do
    (retv, client_rsrc, w1) ← client_rsrc_open env client_rsrc_tmp 0 0 w
    let reading = (do
      (retv1, buf1, w2) ← client_rsrc_read env client_rsrc buf size offset w1
      let (retv2, w3) = released client_rsrc (retv1, w2)
      some (retv2, buf1, w3))
    if is_neg retv then some (retv, buf, (client_rsrc_delete env none w1).1) else reading

  unfoldable pub middfs_read :
      List ℕ → List ℕ → ℕ → ℕ → Option ClientRsrc → World F N → Option (ℤ × List ℕ × World F N)
  middfs_read path buf size offset (some client_rsrc) w =
      client_rsrc_read env client_rsrc buf size offset w
  middfs_read path buf size offset none w = do
    (retv, client_rsrc_tmp) ← client_rsrc_init env path old
    let reading = read_temporary client_rsrc_tmp buf size offset w
    if is_neg retv then some (retv, buf, w) else reading

  -- With a null `fi` the pointer to the resource stays null, and the write follows it.
  unfoldable pub middfs_write :
      List ℕ → List ℕ → ℕ → ℕ → Option ClientRsrc → World F N → Option (ℤ × World F N)
  middfs_write path buf size offset (some client_rsrc) w =
      client_rsrc_write env client_rsrc buf size offset w
  middfs_write path buf size offset none w = do
    (retv, client_rsrc_tmp) ← client_rsrc_init env path old
    let opening = (do
      (retv1, client_rsrc, w1) ← client_rsrc_open env client_rsrc_tmp 1 0 w
      if is_neg retv1 then some (retv1, (client_rsrc_delete env none w1).1) else none)
    if is_neg retv then some (retv, w) else opening

  unfoldable pub middfs_release : List ℕ → ClientRsrc → World F N → ℤ × World F N
  middfs_release path client_rsrc w = (pos 0, (client_rsrc_delete env (some client_rsrc) w).1)
