-- ===== src/Client/Rsrc/Isolation.antt =====
-- The operations of src/client/middfs-client-rsrc.c on a resource that is not local.
use middfs.Common.{
  ℕ, ◌≡◌, sym, ap, List, Bool, true, false, Option, some, ℤ, >>=-eq-some, ◌>>=◌, ◌∙◌,
}
use mathlib.Core.Option.{some-injective}
use middfs.Pkt.{Rsrc, Packet, zero_packet}
use middfs.Client.Os.{ClientEnv, World}
use middfs.Client.Rsrc.{RsrcType, mr_network, mr_local, mr_root, ClientRsrc, ask}
use middfs.Client.Rsrc.Access.{
  client_rsrc_access, client_rsrc_mkdir, client_rsrc_unlink, client_rsrc_rmdir, client_rsrc_symlink,
  client_rsrc_truncate, client_rsrc_chmod, client_rsrc_rename, client_rsrc_open, same_type,
  only_local,
}

-- The operations that return a status, with their arguments; a rename has a second resource.
pub data StatusOp : Type 0 where
  access_op : ℕ → StatusOp
  mkdir_op : ℕ → StatusOp
  unlink_op : StatusOp
  rmdir_op : StatusOp
  symlink_op : List ℕ → StatusOp
  truncate_op : ℕ → StatusOp
  chmod_op : ℕ → StatusOp
  rename_op : ClientRsrc → StatusOp
  open_op : ℕ → ℕ → StatusOp

abbrev pub is_local : RsrcType → Bool
is_local mr_local = true
is_local mr_network = false
is_local mr_root = false

module _ {F N : Type 0} (env : ClientEnv F N) where
  abbrev pub run_op : StatusOp → ClientRsrc → World F N → Option (ℤ × World F N)
  run_op (access_op mode) rsrc = client_rsrc_access env rsrc mode
  run_op (mkdir_op mode) rsrc = client_rsrc_mkdir env rsrc mode
  run_op unlink_op rsrc = client_rsrc_unlink env rsrc
  run_op rmdir_op rsrc = client_rsrc_rmdir env rsrc
  run_op (symlink_op to) rsrc = client_rsrc_symlink env rsrc to
  run_op (truncate_op size) rsrc = client_rsrc_truncate env rsrc size
  run_op (chmod_op mode) rsrc = client_rsrc_chmod env rsrc mode
  run_op (rename_op to) rsrc = client_rsrc_rename env rsrc to
  run_op (open_op flags mode) rsrc =
      λ w. (do (retv, rsrc1, w1) ← client_rsrc_open env rsrc flags mode w; some (retv, w1))

  abbrev files_of : ℤ × World F N → F
  files_of r = r.1.files

  same_files :
      {a b : ℤ} {v w : World F N}
      → ◌≡◌ {A = Option (ℤ × World F N)} (some (a, v)) (some (b, w))
      → w.files ≡ v.files
  same_files h = sym (ap files_of (some-injective _ _ h))

  ask-keeps :
      (out : Packet) (type : ℕ) (w w1 : World F N) (retv : ℤ)
      → ask env out type w ≡ some (retv, w1)
      → w1.files ≡ w.files
  unfolding ask
  ask-keeps out type w w1 retv h =
      let (r, e, f) = >>=-eq-some (env.xchg out zero_packet w.net) _ h in same_files f

  abbrev files_opened : ℤ × ClientRsrc × World F N → F
  files_opened r = r.2.files

  same_opened :
      {a b : ℤ} {p q : ClientRsrc} {v w : World F N}
      → ◌≡◌ {A = Option (ℤ × ClientRsrc × World F N)} (some (a, p, v)) (some (b, q, w))
      → w.files ≡ v.files
  same_opened h = sym (ap files_opened (some-injective _ _ h))

  rename-keeps :
      (type to_type : RsrcType) (rsrc to : Rsrc) (fd to_fd : ℤ) (w w1 : World F N) (retv : ℤ)
      → is_local type ≡ false
      → client_rsrc_rename env
          (record { mr_type = type; mr_rsrc = rsrc; mr_fd = fd })
          (record { mr_type = to_type; mr_rsrc = to; mr_fd = to_fd })
          w
        ≡ some (retv, w1)
      → w1.files ≡ w.files
  unfolding client_rsrc_rename same_type
  rename-keeps mr_local to_type rsrc to fd to_fd w w1 retv t h = cc
  rename-keeps mr_network mr_network rsrc to fd to_fd w w1 retv t h = ask-keeps _ _ w w1 retv h
  rename-keeps mr_network mr_local rsrc to fd to_fd w w1 retv t h = same_files h
  rename-keeps mr_network mr_root rsrc to fd to_fd w w1 retv t h = same_files h
  rename-keeps mr_root mr_network rsrc to fd to_fd w w1 retv t h = same_files h
  rename-keeps mr_root mr_local rsrc to fd to_fd w w1 retv t h = same_files h
  rename-keeps mr_root mr_root rsrc to fd to_fd w w1 retv t h = ask-keeps _ _ w w1 retv h

  -- Unless the resource is local, none of access, mkdir, unlink, rmdir, symlink, truncate, chmod,
  -- rename and open touches the files of the client itself: on a resource of the network or the root,
  -- whenever it returns, they are as before. The second resource of a rename may be of any type.
  pub run_op-keeps_files :
      (op : StatusOp) (type : RsrcType) (rsrc : Rsrc) (fd : ℤ) (w w1 : World F N) (retv : ℤ)
      → is_local type ≡ false
      → run_op op (record { mr_type = type; mr_rsrc = rsrc; mr_fd = fd }) w ≡ some (retv, w1)
      → w1.files ≡ w.files
  unfolding client_rsrc_access client_rsrc_mkdir client_rsrc_unlink client_rsrc_rmdir
      client_rsrc_symlink client_rsrc_truncate client_rsrc_chmod client_rsrc_rename client_rsrc_open
      same_type only_local
  run_op-keeps_files op mr_local rsrc fd w w1 retv t h = cc
  run_op-keeps_files (access_op mode) mr_network rsrc fd w w1 retv t h = ask-keeps _ _ w w1 retv h
  run_op-keeps_files (access_op mode) mr_root rsrc fd w w1 retv t h = ask-keeps _ _ w w1 retv h
  run_op-keeps_files (truncate_op size) mr_network rsrc fd w w1 retv t h = ask-keeps _ _ w w1 retv h
  run_op-keeps_files (truncate_op size) mr_root rsrc fd w w1 retv t h = ask-keeps _ _ w w1 retv h
  run_op-keeps_files (mkdir_op mode) mr_network rsrc fd w w1 retv t h = same_files h
  run_op-keeps_files (mkdir_op mode) mr_root rsrc fd w w1 retv t h = same_files h
  run_op-keeps_files unlink_op mr_network rsrc fd w w1 retv t h = same_files h
  run_op-keeps_files unlink_op mr_root rsrc fd w w1 retv t h = same_files h
  run_op-keeps_files rmdir_op mr_network rsrc fd w w1 retv t h = same_files h
  run_op-keeps_files rmdir_op mr_root rsrc fd w w1 retv t h = same_files h
  run_op-keeps_files (symlink_op to) mr_network rsrc fd w w1 retv t h = same_files h
  run_op-keeps_files (symlink_op to) mr_root rsrc fd w w1 retv t h = same_files h
  run_op-keeps_files (chmod_op mode) mr_network rsrc fd w w1 retv t h = same_files h
  run_op-keeps_files (chmod_op mode) mr_root rsrc fd w w1 retv t h = same_files h
  run_op-keeps_files (rename_op to) mr_network rsrc fd w w1 retv t h =
      rename-keeps mr_network to.mr_type rsrc to.mr_rsrc fd to.mr_fd w w1 retv t h
  run_op-keeps_files (rename_op to) mr_root rsrc fd w w1 retv t h =
      rename-keeps mr_root to.mr_type rsrc to.mr_rsrc fd to.mr_fd w w1 retv t h
  run_op-keeps_files (open_op flags mode) mr_network rsrc fd w w1 retv t h =
      let ((status, rsrc1, w2), e, f) = >>=-eq-some _ _ h in
      let ((status1, w3), e1, f1) = >>=-eq-some (ask env _ _ w) _ e in
      same_files f ∙ same_opened f1 ∙ ask-keeps _ _ w w3 status1 e1
  run_op-keeps_files (open_op flags mode) mr_root rsrc fd w w1 retv t h = same_files h
