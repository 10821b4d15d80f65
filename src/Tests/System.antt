-- ===== src/Tests/System.antt =====
-- Concrete systems: one file that every path leads to, and a client that is linked to its owner.
use middfs.Common.{ℕ, ◌%◌, ◌^◌, refl, arith, List, [], ◌∷◌, ◌++◌, true, none}
use middfs.Common.{length, take, drop, length-take}
use middfs.Text.{strcmp}
use middfs.Common.{ℤ, Option, ◌≡◌, refl, ◌>>=◌, pos, some}
use middfs.Pkt.{Packet, zero_packet}
use middfs.Pkt.Init.{conf_username, conf_homepath}
use middfs.Conf.{Memory, Environ, getenv, conf_envvar, conf_get, envvar_prefix}
use middfs.Client.Os.{fails, done, Os, OsDirent, zero_stat_buf, ClientEnv}
use middfs.Client.Os.Laws.{IsOs}
use middfs.Client.Rsrc.Paths.{Configured}
use middfs.Client.Remote.{Linked}
use middfs.Serial.Decode.Received.{received_packet}
use middfs.Conn.{HandlerE, hs_err, hs_suc, hs_new, hs_del}
use middfs.Conn.Reading.{arrives}
use middfs.Client.Handler.{handle_request}
use middfs.Tests.Library.{always, resized}

abbrev one_entry : OsDirent
one_entry = record { d_ino = 2; d_type = 8; d_name = 120 ∷ [] }

-- The state is the bytes of the file. Directories and links cannot be made.
abbrev pub one_file : Os (List ℕ)
one_file = record {
  open_file = λ path flags mode f. (done 3, f);
  close = λ fd f. (done tt, f);
  lstat = λ path f. (done (record zero_stat_buf { st_size = length f % 2 ^ 64 }), f);
  stat = λ path f. (done (record zero_stat_buf { st_size = length f % 2 ^ 64 }), f);
  readlink = λ path size f. (fails 22, f);
  access = λ path mode f. (done tt, f);
  mkdir = λ path mode f. (fails 1, f);
  unlink = λ path f. (done tt, []);
  rmdir = λ path f. (fails 20, f);
  truncate = λ path size f. (done tt, resized size f);
  ftruncate = λ fd size f. (done tt, resized size f);
  symlink = λ target path f. (fails 1, f);
  rename = λ from to f. (fails 2, f);
  lchmod = λ path mode f. (done tt, f);
  fchmod = λ fd mode f. (done tt, f);
  pread = λ fd size off f. (done (take size (drop off f)), f);
  pwrite = λ fd bytes off f. (done (length bytes), take off f ++ bytes);
  fdopendir = λ fd f. (done 4, f);
  opendir = λ path f. (done 4, f);
  read_entries = λ dir f. (one_entry ∷ [], f);
  rewinddir = λ dir f. f;
  closedir = λ dir f. (done tt, f);
  getcwd = λ f. done (47 ∷ []);
}

pub one_file-IsOs : IsOs one_file
one_file-IsOs = record {
  open_in = λ path flags mode f. tt;
  stat_in = λ path f. record {
    mode_in = omega arith;
    size_in = omega arith;
    blocks_in = omega arith;
    blksize_in = omega arith;
  };
  access_in = λ path mode f. tt;
  truncate_in = λ path size f. tt;
  rename_in = λ from to f. (omega arith, omega arith);
  pread_in = λ fd size off f. omega (arith, length-take size (drop off f));
  pwrite_in = λ fd bytes off f. tt;
  opendir_in = λ path f. tt;
  entries_in = λ dir f. (((omega arith, omega arith), tt), tt);
  count_in = λ dir f. omega arith;
}

abbrev pub ample : Memory
ample = record { formats = λ s. true; stores = λ s. true }

-- "bob" at "/h".
abbrev pub bob_environ : Environ
bob_environ =
    (envvar_prefix ++ conf_username, 98 ∷ 111 ∷ 98 ∷ [])
    ∷ (envvar_prefix ++ conf_homepath, 47 ∷ 104 ∷ [])
    ∷ []

abbrev pub bob_env : ClientEnv (List ℕ) ℕ
bob_env = record {
  memory = ample;
  environ = bob_environ;
  os = one_file;
  xchg = λ out_pkt in_pkt n. none;
  grants = λ size. true;
  realloc = always;
  fuel = 64;
  old_pkt = zero_packet;
  uid = 1000;
  gid = 1000;
}

pub bob_env-Configured : Configured bob_env
unfolding conf_get conf_envvar getenv strcmp
bob_env-Configured = record {
  home = 47 ∷ 104 ∷ [];
  user = 98 ∷ 111 ∷ 98 ∷ [];
  home_is = refl;
  user_is = refl;
}

-- The answer as it arrives, or nothing when the owner closes the connection.
abbrev reply_to : {G : Type 0} → Packet → HandlerE × Packet × G → ℤ × Packet × G
reply_to in_pkt (hs_suc, out_pkt, files) = (pos 0, received_packet in_pkt out_pkt, files)
reply_to in_pkt (hs_err, out_pkt, files) = (pos 0, in_pkt, files)
reply_to in_pkt (hs_new, out_pkt, files) = (pos 0, in_pkt, files)
reply_to in_pkt (hs_del, out_pkt, files) = (pos 0, in_pkt, files)

-- An exchange in which the owner handles the request as it arrives.
unfoldable pub served :
    {G M : Type 0} → ClientEnv G M → Packet → Packet → G → Option (ℤ × Packet × G)
served owner out_pkt in_pkt files = do
  outcome ← handle_request owner (arrives out_pkt) zero_packet files
  some (reply_to in_pkt outcome)

served-answer :
    {G M : Type 0} (owner : ClientEnv G M) (out_pkt in_pkt : Packet) (files : G) (answer : Packet)
    (files1 : G)
    → handle_request owner (arrives out_pkt) zero_packet files ≡ some (hs_suc, answer, files1)
    → served owner out_pkt in_pkt files ≡ some (pos 0, received_packet in_pkt answer, files1)
unfolding served
served-answer owner out_pkt in_pkt files answer files1 e = rw e refl

-- "ann", with a network that leads to bob.
abbrev pub ann_env : ClientEnv (List ℕ) (List ℕ)
ann_env = record {
  memory = ample;
  environ =
      (envvar_prefix ++ conf_username, 97 ∷ 110 ∷ 110 ∷ [])
      ∷ (envvar_prefix ++ conf_homepath, 47 ∷ 103 ∷ [])
      ∷ [];
  os = one_file;
  xchg = served bob_env;
  grants = λ size. true;
  realloc = always;
  fuel = 64;
  old_pkt = zero_packet;
  uid = 1001;
  gid = 1001;
}

pub ann_env-Configured : Configured ann_env
unfolding conf_get conf_envvar getenv strcmp
ann_env-Configured = record {
  home = 47 ∷ 103 ∷ [];
  user = 97 ∷ 110 ∷ 110 ∷ [];
  home_is = refl;
  user_is = refl;
}

pub ann_env-Linked :
    (out_pkt in_pkt : Packet) (files : List ℕ) → Linked ann_env bob_env out_pkt in_pkt files
ann_env-Linked out_pkt in_pkt files answer files1 e =
    (in_pkt, served-answer bob_env out_pkt in_pkt files answer files1 e)
