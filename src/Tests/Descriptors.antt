-- ===== src/Tests/Descriptors.antt =====
-- The theorems on open descriptors at concrete inputs.
use middfs.Common.{ℕ, ◌≡◌, refl, List, [], ◌∷◌, none, some, length, pos}
use middfs.Text.{strcmp, strspn, strcspn}
use middfs.Conf.{conf_get, conf_envvar, getenv}
use middfs.Pkt.{zero_packet, packet_init, response_init}
use middfs.Conn.{hs_suc}
use middfs.Client.Rsrc.{root_rsrc, client_rsrc_init, rsrc_from, owned_rsrc, middfs_localpath_tmp}
use middfs.Client.Rsrc.Split.{user_rsrc}
use middfs.Client.Handler.{
  handler_of, handle_request, handle_request_write, request_block, on_opened, dispatch, run_request,
  with_status, answered,
}
use middfs.Client.Os.{fails, done, Os, zero_stat_buf, ClientEnv}
use middfs.Common.{suc, arith, ℤ, negsuc, if◌then◌else◌, ◌==◌}
use middfs.Client.Handler.Descriptors.{Tracks, handle_request-Ends}
use middfs.Client.Os.{World}
use middfs.Client.Rsrc.{ClientRsrc}
use middfs.Common.{◌++◌}
use middfs.Client.Rsrc.Access.{client_rsrc_open, opened}
use middfs.Client.Ops.{open_handle, middfs_open}
use middfs.Client.Ops.Handles.{held, release, middfs_open-release}
use middfs.Tests.Library.{always}
use middfs.Tests.Data.{write_pkt}
use middfs.Tests.System.{bob_env}
use middfs.Util.{peek}
use middfs.Tests.Requests.{ok_pkt}

-- A system whose state is the list of its open descriptors; a new one is above all of them.
abbrev next_fd : List ℕ → ℕ
next_fd [] = 3
next_fd (fd ∷ fds) = suc fd

-- `close` of the newest descriptor removes it.
abbrev without : ℤ → List ℕ → List ℕ
without (pos fd) [] = []
without (pos fd) (n ∷ fds) = if fd == n then fds else n ∷ fds
without (negsuc m) fds = fds

abbrev descriptors : Os (List ℕ)
descriptors = record {
  open_file = λ path flags mode n. (done (next_fd n), next_fd n ∷ n);
  close = λ fd n. (done tt, without fd n);
  lstat = λ path n. (done zero_stat_buf, n);
  stat = λ path n. (done zero_stat_buf, n);
  readlink = λ path size n. (fails 22, n);
  access = λ path mode n. (done tt, n);
  mkdir = λ path mode n. (fails 1, n);
  unlink = λ path n. (fails 1, n);
  rmdir = λ path n. (fails 1, n);
  truncate = λ path size n. (done tt, n);
  ftruncate = λ fd size n. (done tt, n);
  symlink = λ target path n. (fails 1, n);
  rename = λ from to n. (done tt, n);
  lchmod = λ path mode n. (done tt, n);
  fchmod = λ fd mode n. (done tt, n);
  pread = λ fd size off n. (done [], n);
  pwrite = λ fd bytes off n. (done (length bytes), n);
  fdopendir = λ fd n. (done 4, n);
  opendir = λ path n. (done 4, 4 ∷ n);
  read_entries = λ dir n. ([], n);
  rewinddir = λ dir n. n;
  closedir = λ dir n. (done tt, n);
  getcwd = λ n. done (47 ∷ []);
}

close_newest : (fd : ℕ) (fds n : List ℕ) → n ≡ fd ∷ fds → without (pos fd) n ≡ fds
close_newest fd fds n h = rw h (ground arith)

descriptors-Tracks : Tracks descriptors
descriptors-Tracks = record {
  open_fds = λ n. n;
  open_adds = λ path flags mode n. refl;
  close_removes = λ fd fds n h. close_newest fd fds n h;
  stat_same = λ path n. refl;
  access_same = λ path mode n. refl;
  truncate_same = λ path size n. refl;
  rename_same = λ from to n. refl;
  pread_same = λ fd size off n. refl;
  pwrite_same = λ fd bytes off n. refl;
}

abbrev tracking_env : ClientEnv (List ℕ) ℕ
tracking_env = record {
  memory = bob_env.memory;
  environ = bob_env.environ;
  os = descriptors;
  xchg = λ out_pkt in_pkt n. none;
  grants = bob_env.grants;
  realloc = always;
  fuel = 64;
  old_pkt = zero_packet;
  uid = 1000;
  gid = 1000;
}

tracked_write :
    handle_request tracking_env write_pkt zero_packet (4 ∷ []) ≡ some (hs_suc, ok_pkt, 4 ∷ [])
unfolding handle_request answered with_status run_request dispatch handler_of on_opened
    handle_request_write request_block peek response_init packet_init middfs_localpath_tmp conf_get
    conf_envvar getenv strcmp
tracked_write = refl

handle_request-Ends_example :
    descriptors-Tracks.open_fds (4 ∷ []) ≡ descriptors-Tracks.open_fds (4 ∷ [])
handle_request-Ends_example =
    handle_request-Ends tracking_env descriptors-Tracks write_pkt zero_packet ok_pkt (4 ∷ [])
      (4 ∷ []) hs_suc refl tracked_write

-- "/bob/x", which bob opens for reading and writing.
abbrev bob_x : List ℕ
bob_x = 47 ∷ 98 ∷ 111 ∷ 98 ∷ 47 ∷ 120 ∷ []

abbrev opened_x : ClientRsrc
opened_x = record (user_rsrc (98 ∷ 111 ∷ 98 ∷ []) (98 ∷ 111 ∷ 98 ∷ []) (47 ∷ 120 ∷ [])) {
  mr_fd = pos 5;
}

abbrev tracked_world : List ℕ → World (List ℕ) ℕ
tracked_world n = record { files = n; net = 0 }

bob_opens :
    middfs_open tracking_env root_rsrc 0 bob_x 2 (tracked_world (4 ∷ []))
    ≡ some (pos 0, some opened_x, tracked_world (5 ∷ 4 ∷ []))
unfolding middfs_open open_handle client_rsrc_init rsrc_from owned_rsrc strspn strcspn conf_get
    conf_envvar getenv strcmp client_rsrc_open opened middfs_localpath_tmp
bob_opens = refl

middfs_open-release_example :
    (descriptors-Tracks.open_fds (tracked_world (5 ∷ 4 ∷ [])).files
      ≡ held (some opened_x) ++ descriptors-Tracks.open_fds (tracked_world (4 ∷ [])).files)
    × (descriptors-Tracks.open_fds
          (release tracking_env root_rsrc bob_x (some opened_x) (tracked_world (5 ∷ 4 ∷ []))).files
        ≡ descriptors-Tracks.open_fds (tracked_world (4 ∷ [])).files)
unfolding strcmp
middfs_open-release_example =
    middfs_open-release tracking_env descriptors-Tracks root_rsrc 0 2 bob_x (tracked_world (4 ∷ []))
      (tracked_world (5 ∷ 4 ∷ [])) (pos 0) (some opened_x) bob_opens
