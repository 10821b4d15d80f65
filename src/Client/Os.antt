-- ===== src/Client/Os.antt =====
-- What the client uses of its system: the calls on the file system, whose state `F` they pass on, the
-- exchange of a packet with the server, whose state is `N`, and the configuration.
pub mod Laws
use middfs.Common.{ℕ, List, Bool, Option, ℤ, pos}
use middfs.Errno.{minus}
use middfs.Pkt.{Packet}
use middfs.Buf.{Realloc}
use middfs.Conf.{Memory, Environ}

-- The result of a call: -1 with a value of `errno`, or a value.
pub data Sys (A : Type 0) : Type 0 where
  fails : ℕ → Sys A
  done : A → Sys A

-- What is returned for a call whose value does not matter.
abbrev pub status : {A : Type 0} → Sys A → ℤ
status (fails e) = minus e
status (done a) = pos 0

-- `struct stat`
pub record StatBuf : Type 0 where
  pub st_mode : ℕ
  pub st_size : ℕ
  pub st_blocks : ℕ
  pub st_blksize : ℕ
  pub st_uid : ℕ
  pub st_gid : ℕ
  pub st_nlink : ℕ
  pub st_ino : ℕ

abbrev pub zero_stat_buf : StatBuf
zero_stat_buf = record {
  st_mode = 0;
  st_size = 0;
  st_blocks = 0;
  st_blksize = 0;
  st_uid = 0;
  st_gid = 0;
  st_nlink = 0;
  st_ino = 0;
}

-- `struct dirent`
pub record OsDirent : Type 0 where
  pub d_ino : ℕ
  pub d_type : ℕ
  pub d_name : List ℕ

-- Paths are texts, modes, flags, sizes and offsets bit patterns; a directory stream is a number,
-- and `read_entries` is what the calls of `readdir` on it deliver until the first NULL.
pub record Os (F : Type 0) : Type 0 where
  pub open_file : List ℕ → ℕ → ℕ → F → Sys ℕ × F
  pub close : ℤ → F → Sys Unit × F
  pub lstat : List ℕ → F → Sys StatBuf × F
  pub stat : List ℕ → F → Sys StatBuf × F
  pub readlink : List ℕ → ℕ → F → Sys (List ℕ) × F
  pub access : List ℕ → ℕ → F → Sys Unit × F
  pub mkdir : List ℕ → ℕ → F → Sys Unit × F
  pub unlink : List ℕ → F → Sys Unit × F
  pub rmdir : List ℕ → F → Sys Unit × F
  pub truncate : List ℕ → ℕ → F → Sys Unit × F
  pub ftruncate : ℤ → ℕ → F → Sys Unit × F
  pub symlink : List ℕ → List ℕ → F → Sys Unit × F
  pub rename : List ℕ → List ℕ → F → Sys Unit × F
  pub lchmod : List ℕ → ℕ → F → Sys Unit × F
  pub fchmod : ℤ → ℕ → F → Sys Unit × F
  pub pread : ℤ → ℕ → ℕ → F → Sys (List ℕ) × F
  pub pwrite : ℤ → List ℕ → ℕ → F → Sys ℕ × F
  pub fdopendir : ℤ → F → Sys ℕ × F
  pub opendir : List ℕ → F → Sys ℕ × F
  pub read_entries : ℕ → F → List OsDirent × F
  pub rewinddir : ℕ → F → F
  pub closedir : ℕ → F → Sys Unit × F
  pub getcwd : F → Sys (List ℕ)

-- `old_pkt` is a packet variable that has not been initialised, and `xchg` is `packet_xchg`. `grants` is
-- whether a block of a size can be allocated.
pub record ClientEnv (F N : Type 0) : Type 0 where
  pub memory : Memory
  pub environ : Environ
  pub os : Os F
  pub xchg : Packet → Packet → N → Option (ℤ × Packet × N)
  pub grants : ℕ → Bool
  pub realloc : Realloc
  pub fuel : ℕ
  pub old_pkt : Packet
  pub uid : ℕ
  pub gid : ℕ

pub record World (F N : Type 0) : Type 0 where
  pub files : F
  pub net : N
