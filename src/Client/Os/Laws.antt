-- ===== src/Client/Os/Laws.antt =====
-- What the client relies on of the calls of its system, as they are documented.
use middfs.Common.{ℕ, ◌^◌, ◌≤◌, ◌<◌, ◌≡◌, List, length, All, IsU32, IsU64, ℤ}
use middfs.Serial.Valid.{IsChar}
use middfs.Client.Os.{Sys, fails, done, StatBuf, OsDirent, Os}

abbrev pub IsErrno : ℕ → Type 0
IsErrno e = (0 < e) × (e < 2 ^ 31)

-- A failing call leaves an error number, and `P` holds of the result of any other.
abbrev pub Gives : {A : Type 0} → (A → Type 0) → Sys A → Type 0
Gives P (fails e) = IsErrno e
Gives P (done a) = P a

abbrev pub Errs : {A : Type 0} → Sys A → Type 0
Errs = Gives (λ a. Unit)

pub record IsStatBuf (st : StatBuf) : Type 0 where
  pub mode_in : IsU32 st.st_mode
  pub size_in : IsU64 st.st_size
  pub blocks_in : IsU64 st.st_blocks
  pub blksize_in : IsU64 st.st_blksize

abbrev pub IsOsDirent : OsDirent → Type 0
IsOsDirent ent = All IsChar ent.d_name

pub record IsOs {F : Type 0} (os : Os F) : Type 0 where
  pub open_in : (path : List ℕ) (flags mode : ℕ) (f : F) → Errs (os.open_file path flags mode f).0
  pub stat_in : (path : List ℕ) (f : F) → Gives IsStatBuf (os.stat path f).0
  pub access_in : (path : List ℕ) (mode : ℕ) (f : F) → Errs (os.access path mode f).0
  pub truncate_in : (path : List ℕ) (size : ℕ) (f : F) → Errs (os.truncate path size f).0
  pub rename_in : (from to : List ℕ) (f : F) → Errs (os.rename from to f).0
  pub pread_in :
      (fd : ℤ) (size off : ℕ) (f : F)
      → Gives (λ bytes. length bytes ≤ size) (os.pread fd size off f).0
  pub pwrite_in : (fd : ℤ) (bytes : List ℕ) (off : ℕ) (f : F) → Errs (os.pwrite fd bytes off f).0
  pub opendir_in : (path : List ℕ) (f : F) → Errs (os.opendir path f).0
  pub entries_in : (dir : ℕ) (f : F) → All IsOsDirent (os.read_entries dir f).0
  pub count_in : (dir : ℕ) (f : F) → IsU64 (length (os.read_entries dir f).0)

-- Whether a directory has as many entries when it is read a second time, as far as it could be opened.
-- Another process may change it in between.
abbrev pub Steady : {F : Type 0} → Os F → Sys ℕ × F → Type 0
Steady os (fails e, f) = Unit
Steady os (done dir, f) =
    length (os.read_entries dir (os.rewinddir dir (os.read_entries dir f).1)).0
    ≡ length (os.read_entries dir f).0

abbrev pub Changed : {F : Type 0} → Os F → Sys ℕ × F → Type 0
Changed os (fails e, f) = ⊥
Changed os (done dir, f) =
    length (os.read_entries dir (os.rewinddir dir (os.read_entries dir f).1)).0
      ≡ length (os.read_entries dir f).0
    → ⊥
