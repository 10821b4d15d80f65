-- ===== src/Client/Rsrc/Paths.antt =====
-- Paths in src/client/middfs-client-rsrc.c: where the files of a resource lie.
use middfs.Common.{ℕ, ◌≡◌, refl, List, ◌∷◌, ◌++◌, none, some}
use middfs.Pkt.{CString}
use middfs.Pkt.Init.{conf_username, conf_homepath}
use middfs.Serial.Valid.{IsText}
use middfs.Conf.{conf_get}
use middfs.Client.Os.{ClientEnv}
use middfs.Client.Rsrc.{middfs_localpath_tmp, slash}

-- The configuration has a home path and a user name.
pub record Configured {F N : Type 0} (env : ClientEnv F N) : Type 0 where
  pub home : List ℕ
  pub user : List ℕ
  pub home_is : conf_get env.memory conf_homepath env.environ ≡ some home
  pub user_is : conf_get env.memory conf_username env.environ ≡ some user

module _ {F N : Type 0} (env : ClientEnv F N) (conf : Configured env) where
  -- The path of a user's file.
  abbrev pub home_path : List ℕ → List ℕ
  home_path path = conf.home ++ (slash ∷ (conf.user ++ path))

  pub localpath-home :
      (path : List ℕ) → middfs_localpath_tmp env (some path) ≡ some (home_path path)
  unfolding middfs_localpath_tmp
  localpath-home path = rw (conf.home_is, conf.user_is) refl

  pub localpath-text :
      (path : CString)
      → IsText path
      → (localpath : List ℕ) × (middfs_localpath_tmp env path ≡ some localpath)
  localpath-text none h = absurd h
  localpath-text (some path) h = (home_path path, localpath-home path)
