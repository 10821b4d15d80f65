-- ===== src/Client/Ops/Handles.antt =====
-- The file handles of src/client/middfs-client-ops.c: the descriptors that middfs_open and
-- middfs_release leave open.
use middfs.Common.{ℕ, ◌++◌, sym, ap, ◌∙◌, ◌≡◌, refl, List, [], ◌∷◌, true, false}
use middfs.Common.{
  Option, none, some, if◌then◌else◌, ◌==◌, ◌>>=◌, Bool-cases, inl, inr, ℤ, pos, negsuc, is_neg,
}
use mathlib.Core.Path.{subst}
use middfs.Text.{strspn}
use mathlib.Core.Option.{some-injective}
use middfs.Common.{drop, >>=-eq-some, Option-cases}
use middfs.Pkt.Init.{conf_username}
use middfs.Pkt.{Rsrc, Packet, zero_packet}
use middfs.Conf.{conf_get}
use middfs.Client.Os.{Sys, fails, done, ClientEnv, World}
use middfs.Client.Rsrc.{
  RsrcType, mr_network, mr_local, mr_root, ClientRsrc, slash, owned_rsrc, rsrc_from,
  client_rsrc_init, client_rsrc_delete, ask, middfs_localpath_tmp,
}
use middfs.Client.Rsrc.Access.{client_rsrc_open, opened, creates}
use middfs.Client.Handler.Descriptors.{Opens, Tracks}
use middfs.Client.Ops.{open_handle, middfs_open, middfs_release}

-- The descriptors that a resource and a handle hold.
abbrev pub held_fd : ℤ → List ℕ
held_fd (pos fd) = fd ∷ []
held_fd (negsuc m) = []

abbrev pub held_by : ClientRsrc → List ℕ
held_by r = held_fd r.mr_fd

held_fd_none : (fd : ℤ) → is_neg fd ≡ true → held_fd fd ≡ []
held_fd_none (pos fd) h = absurd (positive h)
  where
    positive : false ≡ true → ⊥
    positive h = cc
held_fd_none (negsuc m) h = refl

abbrev pub held : Option ClientRsrc → List ℕ
held none = []
held (some r) = held_by r

-- What middfs_release makes of a handle, if there is one.
abbrev pub release :
    {F N : Type 0} → ClientEnv F N → ClientRsrc → List ℕ → Option ClientRsrc → World F N → World F N
release env old path none w = w
release env old path (some r) w = (middfs_release env old path r w).1

-- A new resource holds none.
abbrev Fresh : Option (ℤ × ClientRsrc) → Type 0
Fresh none = Unit
Fresh (some (retv, r)) = is_neg retv ≡ false → is_neg r.mr_fd ≡ true

module _ {F N : Type 0} (env : ClientEnv F N) (law : Tracks env.os) (old : ClientRsrc) where
  owned_fd : (s : List ℕ) (r : ClientRsrc) → owned_rsrc env s ≡ some r → is_neg r.mr_fd ≡ true
  unfolding owned_rsrc
  owned_fd s r h =
      let (user, found, made) = >>=-eq-some (conf_get env.memory conf_username env.environ) _ h in
      subst (λ x. is_neg x.mr_fd ≡ true) (some-injective _ _ made) refl

  rsrc_from-Fresh : (s : List ℕ) → Fresh (rsrc_from env s)
  unfolding rsrc_from
  rsrc_from-Fresh [] = λ k. refl
  rsrc_from-Fresh (c ∷ cs) = elim (Option-cases (owned_rsrc env (c ∷ cs))) [
    | inl e ↦ rw e tt
    | inr (r, e) ↦ rw e (λ k. owned_fd (c ∷ cs) r e)
  ]

  client_rsrc_init-Fresh : (path : List ℕ) → Fresh (client_rsrc_init env path old)
  unfolding client_rsrc_init
  client_rsrc_init-Fresh path = elim (Bool-cases (strspn slash path == 0)) [
    | inl e ↦ rw e (λ k. absurd (negative k))
    | inr e ↦ rw e (rsrc_from-Fresh (drop (strspn slash path) path))
  ]
    where
      negative : true ≡ false → ⊥
      negative h = cc

  -- Deleting a resource closes what it holds.
  delete-count :
      (r : ClientRsrc) (n : List ℕ) (w : World F N)
      → law.open_fds w.files ≡ held_by r ++ n
      → law.open_fds (client_rsrc_delete env (some r) w).1.files ≡ n
  unfolding client_rsrc_delete
  delete-count r n w h = by_fd r.mr_rsrc r.mr_type r.mr_fd h
    where
      by_fd :
          (rs : Rsrc) (type : RsrcType) (fd : ℤ)
          → law.open_fds w.files
            ≡ held_by (record { mr_type = type; mr_rsrc = rs; mr_fd = fd }) ++ n
          → law.open_fds
              (client_rsrc_delete env
                (some (record { mr_type = type; mr_rsrc = rs; mr_fd = fd }))
                w).1.files
            ≡ n
      by_fd rs type (pos fd) k = law.close_removes fd n w.files k
      by_fd rs type (negsuc m) k = k

  holds_none : (fd : ℤ) → is_neg fd ≡ true → (n : List ℕ) → n ≡ held_fd fd ++ n
  holds_none fd h n = ap (λ fds. fds ++ n) (sym (held_fd_none fd h))

  -- What client_rsrc_open leaves.
  abbrev Opened : List ℕ → Option (ℤ × ClientRsrc × World F N) → Type 0
  Opened n none = Unit
  Opened n (some (retv, r, w)) = law.open_fds w.files ≡ held_by r ++ n

  opened-count :
      (r : ClientRsrc) (w : World F N) (n : List ℕ) (result : Sys ℕ × F)
      → is_neg r.mr_fd ≡ true
      → Opens law.open_fds n result
      → law.open_fds result.1 ≡ held_by (opened env r result.0).1 ++ n
  unfolding opened
  opened-count r w n (fails e, f) fresh h =
      h ∙ ap (λ fds. fds ++ n) (sym (held_fd_none r.mr_fd fresh))
  opened-count r w n (done fd, f) fresh h = h

  ask-files :
      (out : Packet) (type : ℕ) (n : List ℕ) (r : ClientRsrc) (w : World F N)
      → law.open_fds w.files ≡ held_by r ++ n
      → Opened n (ask env out type w >>= (λ x. some (x.0, r, x.1)))
  unfolding ask
  ask-files out type n r w h = elim (Option-cases (env.xchg out zero_packet w.net)) [
    | inl e ↦ rw e tt
    | inr (x, e) ↦ rw e h
  ]

  local-Opened :
      (r : ClientRsrc) (flags mode : ℕ) (w : World F N)
      → is_neg r.mr_fd ≡ true
      → Opened (law.open_fds w.files) (
          middfs_localpath_tmp env r.mr_rsrc.mr_path >>= (λ localpath.
            (let result = env.os.open_file localpath flags mode w.files in
              some (
                (opened env r result.0).0,
                (opened env r result.0).1,
                record w { files = result.1 },
              ))))
  local-Opened r flags mode w fresh =
      elim (Option-cases (middfs_localpath_tmp env r.mr_rsrc.mr_path)) [
        | inl e ↦ rw e tt
        | inr (path, e) ↦ rw e (
            opened-count r w (law.open_fds w.files) (env.os.open_file path flags mode w.files) fresh
              (law.open_adds path flags mode w.files))
      ]

  client_rsrc_open-Opened :
      (type : RsrcType) (rs : Rsrc) (fd : ℤ) (flags mode : ℕ) (w : World F N)
      → is_neg fd ≡ true
      → Opened
          (law.open_fds w.files)
          (client_rsrc_open env (record { mr_type = type; mr_rsrc = rs; mr_fd = fd }) flags mode w)
  unfolding client_rsrc_open
  client_rsrc_open-Opened mr_network rs fd flags mode w fresh =
      let r : ClientRsrc = record { mr_type = mr_network; mr_rsrc = rs; mr_fd = fd } in
      ask-files _ _ (law.open_fds w.files) r w (holds_none fd fresh (law.open_fds w.files))
  client_rsrc_open-Opened mr_root rs fd flags mode w fresh =
      holds_none fd fresh (law.open_fds w.files)
  client_rsrc_open-Opened mr_local rs fd flags mode w fresh =
      local-Opened (record { mr_type = mr_local; mr_rsrc = rs; mr_fd = fd }) flags
        (if creates flags then mode else 0) w fresh

  -- What opening a handle leaves.
  abbrev Balanced : List ℕ → Option (ℤ × Option ClientRsrc × World F N) → Type 0
  Balanced n none = Unit
  Balanced n (some (retv, handle, w)) = law.open_fds w.files ≡ held handle ++ n

  open_handle-Balanced :
      (path : List ℕ) (flags mode : ℕ) (w : World F N)
      → Balanced (law.open_fds w.files) (open_handle env old path flags mode w)
  unfolding open_handle
  open_handle-Balanced path flags mode w =
      from (client_rsrc_init env path old) (client_rsrc_init-Fresh path)
    where
      after :
          (o : Option (ℤ × ClientRsrc × World F N))
          → Opened (law.open_fds w.files) o
          → Balanced (law.open_fds w.files) (
              o >>= (λ x. some (
                if is_neg x.0
                then (x.0, none, (client_rsrc_delete env (some x.1) x.2).1)
                else (x.0, some x.1, x.2))))
      after none h = tt
      after (some (pos k, r, w1)) h = h
      after (some (negsuc k, r, w1)) h = delete-count r (law.open_fds w.files) w1 h

      from :
          (o : Option (ℤ × ClientRsrc))
          → Fresh o
          → Balanced (law.open_fds w.files) (
              o >>= (λ x.
                if is_neg x.0
                then some (x.0, none, w)
                else (client_rsrc_open env x.1 flags mode w >>= (λ y. some (
                    if is_neg y.0
                    then (y.0, none, (client_rsrc_delete env (some y.1) y.2).1)
                    else (y.0, some y.1, y.2))))))
      from none h = tt
      from (some (negsuc k, r)) h = refl
      from (some (pos k, r)) h =
          after (client_rsrc_open env r flags mode w)
            (client_rsrc_open-Opened r.mr_type r.mr_rsrc r.mr_fd flags mode w (h refl))

  middfs_open-Balanced :
      (junk_mode flags : ℕ) (path : List ℕ) (w : World F N)
      → Balanced (law.open_fds w.files) (middfs_open env old junk_mode path flags w)
  unfolding middfs_open
  middfs_open-Balanced junk_mode flags path w = elim (Bool-cases (env.grants 32)) [
    | inr e ↦ rw e refl
    | inl e ↦ rw e (
        from (open_handle env old path flags junk_mode w)
          (open_handle-Balanced path flags junk_mode w))
  ]
    where
      from :
          (o : Option (ℤ × Option ClientRsrc × World F N))
          → Balanced (law.open_fds w.files) o
          → Balanced
              (law.open_fds w.files)
              (o >>= (λ x. some (if is_neg x.0 then (x.0, x.1, x.2) else (pos 0, x.1, x.2))))
      from none h = tt
      from (some (pos k, handle, w1)) h = h
      from (some (negsuc k, handle, w1)) h = h

  release-count :
      (path : List ℕ) (n : List ℕ) (handle : Option ClientRsrc) (w : World F N)
      → law.open_fds w.files ≡ held handle ++ n
      → law.open_fds (release env old path handle w).files ≡ n
  unfolding middfs_release
  release-count path n none w h = h
  release-count path n (some r) w h = delete-count r n w h

  -- When `middfs_open` returns, the open descriptors are those from before and, if the resource behind
  -- the handle has a descriptor, that very one; without a handle, also after a failure, there is none
  -- more. Releasing the handle leaves exactly those open that were before the file was opened. Of the
  -- system it is used that `open` adds the descriptor that it returns, and that `close` removes the
  -- newest one when it is given that one.
  pub middfs_open-release :
      (junk_mode flags : ℕ) (path : List ℕ) (w w1 : World F N) (retv : ℤ)
      (handle : Option ClientRsrc)
      → middfs_open env old junk_mode path flags w ≡ some (retv, handle, w1)
      → (law.open_fds w1.files ≡ held handle ++ law.open_fds w.files)
        × (law.open_fds (release env old path handle w1).files ≡ law.open_fds w.files)
  middfs_open-release junk_mode flags path w w1 retv handle e =
      let open_now : law.open_fds w1.files ≡ held handle ++ law.open_fds w.files =
        subst (Balanced (law.open_fds w.files)) e (middfs_open-Balanced junk_mode flags path w) in
      (open_now, release-count path (law.open_fds w.files) handle w1 open_now)
