-- ===== src/Client/Rsrc/Split.antt =====
-- client_rsrc_init of src/client/middfs-client-rsrc.c: how a path becomes a resource, and where the
-- server looks for it.
use middfs.Common.{ℕ, ◌<◌, ◌≡◌, refl, sym, ap, ◌∙◌, arith, List, [], ◌∷◌, ◌++◌}
use middfs.Common.{false, some, length, take, drop, replicate, take-append-drop, All, ◌==◌}
use middfs.Common.{Bool-cases, ◌⊎◌, inl, inr, append-nil, pos, minus_one, if◌then◌else◌}
use middfs.Errno.{minus, einval}
use middfs.Text.{
  same_text, strspn, strcspn, strspn-front, strspn-other, strcspn-free, strcspn-rest, strcspn-pos,
  Begins,
}
use middfs.Client.Os.{ClientEnv}
use middfs.Client.Rsrc.{
  ClientRsrc, mr_local, mr_network, slash, or_slash, root_rsrc, owned_rsrc, rsrc_from,
  client_rsrc_init,
}
use middfs.Client.Rsrc.Paths.{Configured}

-- The resource of a path in the directory of `owner`, for the client of `user`.
abbrev pub user_rsrc : List ℕ → List ℕ → List ℕ → ClientRsrc
user_rsrc user owner rest = record {
  mr_type = if same_text owner user then mr_local else mr_network;
  mr_rsrc = record { mr_owner = some owner; mr_path = some (or_slash rest) };
  mr_fd = minus_one;
}

module _ {F N : Type 0} (env : ClientEnv F N) (conf : Configured env) (old : ClientRsrc) where
  -- The three outcomes.
  abbrev pub Relative : List ℕ → Type 0
  Relative path =
      (strspn slash path ≡ 0) × (client_rsrc_init env path old ≡ some (minus einval, old))

  abbrev pub Root : List ℕ → Type 0
  Root path =
      (n : ℕ) × (0 < n)
      × (path ≡ replicate n slash)
      × (client_rsrc_init env path old ≡ some (pos 0, root_rsrc))

  abbrev pub Owned : List ℕ → Type 0
  Owned path =
      (n : ℕ) × (owner : List ℕ) × (rest : List ℕ) × (0 < n)
      × (path ≡ replicate n slash ++ (owner ++ rest))
      × (0 < length owner)
      × All (λ c. (c == slash) ≡ false) owner
      × Begins slash rest
      × (client_rsrc_init env path old ≡ some (pos 0, user_rsrc conf.user owner rest))

  owned_rsrc-user :
      (s : List ℕ)
      → owned_rsrc env s
        ≡ some (user_rsrc conf.user (take (strcspn slash s) s) (drop (strcspn slash s) s))
  unfolding owned_rsrc
  owned_rsrc-user s = rw (conf.user_is) refl

  split_rest :
      (path s : List ℕ)
      → drop (strspn slash path) path ≡ s
      → (strspn slash path == 0) ≡ false
      → Root path ⊎ Owned path
  unfolding client_rsrc_init rsrc_from
  split_rest path [] e h = inl (
    strspn slash path,
    ground arith,
    strspn-front slash path
        ∙ ap (λ s. replicate (strspn slash path) slash ++ s) e
        ∙ append-nil (replicate (strspn slash path) slash),
    rw (h, e) refl,
  )
  split_rest path (c ∷ cs) e h =
      let k = strcspn slash (c ∷ cs) in
      inr (
        strspn slash path,
        take k (c ∷ cs),
        drop k (c ∷ cs),
        ground arith,
        strspn-front slash path
            ∙ ap (λ s. replicate (strspn slash path) slash ++ s)
                (e ∙ sym (take-append-drop k (c ∷ cs))),
        strcspn-pos slash c cs (strspn-other slash c path cs e),
        strcspn-free slash (c ∷ cs),
        strcspn-rest slash (c ∷ cs),
        rw (h, e, owned_rsrc-user (c ∷ cs)) refl,
      )

  -- With a configured user name `client_rsrc_init` takes every path in one of three ways. A path
  -- without a slash in front gives -EINVAL and leaves the resource. A path of slashes only gives the
  -- root. Any other is slashes, a non-empty name without a slash, and a rest that is empty or begins
  -- with a slash: the name becomes the owner, the rest the path, "/" if it is empty, and the
  -- resource is local when `strcmp` finds the name equal to the configured one, and else on the
  -- network.
  pub client_rsrc_init-Splits : (path : List ℕ) → Relative path ⊎ (Root path ⊎ Owned path)
  unfolding client_rsrc_init
  client_rsrc_init-Splits path = elim (Bool-cases (strspn slash path == 0)) [
    | inl e ↦ inl (ground arith, rw e refl)
    | inr e ↦ inr (split_rest path (drop (strspn slash path) path) refl e)
  ]
