-- ===== src/Conf/Lookup.antt =====
-- What conf_get of src/lib/middfs-conf.c finds after conf_put.
use middfs.Common.{ℕ, ◌≡◌, refl, sym, List, [], ◌∷◌, ◌++◌, true, false, some}
use middfs.Common.{All, ◌==◌, Bool-cases, inl, inr, pos, ==_refl}
use mathlib.Core.Path.{subst}
use middfs.Text.{same_text, strcmp, strcmp_refl, strcmp-eq}
use middfs.Conf.{
  Memory, Environ, getenv, unsetenv, split_assignment, putenv, envvar_prefix, conf_envvar, conf_get,
  conf_put, put_envstr, put_split,
}

-- No allocation fails.
pub record Roomy (memory : Memory) : Type 0 where
  pub formats_all : (s : List ℕ) → memory.formats s ≡ true
  pub stores_all : (s : List ℕ) → memory.stores s ≡ true

-- A name holds no `=`.
abbrev pub IsName : List ℕ → Type 0
IsName name = All (λ c. (c == 61) ≡ false) name

split_name :
    (name value : List ℕ)
    → IsName name
    → split_assignment (name ++ (61 ∷ value)) ≡ some (name, value)
unfolding split_assignment
split_name [] value h = refl
split_name (c ∷ name) value (e, h) = rw (e, split_name name value h) refl

getenv-unsetenv :
    (n m : List ℕ) (env : Environ)
    → same_text m n ≡ false
    → getenv n (unsetenv m env) ≡ getenv n env
unfolding getenv unsetenv
getenv-unsetenv n m [] h = refl
getenv-unsetenv n m ((k, v) ∷ env) h = elim (Bool-cases (same_text k m)) [
  | inr e ↦ rw (e, getenv-unsetenv n m env h) refl
  | inl e ↦
      let other : same_text k n ≡ false =
        subst (λ x. same_text x n ≡ false) (sym (strcmp-eq k m e)) h in
      rw (e, other) (getenv-unsetenv n m env h)
]

-- The names of two variables differ as their keys do.
prefix_name : (s a b : List ℕ) → same_text a b ≡ false → same_text (s ++ a) (s ++ b) ≡ false
unfolding strcmp
prefix_name [] a b h = h
prefix_name (c ∷ s) a b h = rw (==_refl c) (prefix_name s a b h)

split_var :
    (name value : List ℕ)
    → IsName name
    → split_assignment (envvar_prefix ++ (name ++ (61 ∷ value)))
      ≡ some (envvar_prefix ++ name, value)
unfolding split_assignment
split_var name value h = rw (split_name name value h) refl

-- When no allocation fails, `conf_put` of a key, `=` and a value returns 0, `conf_get` then finds the
-- value under the key, and under any other key what it found before.
pub conf_get-conf_put :
    (memory : Memory) (name value other : List ℕ) (env : Environ)
    → Roomy memory
    → IsName name
    → same_text name other ≡ false
    → (after : Environ) × (conf_put memory (name ++ (61 ∷ value)) env ≡ (pos 0, after))
      × (conf_get memory name after ≡ some value)
      × (conf_get memory other after ≡ conf_get memory other env)
unfolding conf_put conf_get conf_envvar put_envstr putenv put_split getenv
conf_get-conf_put memory name value other env roomy named distinct =
    let key = envvar_prefix ++ name in
    let string = envvar_prefix ++ (name ++ (61 ∷ value)) in
    let apart : same_text key (envvar_prefix ++ other) ≡ false =
      prefix_name envvar_prefix name other distinct in
    (
      (key, value) ∷ unsetenv key env,
      rw (roomy.formats_all string, roomy.stores_all string, split_var name value named) refl,
      rw (roomy.formats_all key, strcmp_refl key) refl,
      rw
          (
            roomy.formats_all (envvar_prefix ++ other),
            apart,
            getenv-unsetenv (envvar_prefix ++ other) key env apart,
          )
          refl,
    )
