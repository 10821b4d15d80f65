-- ===== src/Conf.antt =====
-- src/lib/middfs-conf.c: configuration keys as variables of the process environment. The
-- environment is the list of its names and values; what `getenv` and `putenv` do with it is written
-- out, and `strtoull` is a parameter.
pub mod Lookup
pub mod Load
use middfs.Common.{ℕ, zero, suc, ◌%◌, ◌^◌, List, [], ◌∷◌, ◌++◌, Bool, true}
use middfs.Common.{
  false, ◌>>=◌, Option, none, some, if◌then◌else◌, length, ◌==◌, ◌||◌, ℤ, pos, is_neg, minus_one,
}
use middfs.Text.{same_text}

abbrev pub Environ : Type 0
Environ = List (List ℕ × List ℕ)

-- Whether `asprintf` can format a text, and `putenv` store one.
pub record Memory : Type 0 where
  pub formats : List ℕ → Bool
  pub stores : List ℕ → Bool

unfoldable pub getenv : List ℕ → Environ → Option (List ℕ)
getenv name [] = none
getenv name ((n, v) ∷ env) = let rest = getenv name env in if same_text n name then some v else rest

unfoldable pub unsetenv : List ℕ → Environ → Environ
unsetenv name [] = []
unsetenv name ((n, v) ∷ env) =
    let rest = unsetenv name env in if same_text n name then rest else (n, v) ∷ rest

-- The texts in front of the first `=` and behind it.
unfoldable pub split_assignment : List ℕ → Option (List ℕ × List ℕ)
split_assignment [] = none
split_assignment (c ∷ cs) =
    let longer = (do (name, value) ← split_assignment cs; some (c ∷ name, value)) in
    if c == 61 then some ([], cs) else longer

-- `putenv` of a text without `=` removes the variable.
unfoldable pub put_split : Option (List ℕ × List ℕ) → List ℕ → Environ → Environ
put_split none string env = unsetenv string env
put_split (some (name, value)) string env = (name, value) ∷ unsetenv name env

unfoldable pub putenv : List ℕ → Environ → Environ
putenv string env = put_split (split_assignment string) string env

-- "MIDDFS_"
abbrev pub envvar_prefix : List ℕ
envvar_prefix = 77 ∷ 73 ∷ 68 ∷ 68 ∷ 70 ∷ 83 ∷ 95 ∷ []

unfoldable pub conf_envvar : Memory → List ℕ → Option (List ℕ)
conf_envvar memory name =
    let envvar = envvar_prefix ++ name in if memory.formats envvar then some envvar else none

unfoldable pub conf_get : Memory → List ℕ → Environ → Option (List ℕ)
conf_get memory name env = do envvar ← conf_envvar memory name; getenv envvar env

-- The number, and the flag at `errp`: the text must not be empty, and nothing may follow the number.
unfoldable pub full_value : Bool → ℕ × List ℕ → ℕ × Bool
full_value err (val, []) = (val, err)
full_value err (val, c ∷ cs) = (0, true)

unfoldable pub parsed_value : (List ℕ → ℕ × List ℕ) → Option (List ℕ) → Bool → ℕ × Bool
parsed_value strtoull none err = (0, true)
parsed_value strtoull (some []) err = (0, true)
parsed_value strtoull (some (c ∷ cs)) err = full_value err (strtoull (c ∷ cs))

unfoldable pub conf_get_ull : (List ℕ → ℕ × List ℕ) → Memory → List ℕ → Environ → Bool → ℕ × Bool
conf_get_ull strtoull memory name env err = parsed_value strtoull (conf_get memory name env) err

unfoldable pub conf_get_uint32 : (List ℕ → ℕ × List ℕ) → Memory → List ℕ → Environ → Bool → ℕ × Bool
conf_get_uint32 strtoull memory name env err =
    let (val, err1) = conf_get_ull strtoull memory name env err in (val % 2 ^ 32, err1)

unfoldable pub conf_get_uint64 : (List ℕ → ℕ × List ℕ) → Memory → List ℕ → Environ → Bool → ℕ × Bool
conf_get_uint64 strtoull memory name env err =
    let (val, err1) = conf_get_ull strtoull memory name env err in (val % 2 ^ 64, err1)

unfoldable pub put_envstr : Memory → Option (List ℕ) → Environ → ℤ × Environ
put_envstr memory none env = (minus_one, env)
put_envstr memory (some envstr) env =
    if memory.stores envstr then (pos 0, putenv envstr env) else (minus_one, env)

unfoldable pub conf_put : Memory → List ℕ → Environ → ℤ × Environ
conf_put memory string env = put_envstr memory (conf_envvar memory string) env

-- Both are stubs that abort.
abbrev pub conf_set : List ℕ → List ℕ → ℤ → Environ → Option (ℤ × Environ)
conf_set name value overwrite env = none

abbrev pub conf_unset : List ℕ → Environ → Option (ℤ × Environ)
conf_unset name env = none

-- `fgets` with room for `n` bytes before the NUL: the bytes up to a newline, and those behind.
unfoldable pub fgets : ℕ → List ℕ → List ℕ × List ℕ
fgets zero cs = ([], cs)
fgets (suc n) [] = ([], [])
fgets (suc n) (c ∷ cs) =
    let (line, rest) = fgets n cs in if c == 10 then (c ∷ [], cs) else (c ∷ line, rest)

-- `line[strcspn(line, "#\n")] = '\0'`
unfoldable pub strip_comment : List ℕ → List ℕ
strip_comment [] = []
strip_comment (c ∷ cs) =
    let rest = strip_comment cs in if c == 35 || c == 10 || c == 0 then [] else c ∷ rest

-- The loop of `conf_load` over the rest of the file.
unfoldable pub load_lines : ℕ → Memory → List ℕ → Environ → Option (ℤ × Environ)
load_lines zero memory file env = none
load_lines (suc fuel) memory [] env = some (pos 0, env)
load_lines (suc fuel) memory (c ∷ cs) env =
    let (line, rest) = fgets 1023 (c ∷ cs) in
    let (err, env1) = conf_put memory (strip_comment line) env in
    let more = load_lines fuel memory rest env1 in
    if is_neg err then some (minus_one, env1) else more

-- The bytes of a file that `fopen` opens, and whether `ferror` and `fclose` report no failure.
pub record File : Type 0 where
  pub bytes : List ℕ
  pub is_read : Bool
  pub is_closed : Bool

-- The end of `conf_load`; a line that cannot be put leaves it at once.
unfoldable pub loaded : File → ℤ × Environ → ℤ × Environ
loaded file (err, env) =
    if is_neg err
    then (err, env)
    else if file.is_read
    then if file.is_closed then (pos 0, env) else (minus_one, env)
    else (minus_one, env)

unfoldable pub conf_load : Memory → Option File → Environ → Option (ℤ × Environ)
conf_load memory none env = some (minus_one, env)
conf_load memory (some file) env = do
  r ← load_lines (suc (length file.bytes)) memory file.bytes env
  some (loaded file r)
