-- ===== src/Conf/Load.antt =====
-- conf_load of src/lib/middfs-conf.c: the lines of a configuration file are put one after another.
use middfs.Common.{ℕ, zero, suc, ◌<◌, ◌≡◌, refl, ◌∙◌, arith, List, [], ◌∷◌, ◌++◌}
use middfs.Common.{true, false, some, length, length-append, All, ◌==◌, pos}
use middfs.Conf.{
  Memory, Environ, putenv, envvar_prefix, conf_envvar, conf_put, put_envstr, fgets, strip_comment,
  load_lines, conf_load, loaded,
}
use middfs.Conf.Lookup.{Roomy}

-- A line of the file: what is put, and a comment, which is empty or begins with `#`.
abbrev pub Line : Type 0
Line = List ℕ × List ℕ

abbrev pub IsComment : List ℕ → Type 0
IsComment [] = Unit
IsComment (c ∷ cs) = ((c == 35) ≡ true) × All (λ x. (x == 10) ≡ false) (c ∷ cs)

abbrev pub IsLine : Line → Type 0
IsLine (body, comment) =
    All (λ c. ((c == 35) ≡ false) × ((c == 10) ≡ false) × ((c == 0) ≡ false)) body
    × IsComment comment
    × (length (body ++ comment) < 1023)

-- The file that is made of the lines, and the environment when all are put.
abbrev pub file_of : List Line → List ℕ
file_of [] = []
file_of ((body, comment) ∷ lines) = (body ++ comment) ++ (10 ∷ file_of lines)

abbrev pub put_all : List Line → Environ → Environ
put_all [] env = env
put_all ((body, comment) ∷ lines) env = put_all lines (putenv (envvar_prefix ++ body) env)

fgets-line :
    (n : ℕ) (line rest : List ℕ)
    → All (λ x. (x == 10) ≡ false) line
    → length line < n
    → fgets n (line ++ (10 ∷ rest)) ≡ (line ++ (10 ∷ []), rest)
unfolding fgets
fgets-line zero line rest h l = absurd (omega arith)
fgets-line (suc n) [] rest h l = refl
fgets-line (suc n) (c ∷ line) rest (e, h) l = rw (e, fgets-line n line rest h (omega arith)) refl

strip-body :
    (body comment : List ℕ)
    → All (λ c. ((c == 35) ≡ false) × ((c == 10) ≡ false) × ((c == 0) ≡ false)) body
    → IsComment comment
    → strip_comment ((body ++ comment) ++ (10 ∷ [])) ≡ body
unfolding strip_comment
strip-body [] [] h k = refl
strip-body [] (c ∷ cs) h (e, k) = rw e refl
strip-body (c ∷ body) comment ((a, b, z), h) k = rw (a, b, z, strip-body body comment h k) refl

no_newline :
    (body comment : List ℕ)
    → All (λ c. ((c == 35) ≡ false) × ((c == 10) ≡ false) × ((c == 0) ≡ false)) body
    → IsComment comment
    → All (λ x. (x == 10) ≡ false) (body ++ comment)
no_newline [] [] h k = tt
no_newline [] (c ∷ cs) h (e, k) = k
no_newline (c ∷ body) comment ((a, b, z), h) k = (b, no_newline body comment h k)

conf_put-line :
    (memory : Memory) (body : List ℕ) (env : Environ)
    → Roomy memory
    → conf_put memory body env ≡ (pos 0, putenv (envvar_prefix ++ body) env)
unfolding conf_put conf_envvar put_envstr
conf_put-line memory body env roomy =
    rw (roomy.formats_all (envvar_prefix ++ body), roomy.stores_all (envvar_prefix ++ body)) refl

-- The loop on a file that begins with a line and its newline.
load_lines-step :
    (fuel : ℕ) (memory : Memory) (line rest body file : List ℕ) (env : Environ)
    → Roomy memory
    → file ≡ line ++ (10 ∷ rest)
    → fgets 1023 file ≡ (line ++ (10 ∷ []), rest)
    → strip_comment (line ++ (10 ∷ [])) ≡ body
    → load_lines (suc fuel) memory file env
      ≡ load_lines fuel memory rest (putenv (envvar_prefix ++ body) env)
unfolding load_lines
load_lines-step fuel memory [] rest body [] env roomy e got stripped = cc
load_lines-step fuel memory (x ∷ line) rest body [] env roomy e got stripped = cc
load_lines-step fuel memory line rest body (c ∷ cs) env roomy e got stripped =
    rw (got, stripped, conf_put-line memory body env roomy) refl

load_lines-all :
    (fuel : ℕ) (memory : Memory) (lines : List Line) (env : Environ)
    → Roomy memory
    → All IsLine lines
    → length (file_of lines) < fuel
    → load_lines fuel memory (file_of lines) env ≡ some (pos 0, put_all lines env)
unfolding load_lines
load_lines-all zero memory lines env roomy h enough = absurd (omega arith)
load_lines-all (suc fuel) memory [] env roomy h enough = refl
load_lines-all (suc fuel) memory ((body, comment) ∷ lines) env roomy ((clean, tail, short), h)
      enough =
    let l = length-append (body ++ comment) (10 ∷ file_of lines) in
    let got =
      fgets-line 1023 (body ++ comment) (file_of lines) (no_newline body comment clean tail)
        short in
    load_lines-step fuel memory (body ++ comment) (file_of lines) body
      (file_of ((body, comment) ∷ lines)) env roomy refl got (strip-body body comment clean tail)
    ∙ load_lines-all fuel memory lines (putenv (envvar_prefix ++ body) env) roomy h
        (omega (arith, l))

-- When no allocation and no call on the file fails, `conf_load` of a file of lines, each shorter than
-- 1023 bytes and ended by a newline, does not stop and returns 0. The environment is the one in
-- which every line has been put, in the order of the file, without its comment.
pub conf_load-all :
    (memory : Memory) (lines : List Line) (env : Environ)
    → Roomy memory
    → All IsLine lines
    → conf_load memory
        (some (record { bytes = file_of lines; is_read = true; is_closed = true }))
        env
      ≡ some (pos 0, put_all lines env)
unfolding conf_load loaded
conf_load-all memory lines env roomy h =
    rw (load_lines-all (suc (length (file_of lines))) memory lines env roomy h (omega arith)) refl
