-- ===== src/Tests/Conf.antt =====
-- The theorems on the configuration at concrete inputs.
use middfs.Common.{◌≡◌, refl, arith, List, [], ◌∷◌, true, some, pos}
use middfs.Text.{strcmp}
use middfs.Conf.{Environ, conf_put, conf_get, conf_load}
use middfs.Conf.Lookup.{Roomy, conf_get-conf_put}
use middfs.Conf.Load.{Line, file_of, put_all, conf_load-all}
use middfs.Tests.System.{ample, bob_environ}

ample-Roomy : Roomy ample
ample-Roomy = record { formats_all = λ s. refl; stores_all = λ s. refl }

-- "port=7", beside "name"
conf_get-conf_put_example :
    (after : Environ) × (conf_put ample (112 ∷ 111 ∷ 114 ∷ 116 ∷ 61 ∷ 55 ∷ []) bob_environ
      ≡ (pos 0, after))
    × (conf_get ample (112 ∷ 111 ∷ 114 ∷ 116 ∷ []) after ≡ some (55 ∷ []))
    × (conf_get ample (110 ∷ 97 ∷ 109 ∷ 101 ∷ []) after
        ≡ conf_get ample (110 ∷ 97 ∷ 109 ∷ 101 ∷ []) bob_environ)
unfolding strcmp
conf_get-conf_put_example =
    conf_get-conf_put ample (112 ∷ 111 ∷ 114 ∷ 116 ∷ []) (55 ∷ []) (110 ∷ 97 ∷ 109 ∷ 101 ∷ [])
      bob_environ ample-Roomy (refl, (refl, (refl, (refl, tt)))) refl

-- "a=1 # c" and "b=2"
abbrev two_lines : List Line
two_lines = (97 ∷ 61 ∷ 49 ∷ 32 ∷ [], 35 ∷ 32 ∷ 99 ∷ []) ∷ (98 ∷ 61 ∷ 50 ∷ [], []) ∷ []

conf_load-all_example :
    conf_load ample
      (some (record { bytes = file_of two_lines; is_read = true; is_closed = true }))
      bob_environ
    ≡ some (pos 0, put_all two_lines bob_environ)
conf_load-all_example = conf_load-all ample two_lines bob_environ ample-Roomy (
  (
    ((refl, refl, refl), ((refl, refl, refl), ((refl, refl, refl), ((refl, refl, refl), tt)))),
    (refl, (refl, (refl, (refl, tt)))),
    omega arith,
  ),
  ((((refl, refl, refl), ((refl, refl, refl), ((refl, refl, refl), tt))), tt, omega arith), tt),
)
