-- ===== src/Sock/Array.antt =====
-- The array of connections of src/lib/middfs-sock.c.
use middfs.Common.{
  ◌∙◌, ℕ, ◌+◌, ◌*◌, ◌^◌, ◌≤◌, ◌<◌, ◌≡◌, refl, ap, arith, List, [], ◌∷◌, ◌++◌, Bool, false,
}
use middfs.Common.{
  Option, none, some, Option-cases, length-set, if◌then◌else◌, zero, suc, length, take, ◌==◌, ◌⊎◌,
  inl, inr, pos, minus_one,
}
use middfs.Common.{Bool-cases, length-append, take-all}
use middfs.Sock.{
  Sockinfo, Socks, larger, doubled, middfs_socks_resize, middfs_socks_add, middfs_sockinfo_isopen,
}
use middfs.Sock.{
  first_open, move_to, closed_sockinfo, middfs_sockend_init, pack_loop, middfs_socks_pack,
}
use mathlib.Core.Option.{some-injective}

-- The connections in use fit into the array.
abbrev pub IsSocks : Socks → Type 0
IsSocks socks = length socks.sockinfos ≤ socks.len

doubled_small : (len : ℕ) → len < 2 ^ 30 → doubled len ≡ 2 * len
unfolding doubled
doubled_small len h = ground arith

-- In an array of fewer than 2 ^ 30 places, whose doubled length is an `int`, `middfs_socks_add` returns -1 and leaves the connections as they were when the array is full and
-- cannot grow. Else it returns 0, the new connection is behind those that were there, which keep
-- their places, and the connections fit into the array.
pub middfs_socks_add-IsSocks :
    (granted : Bool) (info : Sockinfo) (socks : Socks)
    → IsSocks socks
    → socks.len < 2 ^ 30
    → ((middfs_socks_add granted info socks ≡ (minus_one, socks))
        × (granted ≡ false)
        × (length socks.sockinfos ≡ socks.len))
      ⊎ ((after : Socks) × (middfs_socks_add granted info socks ≡ (pos 0, after))
          × (after.sockinfos ≡ socks.sockinfos ++ (info ∷ []))
          × IsSocks after)
unfolding middfs_socks_add middfs_socks_resize
middfs_socks_add-IsSocks granted info socks h small =
    let infos = socks.sockinfos in
    let newlen = larger (doubled socks.len) 16 in
    let twice = doubled_small socks.len small in
    let l = length-append infos (info ∷ []) in
    elim (Bool-cases (length infos == socks.len)) [
      | inr e ↦ inr (record socks { sockinfos = infos ++ (info ∷ []) }, rw e, refl, ground arith)
      | inl e ↦ elim (Bool-cases granted) [
        | inr g ↦ inl (rw (e, g), g, ground arith)
        | inl g ↦
            let room : length infos + 1 ≤ newlen = ground (arith, twice) in
            let all = take-all newlen infos (omega arith) in
            inr (
              record { sockinfos = take newlen infos ++ (info ∷ []); len = newlen },
              rw (e, g),
              ap (λ t. t ++ (info ∷ [])) all,
              omega (arith, ap length all, length-append (take newlen infos) (info ∷ [])),
            )
      ]
    ]

-- The connections in front of the first closed one.
abbrev pub leading : List Sockinfo → List Sockinfo
leading [] = []
leading (info ∷ infos) = if middfs_sockinfo_isopen info then info ∷ leading infos else []

first_open-from :
    (k i : ℕ) (infos : List Sockinfo) (src : Sockinfo) → first_open k infos ≡ some (i, src) → k ≤ i
unfolding first_open
first_open-from k i [] src h = absurd (nothing h)
  where
    nothing : ◌≡◌ {A = Option (ℕ × Sockinfo)} none (some (i, src)) → ⊥
    nothing e = cc
first_open-from k i (info ∷ infos) src h = elim (Bool-cases (middfs_sockinfo_isopen info)) [
  | inl e ↦
      let same = some-injective _ _ (rw e at h) in
      omega (arith, ap (λ (p : ℕ × Sockinfo). p.0) same)
  | inr e ↦ let later = first_open-from (k + 1) i infos src (rw e at h) in omega (arith, later)
]

-- The entry behind one that has been filled is closed.
move_to-closed :
    (info : Sockinfo) (rest : List Sockinfo)
    → leading (move_to info rest (first_open 0 rest)).1 ≡ []
unfolding move_to first_open closed_sockinfo middfs_sockend_init
move_to-closed info [] = refl
move_to-closed info (next ∷ rest) = elim (Bool-cases (middfs_sockinfo_isopen next)) [
  | inl e ↦ rw e refl
  | inr e ↦ elim (Option-cases (first_open 1 rest)) [
    | inl k ↦ rw (e, k, e) refl
    | inr ((zero, src), k) ↦ absurd (too_near (first_open-from 1 0 rest src k))
    | inr ((suc i, src), k) ↦ rw (e, k, e) refl
  ]
]
  where
    too_near : 1 ≤ 0 → ⊥
    too_near h = omega arith

length-move_to :
    (info : Sockinfo) (rest : List Sockinfo) (found : Option (ℕ × Sockinfo))
    → length (move_to info rest found).1 ≡ length rest
unfolding move_to
length-move_to info rest none = refl
length-move_to info rest (some (i, src)) = length-set rest i (closed_sockinfo src)

pack_loop-leading :
    (left : ℕ) (infos : List Sockinfo)
    → length infos ≡ left
    → ((pack_loop left infos).0 ≡ length (leading infos))
      × (take (length (leading infos)) (pack_loop left infos).1 ≡ leading infos)
unfolding pack_loop
pack_loop-leading zero [] l = (refl, refl)
pack_loop-leading zero (info ∷ rest) l = absurd (omega arith)
pack_loop-leading (suc left) [] l = absurd (omega arith)
pack_loop-leading (suc left) (info ∷ rest) l =
    let moved = move_to info rest (first_open 0 rest) in
    elim (Bool-cases (middfs_sockinfo_isopen info)) [
      | inl e ↦
          let (count, kept) = pack_loop-leading left rest (omega arith) in
          rw e (omega (arith, count), ap (λ infos. info ∷ infos) kept)
      | inr e ↦
          let (count, kept) =
            pack_loop-leading left moved.1
              (omega (arith, length-move_to info rest (first_open 0 rest))) in
          rw e (count ∙ ap length (move_to-closed info rest), refl)
    ]

-- `middfs_socks_pack` returns the number of connections in front of the first closed one, and
-- exactly these are left in the array, in their places. So when all are open, all are kept; behind a
-- closed one, every open connection is lost.
pub middfs_socks_pack-leading :
    (socks : Socks)
    → middfs_socks_pack socks
      ≡ (length (leading socks.sockinfos), record socks { sockinfos = leading socks.sockinfos })
unfolding middfs_socks_pack
middfs_socks_pack-leading socks =
    let infos = socks.sockinfos in
    let (count, kept) = pack_loop-leading (length infos) infos refl in
    rw count (ap (λ left. (length (leading infos), record socks { sockinfos = left })) kept)
