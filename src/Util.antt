-- ===== src/Util.antt =====
-- src/lib/middfs-util.c: sizes, and the block operations of the C library that the sources use.
-- A block of memory is the list of its bytes from a pointer on.
use middfs.Common.{
  zero, suc, [], ◌∷◌, All, refl, ℕ, ◌-◌, ◌≤◌, ◌<◌, ◌≡◌, arith, List, ◌++◌, Option, none, some, leb,
  ltb, ◌==◌,
}
use middfs.Common.{if◌then◌else◌, length, take, drop, ◌>>=◌}

unfoldable pub sizerem : ℕ → ℕ → ℕ
sizerem nbytes used = if leb used nbytes then nbytes - used else 0

pub sizerem_le : (nbytes used : ℕ) → used ≤ nbytes → sizerem nbytes used ≡ nbytes - used
unfolding sizerem
sizerem_le nbytes used h = ground arith

pub sizerem_lt : (nbytes used : ℕ) → nbytes < used → sizerem nbytes used ≡ 0
unfolding sizerem
sizerem_lt nbytes used h = ground arith

abbrev pub smin : ℕ → ℕ → ℕ
smin s1 s2 = if ltb s1 s2 then s1 else s2

abbrev pub smax : ℕ → ℕ → ℕ
smax s1 s2 = if ltb s1 s2 then s2 else s1

-- Reading the first `k` bytes of a block, and writing bytes over its first ones.
unfoldable pub peek : List ℕ → ℕ → Option (List ℕ)
peek block k = if leb k (length block) then some (take k block) else none

unfoldable pub poke : List ℕ → List ℕ → Option (List ℕ)
poke bytes mem =
    if leb (length bytes) (length mem) then some (bytes ++ drop (length bytes) mem) else none

-- `memcpy` of `k` bytes to the front of `mem`; with `k` = 0 it touches nothing.
unfoldable pub memcpy : List ℕ → Option (List ℕ) → ℕ → Option (List ℕ)
memcpy mem src k =
    if k == 0 then some mem else (do block ← src; bytes ← peek block k; poke bytes mem)

pub poke_fits :
    (bytes mem : List ℕ)
    → length bytes ≤ length mem
    → poke bytes mem ≡ some (bytes ++ drop (length bytes) mem)
unfolding poke
poke_fits bytes mem h = ground arith

pub peek_fits : (block : List ℕ) (k : ℕ) → k ≤ length block → peek block k ≡ some (take k block)
unfolding peek
peek_fits block k h = ground arith

-- `strnlen` on memory: the bytes before the first NUL, `n` at most; `none` is a read past the end.
unfoldable pub strnlen : List ℕ → ℕ → Option ℕ
strnlen mem zero = some 0
strnlen [] (suc n) = none
strnlen (c ∷ mem) (suc n) = if c == 0 then some 0 else (do len ← strnlen mem n; some (suc len))

-- A NUL behind bytes that are none is found, and a part of such bytes has none.
pub strnlen-text :
    (s rest : List ℕ) (n : ℕ)
    → All (λ c. (0 < c) × (c < 256)) s
    → length s < n
    → strnlen (s ++ (0 ∷ rest)) n ≡ some (length s)
unfolding strnlen
strnlen-text [] rest zero h k = absurd (omega arith)
strnlen-text [] rest (suc n) h k = refl
strnlen-text (c ∷ s) rest zero h k = absurd (omega arith)
strnlen-text (c ∷ s) rest (suc n) h k = ground (arith, strnlen-text s rest n h.1)

pub strnlen-front :
    (s t rest : List ℕ)
    → All (λ c. (0 < c) × (c < 256)) (s ++ t)
    → strnlen (s ++ rest) (length s) ≡ some (length s)
unfolding strnlen
strnlen-front [] t rest h = refl
strnlen-front (c ∷ s) t rest h = ground (arith, strnlen-front s t rest h.1)
