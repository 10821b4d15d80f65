-- ===== src/Tests/Library.antt =====
-- Concrete functions for `realloc`, `qsort` and `bsearch` that keep to what is asked of them.
use middfs.Common.{
  ℕ, zero, suc, ◌≤◌, ◌≡◌, refl, sym, ap, ◌∙◌, arith, List, [], ◌∷◌, Bool, true, false,
}
use middfs.Common.{Option, none, some, length, take, All, inl, inr, if◌then◌else◌, is_neg}
use middfs.Common.{Bool-cases, ◌||◌, is_zero}
use mathlib.Core.Path.{subst}
use mathlib.Core.Option.{some-injective}
use middfs.Text.{strcmp}
use middfs.Buf.{Realloc, IsRealloc}
use middfs.Server.Clients.{Client, Sorted, NotAfter, In, IsQsort, IsBsearch, client_cmp}

-- A block of `n` bytes: those that are there, and zeros.
abbrev pub resized : ℕ → List ℕ → List ℕ
resized zero mem = []
resized (suc n) [] = 0 ∷ resized n []
resized (suc n) (x ∷ mem) = x ∷ resized n mem

length-resized : (n : ℕ) (mem : List ℕ) → length (resized n mem) ≡ n
length-resized zero mem = refl
length-resized (suc n) [] = ap suc (length-resized n [])
length-resized (suc n) (x ∷ mem) = ap suc (length-resized n mem)

take-resized :
    (k n : ℕ) (mem : List ℕ) → k ≤ n → k ≤ length mem → take k (resized n mem) ≡ take k mem
take-resized zero n mem h i = refl
take-resized (suc k) zero mem h i = absurd (omega arith)
take-resized (suc k) (suc n) [] h i = absurd (omega arith)
take-resized (suc k) (suc n) (x ∷ mem) h i =
    ap (λ l. x ∷ l) (take-resized k n mem (omega arith) (omega arith))

unfoldable pub always : Realloc
always mem n = some (resized n mem)

pub always-IsRealloc : IsRealloc always
unfolding always
always-IsRealloc = record {
  new_size = λ mem block n e. ap length (sym (some-injective _ _ e)) ∙ length-resized n mem;
  kept = λ mem block n k e h i. ap (take k) (sym (some-injective _ _ e)) ∙ take-resized k n mem h i;
}

abbrev le_text : List ℕ → List ℕ → Bool
le_text s t = is_neg (strcmp s t) || is_zero (strcmp s t)

le_text-total : (s t : List ℕ) → le_text s t ≡ false → le_text t s ≡ true
unfolding strcmp
le_text-total [] [] h = cc
le_text-total [] (b ∷ t) h = cc
le_text-total (a ∷ s) [] h = refl
le_text-total (a ∷ s) (b ∷ t) h = ground (arith, le_text-total s t)

le_text_trans : (s t u : List ℕ) → le_text s t ≡ true → le_text t u ≡ true → le_text s u ≡ true
unfolding strcmp
le_text_trans [] t [] h i = refl
le_text_trans [] t (c ∷ u) h i = refl
le_text_trans (a ∷ s) [] u h i = cc
le_text_trans (a ∷ s) (b ∷ t) [] h i = cc
le_text_trans (a ∷ s) (b ∷ t) (c ∷ u) h i = ground (arith, le_text_trans s t u)

NotAfter-trans : (c d e : Client) → NotAfter c d → NotAfter d e → NotAfter c e
unfolding client_cmp
NotAfter-trans c d e h i = le_text_trans c.username d.username e.username h i

NotAfter-total : (c d : Client) → le_text c.username d.username ≡ false → NotAfter d c
unfolding client_cmp
NotAfter-total c d h = le_text-total c.username d.username h

abbrev insert : Client → List Client → List Client
insert c [] = c ∷ []
insert c (d ∷ cs) =
    let rest = insert c cs in if le_text c.username d.username then c ∷ d ∷ cs else d ∷ rest

abbrev pub insertion_sort : List Client → List Client
insertion_sort [] = []
insertion_sort (c ∷ cs) = insert c (insertion_sort cs)

All-insert :
    (P : Client → Type 0) (c : Client) (cs : List Client) → P c → All P cs → All P (insert c cs)
All-insert P c [] h hs = (h, tt)
All-insert P c (d ∷ cs) h (hd, hs) = elim (Bool-cases (le_text c.username d.username)) [
  | inl e ↦ rw e (h, (hd, hs))
  | inr e ↦ rw e (hd, All-insert P c cs h hs)
]

All-trans :
    (c d : Client) (cs : List Client) → NotAfter c d → All (NotAfter d) cs → All (NotAfter c) cs
All-trans c d [] h hs = tt
All-trans c d (e ∷ cs) h (he, hs) = (NotAfter-trans c d e h he, All-trans c d cs h hs)

Sorted-insert : (c : Client) (cs : List Client) → Sorted cs → Sorted (insert c cs)
Sorted-insert c [] h = (tt, tt)
Sorted-insert c (d ∷ cs) (hd, hs) = elim (Bool-cases (le_text c.username d.username)) [
  | inl e ↦
      let le : NotAfter c d = unfold client_cmp in e in
      rw e ((le, All-trans c d cs le hd), (hd, hs))
  | inr e ↦ rw e (All-insert (NotAfter d) c cs (NotAfter-total c d e) hd, Sorted-insert c cs hs)
]

insertion_sort-Sorted : (cs : List Client) → Sorted (insertion_sort cs)
insertion_sort-Sorted [] = tt
insertion_sort-Sorted (c ∷ cs) = Sorted-insert c (insertion_sort cs) (insertion_sort-Sorted cs)

length-insert : (c : Client) (cs : List Client) → length (insert c cs) ≡ suc (length cs)
length-insert c [] = refl
length-insert c (d ∷ cs) = elim (Bool-cases (le_text c.username d.username)) [
  | inl e ↦ rw e
  | inr e ↦ rw e (ap suc (length-insert c cs))
]

In-insert : (c x : Client) (cs : List Client) → In x (c ∷ cs) → In x (insert c cs)
In-insert c x [] h = h
In-insert c x (d ∷ cs) h = elim (Bool-cases (le_text c.username d.username)) [
  | inl e ↦ rw e h
  | inr e ↦ rw e (go (In-insert c x cs) h)
]
  where
    go : (In x (c ∷ cs) → In x (insert c cs)) → In x (c ∷ d ∷ cs) → In x (d ∷ insert c cs)
    go f (inl k) = inr (f (inl k))
    go f (inr (inl k)) = inl k
    go f (inr (inr k)) = inr (f (inr k))

insert-In : (c x : Client) (cs : List Client) → In x (insert c cs) → In x (c ∷ cs)
insert-In c x [] h = h
insert-In c x (d ∷ cs) h = elim (Bool-cases (le_text c.username d.username)) [
  | inl e ↦ rw e at h
  | inr e ↦ go (insert-In c x cs) (rw e at h)
]
  where
    swap : In x (c ∷ cs) → In x (c ∷ d ∷ cs)
    swap (inl k) = inl k
    swap (inr k) = inr (inr k)

    go : (In x (insert c cs) → In x (c ∷ cs)) → In x (d ∷ insert c cs) → In x (c ∷ d ∷ cs)
    go f (inl k) = inr (inl k)
    go f (inr k) = swap (f k)

sort_keeps : (cs : List Client) (x : Client) → In x cs → In x (insertion_sort cs)
sort_keeps (c ∷ cs) x (inl h) = In-insert c x (insertion_sort cs) (inl h)
sort_keeps (c ∷ cs) x (inr h) = In-insert c x (insertion_sort cs) (inr (sort_keeps cs x h))
sort_keeps [] x h = absurd h

sort_adds_none : (cs : List Client) (x : Client) → In x (insertion_sort cs) → In x cs
sort_adds_none [] x h = absurd h
sort_adds_none (c ∷ cs) x h = go (sort_adds_none cs x) (insert-In c x (insertion_sort cs) h)
  where
    go : (In x (insertion_sort cs) → In x cs) → In x (c ∷ insertion_sort cs) → In x (c ∷ cs)
    go f (inl k) = inl k
    go f (inr k) = inr (f k)

length-sort : (cs : List Client) → length (insertion_sort cs) ≡ length cs
length-sort [] = refl
length-sort (c ∷ cs) = length-insert c (insertion_sort cs) ∙ ap suc (length-sort cs)

pub insertion_sort-IsQsort : IsQsort insertion_sort
insertion_sort-IsQsort = record {
  sorts = insertion_sort-Sorted;
  keeps_length = length-sort;
  keeps = sort_keeps;
  adds_none = sort_adds_none;
}

abbrev pub linear_search : Client → List Client → Option Client
linear_search key [] = none
linear_search key (c ∷ cs) =
    let rest = linear_search key cs in if is_zero (client_cmp key c) then some c else rest

search_finds :
    (key : Client) (cs : List Client) (c : Client)
    → Sorted cs
    → In c cs
    → is_zero (client_cmp key c) ≡ true
    → (d : Client) × (linear_search key cs ≡ some d)
search_finds key [] c s h e = absurd h
search_finds key (d ∷ cs) c (_, s) h e = elim (Bool-cases (is_zero (client_cmp key d))) [
  | inl t ↦ (d, rw t)
  | inr t ↦ let (x, k) = search_finds key cs c s (go h t) e in (x, rw t k)
]
  where
    go : In c (d ∷ cs) → is_zero (client_cmp key d) ≡ false → In c cs
    go (inl k) t = cc
    go (inr k) t = k

search_found :
    (key : Client) (cs : List Client) (c : Client)
    → Sorted cs
    → linear_search key cs ≡ some c
    → In c cs × (is_zero (client_cmp key c) ≡ true)
search_found key [] c s h = cc
search_found key (d ∷ cs) c (_, s) h = elim (Bool-cases (is_zero (client_cmp key d))) [
  | inl t ↦
      let same : d ≡ c = some-injective _ _ (rw t at h) in
      (inl same, subst (λ x. is_zero (client_cmp key x) ≡ true) same t)
  | inr t ↦ let (i, k) = search_found key cs c s (rw t at h) in (inr i, k)
]

pub linear_search-IsBsearch : IsBsearch linear_search
linear_search-IsBsearch = record { finds = search_finds; found = search_found }
