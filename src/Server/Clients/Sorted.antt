-- ===== src/Server/Clients/Sorted.antt =====
-- The operations of src/server/middfs-client.c keep the array sorted and within its length.
use middfs.Common.{
  ℕ, zero, suc, ◌+◌, ◌-◌, ◌*◌, ◌≤◌, ◌<◌, ◌≡◌, refl, arith, List, [], ◌∷◌, ◌++◌, Bool, false,
}
use middfs.Common.{some, length, take, set, All, ltb, ◌==◌, ◌⊎◌, inl, inr, if◌then◌else◌}
use middfs.Common.{pos, minus_one, Bool-cases, get_elem?_lt, length-take, length-set, length-append}
use middfs.Common.{get_elem?, sym, ap}
use native.Mathlib.Decide.{dec_lt}
use mathlib.Core.Path.{subst}
use mathlib.Core.Option.{some-injective}
use middfs.Util.{smax}
use middfs.Server.Clients.{
  Client, Clients, NotAfter, Sorted, In, IsQsort, last_or, clients_remove, remove_last,
}
use middfs.Server.Clients.{clients_resize, clients_add}

-- What every operation keeps: the clients in use are sorted, and fit into the array.
abbrev pub IsClients : Clients → Type 0
IsClients clients = Sorted clients.vec × (length clients.vec ≤ clients.len)

All-take : (P : Client → Type 0) (n : ℕ) (cs : List Client) → All P cs → All P (take n cs)
All-take P zero cs h = tt
All-take P (suc n) [] h = tt
All-take P (suc n) (c ∷ cs) h = (h.0, All-take P n cs h.1)

Sorted-take : (n : ℕ) (cs : List Client) → Sorted cs → Sorted (take n cs)
Sorted-take zero cs h = tt
Sorted-take (suc n) [] h = tt
Sorted-take (suc n) (c ∷ cs) h = (All-take (NotAfter c) n cs h.0, Sorted-take n cs h.1)

In-get :
    (cs : List Client) (j : ℕ) (c : Client) → get_elem? cs j ≡ some c → (j < length cs) × In c cs
In-get [] j c h = cc
In-get (d ∷ cs) zero c h = (omega arith, inl (some-injective _ _ h))
In-get (d ∷ cs) (suc j) c h = let (l, there) = In-get cs j c h in (omega arith, inr there)

get-take :
    (n : ℕ) (cs : List Client) (j : ℕ) (c : Client)
    → j < n
    → get_elem? cs j ≡ some c
    → get_elem? (take n cs) j ≡ some c
get-take zero cs j c l h = absurd (omega arith)
get-take (suc n) [] j c l h = h
get-take (suc n) (d ∷ cs) zero c l h = h
get-take (suc n) (d ∷ cs) (suc j) c l h = get-take n cs j c (omega arith) h

-- The last element.
last_or-get :
    (d : Client) (cs : List Client) (j : ℕ) (c : Client)
    → j + 1 ≡ length cs
    → get_elem? cs j ≡ some c
    → last_or d cs ≡ c
last_or-get d [] j c l h = absurd (omega arith)
last_or-get d (e ∷ []) zero c l h = some-injective _ _ h
last_or-get d (e ∷ []) (suc j) c l h = absurd (omega arith)
last_or-get d (e ∷ f ∷ cs) zero c l h = absurd (omega arith)
last_or-get d (e ∷ f ∷ cs) (suc j) c l h = last_or-get e (f ∷ cs) j c (omega arith) h

In-set : (cs : List Client) (index : ℕ) (c : Client) → index < length cs → In c (set cs index c)
In-set [] index c l = absurd (omega arith)
In-set (d ∷ cs) zero c l = inl refl
In-set (d ∷ cs) (suc index) c l = inr (In-set cs index c (omega arith))

-- Writing elsewhere keeps an element.
set-get :
    (cs : List Client) (index j : ℕ) (c v : Client)
    → get_elem? cs j ≡ some c
    → (j ≡ index) ⊎ In c (set cs index v)
set-get [] index j c v h = cc
set-get (d ∷ cs) zero zero c v h = inl refl
set-get (d ∷ cs) zero (suc j) c v h = inr (inr (In-get cs j c h).1)
set-get (d ∷ cs) (suc index) zero c v h = inr (inl (some-injective _ _ h))
set-get (d ∷ cs) (suc index) (suc j) c v h = elim (set-get cs index j c v h) [
  | inl e ↦ inl (ap suc e)
  | inr there ↦ inr (inr there)
]

-- Every client but the one at the index is still there when the last has taken its place.
filled-get :
    (cs : List Client) (index j : ℕ) (c d : Client)
    → index < length cs - 1
    → get_elem? cs j ≡ some c
    → (j ≡ index) ⊎ In c (set (take (length cs - 1) cs) index (last_or d cs))
filled-get cs index j c d l h =
    let cnt = length cs - 1 in
    let (in_range, there) = In-get cs j c h in
    elim (dec_lt j cnt) [
      | yes front ↦ set-get (take cnt cs) index j c (last_or d cs) (get-take cnt cs j c front h)
      | no back ↦
          let same = last_or-get d cs j c (omega arith) h in
          inr (
            subst (λ x. In c (set (take cnt cs) index x)) (sym same)
              (In-set (take cnt cs) index c (omega (arith, length-take cnt cs))))
    ]

kept-get :
    (cs : List Client) (index j : ℕ) (c : Client)
    → index + 1 ≡ length cs
    → get_elem? cs j ≡ some c
    → (j ≡ index) ⊎ In c (take (length cs - 1) cs)
kept-get cs index j c l h =
    let cnt = length cs - 1 in
    let (in_range, there) = In-get cs j c h in
    elim (dec_lt j cnt) [
      | yes front ↦ inr (In-get (take cnt cs) j c (get-take cnt cs j c front h)).1
      | no back ↦ inl (omega arith)
    ]

module _ (qsort : List Client → List Client) (law : IsQsort qsort) where
  -- Removing at an index in range leaves one client fewer, sorted and within the array, and every
  -- client that is at another index is still in the list.
  pub clients_remove-IsClients :
      (clients : Clients) (index : ℕ)
      → IsClients clients
      → index < length clients.vec
      → (after : Clients) × (clients_remove qsort index clients ≡ some after)
        × IsClients after
        × (length after.vec + 1 ≡ length clients.vec)
        × ((j : ℕ) (c : Client) → get_elem? clients.vec j ≡ some c → (j ≡ index) ⊎ In c after.vec)
  unfolding clients_remove
  clients_remove-IsClients clients index (sorted, fits) h =
      let (removed, e) = get_elem?_lt clients.vec index h in
      let cnt = length clients.vec - 1 in
      let kept = take cnt clients.vec in
      let l = length-take cnt clients.vec in
      let filled = set kept index (last_or removed clients.vec) in
      let l2 = length-set kept index (last_or removed clients.vec) in
      elim (Bool-cases (ltb index cnt)) [
        | inl t ↦ (
          record clients { vec = qsort filled },
          rw (e, t),
          (law.sorts filled, omega (arith, law.keeps_length filled)),
          omega (arith, law.keeps_length filled),
          (λ j c at. elim (filled-get clients.vec index j c removed (ground arith) at) [
            | inl same ↦ inl same
            | inr there ↦ inr (law.keeps filled c there)
          ]),
        )
        | inr t ↦ (
          record clients { vec = kept },
          rw (e, t),
          (Sorted-take cnt clients.vec sorted, omega arith),
          omega arith,
          (λ j c at. kept-get clients.vec index j c (ground arith) at),
        )
      ]

  -- An array that grows loses no client.
  resize_grows :
      (granted : Bool) (clients : Clients) (newlen : ℕ)
      → length clients.vec ≤ newlen
      → clients_resize qsort granted clients newlen
        ≡ some (if granted then (pos 0, record clients { len = newlen }) else (minus_one, clients))
  unfolding clients_resize remove_last
  resize_grows granted clients newlen h =
      let none_more : length clients.vec - newlen ≡ 0 = omega arith in rw none_more

  -- `clients_add` never stops the process on a well-formed list. It returns -1 with the list as it
  -- was when the array is full and cannot grow; else it returns 0, the list is again sorted and
  -- within its array, and has one client more.
  pub clients_add-IsClients :
      (granted : Bool) (client : Client) (clients : Clients)
      → IsClients clients
      → ((clients_add qsort granted client clients ≡ some (minus_one, clients))
          × (granted ≡ false)
          × (length clients.vec ≡ clients.len))
        ⊎ ((after : Clients) × (clients_add qsort granted client clients ≡ some (pos 0, after))
            × (after.vec ≡ qsort (clients.vec ++ (client ∷ [])))
            × IsClients after
            × (length after.vec ≡ length clients.vec + 1))
  unfolding clients_add
  clients_add-IsClients granted client clients (sorted, fits) =
      let all = clients.vec ++ (client ∷ []) in
      let l = length-append clients.vec (client ∷ []) in
      let newlen = smax 1 (clients.len * 2) in
      let l2 = law.keeps_length all in
      elim (Bool-cases (length clients.vec == clients.len)) [
        | inr t ↦ inr (
          record clients { vec = qsort all },
          rw t,
          refl,
          (law.sorts all, ground arith),
          omega arith,
        )
        | inl t ↦
            let grown : length all ≤ newlen = ground arith in
            let e = resize_grows granted clients newlen (omega arith) in
            elim (Bool-cases granted) [
              | inl g ↦ inr (
                record { vec = qsort all; len = newlen },
                rw (t, e, g),
                refl,
                (law.sorts all, omega arith),
                omega arith,
              )
              | inr g ↦ inl (rw (t, e, g), g, ground arith)
            ]
      ]
