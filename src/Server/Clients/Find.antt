-- ===== src/Server/Clients/Find.antt =====
-- Who can be found in the list of src/server/middfs-client.c.
use middfs.Common.{suc, ◌<◌, ◌≡◌, refl, sym, ap, arith, List, [], ◌∷◌, ◌++◌, Bool, false}
use middfs.Common.{
  ◌^◌, Option, none, some, Option-cases, true, ℕ, ◌∙◌, is_zero, length, All, ◌⊎◌, inl, inr, pos,
  minus_one,
}
use mathlib.Core.Path.{subst}
use middfs.Pkt.{Dir, Dirent}
use middfs.Serial.Reader.{DState, IsOk, allocate}
use middfs.Serial.Decode.Basic.{allocate_ok}
use middfs.Serial.Valid.{IsDir, IsDirent, IsChar}
use middfs.Text.{strcmp, strcmp-eq, strcmp_refl}
use middfs.Server.Clients.{Client, Clients, Sorted, In, IsQsort, IsBsearch, client_cmp}
use middfs.Server.Clients.{clients_add, client_find, dirents_of, clients_readdir, dirent_mode}
use middfs.Server.Clients.Sorted.{IsClients, clients_add-IsClients}

In-last : (c : Client) (cs : List Client) → In c (cs ++ (c ∷ []))
In-last c [] = inl refl
In-last c (d ∷ cs) = inr (In-last c cs)

In-before : (c d : Client) (cs : List Client) → In c cs → In c (cs ++ (d ∷ []))
In-before c d [] h = absurd h
In-before c d (e ∷ cs) (inl h) = inl h
In-before c d (e ∷ cs) (inr h) = inr (In-before c d cs h)

pub find-In :
    (bsearch : Client → List Client → Option Client) (law : IsBsearch bsearch) (clients : Clients)
    (c : Client)
    → Sorted clients.vec
    → In c clients.vec
    → (d : Client) × (client_find bsearch c.username clients ≡ some d)
      × (d.username ≡ c.username)
      × In d clients.vec
unfolding client_find client_cmp
find-In bsearch law clients c sorted h =
    let key : Client = record { username = c.username; ip = []; port = 0 } in
    let (d, e) = law.finds key clients.vec c sorted h (strcmp_refl c.username) in
    let (there, same) = law.found key clients.vec d sorted e in
    (d, e, sym (strcmp-eq c.username d.username same), there)

-- Whom the search gives for a name: a client of the list with this name, or none when no client has
-- it.
abbrev pub Names : List ℕ → List Client → Option Client → Type 0
Names name cs (some d) = (d.username ≡ name) × In d cs
Names name cs none = (c : Client) → In c cs → c.username ≡ name → ⊥

pub client_find-Names :
    (bsearch : Client → List Client → Option Client) (law : IsBsearch bsearch) (clients : Clients)
    (name : List ℕ)
    → Sorted clients.vec
    → Names name clients.vec (client_find bsearch name clients)
unfolding client_find client_cmp
client_find-Names bsearch law clients name sorted =
    let key : Client = record { username = name; ip = []; port = 0 } in
    elim (Option-cases (bsearch key clients.vec)) [
      | inr (d, e) ↦
          let (there, same) = law.found key clients.vec d sorted e in
          rw e (sym (strcmp-eq name d.username same), there)
      | inl e ↦ rw e (λ c there named.
          let (d, f) =
            law.finds key clients.vec c sorted there
              (subst (λ s. is_zero (strcmp s c.username) ≡ true) named (strcmp_refl c.username)) in
          none_some (sym e ∙ f))
    ]
  where
    none_some : {d : Client} → none ≡ some d → ⊥
    none_some h = cc

-- After `clients_add` on a well-formed list, every client of the list and the new one is found under
-- its name: `client_find` gives a client that has this name and is one of the old ones or the new
-- one. The alternative is that the array is full and memory is not granted; then -1 is returned and the
-- list is as it was.
pub client_find-clients_add :
    (qsort : List Client → List Client) (bsearch : Client → List Client → Option Client)
    (granted : Bool) (client : Client) (clients : Clients) (c : Client)
    → IsQsort qsort
    → IsBsearch bsearch
    → IsClients clients
    → In c (clients.vec ++ (client ∷ []))
    → ((clients_add qsort granted client clients ≡ some (minus_one, clients))
        × (granted ≡ false)
        × (length clients.vec ≡ clients.len))
      ⊎ ((after : Clients) × (d : Client) × (clients_add qsort granted client clients
            ≡ some (pos 0, after))
          × (client_find bsearch c.username after ≡ some d)
          × (d.username ≡ c.username)
          × In d (clients.vec ++ (client ∷ [])))
client_find-clients_add qsort bsearch granted client clients c sorts searches ok h =
    elim (clients_add-IsClients qsort sorts granted client clients ok) [
      | inl failed ↦ inl failed
      | inr (after, returns, vec, (sorted, fits), l) ↦
          let all = clients.vec ++ (client ∷ []) in
          let (d, e, same, there) =
            find-In bsearch searches after c sorted
              (subst (In c) (sym vec) (sorts.keeps all c h)) in
          inr (after, d, returns, e, same, sorts.adds_none all d (subst (In d) vec there))
    ]

-- A name that the network can carry.
abbrev pub IsName : Client → Type 0
IsName c = All IsChar c.username

-- The listing, as a description.
abbrev pub entries_for : List Client → List Dirent
entries_for [] = []
entries_for (c ∷ cs) =
    record { mde_name = some c.username; mde_mode = dirent_mode } ∷ entries_for cs

dirents_of-entries :
    (cs : List Client) (st : DState)
    → IsOk st
    → All IsName cs
    → (after : DState) × (dirents_of cs st ≡ (entries_for cs, after))
      × IsOk after
      × All IsDirent (entries_for cs)
      × (length cs ≡ length (entries_for cs))
unfolding dirents_of allocate
dirents_of-entries [] st ok h = (st, refl, ok, tt, refl)
dirents_of-entries (c ∷ cs) st ok (h, hs) =
    let (granted, next) = allocate_ok ok in
    let (after, e, ok1, each, l) = dirents_of-entries cs (allocate st).1 next hs in
    (after, rw (granted, e), ok1, ((h, omega arith), each), ap suc l)

-- When no allocation fails, the directory that lists fewer than 2 ^ 64 clients has one entry for
-- each client, in the order of the list, under its name and with the same mode, and it is valid
-- for sending.
pub clients_readdir-IsDir :
    (clients : Clients) (dir : Dir) (st : DState)
    → IsOk st
    → All IsName clients.vec
    → length clients.vec < 2 ^ 64
    → (after : DState) × (listing : Dir) × (clients_readdir clients dir st
        ≡ (pos 0, listing, after))
      × (listing.mdir_ents ≡ some (entries_for clients.vec))
      × IsDir listing
unfolding clients_readdir allocate dirents_of-entries
clients_readdir-IsDir clients dir st ok h small =
    let (granted, next) = allocate_ok ok in
    let (after, e, ok1, each, l) = dirents_of-entries clients.vec (allocate st).1 next h in
    (
      after,
      record { mdir_count = length clients.vec; mdir_ents = some (entries_for clients.vec) },
      rw (granted, e),
      refl,
      (small, (l, each)),
    )
