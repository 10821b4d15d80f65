-- ===== src/Server/Clients.antt =====
-- src/server/middfs-client.c: the sorted array of the connected clients. qsort(3), bsearch(3),
-- getpeername(2) and inet_ntoa(3) are parameters.
pub mod Sorted
pub mod Find
use middfs.Common.{
  ℕ, zero, suc, ◌+◌, ◌-◌, ◌*◌, ◌≡◌, List, [], ◌∷◌, ◌++◌, Bool, true, false, Option, none, some,
}
use middfs.Common.{if◌then◌else◌, length, take, set, get_elem?, All, ltb, ◌==◌, ◌>>=◌, ◌⊎◌, not}
use middfs.Common.{ℤ, pos, negsuc, is_neg, is_zero, minus_one, ◌||◌}
use middfs.Util.{smax}
use middfs.Text.{strcmp}
use middfs.Pkt.{CString, Connect, Dirent, Dir}
use middfs.Serial.Reader.{DState, allocate}

-- A client of the list; its texts are never NULL.
pub record Client : Type 0 where
  pub username : List ℕ
  pub ip : List ℕ
  pub port : ℕ

-- The first `cnt` elements of the array, and its length.
pub record Clients : Type 0 where
  pub vec : List Client
  pub len : ℕ

unfoldable pub client_cmp : Client → Client → ℤ
client_cmp c1 c2 = strcmp c1.username c2.username

-- `client_cmp(c1, c2) <= 0`
abbrev pub NotAfter : Client → Client → Type 0
NotAfter c1 c2 = (is_neg (client_cmp c1 c2) || is_zero (client_cmp c1 c2)) ≡ true

abbrev pub Sorted : List Client → Type 0
Sorted [] = Unit
Sorted (c ∷ cs) = All (NotAfter c) cs × Sorted cs

abbrev pub In : Client → List Client → Type 0
In c [] = ⊥
In c (d ∷ cs) = (d ≡ c) ⊎ In c cs

-- What the C standard promises of `qsort` with `client_cmp`.
pub record IsQsort (qsort : List Client → List Client) : Type 0 where
  pub sorts : (cs : List Client) → Sorted (qsort cs)
  pub keeps_length : (cs : List Client) → length (qsort cs) ≡ length cs
  pub keeps : (cs : List Client) (c : Client) → In c cs → In c (qsort cs)
  pub adds_none : (cs : List Client) (c : Client) → In c (qsort cs) → In c cs

-- What it promises of `bsearch` with `client_cmp`, for a key and a sorted array.
pub record IsBsearch (bsearch : Client → List Client → Option Client) : Type 0 where
  pub finds :
      (key : Client) (cs : List Client) (c : Client)
      → Sorted cs
      → In c cs
      → is_zero (client_cmp key c) ≡ true
      → (d : Client) × (bsearch key cs ≡ some d)
  pub found :
      (key : Client) (cs : List Client) (c : Client)
      → Sorted cs
      → bsearch key cs ≡ some c
      → In c cs × (is_zero (client_cmp key c) ≡ true)

-- `peer` is the address that getpeername(2) and inet_ntoa(3) give, or none when they fail. A null
-- name stops the process, in `strdup`.
unfoldable pub client_create :
    Option (List ℕ) → Connect → DState → Option (ℤ × Option Client × DState)
client_create none conn st = some (minus_one, none, st)
client_create (some ip) conn st = do
  name ← conn.name
  let (granted, st1) = allocate st
  let (granted', st2) = allocate st1
  some (
    if granted then if granted' then pos 0 else minus_one else minus_one,
    if granted
        then if granted' then some (record { username = name; ip = ip; port = conn.port }) else none
        else none,
    st2,
  )

unfoldable pub clients_init : Clients
clients_init = record { vec = []; len = 0 }

-- The last element of `first` and the rest.
abbrev pub last_or : Client → List Client → Client
last_or first [] = first
last_or first (c ∷ cs) = last_or c cs

module _ (qsort : List Client → List Client) where
  abbrev pub clients_sort : Clients → Clients
  clients_sort clients = record clients { vec = qsort clients.vec }

  -- An index out of range stops the process.
  unfoldable pub clients_remove : ℕ → Clients → Option Clients
  clients_remove index clients = do
    removed ← get_elem? clients.vec index
    let cnt = length clients.vec - 1
    let back = last_or removed clients.vec
    let filled = record clients { vec = set (take cnt clients.vec) index back }
    some (
        if ltb index cnt
        then clients_sort filled
        else record clients { vec = take cnt clients.vec })

  -- The loop of `clients_resize`: `excess` is what `cnt` is above `newlen`.
  unfoldable pub remove_last : ℕ → Clients → Option Clients
  remove_last zero clients = some clients
  remove_last (suc excess) clients = do
    clients1 ← clients_remove (length clients.vec - 1) clients
    remove_last excess clients1

  -- `granted` says whether `realloc` succeeds.
  unfoldable pub clients_resize : Bool → Clients → ℕ → Option (ℤ × Clients)
  clients_resize granted clients newlen = do
    clients1 ← remove_last (length clients.vec - newlen) clients
    some (if granted then (pos 0, record clients1 { len = newlen }) else (minus_one, clients1))

  abbrev pub insert : Client → Clients → Clients
  insert client clients = clients_sort (record clients { vec = clients.vec ++ (client ∷ []) })

  unfoldable pub clients_add : Bool → Client → Clients → Option (ℤ × Clients)
  clients_add granted client clients = do
    (err, clients1) ←
        (if length clients.vec == clients.len
          then clients_resize granted clients (smax 1 (clients.len * 2))
          else some (pos 0, clients))
    some (if is_neg err then (minus_one, clients1) else (pos 0, insert client clients1))

-- The key has the name only.
unfoldable pub client_find :
    (Client → List Client → Option Client) → List ℕ → Clients → Option Client
client_find bsearch username clients =
    bsearch (record { username = username; ip = []; port = 0 }) clients.vec

-- S_IFDIR | S_IROTH | S_IRGRP | S_IRUSR | S_IWUSR
abbrev pub dirent_mode : ℕ
dirent_mode = 16384 + 4 + 32 + 256 + 128

-- One entry for each client; a `strdup` that fails leaves a null name.
unfoldable pub dirents_of : List Client → DState → List Dirent × DState
dirents_of [] st = ([], st)
dirents_of (c ∷ cs) st =
    let (granted, st1) = allocate st in
    let (ents, st2) = dirents_of cs st1 in
    (
      record { mde_name = if granted then some c.username else none; mde_mode = dirent_mode }
          ∷ ents,
      st2,
    )

unfoldable pub clients_readdir : Clients → Dir → DState → ℤ × Dir × DState
clients_readdir clients dir st =
    let (granted, st1) = allocate st in
    let (ents, st2) = dirents_of clients.vec st1 in
    if granted
    then (pos 0, record { mdir_count = length clients.vec; mdir_ents = some ents }, st2)
    else (minus_one, record dir { mdir_ents = none }, st1)
