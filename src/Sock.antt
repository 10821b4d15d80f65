-- ===== src/Sock.antt =====
-- src/lib/middfs-sock.c: a connection, with its two ends and its state, and the array of them.
-- The calls of poll(2) are no part of this; `revents` comes in as a value.
pub mod Poll
pub mod Array
use middfs.Common.{
  ℕ, zero, suc, ◌+◌, ◌*◌, ◌%◌, ◌^◌, List, [], ◌∷◌, ◌++◌, Bool, true, false, Option, none, some,
}
use middfs.Common.{
  if◌then◌else◌, length, take, set, get_elem?, ltb, leb, ◌==◌, ◌>>=◌, not, ◌&&◌, ◌||◌,
}
use middfs.Common.{ℤ, pos, negsuc, is_neg, minus_one}
use middfs.Util.{sizerem}
use middfs.Buf.{Buffer, buffer_init}

pub data SockType : Type 0 where
  mfd_none mfd_pkt_in mfd_pkt_out mfd_lstn : SockType

pub data SockState : Type 0 where
  mss_none mss_closed mss_lstn mss_reqrd mss_rspwr mss_reqfwd mss_rspfwd : SockState

-- `live` says that the buffer's block has not been freed.
pub record Sockend : Type 0 where
  pub fd : ℤ
  pub buf : Buffer
  pub live : Bool

pub record Sockinfo : Type 0 where
  pub type : SockType
  pub state : SockState
  pub in_end : Sockend
  pub out_end : Sockend
  pub revents : ℕ

-- The entries in use, and the length of the allocated array.
pub record Socks : Type 0 where
  pub sockinfos : List Sockinfo
  pub len : ℕ

unfoldable pub middfs_sockend_init : ℤ → Sockend
middfs_sockend_init fd = record { fd = fd; buf = buffer_init; live = true }

-- Freeing the block a second time stops the process; `free(NULL)` does nothing. `close` says for a
-- file descriptor whether closing succeeds.
unfoldable pub middfs_sockend_delete : (ℤ → Bool) → Sockend → Option (ℤ × Sockend)
middfs_sockend_delete close e =
    let freed = record e { live = false } in
    let closed = record freed { fd = minus_one } in
    if not e.live && ltb 0 (length e.buf.mem)
    then none
    else if is_neg e.fd
    then some (pos 0, freed)
    else some (if close e.fd then pos 0 else minus_one, closed)

abbrev pub middfs_sockend_isopen : Sockend → Bool
middfs_sockend_isopen e = not (is_neg e.fd)

abbrev pub middfs_sockinfo_isopen : Sockinfo → Bool
middfs_sockinfo_isopen info =
    middfs_sockend_isopen info.in_end || middfs_sockend_isopen info.out_end

-- The state that a new connection of a type starts in; the other types abort.
unfoldable pub first_state : SockType → Option SockState
first_state mfd_none = some mss_none
first_state mfd_pkt_in = some mss_reqrd
first_state mfd_lstn = some mss_lstn
first_state mfd_pkt_out = none

-- `revents` is left as it was in the memory at `info`.
unfoldable pub middfs_sockinfo_init : SockType → ℤ → ℤ → ℕ → Option Sockinfo
middfs_sockinfo_init type fd_in fd_out old_revents = do
  state ← first_state type
  some (record {
    type = type;
    state = state;
    in_end = middfs_sockend_init fd_in;
    out_end = middfs_sockend_init fd_out;
    revents = old_revents;
  })

-- The results of deleting the ends are not looked at.
unfoldable pub middfs_sockinfo_delete : (ℤ → Bool) → Sockinfo → Option (ℤ × Sockinfo)
middfs_sockinfo_delete close info = do
  (in_retv, in1) ← middfs_sockend_delete close info.in_end
  (out_retv, out1) ← middfs_sockend_delete close info.out_end
  some (pos 0, record info { type = mfd_none; in_end = in1; out_end = out1 })

unfoldable pub middfs_socks_init : Socks
middfs_socks_init = record { sockinfos = []; len = 0 }

-- `granted` says whether `realloc` succeeds.
unfoldable pub middfs_socks_resize : Bool → ℕ → Socks → ℤ × Socks
middfs_socks_resize granted newlen socks =
    if granted
    then (pos 0, record { sockinfos = take newlen socks.sockinfos; len = newlen })
    else (minus_one, socks)

abbrev pub larger : ℕ → ℕ → ℕ
larger a b = if ltb b a then a else b

abbrev pub append_sock : Sockinfo → Socks → Socks
append_sock info socks = record socks { sockinfos = socks.sockinfos ++ (info ∷ []) }

-- `2 * len` is computed as an `int`. C leaves an overflow undefined; here it wraps around, and a
-- negative result is below 16, as 0 is.
unfoldable pub doubled : ℕ → ℕ
doubled len = let d = 2 * len % 2 ^ 32 in if ltb d (2 ^ 31) then d else 0

unfoldable pub middfs_socks_add : Bool → Sockinfo → Socks → ℤ × Socks
middfs_socks_add granted info socks =
    let (err, socks1) = middfs_socks_resize granted (larger (doubled socks.len) 16) socks in
    if length socks.sockinfos == socks.len
    then if is_neg err then (minus_one, socks1) else (pos 0, append_sock info socks1)
    else (pos 0, append_sock info socks)

-- The assertion fails for an index out of range.
unfoldable pub middfs_socks_remove : (ℤ → Bool) → ℕ → Socks → Option (ℤ × Socks)
middfs_socks_remove close index socks = do
  info ← get_elem? socks.sockinfos index
  (retv, info1) ← middfs_sockinfo_delete close info
  some (
    if is_neg retv then minus_one else pos 0,
    record socks { sockinfos = set socks.sockinfos index info1 },
  )

-- The loop of `middfs_socks_delete`, from entry `i` on for `left` entries.
unfoldable pub remove_each : (ℤ → Bool) → ℕ → ℕ → ℤ → Socks → Option (ℤ × Socks)
remove_each close zero i retv socks = some (retv, socks)
remove_each close (suc left) i retv socks = do
  (err, socks1) ← middfs_socks_remove close i socks
  remove_each close left (i + 1) (if is_neg err then minus_one else retv) socks1

unfoldable pub middfs_socks_delete : (ℤ → Bool) → Socks → Option (ℤ × Socks)
middfs_socks_delete close socks = remove_each close (length socks.sockinfos) 0 (pos 0) socks

-- The entry that has been moved away is initialised as a closed one.
unfoldable pub closed_sockinfo : Sockinfo → Sockinfo
closed_sockinfo src = record {
  type = mfd_none;
  state = mss_none;
  in_end = middfs_sockend_init minus_one;
  out_end = middfs_sockend_init minus_one;
  revents = src.revents;
}

-- The first open entry, counted from `i`, and the index it has.
unfoldable pub first_open : ℕ → List Sockinfo → Option (ℕ × Sockinfo)
first_open i [] = none
first_open i (info ∷ infos) =
    if middfs_sockinfo_isopen info then some (i, info) else first_open (i + 1) infos

-- `middfs_sockinfo_move` of a later open entry to a closed one.
unfoldable pub move_to : Sockinfo → List Sockinfo → Option (ℕ × Sockinfo) → Sockinfo × List Sockinfo
move_to closed rest none = (closed, rest)
move_to closed rest (some (i, src)) = (src, set rest i (closed_sockinfo src))

-- The loop over `closed_index`: the entries from there on, and the number of open ones found.
-- An entry that a move has filled is not counted.
unfoldable pub pack_loop : ℕ → List Sockinfo → ℕ × List Sockinfo
pack_loop zero infos = (0, infos)
pack_loop (suc left) [] = (0, [])
pack_loop (suc left) (info ∷ rest) =
    let (kept, rest1) = move_to info rest (first_open 0 rest) in
    let (moved_open, moved_infos) = pack_loop left rest1 in
    let (nopen, infos) = pack_loop left rest in
    if middfs_sockinfo_isopen info
    then (1 + nopen, info ∷ infos)
    else (moved_open, kept ∷ moved_infos)

unfoldable pub middfs_socks_pack : Socks → ℕ × Socks
middfs_socks_pack socks =
    let (nopen, infos) = pack_loop (length socks.sockinfos) socks.sockinfos in
    (nopen, record socks { sockinfos = take nopen infos })
