-- ===== src/Serial/Decode.antt =====
-- The deserialize_* functions of src/lib/middfs-serial.c, in the file's order of fields.
pub mod Received
pub mod Basic
pub mod Requests
pub mod Dirs
pub mod Packets
use middfs.Common.{ℕ, zero, suc, ◌+◌, ◌*◌, ◌%◌, ◌^◌, List, [], ◌∷◌, Option, none, some, Bool}
use middfs.Common.{◌&&◌, ltb, leb, ◌==◌, if◌then◌else◌, take, drop, replicate, set, get_elem?}
use middfs.Common.{◌>>=◌, size_mod, add_size}
use middfs.Util.{sizerem, strnlen, peek}
use middfs.Pkt.{CString, Rsrc, Request, Stat, Data, Dirent, Dir, Response, Connect, Packet}
use middfs.Pkt.{entries, zero_dirent}
use middfs.Pkt.Kinds.{req_has_mode, req_has_size, req_has_to, req_has_off, req_has_data}
use middfs.Pkt.Kinds.{mpkt_connect_type, mpkt_request_type, mpkt_response_type}
use middfs.Pkt.Kinds.{mrsp_ok_type, mrsp_data_type, mrsp_stat_type, mrsp_dir_type, mrsp_error_type}
use middfs.Serial.Reader.{DState, allocate, Deserializer, ◌<+◌, resume, member, when, switch, bail}
use middfs.Serial.Reader.{finish, checked, checked_err}

abbrev pub enomem : ℕ
enomem = 12

-- `deserialize_struct`: the members in turn, each a reader of the whole structure.
deserialize_members : {S : Type 0} → Deserializer S → List (Deserializer S) → Deserializer S
deserialize_members done [] = done
deserialize_members done (f ∷ fs) = deserialize_members (done <+ f) fs

unfoldable pub deserialize_struct : {S : Type 0} → List (Deserializer S) → Deserializer S
unfolding deserialize_members
deserialize_struct members = bail (deserialize_members (resume 0) members)

-- `deserialize_union`: the first member whose enum value is `e`; none reads nothing.
unfoldable pub deserialize_union : {S : Type 0} → ℕ → List (ℕ × Deserializer S) → Deserializer S
deserialize_union e [] = resume 0
deserialize_union e ((membenum, deserialfn) ∷ rest) =
    if membenum == e then deserialfn else deserialize_union e rest

unfoldable pub load_enum : Deserializer ℕ
load_enum e buf nbytes st =
    if leb 1 nbytes then (do c ← get_elem? buf 0; some (1, c, st)) else some (1, e, st)

unfoldable pub deserialize_enum : Deserializer ℕ
deserialize_enum = bail load_enum

-- `ntohl` of the four bytes in memory.
unfoldable pub load32 : List ℕ → Option ℕ
load32 [] = none
load32 (a ∷ []) = none
load32 (a ∷ b ∷ []) = none
load32 (a ∷ b ∷ c ∷ []) = none
load32 (a ∷ b ∷ c ∷ d ∷ rest) = some (((a * 256 + b) * 256 + c) * 256 + d)

unfoldable pub load_uint32 : Deserializer ℕ
load_uint32 uint buf nbytes st =
    if leb 4 nbytes then (do x ← load32 buf; some (4, x, st)) else some (4, uint, st)

unfoldable pub deserialize_uint32 : Deserializer ℕ
deserialize_uint32 = bail load_uint32

unfoldable pub deserialize_int32 : Deserializer ℕ
deserialize_int32 = deserialize_uint32

-- The locals `uint1` and `uint2` are not initialised; after an error they are combined all the same.
unfoldable pub words64 : Deserializer (ℕ × ℕ)
words64 =
    resume 0
    <+ member (λ w. w.0) (λ a w. (a, w.1)) deserialize_uint32
    <+ member (λ w. w.1) (λ a w. (w.0, a)) deserialize_uint32

unfoldable pub deserialize_uint64 : Deserializer ℕ
deserialize_uint64 uint buf nbytes st = do
  (used, (uint1, uint2), st') ← words64 st.junk buf nbytes st
  some (used, if leb used nbytes then (uint1 * 2 ^ 32 + uint2) % size_mod else uint, st')

unfoldable pub deserialize_int64 : Deserializer ℕ
deserialize_int64 = deserialize_uint64

-- `strdup` of the `len` bytes before the NUL.
unfoldable pub dup_str : ℕ → Deserializer CString
dup_str len strp buf nbytes st =
    let (granted, st') = allocate st in
    if granted
    then some (add_size len 1, some (take len buf), st')
    else some (0, strp, record st' { err = enomem })

-- Without a NUL in the `nbytes` bytes, `len` becomes `nbytes + 1` and the size `nbytes + 2`.
unfoldable pub load_str : Deserializer CString
load_str strp buf nbytes st = do
  len ← strnlen buf nbytes
  if ltb len nbytes
      then dup_str len strp buf nbytes st
      else some (add_size (add_size nbytes 1) 1, strp, st)

unfoldable pub deserialize_str : Deserializer CString
deserialize_str = bail load_str

unfoldable pub deserialize_rsrc : Deserializer Rsrc
deserialize_rsrc = deserialize_struct (
    member (λ r. r.mr_owner) (λ v r. record r { mr_owner = v }) deserialize_str
    ∷ member (λ r. r.mr_path) (λ v r. record r { mr_path = v }) deserialize_str
    ∷ [])

-- The shared members of a request.
unfoldable pub request_head : Deserializer Request
request_head =
    resume 0
    <+ member (λ r. r.mreq_type) (λ v r. record r { mreq_type = v }) deserialize_uint32
    <+ member (λ r. r.mreq_requester) (λ v r. record r { mreq_requester = v }) deserialize_str
    <+ member (λ r. r.mreq_rsrc) (λ v r. record r { mreq_rsrc = v }) deserialize_rsrc

-- The members that a request of the given type has.
unfoldable pub request_fields : ℕ → ℕ → Deserializer Request
request_fields used type =
    resume used
    <+ when (req_has_mode type)
        (member (λ r. r.mreq_mode) (λ v r. record r { mreq_mode = v }) deserialize_int32)
    <+ when (req_has_size type)
        (member (λ r. r.mreq_size) (λ v r. record r { mreq_size = v }) deserialize_uint64)
    <+ when (req_has_to type)
        (member (λ r. r.mreq_to) (λ v r. record r { mreq_to = v }) deserialize_rsrc)
    <+ when (req_has_off type)
        (member (λ r. r.mreq_off) (λ v r. record r { mreq_off = v }) deserialize_uint64)

-- The data of a write request, by `memdup`; `used` counts its size in any case.
unfoldable pub request_block : Deserializer Request
request_block req buf nbytes st =
    let (granted, st') = allocate st in
    let copy = (do
      bytes ← peek buf req.mreq_size
      some (req.mreq_size, record req { mreq_data = some bytes }, st')) in
    if leb req.mreq_size nbytes
    then if granted then copy else some (0, record req { mreq_data = none }, record st' { err = 1 })
    else some (req.mreq_size, req, st)

unfoldable pub deserialize_request : Deserializer Request
deserialize_request = bail (
    checked request_head λ used. switch λ req.
      checked (request_fields used req.mreq_type)
        λ used'. finish (resume used' <+ when (req_has_data req.mreq_type) request_block))

unfoldable pub deserialize_connect : Deserializer Connect
deserialize_connect =
    resume 0
    <+ member (λ c. c.port) (λ v c. record c { port = v }) deserialize_uint32
    <+ member (λ c. c.name) (λ v c. record c { name = v }) deserialize_str

unfoldable pub deserialize_stat : Deserializer Stat
deserialize_stat =
    resume 0
    <+ member (λ s. s.mstat_mode) (λ v s. record s { mstat_mode = v }) deserialize_uint32
    <+ member (λ s. s.mstat_size) (λ v s. record s { mstat_size = v }) deserialize_uint64
    <+ member (λ s. s.mstat_blocks) (λ v s. record s { mstat_blocks = v }) deserialize_uint64
    <+ member (λ s. s.mstat_blksize) (λ v s. record s { mstat_blksize = v }) deserialize_uint64

-- The block behind the size of a data response. The sum `used + mdata_nbytes` can wrap.
unfoldable pub data_block : ℕ → Deserializer Data
data_block used d buf nbytes st =
    let total = add_size used d.mdata_nbytes in
    let (granted, st') = allocate st in
    let copy = (do
      bytes ← peek (drop used buf) d.mdata_nbytes
      some (total, record d { mdata_buf = some bytes }, st')) in
    if leb d.mdata_nbytes (sizerem nbytes used) && ltb 0 d.mdata_nbytes
    then if granted then copy else some (0, record d { mdata_buf = none }, record st' { err = 1 })
    else some (total, d, st)

unfoldable pub deserialize_data : Deserializer Data
deserialize_data =
    checked_err
      (resume 0
        <+ member (λ d. d.mdata_nbytes) (λ v d. record d { mdata_nbytes = v }) deserialize_uint64)
      data_block

unfoldable pub deserialize_dirent : Deserializer Dirent
deserialize_dirent =
    resume 0
    <+ member (λ e. e.mde_name) (λ v e. record e { mde_name = v }) deserialize_str
    <+ member (λ e. e.mde_mode) (λ v e. record e { mde_mode = v }) deserialize_int32

-- `deserialize_dirent` at `mdir_ents[i]`; an entry outside of the array stops the process.
unfoldable pub dirent_at : ℕ → Deserializer Dir
dirent_at i dir buf nbytes st = do
  ents ← dir.mdir_ents
  e ← get_elem? ents i
  (used, e', st') ← deserialize_dirent e buf nbytes st
  some (used, record dir { mdir_ents = some (set ents i e') }, st')

-- The loop, from entry `i` on for `left` entries.
unfoldable pub dir_entries : Deserializer Dir → ℕ → ℕ → Deserializer Dir
dir_entries done i zero = done
dir_entries done i (suc left) = dir_entries (done <+ dirent_at i) (i + 1) left

-- An array that an earlier call has allocated is used again.
unfoldable pub dir_rest_with : Option (List Dirent) → ℕ → Deserializer Dir
dir_rest_with (some ents) used dir buf nbytes st =
    dir_entries (resume used) 0 dir.mdir_count dir buf nbytes st
dir_rest_with none used dir buf nbytes st =
    let (granted, st') = allocate st in
    let fresh = record dir { mdir_ents = some (replicate dir.mdir_count zero_dirent) } in
    let full = dir_entries (resume used) 0 dir.mdir_count fresh buf nbytes st' in
    if granted then full else some (0, dir, record st' { err = 1 })

unfoldable pub dir_rest : ℕ → Deserializer Dir
dir_rest used dir = dir_rest_with dir.mdir_ents used dir

unfoldable pub deserialize_dir : Deserializer Dir
deserialize_dir =
    checked_err
      (resume 0
        <+ member (λ d. d.mdir_count) (λ v d. record d { mdir_count = v }) deserialize_uint64)
      dir_rest

-- `abort();`
unfoldable pub stop : {S : Type 0} → Deserializer S
stop s buf nbytes st = none

-- The `switch` over the type that has been read; an unknown type aborts.
unfoldable pub rsp_body : ℕ → Deserializer Response
rsp_body type =
    if type == mrsp_ok_type
    then resume 0
    else if type == mrsp_data_type
    then member (λ r. r.mrsp_data) (λ v r. record r { mrsp_data = v }) deserialize_data
    else if type == mrsp_stat_type
    then member (λ r. r.mrsp_stat) (λ v r. record r { mrsp_stat = v }) deserialize_stat
    else if type == mrsp_dir_type
    then member (λ r. r.mrsp_dir) (λ v r. record r { mrsp_dir = v }) deserialize_dir
    else if type == mrsp_error_type
    then member (λ r. r.mrsp_error) (λ v r. record r { mrsp_error = v }) deserialize_int32
    else stop

unfoldable pub deserialize_rsp : Deserializer Response
deserialize_rsp =
    checked
      (resume 0 <+ member (λ r. r.mrsp_type) (λ v r. record r { mrsp_type = v }) deserialize_int32)
      (λ used. resume used <+ switch (λ rsp. rsp_body rsp.mrsp_type))

unfoldable pub pkt_body : ℕ → Deserializer Packet
pkt_body type =
    if type == mpkt_request_type
    then member (λ p. p.mpkt_request) (λ v p. record p { mpkt_request = v }) deserialize_request
    else if type == mpkt_response_type
    then member (λ p. p.mpkt_response) (λ v p. record p { mpkt_response = v }) deserialize_rsp
    else if type == mpkt_connect_type
    then member (λ p. p.mpkt_connect) (λ v p. record p { mpkt_connect = v }) deserialize_connect
    else resume 0

unfoldable pub pkt_head : Deserializer Packet
pkt_head =
    resume 0
    <+ member (λ p. p.mpkt_magic) (λ v p. record p { mpkt_magic = v }) deserialize_uint32
    <+ member (λ p. p.mpkt_type) (λ v p. record p { mpkt_type = v }) deserialize_uint32

unfoldable pub deserialize_pkt : Deserializer Packet
deserialize_pkt =
    bail (
      checked_err pkt_head (λ used. finish (resume used <+ switch (λ pkt. pkt_body pkt.mpkt_type))))
