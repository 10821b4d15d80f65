-- ===== src/Serial/Encode.antt =====
-- The serialize_* functions of src/lib/middfs-serial.c, in the file's order of fields.
pub mod Basic
pub mod Packets
use middfs.Common.{ℕ, zero, suc, ◌+◌, ◌/◌, ◌%◌, ◌^◌, List, [], ◌∷◌, ◌++◌, Option, none, some}
use middfs.Common.{Bool, true, false, ◌&&◌, ltb, leb, ◌==◌, if◌then◌else◌, length, ◌>>=◌, add_size}
use middfs.Util.{poke, memcpy, smin}
use middfs.Pkt.{entries, CString, Rsrc, Request, Stat, Data, Dirent, Dir, Response, Connect, Packet}
use middfs.Pkt.Kinds.{req_has_mode, req_has_size, req_has_to, req_has_off, req_has_data}
use middfs.Pkt.Kinds.{mpkt_connect_type, mpkt_request_type, mpkt_response_type}
use middfs.Pkt.Kinds.{mrsp_ok_type, mrsp_data_type, mrsp_stat_type, mrsp_dir_type, mrsp_error_type}
use middfs.Serial.Writer.{Serializer, ◌>+◌, skip, when, stop}
use middfs.Serial.Format.{be32, sign_extend}

-- `serialize_struct`: the members in turn, from `used = 0`.
serialize_members : Serializer → List Serializer → Serializer
serialize_members done [] = done
serialize_members done (f ∷ fs) = serialize_members (done >+ f) fs

unfoldable pub serialize_struct : List Serializer → Serializer
unfolding serialize_members
serialize_struct members = serialize_members skip members

-- `serialize_union`: the first member whose enum value is `e`; none writes nothing.
unfoldable pub serialize_union : ℕ → List (ℕ × Serializer) → Serializer
serialize_union e [] = skip
serialize_union e ((membenum, serialfn) ∷ rest) =
    if membenum == e then serialfn else serialize_union e rest

-- An enum is one byte; a value that does not fit aborts (a negative one is at least 2 ^ 31 here).
unfoldable pub serialize_enum : ℕ → Serializer
serialize_enum e buf nbytes =
    if leb 256 e
    then none
    else if leb 1 nbytes
    then (do buf' ← poke (e ∷ []) buf; some (buf', 1))
    else some (buf, 1)

unfoldable pub serialize_uint32 : ℕ → Serializer
serialize_uint32 uint buf nbytes =
    if leb 4 nbytes then (do buf' ← poke (be32 uint) buf; some (buf', 4)) else some (buf, 4)

unfoldable pub serialize_int32 : ℕ → Serializer
serialize_int32 int32 = serialize_uint32 int32

unfoldable pub serialize_uint64 : ℕ → Serializer
serialize_uint64 uint = serialize_uint32 (uint / 2 ^ 32) >+ serialize_uint32 (uint % 2 ^ 32)

unfoldable pub serialize_int64 : ℕ → Serializer
serialize_int64 int64 = serialize_uint64 int64

-- `len = strnlen(str, nbytes)` is at most `nbytes`, so the size asked for is at most `nbytes + 1`.
unfoldable pub serialize_str : CString → Serializer
serialize_str none buf nbytes = none
serialize_str (some str) buf nbytes =
    let len = smin (length str) nbytes in
    if ltb len nbytes
    then (do buf' ← poke (str ++ (0 ∷ [])) buf; some (buf', add_size len 1))
    else some (buf, add_size len 1)

unfoldable pub serialize_strp : CString → Serializer
serialize_strp str = serialize_str str

unfoldable pub serialize_rsrc : Rsrc → Serializer
serialize_rsrc rsrc =
    serialize_struct (serialize_strp rsrc.mr_owner ∷ serialize_strp rsrc.mr_path ∷ [])

-- The data behind a write request: copied if there is room, and counted in any case.
unfoldable pub serialize_block : Option (List ℕ) → ℕ → Serializer
serialize_block src size buf nbytes =
    if leb size nbytes then (do buf' ← memcpy buf src size; some (buf', size)) else some (buf, size)

unfoldable pub serialize_request : Request → Serializer
serialize_request req =
    serialize_uint32 type
    >+ serialize_str req.mreq_requester
    >+ serialize_rsrc req.mreq_rsrc
    >+ when (req_has_mode type) (serialize_int32 req.mreq_mode)
    >+ when (req_has_size type) (serialize_uint64 (sign_extend req.mreq_size))
    >+ when (req_has_to type) (serialize_rsrc req.mreq_to)
    >+ when (req_has_off type) (serialize_uint64 (sign_extend req.mreq_off))
    >+ when (req_has_data type) (serialize_block req.mreq_data req.mreq_size)
  where
    open req use {mreq_type as type}

unfoldable pub serialize_connect : Connect → Serializer
serialize_connect conn = serialize_uint32 conn.port >+ serialize_str conn.name

unfoldable pub serialize_stat : Stat → Serializer
serialize_stat st =
    serialize_uint32 st.mstat_mode
    >+ serialize_uint64 st.mstat_size
    >+ serialize_uint64 st.mstat_blocks
    >+ serialize_uint64 st.mstat_blksize

-- Its guard also wants `mdata_nbytes > 0`.
unfoldable pub serialize_data_block : Data → Serializer
serialize_data_block d buf nbytes =
    if ltb 0 d.mdata_nbytes && leb d.mdata_nbytes nbytes
    then (do buf' ← memcpy buf d.mdata_buf d.mdata_nbytes; some (buf', d.mdata_nbytes))
    else some (buf, d.mdata_nbytes)

unfoldable pub serialize_data : Data → Serializer
serialize_data d = serialize_uint64 d.mdata_nbytes >+ serialize_data_block d

unfoldable pub serialize_dirent : Dirent → Serializer
serialize_dirent dirent = serialize_str dirent.mde_name >+ serialize_int32 dirent.mde_mode

-- The loop over `mdir_ents[i]`, `i < count`; an entry that is not there cannot be read.
unfoldable pub serialize_dirents : Serializer → ℕ → List Dirent → Serializer
serialize_dirents done zero ents = done
serialize_dirents done (suc count) [] = stop
serialize_dirents done (suc count) (e ∷ ents) =
    serialize_dirents (done >+ serialize_dirent e) count ents

unfoldable pub serialize_dir : Dir → Serializer
serialize_dir dir =
    serialize_dirents (serialize_uint64 dir.mdir_count) dir.mdir_count (entries dir.mdir_ents)

-- The `switch` over the type of a response; any other type aborts.
unfoldable pub serialize_rsp_body : Response → Serializer
serialize_rsp_body rsp =
    if type == mrsp_ok_type
    then skip
    else if type == mrsp_data_type
    then serialize_data rsp.mrsp_data
    else if type == mrsp_stat_type
    then serialize_stat rsp.mrsp_stat
    else if type == mrsp_dir_type
    then serialize_dir rsp.mrsp_dir
    else if type == mrsp_error_type
    then serialize_int32 rsp.mrsp_error
    else stop
  where
    open rsp use {mrsp_type as type}

unfoldable pub serialize_rsp : Response → Serializer
serialize_rsp rsp = serialize_int32 rsp.mrsp_type >+ serialize_rsp_body rsp

-- The `switch` over the type of a packet; a type with no fields writes nothing more.
unfoldable pub serialize_pkt_body : Packet → Serializer
serialize_pkt_body pkt =
    if type == mpkt_request_type
    then serialize_request pkt.mpkt_request
    else if type == mpkt_response_type
    then serialize_rsp pkt.mpkt_response
    else if type == mpkt_connect_type
    then serialize_connect pkt.mpkt_connect
    else skip
  where
    open pkt use {mpkt_type as type}

unfoldable pub serialize_pkt : Packet → Serializer
serialize_pkt pkt =
    serialize_uint32 pkt.mpkt_magic >+ serialize_uint32 pkt.mpkt_type >+ serialize_pkt_body pkt
