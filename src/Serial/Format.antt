-- ===== src/Serial/Format.antt =====
-- The wire format, as a description that does not mention the code.
use middfs.Common.{ℕ, ◌+◌, ◌-◌, ◌/◌, ◌%◌, ◌^◌, List, [], ◌∷◌, ◌++◌}
use middfs.Common.{◌≡◌, length, refl, Bool, Option, none, some, ltb, ◌==◌, if◌then◌else◌, take}
use middfs.Pkt.{entries, CString, Rsrc, Request, Stat, Data, Dirent, Dir, Response, Connect, Packet}
use middfs.Pkt.Kinds.{req_has_mode, req_has_size, req_has_to, req_has_off, req_has_data}
use middfs.Pkt.Kinds.{mpkt_connect_type, mpkt_request_type, mpkt_response_type}
use middfs.Pkt.Kinds.{mrsp_ok_type, mrsp_data_type, mrsp_stat_type, mrsp_dir_type, mrsp_error_type}

-- Four bytes, most significant first: what `htonl` leaves in memory.
unfoldable pub be32 : ℕ → List ℕ
be32 x = (x / 2 ^ 24 % 256) ∷ (x / 2 ^ 16 % 256) ∷ (x / 2 ^ 8 % 256) ∷ (x % 256) ∷ []

unfoldable pub be64 : ℕ → List ℕ
be64 x = be32 (x / 2 ^ 32) ++ be32 (x % 2 ^ 32)

pub length-be32 : (x : ℕ) → length (be32 x) ≡ 4
unfolding be32
length-be32 x = refl

pub length-be64 : (x : ℕ) → length (be64 x) ≡ 8
unfolding be32 be64
length-be64 x = refl

-- A part that is there under a condition.
unfoldable pub optional : Bool → List ℕ → List ℕ
optional b out = if b then out else []

-- The uint64 that stands for `(int32_t) x`.
unfoldable pub sign_extend : ℕ → ℕ
sign_extend x = let low = x % 2 ^ 32 in if ltb low (2 ^ 31) then low else low + (2 ^ 64 - 2 ^ 32)

abbrev pub text_bytes : CString → List ℕ
text_bytes none = []
text_bytes (some s) = s ++ (0 ∷ [])

abbrev pub block_bytes : Option (List ℕ) → ℕ → List ℕ
block_bytes none k = []
block_bytes (some block) k = take k block

unfoldable pub rsrc_bytes : Rsrc → List ℕ
rsrc_bytes r = text_bytes r.mr_owner ++ text_bytes r.mr_path

-- The fields that a request carries depend on its type; `size` and `off` go through `int32_t`.
unfoldable pub request_bytes : Request → List ℕ
request_bytes r =
    (((((((be32 r.mreq_type ++ text_bytes r.mreq_requester) ++ rsrc_bytes r.mreq_rsrc)
              ++ optional (req_has_mode r.mreq_type) (be32 r.mreq_mode))
            ++ optional (req_has_size r.mreq_type) (be64 (sign_extend r.mreq_size)))
          ++ optional (req_has_to r.mreq_type) (rsrc_bytes r.mreq_to))
        ++ optional (req_has_off r.mreq_type) (be64 (sign_extend r.mreq_off)))
      ++ optional (req_has_data r.mreq_type) (block_bytes r.mreq_data r.mreq_size))

unfoldable pub stat_bytes : Stat → List ℕ
stat_bytes s =
    ((be32 s.mstat_mode ++ be64 s.mstat_size) ++ be64 s.mstat_blocks) ++ be64 s.mstat_blksize

unfoldable pub data_bytes : Data → List ℕ
data_bytes d = be64 d.mdata_nbytes ++ block_bytes d.mdata_buf d.mdata_nbytes

unfoldable pub dirent_bytes : Dirent → List ℕ
dirent_bytes e = text_bytes e.mde_name ++ be32 e.mde_mode

unfoldable pub dirents_bytes : List ℕ → List Dirent → List ℕ
dirents_bytes before [] = before
dirents_bytes before (e ∷ es) = dirents_bytes (before ++ dirent_bytes e) es

unfoldable pub dir_bytes : Dir → List ℕ
dir_bytes d = dirents_bytes (be64 d.mdir_count) (entries d.mdir_ents)

unfoldable pub response_body : Response → List ℕ
response_body r =
    if r.mrsp_type == mrsp_ok_type
    then []
    else if r.mrsp_type == mrsp_data_type
    then data_bytes r.mrsp_data
    else if r.mrsp_type == mrsp_stat_type
    then stat_bytes r.mrsp_stat
    else if r.mrsp_type == mrsp_dir_type
    then dir_bytes r.mrsp_dir
    else if r.mrsp_type == mrsp_error_type
    then be32 r.mrsp_error
    else []

unfoldable pub response_bytes : Response → List ℕ
response_bytes r = be32 r.mrsp_type ++ response_body r

unfoldable pub connect_bytes : Connect → List ℕ
connect_bytes c = be32 c.port ++ text_bytes c.name

unfoldable pub packet_body : Packet → List ℕ
packet_body p =
    if p.mpkt_type == mpkt_request_type
    then request_bytes p.mpkt_request
    else if p.mpkt_type == mpkt_response_type
    then response_bytes p.mpkt_response
    else if p.mpkt_type == mpkt_connect_type
    then connect_bytes p.mpkt_connect
    else []

unfoldable pub packet_bytes : Packet → List ℕ
packet_bytes p = (be32 p.mpkt_magic ++ be32 p.mpkt_type) ++ packet_body p
