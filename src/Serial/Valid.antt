-- ===== src/Serial/Valid.antt =====
-- Which packets the senders of middfs build: no null text, words in range, counts that agree with
-- the arrays. A union member is spoken of only under its type.
use middfs.Common.{ℕ, ◌≤◌, ◌<◌, ◌≡◌, List, Option, none, some, true, All, length}
use middfs.Common.{IsU32, IsU64}
use middfs.Pkt.{entries, CString, Rsrc, Request, Stat, Data, Dirent, Dir, Response, Connect, Packet}
use middfs.Pkt.Kinds.{req_has_to, req_has_data, mpkt_connect_type, mpkt_request_type}
use middfs.Pkt.Kinds.{mpkt_response_type, mrsp_data_type, mrsp_stat_type, mrsp_dir_type}

abbrev pub IsChar : ℕ → Type 0
IsChar c = (0 < c) × (c < 256)

-- A text: not NULL, and its bytes before the NUL are bytes other than NUL.
abbrev pub IsText : CString → Type 0
IsText none = ⊥
IsText (some s) = All IsChar s

abbrev pub IsRsrc : Rsrc → Type 0
IsRsrc r = IsText r.mr_owner × IsText r.mr_path

-- The block that a pointer leads to holds the `k` bytes that are asked for.
abbrev pub HasBytes : Option (List ℕ) → ℕ → Type 0
HasBytes none k = k ≡ 0
HasBytes (some block) k = k ≤ length block

pub record IsRequest (r : Request) : Type 0 where
  pub type_in : IsU32 r.mreq_type
  pub requester_in : IsText r.mreq_requester
  pub rsrc_in : IsRsrc r.mreq_rsrc
  pub mode_in : IsU32 r.mreq_mode
  pub size_in : IsU64 r.mreq_size
  pub off_in : IsU64 r.mreq_off
  pub to_in : req_has_to r.mreq_type ≡ true → IsRsrc r.mreq_to
  pub data_in : req_has_data r.mreq_type ≡ true → HasBytes r.mreq_data r.mreq_size

pub record IsStat (s : Stat) : Type 0 where
  pub mode_in : IsU32 s.mstat_mode
  pub size_in : IsU64 s.mstat_size
  pub blocks_in : IsU64 s.mstat_blocks
  pub blksize_in : IsU64 s.mstat_blksize

pub record IsData (d : Data) : Type 0 where
  pub nbytes_in : IsU64 d.mdata_nbytes
  pub buf_in : HasBytes d.mdata_buf d.mdata_nbytes

abbrev pub IsDirent : Dirent → Type 0
IsDirent e = IsText e.mde_name × IsU32 e.mde_mode

-- The array is there, and holds `count` entries.
abbrev pub HasEntries : ℕ → Option (List Dirent) → Type 0
HasEntries count none = ⊥
HasEntries count (some es) = (count ≡ length es) × All IsDirent es

pub HasEntries-entries :
    {count : ℕ} (ents : Option (List Dirent))
    → HasEntries count ents
    → (count ≡ length (entries ents)) × All IsDirent (entries ents)
HasEntries-entries none h = absurd h
HasEntries-entries (some es) h = h

abbrev pub IsDir : Dir → Type 0
IsDir d = IsU64 d.mdir_count × HasEntries d.mdir_count d.mdir_ents

pub record IsResponse (r : Response) : Type 0 where
  pub type_in : r.mrsp_type < 5
  pub data_in : r.mrsp_type ≡ mrsp_data_type → IsData r.mrsp_data
  pub stat_in : r.mrsp_type ≡ mrsp_stat_type → IsStat r.mrsp_stat
  pub dir_in : r.mrsp_type ≡ mrsp_dir_type → IsDir r.mrsp_dir
  pub error_in : IsU32 r.mrsp_error

abbrev pub IsConnect : Connect → Type 0
IsConnect c = IsText c.name × IsU32 c.port

pub record IsPacket (p : Packet) : Type 0 where
  pub magic_in : IsU32 p.mpkt_magic
  pub type_in : IsU32 p.mpkt_type
  pub request_in : p.mpkt_type ≡ mpkt_request_type → IsRequest p.mpkt_request
  pub response_in : p.mpkt_type ≡ mpkt_response_type → IsResponse p.mpkt_response
  pub connect_in : p.mpkt_type ≡ mpkt_connect_type → IsConnect p.mpkt_connect
