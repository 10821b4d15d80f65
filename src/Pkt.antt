-- ===== src/Pkt.antt =====
-- src/lib/middfs-pkt.h and middfs-rsrc.h: the packets. A `char *` is the bytes before its NUL, and
-- `none` is NULL. An enum is its number, since any number can arrive from the network; a signed
-- word is its bit pattern. A union is kept as one field for each member: the sources read a member
-- only under the type that it was written under, or when all bytes are zero.
pub mod Kinds
pub mod Init
use middfs.Common.{some, [], ℕ, List, Option, none}
use Kinds.{mpkt_magic_value, mpkt_response_type, mrsp_error_type}

abbrev pub CString : Type 0
CString = Option (List ℕ)

pub record Rsrc : Type 0 where
  pub mr_owner : CString
  pub mr_path : CString

pub record Request : Type 0 where
  pub mreq_type : ℕ
  pub mreq_requester : CString
  pub mreq_rsrc : Rsrc
  pub mreq_mode : ℕ
  pub mreq_size : ℕ
  pub mreq_to : Rsrc
  pub mreq_off : ℕ
  pub mreq_data : Option (List ℕ)

pub record Stat : Type 0 where
  pub mstat_mode : ℕ
  pub mstat_size : ℕ
  pub mstat_blocks : ℕ
  pub mstat_blksize : ℕ

pub record Data : Type 0 where
  pub mdata_buf : Option (List ℕ)
  pub mdata_nbytes : ℕ

pub record Dirent : Type 0 where
  pub mde_name : CString
  pub mde_mode : ℕ

pub record Dir : Type 0 where
  pub mdir_count : ℕ
  pub mdir_ents : Option (List Dirent)

-- The array that `mdir_ents` leads to.
abbrev pub entries : Option (List Dirent) → List Dirent
entries none = []
entries (some es) = es

pub record Response : Type 0 where
  pub mrsp_type : ℕ
  pub mrsp_data : Data
  pub mrsp_error : ℕ
  pub mrsp_stat : Stat
  pub mrsp_dir : Dir

pub record Connect : Type 0 where
  pub name : CString
  pub port : ℕ

pub record Packet : Type 0 where
  pub mpkt_magic : ℕ
  pub mpkt_type : ℕ
  pub mpkt_request : Request
  pub mpkt_response : Response
  pub mpkt_connect : Connect

-- `{0}`
abbrev pub zero_rsrc : Rsrc
zero_rsrc = record { mr_owner = none; mr_path = none }

abbrev pub zero_request : Request
zero_request = record {
  mreq_type = 0;
  mreq_requester = none;
  mreq_rsrc = zero_rsrc;
  mreq_mode = 0;
  mreq_size = 0;
  mreq_to = zero_rsrc;
  mreq_off = 0;
  mreq_data = none;
}

abbrev pub zero_stat : Stat
zero_stat = record { mstat_mode = 0; mstat_size = 0; mstat_blocks = 0; mstat_blksize = 0 }

abbrev pub zero_dirent : Dirent
zero_dirent = record { mde_name = none; mde_mode = 0 }

abbrev pub zero_response : Response
zero_response = record {
  mrsp_type = 0;
  mrsp_data = record { mdata_buf = none; mdata_nbytes = 0 };
  mrsp_error = 0;
  mrsp_stat = zero_stat;
  mrsp_dir = record { mdir_count = 0; mdir_ents = none };
}

abbrev pub zero_connect : Connect
zero_connect = record { name = none; port = 0 }

abbrev pub zero_packet : Packet
zero_packet = record {
  mpkt_magic = 0;
  mpkt_type = 0;
  mpkt_request = zero_request;
  mpkt_response = zero_response;
  mpkt_connect = zero_connect;
}

unfoldable pub packet_init : ℕ → Packet → Packet
packet_init type pkt = record pkt { mpkt_magic = mpkt_magic_value; mpkt_type = type }

unfoldable pub response_init : ℕ → Response → Response
response_init type rsp = record rsp { mrsp_type = type }

unfoldable pub response_error : ℕ → Response → Response
response_error error rsp = record rsp { mrsp_type = mrsp_error_type; mrsp_error = error }

unfoldable pub packet_error : ℕ → Packet → Packet
packet_error error pkt = record {
  mpkt_magic = mpkt_magic_value;
  mpkt_type = mpkt_response_type;
  mpkt_request = pkt.mpkt_request;
  mpkt_response = record (pkt.mpkt_response) { mrsp_type = mrsp_error_type; mrsp_error = error };
  mpkt_connect = pkt.mpkt_connect;
}
